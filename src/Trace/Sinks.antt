-- ===== src/Trace/Sinks.antt =====
-- What reaches the standard output and the callbacks, and when nothing does.
use linux_tcp_lib.Prelude.{
  or-false, or-true, ℕ, ◌+◌, ◌≤◌, ◌<◌, ◌≡◌, refl, sym, ap, ap₂, ◌∙◌, ◌≢◌, ◌↔◌, ◌⊎◌, inl, inr, Bool,
  true, false, not, ◌&&◌, ◌||◌, Option, none, some, List, [], ◌∷◌, ◌++◌, arith, ltb, Bool-cases,
  length, take, length-append,
}
use mathlib.Core.Option.{some-injective, some-ne-none}
use linux_tcp_lib.Words.{int_lt}
use linux_tcp_lib.Trace.{
  TraceLevel, trace_level_all, trace_level_verbose, trace_level_debug, trace_level_info,
  trace_level_system, trace_level_warning, trace_level_error, trace_level_off, level_value,
  is_error, Trace, Environment, formated_line, is_null, is_silent, TraceCall, out_of_memory, tell,
  to_std_output, to_callbacks, set_trace_level_filter, use_formated_message, add,
}

-- No one listens.
abbrev pub Unheard : Trace → Type 0
Unheard s = (s.std_output ≡ false) × (s.callback ≡ none) × (s.mo_callback ≡ none)

-- How many sinks listen.
abbrev pub one_if : Bool → ℕ
one_if true = 1
one_if false = 0

unfoldable pub listeners : Trace → ℕ
listeners s =
    one_if s.std_output + (one_if (not (is_null s.callback)) + one_if (not (is_null s.mo_callback)))

length-tell :
    (o : Option ℕ) (level : TraceLevel) (name : List ℕ) (number : ℕ) (text : List ℕ)
    → length (tell o level name number text) ≡ one_if (not (is_null o))
unfolding tell is_null
length-tell none level name number text = refl
length-tell (some k) level name number text = refl

length-to_callbacks :
    (s : Trace) (level : TraceLevel) (name : List ℕ) (number : ℕ) (text : List ℕ)
    → length (to_callbacks s level name number text)
      ≡ one_if (not (is_null s.callback)) + one_if (not (is_null s.mo_callback))
unfolding to_callbacks
length-to_callbacks s level name number text =
    length-append (tell s.callback level name number text)
      (tell s.mo_callback level name number text)
    ∙ ap₂ ◌+◌ (length-tell s.callback level name number text)
        (length-tell s.mo_callback level name number text)

length-to_std_output :
    (s : Trace) (level : TraceLevel) (line : List ℕ)
    → length (to_std_output s level line) ≡ one_if s.std_output
unfolding to_std_output
length-to_std_output s level line = elim (Bool-cases s.std_output) [
  | inl e ↦ elim (Bool-cases (is_error level)) [
    | inl q ↦ rw (e, q, to_std_output) refl
    | inr q ↦ rw (e, q, to_std_output) refl
  ]
  | inr e ↦ rw (e, to_std_output) refl
]

-- Where the filter lets a message pass, and the line fits, each sink that listens is called once.
pub add-listeners :
    (s : Trace) (e : Environment) (level : TraceLevel) (name : List ℕ) (number : ℕ)
    (message printed : List ℕ) (calls : List TraceCall)
    → is_silent s level ≡ false
    → add s e level name number message (some printed) ≡ some calls
    → length calls ≡ listeners s
unfolding add listeners
add-listeners s e level name number message printed calls loud h =
    let buffer = take 4095 printed in
    let line = formated_line s e level name number buffer in
    elim (Bool-cases (s.std_output || s.use_formated)) [
      | inl f ↦ elim (Bool-cases (ltb (length line) 5120)) [
        | inl q ↦
            let o = to_std_output s level line in
            let c = to_callbacks s level name number line in
            let at : some (o ++ c) ≡ some calls = rw (loud, f, q, add) at h in
            ap length (sym (some-injective (o ++ c) calls at))
            ∙ length-append o c
            ∙ ap₂ ◌+◌ (length-to_std_output s level line)
                (length-to_callbacks s level name number line)
        | inr q ↦ absurd (some-ne-none calls (sym (rw (loud, f, q, add) at h)))
      ]
      | inr f ↦
          let c = to_callbacks s level name number buffer in
          let at : some c ≡ some calls = rw (loud, f, add) at h in
          let quiet : s.std_output ≡ false = (or-false s.std_output s.use_formated f).0 in
          rw quiet (
            ap length (sym (some-injective c calls at))
            ∙ length-to_callbacks s level name number buffer
            ∙ omega arith)
    ]

level_value-small : (l : TraceLevel) → level_value l ≤ 32767
level_value-small trace_level_all = omega arith
level_value-small trace_level_verbose = omega arith
level_value-small trace_level_debug = omega arith
level_value-small trace_level_info = omega arith
level_value-small trace_level_system = omega arith
level_value-small trace_level_warning = omega arith
level_value-small trace_level_error = omega arith
level_value-small trace_level_off = omega arith

int_lt-small : (a b : ℕ) → a ≤ 32767 → b ≤ 32767 → (int_lt a b ≡ true) ↔ (a < b)
int_lt-small a b h k = ground arith

Unheard_iff :
    (out : Bool) (o p : Option ℕ)
    → ((not out && (is_null o && is_null p)) ≡ true) ↔ ((out ≡ false) × (o ≡ none) × (p ≡ none))
unfolding is_null
Unheard_iff true o p = (λ h. cc, λ (a, b, c). cc)
Unheard_iff false none none = (λ h. (refl, refl, refl), λ v. refl)
Unheard_iff false none (some q) = (λ h. cc, λ (a, b, c). absurd (some-ne-none q c))
Unheard_iff false (some k) p = (λ h. cc, λ (a, b, c). absurd (some-ne-none k b))

silent_iff :
    (s : Trace) (l m : TraceLevel)
    → (is_silent (set_trace_level_filter s (level_value l)) m ≡ true)
      ↔ ((level_value m < level_value l) ⊎ Unheard s)
unfolding is_silent set_trace_level_filter
silent_iff s l m =
    let below =
      int_lt-small (level_value m) (level_value l) (level_value-small m) (level_value-small l) in
    let no_one = Unheard_iff s.std_output s.callback s.mo_callback in
    let either =
      or-true (int_lt (level_value m) (level_value l))
        (not s.std_output && (is_null s.callback && is_null s.mo_callback)) in
    (
      λ h. elim (either.0 h) [ inl e ↦ inl (below.0 e) | inr e ↦ inr (no_one.0 e) ],
      λ o. either.1 (elim o [ inl e ↦ inl (below.1 e) | inr e ↦ inr (no_one.1 e) ]),
    )

loud-listeners :
    (out : Bool) (o p : Option ℕ)
    → (not out && (is_null o && is_null p)) ≡ false
    → 0 < one_if out + (one_if (not (is_null o)) + one_if (not (is_null p)))
unfolding is_null
loud-listeners true o p h = omega arith
loud-listeners false none none h = cc
loud-listeners false none (some q) h = omega arith
loud-listeners false (some k) p h = omega arith

add-silent :
    (s : Trace) (e : Environment) (level : TraceLevel) (name : List ℕ) (number : ℕ)
    (message : List ℕ) (printed : Option (List ℕ))
    → is_silent s level ≡ true
    → add s e level name number message printed ≡ some []
unfolding add
add-silent s e level name number message none h = rw (h, add) refl
add-silent s e level name number message (some printed) h = rw (h, add) refl

-- A message that passes is heard.
add-loud :
    (s : Trace) (e : Environment) (level : TraceLevel) (name : List ℕ) (number : ℕ)
    (message : List ℕ) (printed : Option (List ℕ))
    → is_silent s level ≡ false
    → add s e level name number message printed ≢ some []
unfolding add is_silent listeners
add-loud s e level name number message none loud h =
    let at : some (out_of_memory name message ∷ []) ≡ some [] = rw (loud, add) at h in
    absurd (omega (arith, ap length (some-injective (out_of_memory name message ∷ []) [] at)))
add-loud s e level name number message (some printed) loud h =
    let n = add-listeners s e level name number message printed [] loud h in
    let heard =
      loud-listeners s.std_output s.callback s.mo_callback
        (or-false (int_lt (level_value level) s.level_filter)
          (not s.std_output && (is_null s.callback && is_null s.mo_callback)) loud).1 in
    omega (arith, n, heard)

-- With the filter set to a level, `add` does nothing at all just where the message is below that
-- level or where neither the standard output nor a callback is enabled, also on an encoding error.
pub add-filter :
    (s : Trace) (e : Environment) (l m : TraceLevel) (name : List ℕ) (number : ℕ) (message : List ℕ)
    (printed : Option (List ℕ))
    → let s' = set_trace_level_filter s (level_value l) in
      (add s' e m name number message printed ≡ some [])
      ↔ ((level_value m < level_value l) ⊎ Unheard s)
unfolding add set_trace_level_filter
add-filter s e l m name number message printed =
    let s' : Trace = set_trace_level_filter s (level_value l) in
    let silent = silent_iff s l m in
    elim (Bool-cases (is_silent s' m)) [
      | inl q ↦ (λ h. silent.0 q, λ o. add-silent s' e m name number message printed q)
      | inr q ↦ (
        λ h. absurd (add-loud s' e m name number message printed q h),
        λ o. let at = sym (silent.1 o) ∙ q in cc,
      )
    ]

-- While the standard output is enabled, turning the formatting of messages off changes nothing:
-- the callbacks are still given the formatted line.
pub use_formated_message-ignored :
    (s : Trace) (e : Environment) (level : TraceLevel) (name : List ℕ) (number : ℕ)
    (message : List ℕ) (printed : Option (List ℕ))
    → s.std_output ≡ true
    → add (use_formated_message s false) e level name number message printed
      ≡ add s e level name number message printed
unfolding add use_formated_message is_silent
use_formated_message-ignored s e level name number message none out = rw out refl
use_formated_message-ignored s e level name number message (some printed) out = rw out refl
