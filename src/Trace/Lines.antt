-- ===== src/Trace/Lines.antt =====
-- The two buffers of `add`: whether the formatted line stays inside `formated_buffer`.
use linux_tcp_lib.Prelude.{
  ℕ, ◌+◌, ◌/◌, ◌≤◌, ◌<◌, ◌≡◌, refl, ◌≢◌, ◌↔◌, inl, inr, true, false, ◌||◌, Option, none, some, List,
  [], ◌∷◌, ◌++◌, arith, ltb, ◌==◌, ltb→lt, lt→ltb, Bool-cases, length, take, length-append,
  length-take,
}
use mathlib.Core.Option.{some-ne-none}
use linux_tcp_lib.Trace.{
  TraceLevel, trace_level_all, trace_level_verbose, trace_level_debug, trace_level_info,
  trace_level_system, trace_level_warning, trace_level_error, trace_level_off, is_error, Trace,
  Environment, level_string, time_text, formated_line, is_silent, TraceCall, out_of_memory,
  to_std_output, to_callbacks, add,
}

-- The bytes of the line of an error, with errno set, that do not come from the message: 22 are fixed,
-- the level's name and the punctuation.
unfoldable pub frame_size : Trace → Environment → List ℕ → ℕ → ℕ
frame_size s e name number =
    22
    + length e.date
    + length (e.show_three (e.tv_usec / 1000))
    + length (e.show_long e.thread_id)
    + length name
    + length (e.show_int number)
    + length (s.error_string_translator number)
    + length (e.show_int e.errno)
    + length (e.strerror e.errno)

level_string-short : (level : TraceLevel) → length (level_string level) ≤ 7
unfolding level_string
level_string-short trace_level_all = omega arith
level_string-short trace_level_verbose = omega arith
level_string-short trace_level_debug = omega arith
level_string-short trace_level_info = omega arith
level_string-short trace_level_system = omega arith
level_string-short trace_level_warning = omega arith
level_string-short trace_level_error = omega arith
level_string-short trace_level_off = omega arith

length-time_text :
    (e : Environment)
    → length (time_text e) ≡ length e.date + (1 + length (e.show_three (e.tv_usec / 1000)))
unfolding time_text
length-time_text e = simp length-append (omega arith)

-- The length of a line with an error and what errno stands for.
length-error :
    (s : Trace) (e : Environment) (name : List ℕ) (number : ℕ) (text : List ℕ)
    → e.errno ≢ 0
    → length (formated_line s e trace_level_error name number text)
      ≡ frame_size s e name number + length text
unfolding formated_line frame_size is_error
length-error s e name number text h =
    let q : (e.errno == 0) ≡ false = ground (arith, h) in
    let t = length-time_text e in rw (q, formated_line) (simp length-append (omega (arith, t)))

-- No line is longer than that.
length-line :
    (s : Trace) (e : Environment) (level : TraceLevel) (name : List ℕ) (number : ℕ) (text : List ℕ)
    → length (formated_line s e level name number text) ≤ frame_size s e name number + length text
unfolding formated_line frame_size
length-line s e level name number text =
    let t = length-time_text e in
    let l = level_string-short level in
    elim (Bool-cases (is_error level)) [
      | inl q ↦ elim (Bool-cases (e.errno == 0)) [
        | inl z ↦ rw (q, z, formated_line) (simp length-append (omega (arith, t)))
        | inr z ↦ rw (q, z, formated_line) (simp length-append (omega (arith, t)))
      ]
      | inr q ↦ rw (q, formated_line) (simp length-append (omega (arith, t, l)))
    ]

-- Where what surrounds the message of an error has at most 1024 bytes, `add` writes inside its buffers whatever
-- the level, the message and the members are.
pub add-fits :
    (s : Trace) (e : Environment) (level : TraceLevel) (name : List ℕ) (number : ℕ)
    (message : List ℕ) (printed : Option (List ℕ))
    → frame_size s e name number ≤ 1024
    → (calls : List TraceCall) × (add s e level name number message printed ≡ some calls)
unfolding add
add-fits s e level name number message none h = elim (Bool-cases (is_silent s level)) [
  | inl q ↦ ([], rw (q, add) refl)
  | inr q ↦ (out_of_memory name message ∷ [], rw (q, add) refl)
]
add-fits s e level name number message (some printed) h =
    let buffer = take 4095 printed in
    let line = formated_line s e level name number buffer in
    let short : length buffer ≤ 4095 = omega (arith, length-take 4095 printed) in
    let fits : ltb (length line) 5120 ≡ true =
      lt→ltb (length line) 5120 (omega (arith, length-line s e level name number buffer)) in
    elim (Bool-cases (is_silent s level)) [
      | inl q ↦ ([], rw (q, add) refl)
      | inr q ↦ elim (Bool-cases (s.std_output || s.use_formated)) [
        | inl f ↦ (
          to_std_output s level line ++ to_callbacks s level name number line,
          rw (q, f, fits, add) refl,
        )
        | inr f ↦ (to_callbacks s level name number buffer, rw (q, f, add) refl)
      ]
    ]

too_long : (n : ℕ) → ltb n 5120 ≡ false → 5120 ≤ n
too_long n h = ground arith

-- For an error with errno set, that the filter lets pass to a sink that wants a formatted line, and
-- with a message that fills its buffer, the bound is exact: `sprintf` writes past the end of
-- `formated_buffer` just where what surrounds the message has more than 1024 bytes.
pub add-overflows :
    (s : Trace) (e : Environment) (name : List ℕ) (number : ℕ) (message printed : List ℕ)
    → e.errno ≢ 0
    → is_silent s trace_level_error ≡ false
    → (s.std_output || s.use_formated) ≡ true
    → 4095 ≤ length printed
    → (add s e trace_level_error name number message (some printed) ≡ none)
      ↔ (1024 < frame_size s e name number)
unfolding add
add-overflows s e name number message printed wrong loud formatted long =
    let buffer = take 4095 printed in
    let line = formated_line s e trace_level_error name number buffer in
    let full : length buffer ≡ 4095 = omega (arith, length-take 4095 printed) in
    let size = length-error s e name number buffer wrong in
    elim (Bool-cases (ltb (length line) 5120)) [
      | inl q ↦
          let small = ltb→lt (length line) 5120 q in
          (
            λ gone. absurd (
                some-ne-none
                  (to_std_output s trace_level_error line
                    ++ to_callbacks s trace_level_error name number line)
                  (rw (loud, formatted, q, add) at gone)),
            λ big. absurd (omega (arith, size, full, small)),
          )
      | inr q ↦ (
        λ gone. omega (arith, size, full, too_long (length line) q),
        λ big. rw (loud, formatted, q, add) refl,
      )
    ]
