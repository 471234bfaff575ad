-- ===== src/ServerThreads/Stopped.antt =====
-- What is left of the threads of a server when its `stop` has returned.
use linux_tcp_lib.Prelude.{
  or-false, ℕ, zero, suc, ◌≤◌, ◌<◌, ◌≡◌, refl, sym, ap, ◌∙◌, ◌≢◌, ◌⊎◌, inl, inr, Bool, true, false,
  ◌||◌, List, [], ◌∷◌, ◌++◌, arith, ltb, ◌==◌, ltb→lt, ==_iff, Bool-cases,
}
use mathlib.Core.List.{cons≢nil}
use mathlib.Core.Path.{subst}
use linux_tcp_lib.Threads.Steps.{
  System, Work, begins, goes_round, ends, idle, not_stopped, Reach, at_first, worked, called,
}
use linux_tcp_lib.Threads.Stopping.{Left, stop-Left}
use linux_tcp_lib.ServerThreads.{
  ServerThreads, below, server_threads, set_thread, ServerStep, goes_on, starts_next, stops,
  stops_next, Serves, fresh, then_step,
}

-- Whether a number stands in a list.
unfoldable pub listed : ℕ → List ℕ → Bool
listed k [] = false
listed k (j ∷ js) = (k == j) || listed k js

or_assoc : (a b c : Bool) → (a || (b || c)) ≡ ((a || b) || c)
or_assoc true b c = refl
or_assoc false b c = refl

or_right : (a : Bool) → (a || true) ≡ true
or_right true = refl
or_right false = refl

listed-append : (k : ℕ) (xs ys : List ℕ) → listed k (xs ++ ys) ≡ (listed k xs || listed k ys)
unfolding listed
listed-append k [] ys = refl
listed-append k (x ∷ xs) ys =
    ap (λ b. (k == x) || b) (listed-append k xs ys) ∙ or_assoc (k == x) (listed k xs) (listed k ys)

listed-below : (k n : ℕ) → k < n → listed k (below n) ≡ true
unfolding listed below
listed-below k zero h = absurd (omega arith)
listed-below k (suc n) h = elim (Bool-cases (ltb k n)) [
  | inl e ↦ rw (listed-append k (below n) (n ∷ []), listed-below k n (ltb→lt k n e)) refl
  | inr e ↦
      let at : (k == n) ≡ true = ground arith in
      rw (listed-append k (below n) (n ∷ []), at) (or_right (listed k (below n)))
]

-- All threads are still to stop.
listed-all : (k loops : ℕ) → k ≤ loops → listed k (loops ∷ below loops) ≡ true
unfolding listed
listed-all k loops h = elim (Bool-cases (k == loops)) [
  | inl e ↦ rw e refl
  | inr e ↦ rw e (listed-below k loops (ground arith))
]

-- A thread that goes on by itself leaves what its owner knows.
Work-keeps : {s t : System} → Work s t → (t.pc ≡ s.pc) × (t.outcome ≡ s.outcome)
Work-keeps begins = (refl, refl)
Work-keeps (goes_round up) = (refl, refl)
Work-keeps (ends down) = (refl, refl)

-- The owner has stopped the thread.
abbrev Over : System → Type 0
Over t = (t.pc ≡ idle) × (t.outcome ≢ not_stopped)

-- Each thread is in a state that it can reach, and one that is no longer to stop has been stopped.
record Threaded (loops : ℕ) (s : ServerThreads) : Type 0 where
  reached : (k : ℕ) → Reach (s.threads k)
  over : (k : ℕ) → k ≤ loops → listed k s.to_stop ≡ false → Over (s.threads k)
  starting : (s.to_start ≡ []) ⊎ ((k : ℕ) → k ≤ loops → listed k s.to_stop ≡ true)

set_thread-Reach :
    (threads : ℕ → System) (k : ℕ) (t : System)
    → ((j : ℕ) → Reach (threads j))
    → Reach t
    → (j : ℕ) → Reach (set_thread threads k t j)
unfolding set_thread
set_thread-Reach threads k t all r j = elim (Bool-cases (k == j)) [
  | inl e ↦ rw (e, set_thread) r
  | inr e ↦ rw (e, set_thread) (all j)
]

set_thread-Over :
    (threads : ℕ → System) (k : ℕ) (t : System) (j : ℕ)
    → ((k ≡ j) → Over t)
    → ((k ≢ j) → Over (threads j))
    → Over (set_thread threads k t j)
unfolding set_thread
set_thread-Over threads k t j same other = elim (Bool-cases (k == j)) [
  | inl e ↦ rw (e, set_thread) (same ((==_iff k j).0 e))
  | inr e ↦ rw (e, set_thread) (other (λ q. ground (arith, q)))
]

not_head : (k j : ℕ) (rest : List ℕ) → listed j (k ∷ rest) ≡ false → k ≢ j
unfolding listed
not_head k j rest h e = let (ne, rest_no) = or-false (j == k) (listed j rest) h in ground (arith, e)

not_in_tail :
    (k j : ℕ) (rest : List ℕ) → k ≢ j → listed j rest ≡ false → listed j (k ∷ rest) ≡ false
unfolding listed
not_in_tail k j rest ne out = let e : (j == k) ≡ false = ground (arith, ne) in rw e out

ServerStep-Threaded :
    (loops : ℕ) {s t : ServerThreads} → Threaded loops s → ServerStep s t → Threaded loops t
ServerStep-Threaded loops {s} v (goes_on k t w) = record {
  reached = set_thread-Reach s.threads k t v.reached (worked (v.reached k) w);
  over = λ j le out.
      let (pc, outcome) = Work-keeps w in
      set_thread-Over s.threads k t j
        (λ e.
          let (at, stopped) =
            v.over k (subst (λ i. i ≤ loops) (sym e) le)
              (subst (λ i. listed i s.to_stop ≡ false) (sym e) out) in
          (pc ∙ at, λ q. stopped (sym outcome ∙ q)))
        (λ ne. v.over j le out);
  starting = v.starting;
}
ServerStep-Threaded loops {s} v (starts_next k rest t at c unstopped pc) = elim v.starting [
  | inl none_left ↦ absurd (cons≢nil (sym at ∙ none_left))
  | inr all ↦ record {
    reached = set_thread-Reach s.threads k t v.reached (called (v.reached k) c);
    over = λ j le out. let e = sym (all j le) ∙ out in cc;
    starting = inr all;
  }
]
ServerStep-Threaded loops {s} v (stops k rest t none_left at c busy) = record {
  reached = set_thread-Reach s.threads k t v.reached (called (v.reached k) c);
  over = λ j le out.
      let ne = not_head k j rest (ap (listed j) (sym at) ∙ out) in
      set_thread-Over s.threads k t j (λ e. absurd (ne e)) (λ ne'. v.over j le out);
  starting = v.starting;
}
ServerStep-Threaded loops {s} v (stops_next k rest t none_left at c pc stopped) = record {
  reached = set_thread-Reach s.threads k t v.reached (called (v.reached k) c);
  over = λ j le out.
      set_thread-Over s.threads k t j (λ e. (pc, stopped))
        (λ ne. v.over j le (ap (listed j) at ∙ not_in_tail k j rest ne out));
  starting = inl none_left;
}

Serves-Threaded : (loops : ℕ) {s : ServerThreads} → Serves loops s → Threaded loops s
unfolding server_threads
Serves-Threaded loops fresh = record {
  reached = λ k. at_first;
  over = λ k le out. let e = sym (listed-all k loops le) ∙ out in cc;
  starting = inr (λ k le. listed-all k loops le);
}
Serves-Threaded loops (then_step r m) = ServerStep-Threaded loops (Serves-Threaded loops r) m

-- When `stop` of a server has gone over all its threads, in every interleaving, each of them, the
-- event loops and the accepting one, was joined and has ended with its flag down and its handle
-- cleared; or its `stop` found its flag down, and then there is no thread, or one that has not begun
-- yet, or one that has begun since and goes on.
pub server-stopped :
    (loops : ℕ) (s : ServerThreads) (k : ℕ)
    → Serves loops s
    → s.to_stop ≡ []
    → k ≤ loops
    → let t = s.threads k in Left t.worker t.process t.outcome × (t.outcome ≢ not_stopped)
unfolding listed
server-stopped loops s k r done le =
    let v = Serves-Threaded loops r in
    let (pc, stopped) = v.over k le (ap (listed k) done) in (stop-Left (v.reached k) pc, stopped)
