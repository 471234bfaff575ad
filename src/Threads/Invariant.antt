-- ===== src/Threads/Invariant.antt =====
-- The invariant of every interleaving of the owner and the thread.
use linux_tcp_lib.Prelude.{ℕ, ◌≡◌, refl, true, false, none, some}
use linux_tcp_lib.Threads.{ProcessThread, start, set_running, clear}
use linux_tcp_lib.Threads.Steps.{
  Worker, gone, created, looping, Pc, idle, sleeping, checking, joining, Outcome, not_stopped,
  joined, missed, System, Work, begins, goes_round, ends, Call, starts, start_fails, skips,
  falls_asleep, goes_on, wakes, asks, misses, joins, Reach, at_first, worked, called,
}

-- After a `stop` that joined, the handle is cleared.
abbrev pub Cleared : Outcome → ProcessThread → Type 0
Cleared not_stopped p = Unit {0}
Cleared joined p = p.thread ≡ none
Cleared missed p = Unit {0}

-- Without a thread that was joined.
abbrev pub Unjoined : Outcome → Type 0
Unjoined not_stopped = Unit {0}
Unjoined joined = ⊥
Unjoined missed = Unit {0}

abbrev pub Known : ProcessThread → Type 0
Known p = (id : ℕ) × (p.thread ≡ some id)

-- The flag tells whether the thread is in its loop, except while the owner waits for its end.
abbrev pub Phase : Worker → Pc → ProcessThread → Outcome → Type 0
Phase gone joining p o = p.is_running ≡ false
Phase gone idle p o = (p.is_running ≡ false) × Cleared o p
Phase gone sleeping p o = (p.is_running ≡ false) × Cleared o p
Phase gone checking p o = (p.is_running ≡ false) × Cleared o p
Phase created joining p o = ⊥
Phase created idle p o = (p.is_running ≡ false) × Known p × Unjoined o
Phase created sleeping p o = (p.is_running ≡ false) × Known p × Unjoined o
Phase created checking p o = (p.is_running ≡ false) × Known p × Unjoined o
Phase looping joining p o = p.is_running ≡ false
Phase looping idle p o = (p.is_running ≡ true) × Known p × Unjoined o
Phase looping sleeping p o = (p.is_running ≡ true) × Known p × Unjoined o
Phase looping checking p o = (p.is_running ≡ true) × Known p × Unjoined o

abbrev pub IsSound : System → Type 0
IsSound s = Phase s.worker s.pc s.process s.outcome

begins-Phase :
    (pc : Pc) (p : ProcessThread) (o : Outcome)
    → Phase created pc p o
    → Phase looping pc (set_running p true) o
unfolding set_running
begins-Phase idle p o (flag, known, un) = (refl, known, un)
begins-Phase sleeping p o (flag, known, un) = (refl, known, un)
begins-Phase checking p o (flag, known, un) = (refl, known, un)
begins-Phase joining p o v = absurd v

-- A loop that has ended by itself was told to.
ends-Phase :
    (pc : Pc) (p : ProcessThread) (o : Outcome)
    → p.is_running ≡ false
    → Phase looping pc p o
    → Phase gone pc p o
ends-Phase idle p o off (on, known, un) = cc
ends-Phase sleeping p o off (on, known, un) = cc
ends-Phase checking p o off (on, known, un) = cc
ends-Phase joining p o off v = v

Work-IsSound : {s t : System} → Work s t → IsSound s → IsSound t
Work-IsSound (begins {p} {pc} {o}) v = begins-Phase pc p o v
Work-IsSound (goes_round on) v = v
Work-IsSound (ends {p} {pc} {o} off) v = ends-Phase pc p o off v

-- A `stop` that finds the flag down.
misses-Phase :
    (w : Worker) (p : ProcessThread) (o : Outcome)
    → p.is_running ≡ false
    → Phase w checking p o
    → Phase w idle p missed
misses-Phase gone p o off (down, cleared) = (down, tt)
misses-Phase created p o off (down, known, un) = (down, known, tt)
misses-Phase looping p o off (up, known, un) = (up, known, tt)

asks-Phase :
    (w : Worker) (p : ProcessThread) (o : Outcome)
    → p.is_running ≡ true
    → Phase w checking p o
    → Phase w joining (set_running p false) o
unfolding set_running
asks-Phase gone p o on (down, cleared) = refl
asks-Phase created p o on (down, known, un) = cc
asks-Phase looping p o on (up, known, un) = refl

-- Outside `pthread_join` the place of the owner does not matter.
waits-Phase :
    (w : Worker) (p : ProcessThread) (o : Outcome)
    → Phase w idle p o
    → Phase w sleeping p o × Phase w checking p o
waits-Phase gone p o v = (v, v)
waits-Phase created p o v = (v, v)
waits-Phase looping p o v = (v, v)

wakes-Phase :
    (w : Worker) (p : ProcessThread) (o : Outcome) → Phase w sleeping p o → Phase w checking p o
wakes-Phase gone p o v = v
wakes-Phase created p o v = v
wakes-Phase looping p o v = v

skips-Phase :
    (w : Worker) (p : ProcessThread) (o : Outcome)
    → p.is_running ≡ false
    → Phase w idle p o
    → Phase w idle p missed
skips-Phase w p o off v = misses-Phase w p o off (waits-Phase w p o v).1

Call-IsSound : {s t : System} → Call s t → IsSound s → IsSound t
unfolding start clear
Call-IsSound (starts id) (off, cleared) = (off, (id, refl), tt)
Call-IsSound (start_fails handle) (off, cleared) = (off, tt)
Call-IsSound (skips {p} {w} {o} off) v = skips-Phase w p o off v
Call-IsSound (falls_asleep {p} {w} {o} e) v = (waits-Phase w p o v).0
Call-IsSound (goes_on {p} {w} {o} e) v = (waits-Phase w p o v).1
Call-IsSound (wakes {p} {w} {o}) v = wakes-Phase w p o v
Call-IsSound (asks {p} {w} {o} on) v = asks-Phase w p o on v
Call-IsSound (misses {p} {w} {o} off) v = misses-Phase w p o off v
Call-IsSound joins off = (off, refl)

pub Reach-IsSound : {s : System} → Reach s → IsSound s
Reach-IsSound at_first = (refl, tt)
Reach-IsSound (worked r m) = Work-IsSound m (Reach-IsSound r)
Reach-IsSound (called r m) = Call-IsSound m (Reach-IsSound r)
