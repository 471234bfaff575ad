-- ===== src/Threads/Stopping.antt =====
-- What `stop` leaves behind, in every interleaving of the owner and the thread.
use linux_tcp_lib.Prelude.{◌≡◌, refl, ◌∙◌, ◌⊎◌, inl, inr, true, false, none}
use mathlib.Core.Path.{subst, subst₂}
use linux_tcp_lib.Threads.{ProcessThread, set_running}
use linux_tcp_lib.Threads.Steps.{
  Worker, gone, created, looping, Pc, idle, checking, Outcome, not_stopped, joined, missed, System,
  Work, begins, goes_round, ends, Call, starts, start_fails, skips, falls_asleep, goes_on, wakes,
  asks, misses, joins, Reach, Works, rests, works,
}
use linux_tcp_lib.Threads.Invariant.{Known, Phase, Reach-IsSound}

-- How a `stop` may have returned, and what the owner then holds.
pub data Left (w : Worker) (p : ProcessThread) : Outcome → Type 0 where
  not_yet : Left w p not_stopped
  ended_thread : w ≡ gone → p.is_running ≡ false → p.thread ≡ none → Left w p joined
  no_thread : w ≡ gone → p.is_running ≡ false → Left w p missed
  about_to_begin : w ≡ created → p.is_running ≡ false → Known p → Left w p missed
  still_running : w ≡ looping → p.is_running ≡ true → Known p → Left w p missed

Phase-Left : (w : Worker) (p : ProcessThread) (o : Outcome) → Phase w idle p o → Left w p o
Phase-Left w p not_stopped v = not_yet
Phase-Left gone p joined (off, cleared) = ended_thread refl off cleared
Phase-Left gone p missed (off, cleared) = no_thread refl off
Phase-Left created p missed (off, known, un) = about_to_begin refl off known
Phase-Left looping p missed (on, known, un) = still_running refl on known
Phase-Left created p joined (off, known, un) = absurd un
Phase-Left looping p joined (on, known, un) = absurd un

-- In every interleaving, whenever the owner is outside `stop`: after a `stop` that joined, the
-- thread has ended, the flag is down and the handle is cleared. After one that found the flag down,
-- there is no thread; or it is created and has not begun; or it has begun since, its flag is up and
-- its handle is kept.
pub stop-Left : {s : System} → Reach s → s.pc ≡ idle → Left s.worker s.process s.outcome
stop-Left {s} r e =
    Phase-Left s.worker s.process s.outcome
      (subst (λ pc. Phase s.worker pc s.process s.outcome) e (Reach-IsSound r))

-- Nothing but the flag ends a thread, and beginning puts it up.
Work-runs :
    {s t : System}
    → Work s t
    → (s.worker ≡ created) ⊎ ((s.worker ≡ looping) × (s.process.is_running ≡ true))
    → ((t.worker ≡ created) ⊎ ((t.worker ≡ looping) × (t.process.is_running ≡ true)))
      × (t.pc ≡ s.pc)
      × (t.outcome ≡ s.outcome)
unfolding set_running
Work-runs begins v = (inr (refl, refl), refl, refl)
Work-runs (goes_round on) v = (inr (refl, on), refl, refl)
Work-runs (ends off) (inl e) = cc
Work-runs (ends off) (inr (e, on)) = cc

Works-runs :
    {s t : System}
    → Works s t
    → s.worker ≡ created
    → ((t.worker ≡ created) ⊎ ((t.worker ≡ looping) × (t.process.is_running ≡ true)))
      × (t.pc ≡ s.pc)
      × (t.outcome ≡ s.outcome)
Works-runs rests e = (inl e, refl, refl)
Works-runs (works before move) e =
    let (runs, pc, outcome) = Works-runs before e in
    let (runs', pc', outcome') = Work-runs move runs in (runs', pc' ∙ pc, outcome' ∙ outcome)

missing :
    {s t : System}
    → Call s t
    → s.pc ≡ checking
    → s.worker ≡ created
    → s.process.is_running ≡ false
    → (t.pc ≡ idle) × (t.outcome ≡ missed) × (t.worker ≡ created)
missing (starts id) pc e off = cc
missing (start_fails handle) pc e off = cc
missing (skips down) pc e off = cc
missing (falls_asleep n) pc e off = cc
missing (goes_on n) pc e off = cc
missing wakes pc e off = cc
missing (asks up) pc e off = cc
missing (misses down) pc e off = (refl, refl, e)
missing joins pc e off = cc

created-down :
    (w : Worker) (pc : Pc) (p : ProcessThread) (o : Outcome)
    → Phase w pc p o
    → pc ≡ checking
    → w ≡ created
    → p.is_running ≡ false
created-down w pc p o v at e = (subst₂ (λ w' pc'. Phase w' pc' p o) e at v).0

-- Where the thread has not begun when `stop` makes its second test, the next step of the owner ends
-- `stop` without a join; and whatever the thread does from then on by itself, it has not begun yet,
-- or it is in its loop with its flag up: it never ends.
pub stop-too_early :
    {s t u : System}
    → Reach s
    → s.pc ≡ checking
    → s.worker ≡ created
    → Call s t
    → Works t u
    → (u.pc ≡ idle)
      × (u.outcome ≡ missed)
      × ((u.worker ≡ created) ⊎ ((u.worker ≡ looping) × (u.process.is_running ≡ true)))
stop-too_early {s} {t} {u} r at e call later =
    let down = created-down s.worker s.pc s.process s.outcome (Reach-IsSound r) at e in
    let (pc, outcome, worker) = missing call at e down in
    let (runs, pc', outcome') = Works-runs later worker in (pc' ∙ pc, outcome' ∙ outcome, runs)
