-- ===== src/Threads/Tests.antt =====
-- An owner that starts a thread and stops it, once too early and once in time.
use linux_tcp_lib.Prelude.{◌≡◌, refl, ◌⊎◌, true, false, some}
use linux_tcp_lib.Threads.{ProcessThread, start, set_running, naps}
use linux_tcp_lib.Threads.Steps.{
  created, looping, idle, checking, not_stopped, missed, System, begins, Call, starts, falls_asleep,
  wakes, misses, Reach, at_first, called, Works, rests, works,
}
use linux_tcp_lib.Threads.Stopping.{stop-too_early}

abbrev started : ProcessThread
started = record { thread = some 7; is_running = false }

abbrev running : ProcessThread
running = record { thread = some 7; is_running = true }

after_start :
    Reach (record { process = started; worker = created; pc = idle; outcome = not_stopped })
unfolding start
after_start = called at_first (starts 7)

abbrev early : System
early = record { process = started; worker = created; pc = checking; outcome = not_stopped }

early-Reach : Reach early
unfolding naps
early-Reach = called (called after_start (falls_asleep refl)) wakes

abbrev late : System
late = record { process = running; worker = looping; pc = idle; outcome = missed }

early-misses :
    Call early (record { process = started; worker = created; pc = idle; outcome = missed })
early-misses = misses refl

late-Works :
    Works (record { process = started; worker = created; pc = idle; outcome = missed }) late
unfolding set_running
late-Works = works rests begins

late-runs :
    (late.pc ≡ idle)
    × (late.outcome ≡ missed)
    × ((late.worker ≡ created) ⊎ ((late.worker ≡ looping) × (late.process.is_running ≡ true)))
late-runs = stop-too_early early-Reach refl refl early-misses late-Works
