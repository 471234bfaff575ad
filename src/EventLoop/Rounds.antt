-- ===== src/EventLoop/Rounds.antt =====
-- The event loop stays sound round after round.
use linux_tcp_lib.Prelude.{
  ℕ, suc, ◌*◌, ◌≡◌, refl, ap, ◌⊎◌, inl, inr, true, false, ◌||◌, some, List, [], ◌∷◌, ◌++◌, arith,
  length,
}
use linux_tcp_lib.MessageQueue.{MessageQueue}
use linux_tcp_lib.ClientCell.{ClientCell}
use linux_tcp_lib.DoRecv.{TNotify, still_reading, recv_loop}
use linux_tcp_lib.DoRecv.Feeds.{Returns}
use linux_tcp_lib.CellManager.{CellTask, CellManager, find, check_write, handle_task}
use linux_tcp_lib.CellManager.Invariant.{IsManager, check_write-IsManager}
use linux_tcp_lib.CellManager.Event.{do_event-IsManager}
use linux_tcp_lib.CellManager.Tasks.{handle_task-total}
use linux_tcp_lib.EventLoop.{EpollEvent, do_events, round, run}

module _ {N : Type 0} (i : MessageQueue CellTask) (t : TNotify N) where
  -- In a sound loop, `doRecv` for this event is still reading when the socket's answers are used up.
  pub record Stuck (m : CellManager i t) (e : EpollEvent) : Type 0 where
    pub sound : IsManager i t m
    pub reads : e.events.epollin ≡ true
    pub well : e.events.epollhup || (e.events.epollerr || e.events.epollrdhup) ≡ false
    pub cell : ClientCell
    pub found : find m.cells e.fd ≡ some cell
    pub reading : (recv_loop t e.answers e.incoming cell m.notify).end ≡ still_reading

  -- The events `es` come, from the loop `m`, to an event for which `doRecv` is still reading.
  pub record StuckAt (m : CellManager i t) (es : List EpollEvent) : Type 0 where
    pub before : List EpollEvent
    pub event : EpollEvent
    pub after : List EpollEvent
    pub split : es ≡ before ++ event ∷ after
    pub at : CellManager i t
    pub events_ran : do_events i t m before ≡ some at
    pub stuck : Stuck at event

  -- `run` comes to such an event: behind the rounds `earlier`, the tasks and `checkWrite` of the next
  -- round, and those events of it that come before.
  pub record RunStuck (m : CellManager i t) (rounds : List (List EpollEvent)) : Type 0 where
    pub earlier : List (List EpollEvent)
    pub events : List EpollEvent
    pub later : List (List EpollEvent)
    pub split : rounds ≡ earlier ++ events ∷ later
    pub begun : CellManager i t
    pub rounds_ran : run i t m earlier ≡ some begun
    pub worked : CellManager i t
    pub tasks_ran :
        handle_task i t (suc (2 * length (i.contents begun.cell_task))) begun ≡ some worked
    pub at : StuckAt (check_write i t worked) events

  do_events-Sound :
      (m : CellManager i t) (es : List EpollEvent)
      → ((fd : ℕ) → Returns t fd)
      → IsManager i t m
      → ((m' : CellManager i t) × (do_events i t m es ≡ some m') × IsManager i t m') ⊎ StuckAt m es
  unfolding do_events
  do_events-Sound m [] back v = inl (m, refl, v)
  do_events-Sound m (e ∷ es) back v =
      elim (do_event-IsManager i t m e.events e.fd e.answers e.incoming e.socket (back e.fd) v) [
        | inl (m', rest, sent, ran, v') ↦ elim (do_events-Sound m' es back v') [
          | inl (m'', later, v'') ↦ inl (m'', rw (ran, do_events) later, v'')
          | inr s ↦ inr record {
            before = e ∷ s.before;
            event = s.event;
            after = s.after;
            split = ap (◌∷◌ e) s.split;
            at = s.at;
            events_ran = rw (ran, do_events) s.events_ran;
            stuck = s.stuck;
          }
        ]
        | inr (reads, well, (c, found, stuck)) ↦ inr record {
          before = [];
          event = e;
          after = es;
          split = refl;
          at = m;
          events_ran = refl;
          stuck = record {
            sound = v;
            reads = reads;
            well = well;
            cell = c;
            found = found;
            reading = stuck;
          };
        }
      ]

  -- `run` from a sound event loop, for callbacks that return and take no more than they are handed,
  -- and whatever epoll reports and the sockets answer. Either it makes all the rounds, reads nothing
  -- through NULL, and the event loop is sound. Or, in the round behind some of them and behind some
  -- events of that round, it comes with a sound event loop to an event to read for which `doRecv` is
  -- still reading when the socket's answers are used up.
  pub run-IsManager :
      (m : CellManager i t) (rounds : List (List EpollEvent))
      → ((fd : ℕ) → Returns t fd)
      → IsManager i t m
      → ((m' : CellManager i t) × (run i t m rounds ≡ some m') × IsManager i t m')
        ⊎ RunStuck m rounds
  unfolding run round
  run-IsManager m [] back v = inl (m, refl, v)
  run-IsManager m (es ∷ later) back v =
      let fuel = suc (2 * length (i.contents m.cell_task)) in
      let (m₁, tasks_ran, v₁, none_left) = handle_task-total i t m fuel v (omega arith) in
      elim (do_events-Sound (check_write i t m₁) es back (check_write-IsManager i t m₁ v₁)) [
        | inl (m₂, ran, v₂) ↦ elim (run-IsManager m₂ later back v₂) [
          | inl (m₃, rest, v₃) ↦ inl (m₃, rw (run, round, tasks_ran, ran) rest, v₃)
          | inr s ↦ inr record {
            earlier = es ∷ s.earlier;
            events = s.events;
            later = s.later;
            split = ap (◌∷◌ es) s.split;
            begun = s.begun;
            rounds_ran = rw (run, round, tasks_ran, ran) s.rounds_ran;
            worked = s.worked;
            tasks_ran = s.tasks_ran;
            at = s.at;
          }
        ]
        | inr s ↦ inr record {
          earlier = [];
          events = es;
          later = later;
          split = refl;
          begun = m;
          rounds_ran = refl;
          worked = m₁;
          tasks_ran = tasks_ran;
          at = s;
        }
      ]
