-- ===== src/EventLoop/Tests.antt =====
-- An event loop with one connection.
use linux_tcp_lib.Prelude.{ℕ, ◌+◌, ◌≡◌, refl, ◌⊎◌, true, false, some, [], ◌∷◌, ◌++◌, arith, length}
use linux_tcp_lib.DoRecv.{ready}
use linux_tcp_lib.DoRecv.Feeds.{Returns}
use linux_tcp_lib.CellManager.{CellManager}
use linux_tcp_lib.CellManager.Invariant.{IsManager}
use linux_tcp_lib.EventLoop.{EpollEvent, run, close_epoll, destroy_manager}
use linux_tcp_lib.EventLoop.Rounds.{RunStuck, run-IsManager}
use linux_tcp_lib.EventLoop.Ending.{closing, destroy_manager_lem}
use linux_tcp_lib.Fixtures.{
  takes_all, tasks, count_notify, manager, manager-IsManager, one_task, one_task-IsQueue,
}

abbrev event : EpollEvent
event = record {
  events = record {
    epollin = true;
    epollpri = false;
    epollout = true;
    epollerr = false;
    epollhup = false;
    epollrdhup = false;
    epollet = false;
  };
  fd = 5;
  answers = ready 9 ∷ [];
  incoming = 1 ∷ 2 ∷ [];
  socket = takes_all;
}

count_notify-Returns : (fd : ℕ) → Returns count_notify fd
count_notify-Returns fd n bytes pos short = (length bytes, n + length bytes, refl, omega arith)

run-manager :
    ((m' : CellManager tasks count_notify) × (run tasks count_notify manager
          ((event ∷ []) ∷ [] ∷ [])
        ≡ some m')
      × IsManager tasks count_notify m')
    ⊎ RunStuck tasks count_notify manager ((event ∷ []) ∷ [] ∷ [])
run-manager =
    run-IsManager tasks count_notify manager ((event ∷ []) ∷ [] ∷ []) count_notify-Returns
      manager-IsManager

-- The same loop with a task in its queue.
abbrev busy : CellManager tasks count_notify
busy = record manager { cell_task = one_task }

busy-IsManager : IsManager tasks count_notify busy
busy-IsManager = record { queue = one_task-IsQueue.0; cells = manager-IsManager.cells }

destroy_manager-busy :
    destroy_manager tasks count_notify busy (some 7)
    ≡ some (close_epoll (some 7) ++ closing manager.cells, tasks.contents one_task)
destroy_manager-busy = destroy_manager_lem tasks count_notify busy (some 7) busy-IsManager
