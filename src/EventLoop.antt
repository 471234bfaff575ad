-- ===== src/EventLoop.antt =====
-- `cellManager::run` and the destructor of base/src/tcp_server/cell_manager.cpp: the rounds of an
-- event loop, and its end.
pub mod Rounds
pub mod Ending
pub mod Keys
mod Tests
use linux_tcp_lib.Prelude.{ℕ, zero, suc, ◌++◌, ◌*◌, Option, none, some, List, [], ◌∷◌, length}
use linux_tcp_lib.MessageQueue.{MessageQueue}
use linux_tcp_lib.ClientCell.{Events, destroy}
use linux_tcp_lib.DoRecv.{TNotify, ReadResult}
use linux_tcp_lib.DoSend.{Writer}
use linux_tcp_lib.CellManager.{
  CellTask, SysCall, epoll_del, close_fd, CellMap, CellManager, handle_task, check_write, do_event,
}

-- An event that epoll reports, with what the socket will answer to the calls that follow from it.
pub record EpollEvent : Type 0 where
  pub events : Events
  pub fd : ℕ
  pub answers : List ReadResult
  pub incoming : List ℕ
  pub socket : Writer

-- The loop over `m_Cell` in the destructor, with `delClientCell`; none if it reads through NULL.
unfoldable pub delete_cells : CellMap → Option (List SysCall)
delete_cells [] = some []
delete_cells ((k, c) ∷ m) = elim (destroy c) [
  | none ↦ none
  | some _ ↦ elim (delete_cells m) [
    | none ↦ none
    | some calls ↦ some (epoll_del c.client_fd ∷ close_fd c.client_fd ∷ calls)
  ]
]

-- `close(m_ListenFd)` of `stop`; none for the -1 of an `epoll_create1` that failed.
unfoldable pub close_epoll : Option ℕ → List SysCall
close_epoll none = []
close_epoll (some fd) = close_fd fd ∷ []

module _ {N : Type 0} (i : MessageQueue CellTask) (t : TNotify N) where
  -- The `for` loop over the events.
  unfoldable pub do_events : CellManager i t → List EpollEvent → Option (CellManager i t)
  do_events m [] = some m
  do_events m (e ∷ es) = elim (do_event i t m e.events e.fd e.answers e.incoming e.socket) [
    | none ↦ none
    | some (m', rest, sent) ↦ do_events m' es
  ]

  -- One round: the tasks, `checkWrite`, and the events that `epoll_wait` gives, none on an error.
  -- The fuel is two rounds for each task and one to stop.
  unfoldable pub round : CellManager i t → List EpollEvent → Option (CellManager i t)
  unfolding do_events
  round m es = elim (handle_task i t (suc (2 * length (i.contents m.cell_task))) m) [
    | none ↦ none
    | some m' ↦ do_events (check_write i t m') es
  ]

  -- `run`, for as many rounds as `epoll_wait` has answers before `is_running` is false.
  unfoldable pub run : CellManager i t → List (List EpollEvent) → Option (CellManager i t)
  unfolding round
  run m [] = some m
  run m (es ∷ later) = elim (round m es) [ none ↦ none | some m' ↦ run m' later ]

  -- The loop over the tasks in the destructor, with those that it frees, each with its message.
  unfoldable pub free_tasks : ℕ → i.Q → List CellTask → Option (List CellTask)
  free_tasks zero q freed = none
  free_tasks (suc fuel) q freed = elim (i.pop q) [
    | none ↦ some freed
    | some (ct, q') ↦ free_tasks fuel q' (freed ++ ct ∷ [])
  ]

  -- The destructor, but for the thread that its `stop` waits for: the calls that it makes and the
  -- tasks that it frees. A round for each task and one to stop.
  unfoldable pub destroy_manager :
      CellManager i t → Option ℕ → Option (List SysCall × List CellTask)
  unfolding free_tasks
  destroy_manager m listen_fd = elim (delete_cells m.cells) [
    | none ↦ none
    | some calls ↦ elim (free_tasks (suc (length (i.contents m.cell_task))) m.cell_task []) [
      | none ↦ none
      | some freed ↦ some (close_epoll listen_fd ++ calls, freed)
    ]
  ]
