-- ===== src/CellManager.antt =====
-- base/src/tcp_server/cell_manager.h and cell_manager.cpp: an event loop with its connections, its
-- queue of tasks, and the calls that it makes to the kernel and to the callbacks.
pub mod Cells
pub mod Invariant
pub mod Event
pub mod Tasks
pub mod Ordering
pub mod InOrder
pub mod Sending
pub mod Closing
pub mod Writable
pub mod Keys
mod Tests
use linux_tcp_lib.Prelude.{
  ℕ, zero, suc, Bool, true, false, ◌||◌, Option, none, some, List, [], ◌∷◌, ◌++◌, ◌==◌,
  if◌then◌else◌, length,
}
use linux_tcp_lib.Limits.{BaseError, s_ok, tcp_server_client_closed, tcp_server_push_cache_failed}
use linux_tcp_lib.MessageQueue.{MessageQueue}
use linux_tcp_lib.ClientCell.{SendCell, Events, ClientCell, destroy, is_full, append}
use linux_tcp_lib.DoSend
use linux_tcp_lib.DoSend.{Writer}
use linux_tcp_lib.DoRecv.{
  TNotify, ReadResult, RecvEnd, fine, closed, buffer_full, still_reading, in_callback, RecvOut,
  recv_loop,
}

-- `cellTask`: the events 'A', 'D' and 'S'; only the last uses `sC`.
pub data CellTask : Type 0 where
  added : ℕ → CellTask
  deleted : ℕ → CellTask
  sending : ℕ → SendCell → CellTask

-- The calls to the kernel that change what it watches.
pub data SysCall : Type 0 where
  epoll_add : ℕ → Events → SysCall
  epoll_mod : ℕ → Events → SysCall
  epoll_del : ℕ → SysCall
  close_fd : ℕ → SysCall

-- `unordered_map<int, clientCell*>`, in the order in which it is iterated.
abbrev pub CellMap : Type 0
CellMap = List (ℕ × ClientCell)

unfoldable pub find : CellMap → ℕ → Option ClientCell
find [] k = none
find ((j, c) ∷ m) k = if j == k then some c else find m k

unfoldable pub assign : CellMap → ℕ → ClientCell → CellMap
assign [] k c = (k, c) ∷ []
assign ((j, d) ∷ m) k c = if j == k then (k, c) ∷ m else (j, d) ∷ assign m k c

unfoldable pub erase : CellMap → ℕ → CellMap
erase [] k = []
erase ((j, d) ∷ m) k = if j == k then erase m k else (j, d) ∷ erase m k

-- EPOLLET | EPOLLIN | EPOLLPRI | EPOLLRDHUP | EPOLLERR.
abbrev pub watched : Events
watched = record {
  epollin = true;
  epollpri = true;
  epollout = false;
  epollerr = true;
  epollhup = false;
  epollrdhup = true;
  epollet = true;
}

-- `checkWrite` for one cell: EPOLLOUT is watched while there is something to send.
unfoldable pub check_cell : ClientCell → ClientCell × List SysCall
check_cell cell =
    let on = record cell.events { epollout = true } in
    let off = record cell.events { epollout = false } in
    if cell.send_write_pos == cell.send_read_pos
    then (if cell.events.epollout
        then (record cell { events = off }, epoll_mod cell.client_fd off ∷ [])
        else (cell, []))
    else (record cell { events = on }, epoll_mod cell.client_fd on ∷ [])

unfoldable pub check_cells : CellMap → CellMap × List SysCall
check_cells [] = ([], [])
check_cells ((k, c) ∷ m) =
    let (c', calls) = check_cell c in
    let (m', later) = check_cells m in ((k, c') ∷ m', calls ++ later)

-- The `switch (err)` behind the loop of `doRecv`: whether the client is deleted.
unfoldable pub at_end {ℓ} : {A : Type ℓ} → RecvEnd → A → A → Option A
at_end fine kept gone = some kept
at_end closed kept gone = some gone
at_end buffer_full kept gone = some kept
at_end still_reading kept gone = none
at_end in_callback kept gone = none

module _ {N : Type 0} (i : MessageQueue CellTask) (t : TNotify N) where
  pub record CellManager : Type 0 where
    pub cells : CellMap
    pub cell_task : i.Q
    pub notify : N
    pub calls : List SysCall

  -- `m_cellTask->push(ct)`, its answer unused.
  unfoldable pub push_task : CellManager → CellTask → CellManager
  push_task m ct = record m { cell_task = (i.push m.cell_task ct).1 }

  unfoldable pub add_task : CellManager → ClientCell → CellManager
  unfolding push_task
  add_task m cell =
      push_task (record m { cells = assign m.cells cell.client_fd cell }) (added cell.client_fd)

  unfoldable pub del_task : CellManager → ℕ → CellManager
  unfolding push_task
  del_task m clientid = push_task m (deleted clientid)

  -- The message that `sendTask` makes of the caller's bytes.
  unfoldable pub new_send_cell : List ℕ → SendCell
  new_send_cell bytes = record { ptr = bytes; size = length bytes; send_pos = 0 }

  unfoldable pub send_task : CellManager → ℕ → List ℕ → BaseError × CellManager
  unfolding new_send_cell
  send_task m clientid bytes = elim (find m.cells clientid) [
    | none ↦ (tcp_server_client_closed, m)
    | some cell ↦
        let (flag, q) = i.push m.cell_task (sending clientid (new_send_cell bytes)) in
        if flag
        then (s_ok, record m { cell_task = q })
        else (tcp_server_push_cache_failed, record m { cell_task = q })
  ]

  unfoldable pub handle_add : CellManager → ℕ → CellManager
  unfolding del_task
  handle_add m clientid = elim (find m.cells clientid) [
    | none ↦ del_task m clientid
    | some cell ↦ record m {
      cells = assign m.cells clientid (record cell { events = watched });
      calls = m.calls ++ epoll_add cell.client_fd watched ∷ [];
      notify = t.on_connect m.notify cell.client_fd cell.ip cell.port;
    }
  ]

  -- A full ring: the code returns before the lines that would free the message, call `OnError` and
  -- delete the client.
  unfoldable pub handle_send : CellManager → ℕ → SendCell → CellManager
  handle_send m clientid sc = elim (find m.cells clientid) [
    | none ↦ m
    | some cell ↦
        if is_full cell then m else record m { cells = assign m.cells clientid (append cell sc) }
  ]

  -- The handlers below are none where the code reads through a NULL pointer. `delete cell` frees the
  -- messages of its ring.
  unfoldable pub handle_del : CellManager → ℕ → Option CellManager
  handle_del m clientid = elim (find m.cells clientid) [
    | none ↦ some m
    | some cell ↦ elim (destroy cell) [
      | none ↦ none
      | some _ ↦ some (record m {
        cells = erase m.cells clientid;
        calls = m.calls ++ epoll_del cell.client_fd ∷ close_fd cell.client_fd ∷ [];
        notify = t.on_disconnect m.notify clientid;
      })
    ]
  ]

  -- The `switch` of `handleTask`.
  unfoldable pub dispatch : CellManager → CellTask → Option CellManager
  unfolding handle_add handle_send handle_del
  dispatch m (added clientid) = some (handle_add m clientid)
  dispatch m (deleted clientid) = handle_del m clientid
  dispatch m (sending clientid sc) = some (handle_send m clientid sc)

  -- The `while` loop of `handleTask`, with fuel.
  unfoldable pub handle_task : ℕ → CellManager → Option CellManager
  handle_task zero m = none
  handle_task (suc fuel) m = elim (i.pop m.cell_task) [
    | none ↦ some m
    | some (ct, q) ↦ elim (dispatch (record m { cell_task = q }) ct) [
      | none ↦ none
      | some m' ↦ handle_task fuel m'
    ]
  ]

  unfoldable pub check_write : CellManager → CellManager
  check_write m =
      let (cells, calls) = check_cells m.cells in
      record m { cells = cells; calls = m.calls ++ calls }

  -- `doRecv` with what is left of the stream; none if it does not return.
  unfoldable pub do_recv :
      CellManager → ℕ → List ReadResult → List ℕ → Option (CellManager × List ℕ)
  unfolding del_task at_end
  do_recv m clientid answers incoming = elim (find m.cells clientid) [
    | none ↦ some (m, incoming)
    | some cell ↦
        let out = recv_loop t answers incoming cell m.notify in
        let m' = record m { cells = assign m.cells clientid out.cell; notify = out.notify } in
        at_end out.end (m', out.incoming) (del_task m' cell.client_fd, out.incoming)
  ]

  -- `doSend` with the bytes that the socket has taken.
  unfoldable pub do_send : CellManager → ℕ → Writer → Option (CellManager × List ℕ)
  do_send m clientid socket = elim (find m.cells clientid) [
    | none ↦ some (m, [])
    | some cell ↦ elim (DoSend.do_send socket cell) [
      | none ↦ none
      | some (cell', sent) ↦ some (record m { cells = assign m.cells clientid cell' }, sent)
    ]
  ]

  -- The two tests of `doEvent` for reading and writing.
  unfoldable pub on_epollin :
      Bool → CellManager → ℕ → List ReadResult → List ℕ → Option (CellManager × List ℕ)
  unfolding do_recv
  on_epollin true m fd answers incoming = do_recv m fd answers incoming
  on_epollin false m fd answers incoming = some (m, incoming)

  unfoldable pub on_epollout : Bool → CellManager → ℕ → Writer → Option (CellManager × List ℕ)
  unfolding do_send
  on_epollout true m fd socket = do_send m fd socket
  on_epollout false m fd socket = some (m, [])

  -- `doEvent`: what is left of the stream, and what was sent.
  unfoldable pub do_event :
      CellManager
      → Events
      → ℕ
      → List ReadResult
      → List ℕ
      → Writer
      → Option (CellManager × List ℕ × List ℕ)
  unfolding del_task on_epollin on_epollout
  do_event m event fd answers incoming socket =
      if event.epollhup || (event.epollerr || event.epollrdhup)
      then some (del_task m fd, incoming, [])
      else elim (on_epollin event.epollin m fd answers incoming) [
        | none ↦ none
        | some (m', rest) ↦ elim (on_epollout event.epollout m' fd socket) [
          | none ↦ none
          | some (m'', sent) ↦ some (m'', rest, sent)
        ]
      ]
