-- ===== src/ClientCell.antt =====
-- base/src/tcp_server/client_cell.h and client_cell.cpp: what the server keeps of one connection,
-- with its receive buffer and its ring of messages to send.
pub mod Ring
pub mod Destroy
mod Tests
use linux_tcp_lib.Prelude.{
  ℕ, zero, suc, ◌+◌, ◌%◌, Bool, true, false, Option, none, some, List, [], ◌∷◌, ◌++◌, ◌==◌,
  if◌then◌else◌,
}
use linux_tcp_lib.Limits.{client_cell_send_buf, sys_send_buf}
use linux_tcp_lib.Memory.{Memory}

-- `clientCell::sendCell`: `ptr` holds the `size` bytes of one message (`enableRead` is never used).
pub record SendCell : Type 0 where
  pub ptr : List ℕ
  pub size : ℕ
  pub send_pos : ℕ

-- The mask of epoll events, a flag for each bit that the code uses.
pub record Events : Type 0 where
  pub epollin : Bool
  pub epollpri : Bool
  pub epollout : Bool
  pub epollerr : Bool
  pub epollhup : Bool
  pub epollrdhup : Bool
  pub epollet : Bool

-- `clientCell`. The slots of `send_buf` are pointers, none for NULL.
pub record ClientCell : Type 0 where
  pub client_fd : ℕ
  pub recv_buf : Memory
  pub send_buf : ℕ → Option SendCell
  pub recv_read_pos : ℕ
  pub recv_write_pos : ℕ
  pub send_read_pos : ℕ
  pub send_write_pos : ℕ
  pub events : Events
  pub ip : List ℕ
  pub port : ℕ

-- The constructor, on memory that it does not initialise: the buffers, the events and the address.
unfoldable pub client_cell : ℕ → Memory → (ℕ → Option SendCell) → Events → List ℕ → ℕ → ClientCell
client_cell listenfd recv_buf send_buf events ip port = record {
  client_fd = listenfd;
  recv_buf = recv_buf;
  send_buf = send_buf;
  recv_read_pos = 0;
  recv_write_pos = 0;
  send_read_pos = 0;
  send_write_pos = 0;
  events = events;
  ip = ip;
  port = port;
}

-- A slot of the ring written: `m_SendBuf[i] = p`.
unfoldable pub put : (ℕ → Option SendCell) → ℕ → Option SendCell → ℕ → Option SendCell
put send_buf i p j = if i == j then p else send_buf j

-- The loop of the destructor, with the cells that it frees; none if it reads a NULL slot or runs
-- out of fuel.
unfoldable pub free_loop : ℕ → ClientCell → List SendCell → Option (ClientCell × List SendCell)
free_loop zero cell freed = none
free_loop (suc fuel) cell freed = elim (cell.send_read_pos == cell.send_write_pos) [
  | true ↦ some (cell, freed)
  | false ↦ elim (cell.send_buf cell.send_read_pos) [
    | none ↦ none
    | some sc ↦
        free_loop fuel
          (record cell {
            send_buf = put cell.send_buf cell.send_read_pos none;
            send_read_pos = (cell.send_read_pos + 1) % client_cell_send_buf;
          })
          (freed ++ sc ∷ [])
  ]
]

-- `~clientCell`, with a round for each slot of the ring.
unfoldable pub destroy : ClientCell → Option (ClientCell × List SendCell)
destroy cell = free_loop client_cell_send_buf cell []

-- `handleSend`'s part that appends to the ring.
unfoldable pub is_full : ClientCell → Bool
is_full cell = (cell.send_write_pos + 1) % sys_send_buf == cell.send_read_pos

unfoldable pub append : ClientCell → SendCell → ClientCell
append cell sc = record cell {
  send_buf = put cell.send_buf cell.send_write_pos (some sc);
  send_write_pos = (cell.send_write_pos + 1) % sys_send_buf;
}

-- `doSend`'s part that frees the oldest message.
unfoldable pub release_front : ClientCell → ClientCell
release_front cell = record cell {
  send_buf = put cell.send_buf cell.send_read_pos none;
  send_read_pos = (cell.send_read_pos + 1) % sys_send_buf;
}
