-- ===== src/DoRecv.antt =====
-- `cellManager::doRecv` of base/src/tcp_server/cell_manager.cpp for the cell that it has found:
-- it reads from the socket into the cell's buffer, hands what has not been taken yet to the
-- callback, and moves the rest to the front of the buffer when the first half is used up.
-- The callbacks are `tNotify` of base/src/tcp_server/notify.h.
pub mod Buffer
pub mod Feeds
pub mod Spins
mod Tests
use linux_tcp_lib.Prelude.{
  ℕ, ◌-◌, ◌/◌, ◌^◌, Bool, true, false, Option, none, some, List, [], ◌∷◌, ltb, leb, ◌==◌,
  if◌then◌else◌, length, take, drop,
}
use linux_tcp_lib.Words.{add32, sub32}
use linux_tcp_lib.Limits.{sys_recv_buf}
use linux_tcp_lib.Memory.{slice, store, copy}
use linux_tcp_lib.ClientCell.{ClientCell}

-- `tNotify`, over the state `N` of the object that implements it. `on_recv_data` is none if the
-- callback does not return; its number is a `size_t`.
pub record TNotify (N : Type 0) : Type 0 where
  pub on_connect : N → ℕ → List ℕ → ℕ → N
  pub on_disconnect : N → ℕ → N
  pub on_recv_data : N → ℕ → List ℕ → Option (ℕ × N)
  pub on_error : N → ℕ → ℕ → N

-- What a call of `read` meets: at most so many bytes of the stream at once, the end of the stream
-- being no bytes; -1 with EINTR or EAGAIN; or -1 with another error.
pub data ReadResult : Type 0 where
  ready : ℕ → ReadResult
  read_again : ReadResult
  read_failed : ReadResult

-- `err` behind the loop: 0, -1, -2. Two more cases are no values of `err`: the loop still runs when
-- the socket's answers are used up, or the callback has not returned.
pub data RecvEnd : Type 0 where
  fine : RecvEnd
  closed : RecvEnd
  buffer_full : RecvEnd
  still_reading : RecvEnd
  in_callback : RecvEnd

pub record RecvOut (N : Type 0) : Type 0 where
  pub cell : ClientCell
  pub notify : N
  pub incoming : List ℕ
  pub end : RecvEnd

-- -2 as the `int` that `OnError` takes.
abbrev pub minus_two : ℕ
minus_two = 2 ^ 32 - 2

-- `m_RecvReadPos += retSize` and the two resets of the positions.
unfoldable pub consume : ClientCell → ℕ → ClientCell
consume cell ret_size =
    let read_pos = add32 cell.recv_read_pos ret_size in
    let write_pos = cell.recv_write_pos in
    if leb write_pos read_pos
    then record cell { recv_read_pos = 0; recv_write_pos = 0 }
    else if leb (sys_recv_buf / 2) read_pos
    then record cell {
      recv_buf = copy cell.recv_buf 0 read_pos (sub32 write_pos read_pos);
      recv_write_pos = sub32 write_pos read_pos;
      recv_read_pos = 0;
    }
    else record cell { recv_read_pos = read_pos }

-- The bytes of the stream that one call of `read` stores.
unfoldable pub read_bytes : ClientCell → ℕ → List ℕ → List ℕ
read_bytes cell n incoming =
    take
      (if leb n (sys_recv_buf - cell.recv_write_pos) then n else sys_recv_buf - cell.recv_write_pos)
      incoming

unfoldable pub store_bytes : ClientCell → List ℕ → ClientCell
store_bytes cell bytes = record cell {
  recv_buf = store cell.recv_buf cell.recv_write_pos bytes;
  recv_write_pos = add32 cell.recv_write_pos (length bytes);
}

-- What the callback is handed.
unfoldable pub pending : ClientCell → List ℕ
pending cell = slice cell.recv_buf cell.recv_read_pos (sub32 cell.recv_write_pos cell.recv_read_pos)

module _ {N : Type 0} (t : TNotify N) where
  -- The part of a round behind the callback: `last` is `breakflag`.
  unfoldable pub after_callback :
      (ClientCell → N → RecvOut N) → Bool → ClientCell → N → List ℕ → RecvOut N
  after_callback next last cell n incoming =
      if leb sys_recv_buf cell.recv_write_pos
      then record {
        cell = cell;
        notify = t.on_error n cell.client_fd minus_two;
        incoming = incoming;
        end = buffer_full;
      }
      else if last
      then record { cell = cell; notify = n; incoming = incoming; end = fine }
      else next cell n

  -- A round that has read `bytes`, with `rest` left in the stream.
  unfoldable pub after_read :
      (ClientCell → N → RecvOut N) → ClientCell → N → List ℕ → List ℕ → RecvOut N
  after_read next cell n bytes rest =
      if length bytes == 0
      then record { cell = cell; notify = n; incoming = rest; end = closed }
      else elim (t.on_recv_data n cell.client_fd (pending (store_bytes cell bytes))) [
        | none ↦ record {
          cell = store_bytes cell bytes;
          notify = n;
          incoming = rest;
          end = in_callback;
        }
        | some (ret_size, n') ↦
            after_callback next (ltb (length bytes) (sys_recv_buf - cell.recv_write_pos))
              (consume (store_bytes cell bytes) ret_size) n' rest
      ]

  -- The `while` loop against the socket's answers, with `incoming` the bytes that the peer has sent
  -- and that have not been read.
  unfoldable pub recv_loop : List ReadResult → List ℕ → ClientCell → N → RecvOut N
  recv_loop [] incoming cell n = record {
    cell = cell;
    notify = n;
    incoming = incoming;
    end = if ltb cell.recv_write_pos sys_recv_buf then still_reading else fine;
  }
  recv_loop (a ∷ answers) incoming cell n = elim (ltb cell.recv_write_pos sys_recv_buf) [
    | false ↦ record { cell = cell; notify = n; incoming = incoming; end = fine }
    | true ↦ elim a [
      | read_again ↦ recv_loop answers incoming cell n
      | read_failed ↦ record { cell = cell; notify = n; incoming = incoming; end = closed }
      | ready k ↦
          let bytes = read_bytes cell k incoming in
          let rest = drop (length bytes) incoming in
          after_read (recv_loop answers rest) cell n bytes rest
    ]
  ]
