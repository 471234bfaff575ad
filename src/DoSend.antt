-- ===== src/DoSend.antt =====
-- `cellManager::doSend` of base/src/tcp_server/cell_manager.cpp for the cell that it has found: at
-- most `serverMaxSendTimes` calls of `write` on the oldest messages of the ring.
pub mod Conserves
pub mod Drains
mod Tests
use linux_tcp_lib.Prelude.{
  ℕ, zero, suc, ◌+◌, ◌-◌, true, false, Option, none, some, List, [], ◌++◌, ltb, ◌==◌, if◌then◌else◌,
  take, drop,
}
use linux_tcp_lib.Limits.{server_max_send_times}
use linux_tcp_lib.ClientCell.{SendCell, ClientCell, put, release_front}

-- What a call of `write` comes back with: a number of bytes, -1 with EINTR or EAGAIN, or -1 with
-- another error.
pub data WriteResult : Type 0 where
  wrote : ℕ → WriteResult
  try_again : WriteResult
  write_failed : WriteResult

-- The socket answers the call of round `i` for `count` bytes.
abbrev pub Writer : Type 0
Writer = ℕ → ℕ → WriteResult

-- `size - sendPos`, and the bytes that `write` is given, from `ptr + sendPos` on.
unfoldable pub left : SendCell → ℕ
left sc = sc.size - sc.send_pos

unfoldable pub unsent : SendCell → List ℕ
unfolding left
unsent sc = take (left sc) (drop sc.send_pos sc.ptr)

-- `sendPos += retsize` at the oldest message.
unfoldable pub advance : ClientCell → SendCell → ℕ → ClientCell
advance cell sc n = record cell {
  send_buf = put cell.send_buf cell.send_read_pos (some (record sc { send_pos = sc.send_pos + n }));
}

-- The rest of a round, behind the call of `write`, with what `continue` goes on with.
unfoldable pub after_write :
    WriteResult
    → (ClientCell → List ℕ → Option (ClientCell × List ℕ))
    → ClientCell
    → SendCell
    → List ℕ
    → Option (ClientCell × List ℕ)
after_write try_again next cell sc sent = next cell sent
after_write write_failed next cell sc sent = some (cell, sent)
after_write (wrote n) next cell sc sent =
    if n == 0
    then some (cell, sent)
    else if ltb n (left sc)
    then some (advance cell sc n, sent ++ take n (unsent sc))
    else next (release_front cell) (sent ++ unsent sc)

-- The `for` loop from round `i` with `rounds` left, and the bytes that the socket has taken; none
-- if a slot that is read holds NULL.
unfoldable pub send_loop : Writer → ℕ → ℕ → ClientCell → List ℕ → Option (ClientCell × List ℕ)
send_loop socket zero i cell sent = some (cell, sent)
send_loop socket (suc rounds) i cell sent = elim (cell.send_write_pos == cell.send_read_pos) [
  | true ↦ send_loop socket rounds (i + 1) cell sent
  | false ↦ elim (cell.send_buf cell.send_read_pos) [
    | none ↦ none
    | some sc ↦ after_write (socket i (left sc)) (send_loop socket rounds (i + 1)) cell sc sent
  ]
]

unfoldable pub do_send : Writer → ClientCell → Option (ClientCell × List ℕ)
do_send socket cell = send_loop socket server_max_send_times 0 cell []
