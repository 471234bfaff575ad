-- ===== src/DoSend/Drains.antt =====
-- When `doSend` empties the ring, and when it cannot make progress.
use linux_tcp_lib.Prelude.{
  ℕ, zero, suc, ◌+◌, ◌≤◌, ◌<◌, ◌≡◌, refl, sym, ap, ◌∙◌, true, false, Option, some, List, [], ◌∷◌,
  ◌++◌, append-nil, append_assoc, arith, ◌==◌, length,
}
use linux_tcp_lib.ClientCell.{SendCell, ClientCell, release_front}
use linux_tcp_lib.ClientCell.Ring.{IsRing, empty_iff, release_front-IsRing}
use linux_tcp_lib.DoSend.{WriteResult, Writer, wrote, left, unsent, after_write, send_loop, do_send}
use linux_tcp_lib.DoSend.Conserves.{unsent_all}

-- Each message has a byte left to send.
abbrev pub AllLeft : List SendCell → Type 0
AllLeft [] = Unit {0}
AllLeft (c ∷ cs) = (0 < left c) × AllLeft cs

after_write-whole :
    (next : ClientCell → List ℕ → Option (ClientCell × List ℕ)) (cell : ClientCell) (c : SendCell)
    (sent : List ℕ)
    → 0 < left c
    → after_write (wrote (left c)) next cell c sent ≡ next (release_front cell) (sent ++ unsent c)
unfolding after_write
after_write-whole next cell c sent h = ground arith

send_loop-drains :
    (socket : Writer) (rounds i : ℕ) (cell : ClientCell) (cs : List SendCell) (sent : List ℕ)
    → ((j count : ℕ) → socket j count ≡ wrote count)
    → IsRing cell cs
    → AllLeft cs
    → length cs ≤ rounds
    → (cell' : ClientCell) × (send_loop socket rounds i cell sent
        ≡ some (cell', sent ++ unsent_all cs))
      × IsRing cell' []
unfolding send_loop unsent_all
send_loop-drains socket zero i cell [] sent takes v some_left h =
    (cell, ap (λ k. some (cell, k)) (sym (append-nil sent)), v)
send_loop-drains socket zero i cell (c ∷ cs) sent takes v some_left h = absurd (omega arith)
send_loop-drains socket (suc rounds) i cell [] sent takes v some_left h =
    let e : (cell.send_write_pos == cell.send_read_pos) ≡ true =
      ground (arith, (empty_iff cell [] v).1) in
    let (cell', ran, ended) =
      send_loop-drains socket rounds (i + 1) cell [] sent takes v some_left (omega arith) in
    (cell', rw (e, send_loop) ran, ended)
send_loop-drains socket (suc rounds) i cell (c ∷ cs) sent takes v some_left h =
    let e : (cell.send_write_pos == cell.send_read_pos) ≡ false =
      ground (arith, (empty_iff cell (c ∷ cs) v).0) in
    let (cell', ran, ended) =
      send_loop-drains socket rounds (i + 1) (release_front cell) cs (sent ++ unsent c) takes
        (release_front-IsRing cell c cs v) some_left.1 (omega arith) in
    (
      cell',
      rw (e, send_loop, v.holds.0)
          (whole_write (send_loop socket rounds (i + 1)) (socket i (left c)) (takes i (left c))
            ∙ ran
            ∙ ap (λ k. some (cell', k)) (append_assoc sent (unsent c) (unsent_all cs))),
      ended,
    )
  where
    whole_write :
        (next : ClientCell → List ℕ → Option (ClientCell × List ℕ)) (r : WriteResult)
        → r ≡ wrote (left c)
        → after_write r next cell c sent ≡ next (release_front cell) (sent ++ unsent c)
    whole_write next r q = rw q (after_write-whole next cell c sent some_left.0)

-- If the socket takes every byte it is given, `doSend` empties a sound ring of at most 1000
-- messages that each have a byte left, and writes all their bytes in order.
pub do_send-drains :
    (socket : Writer) (cell : ClientCell) (cs : List SendCell)
    → ((j count : ℕ) → socket j count ≡ wrote count)
    → IsRing cell cs
    → AllLeft cs
    → length cs ≤ 1000
    → (cell' : ClientCell) × (do_send socket cell ≡ some (cell', unsent_all cs)) × IsRing cell' []
unfolding do_send
do_send-drains socket cell cs takes v some_left h =
    send_loop-drains socket 1000 0 cell cs [] takes v some_left h

send_loop-empty_message :
    (rounds i : ℕ) (socket : Writer) (cell : ClientCell) (c : SendCell) (cs : List SendCell)
    → IsRing cell (c ∷ cs)
    → left c ≡ 0
    → ((j : ℕ) → socket j 0 ≡ wrote 0)
    → send_loop socket rounds i cell [] ≡ some (cell, [])
unfolding send_loop after_write
send_loop-empty_message zero i socket cell c cs v none_left zero_write = refl
send_loop-empty_message (suc rounds) i socket cell c cs v none_left zero_write =
    let e : (cell.send_write_pos == cell.send_read_pos) ≡ false =
      ground (arith, (empty_iff cell (c ∷ cs) v).0) in
    rw (e, send_loop, v.holds.0, none_left, zero_write i, after_write)

-- A message with no byte left, which `SendData` makes of an empty buffer, blocks the ring: if the
-- socket answers a write of no bytes with 0, `doSend` leaves a sound ring with such a message in
-- front, and everything behind it, as it is and sends nothing.
pub do_send-empty_message :
    (socket : Writer) (cell : ClientCell) (c : SendCell) (cs : List SendCell)
    → IsRing cell (c ∷ cs)
    → left c ≡ 0
    → ((j : ℕ) → socket j 0 ≡ wrote 0)
    → do_send socket cell ≡ some (cell, [])
unfolding do_send
do_send-empty_message socket cell c cs v none_left zero_write =
    send_loop-empty_message 1000 0 socket cell c cs v none_left zero_write
