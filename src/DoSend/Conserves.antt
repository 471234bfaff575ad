-- ===== src/DoSend/Conserves.antt =====
-- No byte is lost, repeated or reordered by `doSend`.
use linux_tcp_lib.Prelude.{
  ℕ, zero, suc, ◌+◌, ◌-◌, ◌%◌, ◌<◌, ◌≡◌, refl, sym, ap, ap₂, ◌∙◌, ◌≢◌, inl, inr, true, false,
  Option, some, List, [], ◌∷◌, ◌++◌, append-nil, append_assoc, arith, ltb, ◌==◌, ltb→lt, Bool-cases,
  length, take, drop, take-take, take-split, drop-drop,
}
use linux_tcp_lib.ClientCell.{SendCell, ClientCell, put, release_front}
use linux_tcp_lib.ClientCell.Ring.{IsRing, Holds-put, empty_iff, release_front-IsRing}
use linux_tcp_lib.DoSend.{
  WriteResult, wrote, try_again, write_failed, Writer, left, unsent, advance, after_write,
  send_loop, do_send,
}

-- The bytes that the messages still have to send.
unfoldable pub unsent_all : List SendCell → List ℕ
unsent_all [] = []
unsent_all (c ∷ cs) = unsent c ++ unsent_all cs

-- The fields of a cell that sending has no business with.
pub record SameRest (c d : ClientCell) : Type 0 where
  pub client_fd : d.client_fd ≡ c.client_fd
  pub recv_buf : d.recv_buf ≡ c.recv_buf
  pub recv_read_pos : d.recv_read_pos ≡ c.recv_read_pos
  pub recv_write_pos : d.recv_write_pos ≡ c.recv_write_pos
  pub send_write_pos : d.send_write_pos ≡ c.send_write_pos
  pub events : d.events ≡ c.events

-- What sending from a ring of `cs` may end in.
pub record Sends (cell : ClientCell) (cs : List SendCell) (sent : List ℕ)
    (out : Option (ClientCell × List ℕ)) : Type 0 where
  pub cell' : ClientCell
  pub cs' : List SendCell
  pub more : List ℕ
  pub result : out ≡ some (cell', sent ++ more)
  pub ring : IsRing cell' cs'
  pub bytes : more ++ unsent_all cs' ≡ unsent_all cs
  pub rest : SameRest cell cell'

same : (c : ClientCell) → SameRest c c
same c = record {
  client_fd = refl;
  recv_buf = refl;
  recv_read_pos = refl;
  recv_write_pos = refl;
  send_write_pos = refl;
  events = refl;
}

advance-SameRest : (cell : ClientCell) (c : SendCell) (n : ℕ) → SameRest cell (advance cell c n)
unfolding advance
advance-SameRest cell c n = record {
  client_fd = refl;
  recv_buf = refl;
  recv_read_pos = refl;
  recv_write_pos = refl;
  send_write_pos = refl;
  events = refl;
}

release-SameRest : (cell d : ClientCell) → SameRest (release_front cell) d → SameRest cell d
unfolding release_front
release-SameRest cell d s = record {
  client_fd = s.client_fd;
  recv_buf = s.recv_buf;
  recv_read_pos = s.recv_read_pos;
  recv_write_pos = s.recv_write_pos;
  send_write_pos = s.send_write_pos;
  events = s.events;
}

-- Stopping with the cell as it is.
stay :
    (cell : ClientCell) (cs : List SendCell) (sent : List ℕ)
    → IsRing cell cs
    → Sends cell cs sent (some (cell, sent))
stay cell cs sent v = record {
  cell' = cell;
  cs' = cs;
  more = [];
  result = ap (λ k. some (cell, k)) (sym (append-nil sent));
  ring = v;
  bytes = refl;
  rest = same cell;
}

unsent-advance :
    (sc : SendCell) (n : ℕ)
    → n < left sc
    → take n (unsent sc) ++ unsent (record sc { send_pos = sc.send_pos + n }) ≡ unsent sc
unfolding unsent left
unsent-advance sc n h =
    let whole = drop sc.send_pos sc.ptr in
    let size : sc.size - (sc.send_pos + n) ≡ left sc - n = omega arith in
    ap₂ ◌++◌ (take-take n (left sc) whole (omega arith))
      (ap₂ take size (sym (drop-drop sc.send_pos n sc.ptr)))
    ∙ take-split n (left sc) whole (omega arith)

advance-IsRing :
    (cell : ClientCell) (c : SendCell) (cs : List SendCell) (n : ℕ)
    → IsRing cell (c ∷ cs)
    → IsRing (advance cell c n) (record c { send_pos = c.send_pos + n } ∷ cs)
unfolding advance put
advance-IsRing cell c cs n v =
    let r = cell.send_read_pos in
    let out : (k : ℕ) → k < length cs → r ≢ ((r + 1) % 1048576 + k) % 1048576 =
      λ k lk q. omega arith in
    record {
      read_in = v.read_in;
      write_in = v.write_in;
      room = v.room;
      holds = (
        ground arith,
        Holds-put cell.send_buf ((r + 1) % 1048576) cell.send_write_pos r
            (some (record c { send_pos = c.send_pos + n })) cs (omega arith) out v.holds.1,
      );
    }

-- What one round does, if going on does what it should.
after_write-Sends :
    (r : WriteResult) (next : ClientCell → List ℕ → Option (ClientCell × List ℕ))
    (cell : ClientCell) (c : SendCell) (cs : List SendCell) (sent : List ℕ)
    → IsRing cell (c ∷ cs)
    → Sends cell (c ∷ cs) sent (next cell sent)
    → Sends
        (release_front cell)
        cs
        (sent ++ unsent c)
        (next (release_front cell) (sent ++ unsent c))
    → Sends cell (c ∷ cs) sent (after_write r next cell c sent)
unfolding after_write unsent_all
after_write-Sends try_again next cell c cs sent v again gone = again
after_write-Sends write_failed next cell c cs sent v again gone = stay cell (c ∷ cs) sent v
after_write-Sends (wrote n) next cell c cs sent v again gone = elim (Bool-cases (n == 0)) [
  | inl e ↦ rw e (stay cell (c ∷ cs) sent v)
  | inr e ↦ elim (Bool-cases (ltb n (left c))) [
    | inl part ↦ rw (e, part) (partly n (ltb→lt n (left c) part))
    | inr all ↦ rw (e, all) (wholly gone)
  ]
]
  where
    partly :
        (n : ℕ)
        → n < left c
        → Sends cell (c ∷ cs) sent (some (advance cell c n, sent ++ take n (unsent c)))
    partly n lt = record {
      cell' = advance cell c n;
      cs' = record c { send_pos = c.send_pos + n } ∷ cs;
      more = take n (unsent c);
      result = refl;
      ring = advance-IsRing cell c cs n v;
      bytes =
          sym (append_assoc (take n (unsent c)) _ (unsent_all cs))
          ∙ ap (λ k. k ++ unsent_all cs) (unsent-advance c n lt);
      rest = advance-SameRest cell c n;
    }

    wholly :
        Sends
          (release_front cell)
          cs
          (sent ++ unsent c)
          (next (release_front cell) (sent ++ unsent c))
        → Sends cell (c ∷ cs) sent (next (release_front cell) (sent ++ unsent c))
    wholly g = record {
      cell' = g.cell';
      cs' = g.cs';
      more = unsent c ++ g.more;
      result = g.result ∙ ap (λ k. some (g.cell', k)) (append_assoc sent (unsent c) g.more);
      ring = g.ring;
      bytes = append_assoc (unsent c) g.more (unsent_all g.cs') ∙ ap (◌++◌ (unsent c)) g.bytes;
      rest = release-SameRest cell g.cell' g.rest;
    }

send_loop-Sends :
    (socket : Writer) (rounds i : ℕ) (cell : ClientCell) (cs : List SendCell) (sent : List ℕ)
    → IsRing cell cs
    → Sends cell cs sent (send_loop socket rounds i cell sent)
unfolding send_loop
send_loop-Sends socket zero i cell cs sent v = stay cell cs sent v
send_loop-Sends socket (suc rounds) i cell [] sent v =
    let e : (cell.send_write_pos == cell.send_read_pos) ≡ true =
      ground (arith, (empty_iff cell [] v).1) in
    rw (e, send_loop) (send_loop-Sends socket rounds (i + 1) cell [] sent v)
send_loop-Sends socket (suc rounds) i cell (c ∷ cs) sent v =
    let e : (cell.send_write_pos == cell.send_read_pos) ≡ false =
      ground (arith, (empty_iff cell (c ∷ cs) v).0) in
    rw (e, send_loop, v.holds.0)
      (after_write-Sends (socket i (left c)) (send_loop socket rounds (i + 1)) cell c cs sent v
        (send_loop-Sends socket rounds (i + 1) cell (c ∷ cs) sent v)
        (send_loop-Sends socket rounds (i + 1) (release_front cell) cs (sent ++ unsent c)
          (release_front-IsRing cell c cs v)))

-- For a sound ring that holds `cs`, and whatever the socket answers, `doSend` reads no NULL slot
-- and leaves a sound ring; the bytes that it wrote, followed by those still to send, are those that
-- were to be sent before; the receive side, the write position and the events are as they were.
pub do_send-Sends :
    (socket : Writer) (cell : ClientCell) (cs : List SendCell)
    → IsRing cell cs
    → Sends cell cs [] (do_send socket cell)
unfolding do_send
do_send-Sends socket cell cs v = send_loop-Sends socket 1000 0 cell cs [] v
