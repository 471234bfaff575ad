-- ===== src/ClientCell/Ring.antt =====
-- The ring of messages to send as a queue: which messages it holds, oldest first.
use mathlib.Core.Bool.{true≢false}
use linux_tcp_lib.Prelude.{
  ℕ, suc, ◌+◌, ◌%◌, ◌<◌, ◌≡◌, sym, ap, ◌∙◌, ◌≢◌, ◌↔◌, true, false, Option, none, some, List, [],
  ◌∷◌, ◌++◌, arith, ==_iff, length, length-append,
}
use linux_tcp_lib.ClientCell.{SendCell, ClientCell, put, is_full, append, release_front}

-- The slots from `r` up to `w`, going round, hold these messages.
abbrev pub Holds : (ℕ → Option SendCell) → ℕ → ℕ → List SendCell → Type 0
Holds f r w [] = r ≡ w
Holds f r w (c ∷ cs) = (f r ≡ some c) × Holds f ((r + 1) % 1048576) w cs

-- The cell's ring is sound and holds the messages `cs`.
pub record IsRing (cell : ClientCell) (cs : List SendCell) : Type 0 where
  pub read_in : cell.send_read_pos < 1048576
  pub write_in : cell.send_write_pos < 1048576
  pub room : length cs < 1048576
  pub holds : Holds cell.send_buf cell.send_read_pos cell.send_write_pos cs

pub Holds-write :
    (f : ℕ → Option SendCell) (r w : ℕ) (cs : List SendCell)
    → r < 1048576
    → Holds f r w cs
    → w ≡ (r + length cs) % 1048576
Holds-write f r w [] lt h = omega arith
Holds-write f r w (c ∷ cs) lt h =
    omega (arith, Holds-write f ((r + 1) % 1048576) w cs (omega arith) h.1)

-- A write to a slot outside the stretch changes nothing in it.
pub Holds-put :
    (f : ℕ → Option SendCell) (r w i : ℕ) (x : Option SendCell) (cs : List SendCell)
    → r < 1048576
    → ((k : ℕ) → k < length cs → i ≢ (r + k) % 1048576)
    → Holds f r w cs
    → Holds (put f i x) r w cs
unfolding put
Holds-put f r w i x [] lt out h = h
Holds-put f r w i x (c ∷ cs) lt out h =
    let ne : i ≢ r = λ e. out 0 (omega arith) (omega arith) in
    let later : (k : ℕ) → k < length cs → i ≢ ((r + 1) % 1048576 + k) % 1048576 =
      λ k lk e. out (suc k) (omega arith) (omega arith) in
    (ground arith, Holds-put f ((r + 1) % 1048576) w i x cs (omega arith) later h.1)

Holds-snoc :
    (f : ℕ → Option SendCell) (r w : ℕ) (x : SendCell) (cs : List SendCell)
    → Holds f r w cs
    → f w ≡ some x
    → Holds f r ((w + 1) % 1048576) (cs ++ x ∷ [])
Holds-snoc f r w x [] h e = (ap f h ∙ e, ap (λ i. (i + 1) % 1048576) h)
Holds-snoc f r w x (c ∷ cs) h e = (h.0, Holds-snoc f ((r + 1) % 1048576) w x cs h.1 e)

-- The ring is full exactly when it holds one message fewer than it has slots.
pub is_full_iff :
    (cell : ClientCell) (cs : List SendCell)
    → IsRing cell cs
    → (is_full cell ≡ true) ↔ (length cs ≡ 1048575)
unfolding is_full
is_full_iff cell cs v =
    let w = Holds-write cell.send_buf cell.send_read_pos cell.send_write_pos cs v.read_in v.holds in
    (λ e. let e' = (==_iff _ _).0 e in omega arith, λ e. (==_iff _ _).1 (omega arith))

-- The ring is empty exactly when its two positions are equal.
pub empty_iff :
    (cell : ClientCell) (cs : List SendCell)
    → IsRing cell cs
    → ((cell.send_read_pos ≡ cell.send_write_pos) ↔ (length cs ≡ 0))
empty_iff cell cs v =
    let w = Holds-write cell.send_buf cell.send_read_pos cell.send_write_pos cs v.read_in v.holds in
    (λ e. omega arith, λ e. omega arith)

-- Appending to a ring that is not full adds the message behind the others.
pub append-IsRing :
    (cell : ClientCell) (cs : List SendCell) (sc : SendCell)
    → IsRing cell cs
    → is_full cell ≡ false
    → IsRing (append cell sc) (cs ++ sc ∷ [])
unfolding append put
append-IsRing cell cs sc v e =
    let f = cell.send_buf in
    let r = cell.send_read_pos in
    let w = cell.send_write_pos in
    let pos = Holds-write f r w cs v.read_in v.holds in
    let ne : length cs ≢ 1048575 = λ k. true≢false (sym ((is_full_iff cell cs v).1 k) ∙ e) in
    let out : (k : ℕ) → k < length cs → w ≢ (r + k) % 1048576 = λ k lk q. omega arith in
    record {
      read_in = v.read_in;
      write_in = omega arith;
      room = omega (arith, length-append {0} cs (sc ∷ []));
      holds =
          Holds-snoc (put f w (some sc)) r w sc cs
            (Holds-put f r w w (some sc) cs v.read_in out v.holds) (ground arith);
    }

-- Freeing the oldest message leaves the others.
pub release_front-IsRing :
    (cell : ClientCell) (c : SendCell) (cs : List SendCell)
    → IsRing cell (c ∷ cs)
    → IsRing (release_front cell) cs
unfolding release_front
release_front-IsRing cell c cs v =
    let f = cell.send_buf in
    let r = cell.send_read_pos in
    let w = cell.send_write_pos in
    let next = (r + 1) % 1048576 in
    let out : (k : ℕ) → k < length cs → r ≢ (next + k) % 1048576 = λ k lk q. omega arith in
    record {
      read_in = omega arith;
      write_in = v.write_in;
      room = omega arith;
      holds = Holds-put f next w r none cs (omega arith) out v.holds.1;
    }
