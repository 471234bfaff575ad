-- ===== src/Frame/Ready.antt =====
-- When the receive loops find a whole frame, in plain arithmetic.
use linux_tcp_lib.Prelude.{
  ℕ, ◌+◌, ◌^◌, ◌≤◌, ◌<◌, ◌≡◌, ap, ◌∙◌, ◌⊎◌, List, ◌++◌, Option, none, some, arith, length, get_or,
  drop, ltb, leb, ◌&&◌, if◌then◌else◌, length-append, take-append_le, drop-append_le,
  get_or-append_lt, length-drop, take-length-append,
}
use linux_tcp_lib.Words.{sub64}
use linux_tcp_lib.Frame.{
  MsgHeader, Message, read_int, header_at, payload_at, frame_ready, int_bytes, encode,
}

read_int-lt : (p : List ℕ) → read_int p < 2 ^ 32
read_int-lt p = omega arith

pub data_size-lt : (p : List ℕ) → (header_at p).data_size < 2 ^ 32
unfolding header_at
data_size-lt p = read_int-lt (drop 4 p)

-- The guards without casts, for an amount of data that an `int` holds.
pub frame_ready_plain :
    (avail : ℕ) (p : List ℕ)
    → avail < 2 ^ 31
    → frame_ready avail p ≡ (
        if ltb 8 avail && (ltb 0 (header_at p).data_size && leb (8 + (header_at p).data_size) avail)
        then some (header_at p)
        else none)
unfolding frame_ready
frame_ready_plain avail p h = ground (arith, data_size-lt p)

read_int-append : (p q : List ℕ) → 4 ≤ length p → read_int (p ++ q) ≡ read_int p
read_int-append p q h =
    let at : (i : ℕ) → i < 4 → get_or (p ++ q) i 0 ≡ get_or p i 0 =
      λ i lt. get_or-append_lt p q i 0 (omega arith) in
    rw (at 0 (omega arith), at 1 (omega arith), at 2 (omega arith), at 3 (omega arith))

-- The header of a byte string of at least eight bytes does not depend on what follows.
pub header_at-append : (p q : List ℕ) → 8 ≤ length p → header_at (p ++ q) ≡ header_at p
unfolding header_at
header_at-append p q h =
    let first = read_int-append p q (omega arith) in
    let second = read_int-append (drop 4 p) q (omega (arith, length-drop 4 p)) in
    cc (first, second, drop-append_le 4 p q (omega arith))

pub payload_at-append :
    (p q : List ℕ) (h : MsgHeader)
    → 8 + h.data_size ≤ length p
    → payload_at (p ++ q) h ≡ payload_at p h
unfolding payload_at
payload_at-append p q h fits =
    rw (drop-append_le 8 p q (omega arith))
      (take-append_le h.data_size (drop 8 p) q (omega (arith, length-drop 8 p)))

read_int-int_bytes : (n : ℕ) (q : List ℕ) → n < 2 ^ 32 → read_int (int_bytes n ++ q) ≡ n
unfolding int_bytes
read_int-int_bytes n q h = omega arith

-- What the loop reads from an encoded message.
pub header_at-encode :
    (m : Message) (q : List ℕ)
    → m.type < 2 ^ 32
    → length m.body < 2 ^ 31
    → header_at (encode m ++ q) ≡ record { type = m.type; data_size = length m.body }
unfolding header_at encode int_bytes
header_at-encode m q ht hb = ground arith

pub payload_at-encode :
    (m : Message) (q : List ℕ) (t : ℕ)
    → payload_at (encode m ++ q) (record { type = t; data_size = length m.body }) ≡ m.body
unfolding payload_at encode int_bytes
payload_at-encode m q t = take-length-append m.body q

pub length-encode : (m : Message) → length (encode m) ≡ 8 + length m.body
unfolding encode int_bytes
length-encode m = omega arith

-- The specification's view of a buffer: the header of a whole frame at its front. Only sizes that
-- are positive and fit the data count.
unfoldable pub whole_frame : List ℕ → Option MsgHeader
whole_frame p =
    if ltb 8 (length p)
      && (ltb 0 (header_at p).data_size && leb (8 + (header_at p).data_size) (length p))
    then some (header_at p)
    else none

-- On a buffer of fewer than 2 ^ 31 bytes, the tests of the receive loops, with their casts between
-- `int` and `size_t` in both directions, find exactly the whole frames: a header whose size is
-- positive as an `int`, and whose body lies in the buffer.
pub frame_ready-eq-whole_frame :
    (p : List ℕ) → length p < 2 ^ 31 → frame_ready (length p) p ≡ whole_frame p
unfolding whole_frame
frame_ready-eq-whole_frame p lt = frame_ready_plain (length p) p lt

-- The same behind a position in the buffer.
pub frame_ready-drop :
    (pos : ℕ) (buf : List ℕ)
    → length buf < 2 ^ 31
    → pos ≤ length buf
    → frame_ready (sub64 (length buf) pos) (drop pos buf) ≡ whole_frame (drop pos buf)
frame_ready-drop pos buf lt le =
    let size : sub64 (length buf) pos ≡ length (drop pos buf) =
      omega (arith, length-drop pos buf) in
    ap (λ k. frame_ready k (drop pos buf)) size
    ∙ frame_ready-eq-whole_frame (drop pos buf) (omega (arith, length-drop pos buf))

pub whole_frame-eq-some :
    (p : List ℕ) {h : MsgHeader}
    → whole_frame p ≡ some h
    → (h ≡ header_at p) × (0 < h.data_size) × (8 + h.data_size ≤ length p)
unfolding whole_frame
whole_frame-eq-some p e = ground arith

-- More data does not change the frame that is found.
pub whole_frame-append :
    (p q : List ℕ) {h : MsgHeader} → whole_frame p ≡ some h → whole_frame (p ++ q) ≡ some h
unfolding whole_frame
whole_frame-append p q {h} e =
    let len = length-append p q in
    let (is, pos, fits) = whole_frame-eq-some p e in
    ground (arith, header_at-append p q (omega arith))

pub whole_frame-encode :
    (m : Message) (q : List ℕ)
    → m.type < 2 ^ 32
    → 0 < length m.body
    → length m.body < 2 ^ 31
    → whole_frame (encode m ++ q) ≡ some (record { type = m.type; data_size = length m.body })
unfolding whole_frame
whole_frame-encode m q ht hb lt =
    let len = length-append (encode m) q in
    let size = length-encode m in ground (arith, header_at-encode m q ht lt)

-- A header whose size is not positive is never a frame, whatever follows it.
pub whole_frame-bad :
    (p q : List ℕ)
    → 8 ≤ length p
    → (header_at p).data_size ≡ 0 ⊎ 2 ^ 31 ≤ (header_at p).data_size
    → length (p ++ q) < 2 ^ 31
    → whole_frame (p ++ q) ≡ none
unfolding whole_frame
whole_frame-bad p q h bad lt = ground (arith, header_at-append p q h)
