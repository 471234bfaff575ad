-- ===== src/DoRecv/Buffer.antt =====
-- The receive buffer as the bytes between its two positions.
use linux_tcp_lib.Prelude.{
  ℕ, ◌+◌, ◌-◌, ◌%◌, ◌^◌, ◌≤◌, ◌<◌, ◌≡◌, sym, ap, ap₂, ◌∙◌, inl, inr, true, false, List, ◌++◌, arith,
  leb, Bool-cases, length, drop,
}
use linux_tcp_lib.Memory.{
  Memory, slice, store, copy, length-slice, slice-store_end, slice-copy, drop-slice,
}
use linux_tcp_lib.ClientCell.{ClientCell}
use linux_tcp_lib.DoRecv.{consume, store_bytes, pending}

-- The positions lie in the buffer, in order, and the read position in its first half.
pub record IsBuffer (cell : ClientCell) : Type 0 where
  pub ordered : cell.recv_read_pos ≤ cell.recv_write_pos
  pub in_bounds : cell.recv_write_pos ≤ 1048576
  pub low : cell.recv_read_pos < 524288

pub length-pending :
    (cell : ClientCell)
    → IsBuffer cell
    → length (pending cell) ≡ cell.recv_write_pos - cell.recv_read_pos
unfolding pending
length-pending cell v = length-slice cell.recv_buf cell.recv_read_pos _ ∙ omega arith

-- What is read comes behind what was there.
pub store_bytes-IsBuffer :
    (cell : ClientCell) (bytes : List ℕ)
    → IsBuffer cell
    → cell.recv_write_pos + length bytes ≤ 1048576
    → IsBuffer (store_bytes cell bytes) × (pending (store_bytes cell bytes) ≡ pending cell ++ bytes)
unfolding store_bytes pending
store_bytes-IsBuffer cell bytes v fits =
    let r = cell.recv_read_pos in
    let w = cell.recv_write_pos in
    let k = length bytes in
    let at : w ≡ r + (w - r) = omega arith in
    let size : ((w + k) % 2 ^ 32 + 2 ^ 32 - r % 2 ^ 32) % 2 ^ 32 ≡ (w - r) + k = omega arith in
    let size' : w - r ≡ (w + 2 ^ 32 - r % 2 ^ 32) % 2 ^ 32 = omega arith in
    (
      record { ordered = omega arith; in_bounds = omega arith; low = v.low },
      ap₂ (λ a n. slice (store cell.recv_buf a bytes) r n) at size
          ∙ slice-store_end cell.recv_buf r (w - r) bytes
          ∙ ap (λ n. slice cell.recv_buf r n ++ bytes) size',
    )

-- The positions of the buffer, set anew.
abbrev pub at : ClientCell → Memory → ℕ → ℕ → ClientCell
at cell m r w = record cell { recv_buf = m; recv_read_pos = r; recv_write_pos = w }

module _ (cell : ClientCell) (k : ℕ) (v : IsBuffer cell)
    (h : k ≤ cell.recv_write_pos - cell.recv_read_pos) where
  add_read : (cell.recv_read_pos + k) % 2 ^ 32 ≡ cell.recv_read_pos + k
  add_read = omega arith

  consume_all :
      leb cell.recv_write_pos (cell.recv_read_pos + k) ≡ true
      → consume cell k ≡ at cell cell.recv_buf 0 0
  unfolding consume
  consume_all e = rw (add_read, e)

  consume_move :
      leb cell.recv_write_pos (cell.recv_read_pos + k) ≡ false
      → leb 524288 (cell.recv_read_pos + k) ≡ true
      → let n = cell.recv_write_pos - (cell.recv_read_pos + k) in
        consume cell k ≡ at cell (copy cell.recv_buf 0 (cell.recv_read_pos + k) n) 0 n
  unfolding consume
  consume_move e e' =
      let size : (cell.recv_write_pos + 2 ^ 32 - (cell.recv_read_pos + k) % 2 ^ 32) % 2 ^ 32
          ≡ cell.recv_write_pos - (cell.recv_read_pos + k) =
        ground arith in
      rw (add_read, e, e', size)

  consume_keep :
      leb cell.recv_write_pos (cell.recv_read_pos + k) ≡ false
      → leb 524288 (cell.recv_read_pos + k) ≡ false
      → consume cell k ≡ at cell cell.recv_buf (cell.recv_read_pos + k) cell.recv_write_pos
  unfolding consume
  consume_keep e e' = rw (add_read, e, e')

  dropped :
      drop k (pending cell)
      ≡ slice cell.recv_buf
          (cell.recv_read_pos + k)
          (cell.recv_write_pos - (cell.recv_read_pos + k))
  unfolding pending
  dropped =
      let r = cell.recv_read_pos in
      let w = cell.recv_write_pos in
      let n : (w + 2 ^ 32 - r % 2 ^ 32) % 2 ^ 32 ≡ w - r = omega arith in
      let m : w - r - k ≡ w - (r + k) = omega arith in
      ap (λ i. drop k (slice cell.recv_buf r i)) n
      ∙ drop-slice cell.recv_buf r (w - r) k h
      ∙ ap (slice cell.recv_buf (r + k)) m

  -- The callback's bytes are dropped from the front, in the buffer and of what is pending.
  pub consume-IsBuffer :
      IsBuffer (consume cell k) × (pending (consume cell k) ≡ drop k (pending cell))
  unfolding pending slice
  consume-IsBuffer =
      let r = cell.recv_read_pos in
      let w = cell.recv_write_pos in
      elim (Bool-cases (leb w (r + k))) [
        | inl e ↦
            let none_left : w - (r + k) ≡ 0 = ground arith in
            rw (consume_all e) (
              record { ordered = omega arith; in_bounds = omega arith; low = omega arith },
              sym (dropped ∙ ap (slice cell.recv_buf (r + k)) none_left),
            )
        | inr e ↦ elim (Bool-cases (leb 524288 (r + k))) [
          | inl e' ↦
              let n = w - (r + k) in
              let same : (n + 2 ^ 32 - 0 % 2 ^ 32) % 2 ^ 32 ≡ n = omega arith in
              rw (consume_move e e') (
                record { ordered = omega arith; in_bounds = omega arith; low = omega arith },
                ap (slice (copy cell.recv_buf 0 (r + k) n) 0) same
                    ∙ slice-copy cell.recv_buf 0 (r + k) n
                    ∙ sym dropped,
              )
          | inr e' ↦
              let size : (w + 2 ^ 32 - (r + k) % 2 ^ 32) % 2 ^ 32 ≡ w - (r + k) = ground arith in
              rw (consume_keep e e') (
                record { ordered = omega arith; in_bounds = omega arith; low = ground arith },
                ap (slice cell.recv_buf (r + k)) size ∙ sym dropped,
              )
        ]
      ]

  -- When the callback has left something, and the read position has come to the second half, the
  -- rest is moved to the front of the buffer: both blocks that `memcpy` is given lie in the buffer,
  -- and they do not overlap. The callback has taken at most what it was handed.
  pub consume-copy :
      cell.recv_read_pos + k < cell.recv_write_pos
      → 524288 ≤ cell.recv_read_pos + k
      → (src n : ℕ) × (consume cell k ≡ at cell (copy cell.recv_buf 0 src n) 0 n)
        × (n ≤ src)
        × (src + n ≤ 1048576)
  consume-copy some_left half = (
    cell.recv_read_pos + k,
    cell.recv_write_pos - (cell.recv_read_pos + k),
    consume_move (ground arith) (ground arith),
    omega arith,
    omega arith,
  )
