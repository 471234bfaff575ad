-- ===== src/TcpClient/Buffer.antt =====
-- The client's buffer as the bytes between its two indices.
use linux_tcp_lib.Prelude.{
  ℕ, ◌+◌, ◌-◌, ◌%◌, ◌^◌, ◌≤◌, ◌<◌, ◌≡◌, sym, ap, ap₂, ◌∙◌, inl, inr, true, false, List, ◌++◌, arith,
  leb, Bool-cases, length, drop,
}
use linux_tcp_lib.Memory.{
  Memory, slice, store, copy, length-slice, slice-store_end, slice-copy, drop-slice,
}
use linux_tcp_lib.TcpClient.{EasyTcpClient, TCliNotify, store_bytes, pending, consume}

-- The indices lie in the buffer, in order, and the read index in its first half.
pub record IsBuffer {N : Type 0} (c : EasyTcpClient N) : Type 0 where
  pub ordered : c.read_index ≤ c.write_index
  pub in_bounds : c.write_index ≤ 51200
  pub low : c.read_index < 25600

module _ {N : Type 0} (t : TCliNotify N) where
  pub length-pending :
      (c : EasyTcpClient N) → IsBuffer c → length (pending t c) ≡ c.write_index - c.read_index
  unfolding pending
  length-pending c v = length-slice c.msg_buf c.read_index _ ∙ omega arith

  -- What is received comes behind what was there.
  pub store_bytes-IsBuffer :
      (c : EasyTcpClient N) (bytes : List ℕ)
      → IsBuffer c
      → c.write_index + length bytes ≤ 51200
      → IsBuffer (store_bytes t c bytes)
        × (pending t (store_bytes t c bytes) ≡ pending t c ++ bytes)
  unfolding store_bytes pending
  store_bytes-IsBuffer c bytes v fits =
      let r = c.read_index in
      let w = c.write_index in
      let k = length bytes in
      let behind : w ≡ r + (w - r) = omega arith in
      let size : ((w + k) % 2 ^ 32 + 2 ^ 32 - r % 2 ^ 32) % 2 ^ 32 ≡ (w - r) + k = omega arith in
      let size' : w - r ≡ (w + 2 ^ 32 - r % 2 ^ 32) % 2 ^ 32 = omega arith in
      (
        record { ordered = omega arith; in_bounds = omega arith; low = v.low },
        ap₂ (λ a n. slice (store c.msg_buf a bytes) r n) behind size
            ∙ slice-store_end c.msg_buf r (w - r) bytes
            ∙ ap (λ n. slice c.msg_buf r n ++ bytes) size',
      )

  abbrev with_buffer : EasyTcpClient N → Memory → ℕ → ℕ → EasyTcpClient N
  with_buffer c m r w = record c { msg_buf = m; read_index = r; write_index = w }

  module _ (c : EasyTcpClient N) (k : ℕ) (v : IsBuffer c)
      (h : k ≤ c.write_index - c.read_index) where
    rest_size :
        (c.write_index + 2 ^ 32 - (c.read_index + k) % 2 ^ 32) % 2 ^ 32
        ≡ c.write_index - (c.read_index + k)
    rest_size = let ordered = v.ordered in let bounds = v.in_bounds in omega arith

    add_read : (c.read_index + k) % 2 ^ 32 ≡ c.read_index + k
    add_read = let ordered = v.ordered in let bounds = v.in_bounds in omega arith

    consume_move :
        leb 25600 (c.read_index + k) ≡ true
        → let n = c.write_index - (c.read_index + k) in
          consume t c k ≡ with_buffer c (copy c.msg_buf 0 (c.read_index + k) n) 0 n
    unfolding consume
    consume_move e = rw (add_read, e, rest_size)

    consume_keep :
        leb 25600 (c.read_index + k) ≡ false
        → consume t c k ≡ with_buffer c c.msg_buf (c.read_index + k) c.write_index
    unfolding consume
    consume_keep e = rw (add_read, e)

    dropped :
        drop k (pending t c)
        ≡ slice c.msg_buf (c.read_index + k) (c.write_index - (c.read_index + k))
    unfolding pending
    dropped =
        let r = c.read_index in
        let w = c.write_index in
        let n : (w + 2 ^ 32 - r % 2 ^ 32) % 2 ^ 32 ≡ w - r = omega arith in
        let m : w - r - k ≡ w - (r + k) = omega arith in
        ap (λ i. drop k (slice c.msg_buf r i)) n
        ∙ drop-slice c.msg_buf r (w - r) k h
        ∙ ap (slice c.msg_buf (r + k)) m

    -- The bytes that the callback has taken, at most those it was handed, are dropped from the
    -- front: the indices stay sound and exactly the rest is pending, whether it is moved to the
    -- front of the buffer or not.
    pub consume-drops :
        IsBuffer (consume t c k) × (pending t (consume t c k) ≡ drop k (pending t c))
    unfolding pending slice
    consume-drops =
        let r = c.read_index in
        let n = c.write_index - (r + k) in
        elim (Bool-cases (leb 25600 (r + k))) [
          | inl e ↦
              let same : (n + 2 ^ 32 - 0 % 2 ^ 32) % 2 ^ 32 ≡ n = omega arith in
              rw (consume_move e) (
                record { ordered = omega arith; in_bounds = omega arith; low = omega arith },
                ap (slice (copy c.msg_buf 0 (r + k) n) 0) same
                    ∙ slice-copy c.msg_buf 0 (r + k) n
                    ∙ sym dropped,
              )
          | inr e ↦ rw (consume_keep e) (
            record { ordered = omega arith; in_bounds = v.in_bounds; low = ground arith },
            ap (slice c.msg_buf (r + k)) rest_size ∙ sym dropped,
          )
        ]
