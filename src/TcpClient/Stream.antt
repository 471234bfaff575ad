-- ===== src/TcpClient/Stream.antt =====
-- What `RecvData` hands to the callback, seen without the buffer.
use linux_tcp_lib.Prelude.{
  take-append-drop-length, ℕ, ◌+◌, ◌-◌, ◌%◌, ◌^◌, ◌≤◌, ◌<◌, ◌≡◌, refl, sym, ap, ap₂, ◌∙◌, ◌⊎◌, inl,
  inr, true, false, not, some, List, ◌++◌, arith, leb, ◌==◌, if◌then◌else◌, ==_iff, Bool-cases,
  length, drop, length-append, length-take,
}
use linux_tcp_lib.TcpClient.{
  TCliNotify, EasyTcpClient, ready, recv_bytes, store_bytes, pending, consume, after_store,
  recv_data,
}
use linux_tcp_lib.TcpClient.Buffer.{IsBuffer, length-pending, store_bytes-IsBuffer, consume-drops}

module _ {N : Type 0} (t : TCliNotify N) where
  -- The callback returns, and takes no more than it is handed.
  abbrev pub Returns : Type 0
  Returns =
      (n : N) (bytes : List ℕ)
      → 0 < length bytes
      → length bytes ≤ 51200
      → (k : ℕ) × (n' : N) × (t.on_recv_data n bytes ≡ some (k, n')) × (k ≤ length bytes)

  -- What the client is after a call that the callback has answered with `k`.
  pub record Took (c : EasyTcpClient N) (bytes : List ℕ) (k : ℕ) (c' : EasyTcpClient N)
      : Type 0 where
    pub ran : t.on_recv_data c.notify (pending t c ++ bytes) ≡ some (k, c'.notify)
    pub buffer : IsBuffer c'
    pub left : pending t c' ≡ drop k (pending t c ++ bytes)
    pub sock : c'.sock ≡ c.sock
    pub is_connect : c'.is_connect ≡ c.is_connect
    pub closed : c'.closed ≡ c.closed

  abbrev told : EasyTcpClient N → N → EasyTcpClient N
  told c n = record c { notify = n }

  told-IsBuffer : (c : EasyTcpClient N) (n : N) → IsBuffer c → IsBuffer (told c n)
  told-IsBuffer c n v = record { ordered = v.ordered; in_bounds = v.in_bounds; low = v.low }

  told-pending : (c : EasyTcpClient N) (n : N) → pending t (told c n) ≡ pending t c
  unfolding pending
  told-pending c n = refl

  record Same (c d : EasyTcpClient N) : Type 0 where
    notify : d.notify ≡ c.notify
    sock : d.sock ≡ c.sock
    is_connect : d.is_connect ≡ c.is_connect
    closed : d.closed ≡ c.closed

  consume-Same : (c : EasyTcpClient N) (k : ℕ) → Same c (consume t c k)
  unfolding consume
  consume-Same c k = record {
    notify = ground arith;
    sock = ground arith;
    is_connect = ground arith;
    closed = ground arith;
  }

  store_bytes-Same : (c : EasyTcpClient N) (bytes : List ℕ) → Same c (store_bytes t c bytes)
  unfolding store_bytes
  store_bytes-Same c bytes = record { notify = refl; sock = refl; is_connect = refl; closed = refl }

  after_store-ran :
      (c : EasyTcpClient N) (k : ℕ) (n : N)
      → t.on_recv_data c.notify (pending t c) ≡ some (k, n)
      → after_store t c
        ≡ (if k == 0 then some (false, told c n) else some (true, consume t (told c n) k))
  unfolding after_store
  after_store-ran c k n ran = rw (ran, after_store)

  after_store-Took :
      (c : EasyTcpClient N) (bytes : List ℕ)
      → Returns
      → IsBuffer c
      → 0 < length bytes
      → c.write_index + length bytes ≤ 51200
      → (k : ℕ) × (c' : EasyTcpClient N) × (after_store t (store_bytes t c bytes)
          ≡ some (not (k == 0), c'))
        × Took c bytes k c'
  after_store-Took c bytes back v pos fits =
      let c₁ = store_bytes t c bytes in
      let (v₁, p₁) = store_bytes-IsBuffer t c bytes v fits in
      let same = store_bytes-Same c bytes in
      let size = length-pending t c₁ v₁ in
      let whole : length (pending t c₁) ≡ length (pending t c) + length bytes =
        ap length p₁ ∙ length-append (pending t c) bytes in
      let (k, n, ran, le) =
        back c₁.notify (pending t c₁) (omega arith) (omega (arith, v₁.in_bounds)) in
      let ran' = ap₂ t.on_recv_data (sym same.notify) (sym p₁) ∙ ran in
      let c₂ = told c₁ n in
      let v₂ = told-IsBuffer c₁ n v₁ in
      let p₂ = told-pending c₁ n ∙ p₁ in
      elim (Bool-cases (k == 0)) [
        | inl e ↦
            let z : k ≡ 0 = (==_iff k 0).0 e in
            (
              k,
              c₂,
              after_store-ran c₁ k n ran ∙ rw e,
              record {
                ran = ran';
                buffer = v₂;
                left = p₂ ∙ ap (λ i. drop i (pending t c ++ bytes)) (sym z);
                sock = same.sock;
                is_connect = same.is_connect;
                closed = same.closed;
              },
            )
        | inr e ↦
            let (v₃, p₃) = consume-drops t c₂ k v₂ (omega arith) in
            let same' = consume-Same c₂ k in
            (
              k,
              consume t c₂ k,
              after_store-ran c₁ k n ran ∙ rw e,
              record {
                ran = ran' ∙ ap (λ x. some (k, x)) (sym same'.notify);
                buffer = v₃;
                left = p₃ ∙ ap (drop k) p₂;
                sock = same'.sock ∙ same.sock;
                is_connect = same'.is_connect ∙ same.is_connect;
                closed = same'.closed ∙ same.closed;
              },
            )
      ]

  pub recv_bytes-fits :
      (c : EasyTcpClient N) (k : ℕ) (incoming : List ℕ)
      → IsBuffer c
      → c.write_index + length (recv_bytes t c k incoming) ≤ 51200
  unfolding recv_bytes
  recv_bytes-fits c k incoming v =
      let room = (51200 + 2 ^ 32 - c.write_index % 2 ^ 32) % 2 ^ 32 in
      let bounds = v.in_bounds in
      ground (arith, length-take (if leb k room then k else room) incoming)

  recv_bytes-prefix :
      (c : EasyTcpClient N) (k : ℕ) (incoming : List ℕ)
      → let bytes = recv_bytes t c k incoming in bytes ++ drop (length bytes) incoming ≡ incoming
  unfolding recv_bytes
  recv_bytes-prefix c k incoming = take-append-drop-length _ incoming

  -- `RecvData` on a sound buffer, for a callback that returns and takes no more than it is handed.
  -- If `recv` gives bytes, the callback is handed what was pending with those bytes behind it; the
  -- answer is -1 exactly if it takes none of them; the buffer is sound, what is pending is what the
  -- callback has not taken, the stream goes on behind those bytes, and socket and connection are as
  -- they were. If `recv` gives none, the answer is -1, and nothing changes.
  pub recv_data_lem :
      (c : EasyTcpClient N) (k : ℕ) (incoming : List ℕ)
      → Returns
      → IsBuffer c
      → let bytes = recv_bytes t c k incoming in
        let rest = drop (length bytes) incoming in
        ((length bytes ≡ 0) × (recv_data t c (ready k) incoming ≡ some (false, c, incoming)))
        ⊎ ((bytes ++ rest ≡ incoming)
            × ((taken : ℕ) × (c' : EasyTcpClient N) × (recv_data t c (ready k) incoming
                  ≡ some (not (taken == 0), c', rest))
                × Took c bytes taken c'))
  unfolding recv_data
  recv_data_lem c k incoming back v =
      let bytes = recv_bytes t c k incoming in
      elim (Bool-cases (length bytes == 0)) [
        | inl e ↦ let z : length bytes ≡ 0 = (==_iff (length bytes) 0).0 e in inl (z, rw (e, z))
        | inr e ↦
            let (taken, c', ran, took) =
              after_store-Took c bytes back v (ground arith) (recv_bytes-fits c k incoming v) in
            inr (recv_bytes-prefix c k incoming, (taken, c', rw (e, ran), took))
      ]
