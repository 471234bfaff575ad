-- ===== src/ClientCache/Blocks.antt =====
-- What `handle_msg` of the client reads is the message, whatever its block held before, and no write
-- leaves a block.
use linux_tcp_lib.Prelude.{
  ℕ, zero, suc, ◌+◌, ◌^◌, ◌≤◌, ◌<◌, ◌≡◌, refl, ap, ap₂, ◌∙◌, inl, inr, true, List, [], ◌∷◌, ◌++◌,
  arith, Bool-cases, length, get_or, drop, length-take, length-drop,
}
use linux_tcp_lib.Words.{sign_extend, int_lt}
use linux_tcp_lib.Memory.{Memory, slice, store, slice-append, slice-store_self}
use linux_tcp_lib.Frame.{MsgHeader, payload_at}
use linux_tcp_lib.ClientNotify.{TcpClientHub}
use linux_tcp_lib.ClientCache.{
  BlockHub, MsgCache, zeros, block_size, fill_block, fits, handle_frame,
}

get_or-zeros : (n i : ℕ) → get_or (zeros n) i 0 ≡ 0
unfolding zeros
get_or-zeros zero i = refl
get_or-zeros (suc n) zero = refl
get_or-zeros (suc n) (suc i) = get_or-zeros n i

length-zeros : (n : ℕ) → length (zeros n) ≡ n
unfolding zeros
length-zeros zero = refl
length-zeros (suc n) = ap suc (length-zeros n)

-- The block begins with the body, and a 0 stands behind it.
unfoldable pub Holds : Memory → List ℕ → Type 0
Holds m body = slice m 0 (length body + 1) ≡ body ++ 0 ∷ []

store-Holds : (m : Memory) (body : List ℕ) → m (length body) ≡ 0 → Holds (store m 0 body) body
unfolding Holds store slice
store-Holds m body z =
    slice-append (store m 0 body) 0 (length body) 1
    ∙ ap₂ ◌++◌ (slice-store_self m 0 body) (ap (λ b. b ∷ []) (ground (arith, z)))

length-payload_at :
    (p : List ℕ) (header : MsgHeader)
    → 8 + header.data_size ≤ length p
    → length (payload_at p header) ≡ header.data_size
unfolding payload_at
length-payload_at p header h =
    ground (arith, length-take header.data_size (drop 8 p), length-drop 8 p)

fill_block-Holds :
    (m : Memory) (p : List ℕ) (header : MsgHeader)
    → 8 + header.data_size ≤ length p
    → length p < 2 ^ 31
    → Holds (fill_block m p header) (payload_at p header)
unfolding fill_block store
fill_block-Holds m p header h lt =
    let len = length-payload_at p header h in
    let size : sign_extend (block_size header) ≡ header.data_size + 1 = ground arith in
    let body = payload_at p header in
    store-Holds (store m 0 (zeros (sign_extend (block_size header)))) body (
      ground (
        arith,
        length-zeros (sign_extend (block_size header)),
        get_or-zeros (sign_extend (block_size header)) (length body),
      ))

fill_block-fits :
    (size : ℕ) (p : List ℕ) (header : MsgHeader)
    → 8 + header.data_size ≤ length p
    → length p < 2 ^ 31
    → header.data_size < size
    → fits size p header ≡ true
unfolding fits
fill_block-fits size p header h lt room = ground (arith, length-payload_at p header h)

-- From one state to a later one: every write has stayed in its block, and as many blocks have been
-- given back as have been taken.
pub record Balanced (c c' : MsgCache) : Type 0 where
  pub size : c'.cache_size ≡ c.cache_size
  pub inside : c'.in_bounds ≡ c.in_bounds
  pub freed : c'.news + c.deletes ≡ c.news + c'.deletes

pub same-Balanced : (c : MsgCache) → Balanced c c
same-Balanced c = record { size = refl; inside = refl; freed = refl }

pub trans-Balanced : (a b c : MsgCache) → Balanced a b → Balanced b c → Balanced a c
trans-Balanced a b c v w = record {
  size = w.size ∙ v.size;
  inside = w.inside ∙ v.inside;
  freed = omega (arith, v.freed, w.freed);
}

module _ {H : Type 0} (hub : BlockHub H) where
  -- What `handle_msg` makes of a block depends on the bytes of the message and the 0 behind them, and
  -- on nothing else that the block holds.
  unfoldable pub Reads : Type 0
  Reads =
      (h : H) (type : ℕ) (body : List ℕ) (m m' : Memory)
      → Holds m body
      → Holds m' body
      → (hub.handle_block h type m).0 ≡ (hub.handle_block h type m').0

  -- The same application, handed the bytes of each message.
  unfoldable pub by_bytes : TcpClientHub H
  by_bytes = record {
    handle_msg = λ h type body. (hub.handle_block h type (store (λ i. 0) 0 body)).0;
  }

module _ {H : Type 0} (hub : BlockHub H) (heap : ℕ → Memory) where
  pub handle_frame-Balanced :
      (h : H) (c : MsgCache) (p : List ℕ) (header : MsgHeader)
      → 8 + header.data_size ≤ length p
      → length p < 2 ^ 31
      → c.cache_size < 2 ^ 31
      → Balanced c (handle_frame hub heap h c p header).1
  unfolding handle_frame
  handle_frame-Balanced h c p header fit lt small =
      elim (Bool-cases (int_lt c.cache_size (block_size header))) [
        | inl e ↦
            let ok =
              fill_block-fits (sign_extend (block_size header)) p header fit lt (ground arith) in
            rw (e, ok) record { size = refl; inside = ground arith; freed = omega arith }
        | inr e ↦
            let ok = fill_block-fits c.cache_size p header fit lt (ground (arith, e)) in
            rw (e, ok) record { size = refl; inside = ground arith; freed = refl }
      ]

  pub handle_frame-by_bytes :
      (h : H) (c : MsgCache) (p : List ℕ) (header : MsgHeader)
      → Reads hub
      → 8 + header.data_size ≤ length p
      → length p < 2 ^ 31
      → (handle_frame hub heap h c p header).0
        ≡ (by_bytes hub).handle_msg h header.type (payload_at p header)
  unfolding handle_frame Reads by_bytes
  handle_frame-by_bytes h c p header reads fit lt =
      let body = payload_at p header in
      let plain = store-Holds (λ i. 0) body refl in
      elim (Bool-cases (int_lt c.cache_size (block_size header))) [
        | inl e ↦
            rw e
              (reads h header.type body _ _ (fill_block-Holds (heap c.news) p header fit lt) plain)
        | inr e ↦
            rw e (reads h header.type body _ _ (fill_block-Holds c.msg_cache p header fit lt) plain)
      ]
