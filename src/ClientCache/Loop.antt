-- ===== src/ClientCache/Loop.antt =====
-- The receive loop of the client with the blocks that it copies each message to.
use linux_tcp_lib.Prelude.{
  ℕ, zero, suc, ◌+◌, ◌-◌, ◌^◌, ◌≤◌, ◌<◌, ◌≡◌, refl, sym, ◌∙◌, inl, inr, true, Option, none, some,
  List, [], ◌∷◌, arith, ◌==◌, Bool-cases, Option-cases, length, drop, length-drop,
}
use linux_tcp_lib.Words.{add64, sign_extend}
use linux_tcp_lib.Memory.{Memory}
use linux_tcp_lib.Frame.{MsgHeader, payload_at}
use linux_tcp_lib.Frame.Ready.{whole_frame, frame_ready-drop, whole_frame-eq-some}
use linux_tcp_lib.ClientNotify.{TcpClientHub}
use linux_tcp_lib.ClientNotify as Client
use linux_tcp_lib.ClientCache.{BlockHub, MsgCache, handle_frame, read_loop, on_recv_data}
use linux_tcp_lib.ClientCache.{tcp_client_notify, delete_cache}
use linux_tcp_lib.ClientCache.Blocks.{
  Balanced, same-Balanced, trans-Balanced, Reads, by_bytes, handle_frame-Balanced,
  handle_frame-by_bytes,
}

-- Each call is handed fewer than 2 ^ 31 bytes.
unfoldable pub AllSmall : List (List ℕ) → Type 0
AllSmall [] = Unit {0}
AllSmall (buf ∷ bufs) = (length buf < 2 ^ 31) × AllSmall bufs

module _ {H : Type 0} (hub : BlockHub H) (heap : ℕ → Memory) where
  -- One round of each loop at a whole frame, and at the end.
  read_loop-frame :
      (fuel pos : ℕ) (buf : List ℕ) (h : H) (c : MsgCache) (header : MsgHeader)
      → length buf < 2 ^ 31
      → pos ≤ length buf
      → whole_frame (drop pos buf) ≡ some header
      → let step = handle_frame hub heap h c (drop pos buf) header in
        read_loop hub heap (suc fuel) (length buf) buf pos h c
        ≡ read_loop hub heap fuel (length buf) buf (pos + (8 + header.data_size)) step.0 step.1
  unfolding read_loop
  read_loop-frame fuel pos buf h c header lt le e =
      let fit = (whole_frame-eq-some (drop pos buf) e).2 in
      let next : add64 pos (add64 8 (sign_extend header.data_size)) ≡ pos + (8 + header.data_size) =
        ground (arith, length-drop pos buf) in
      rw (frame_ready-drop pos buf lt le, e, read_loop, next)

  plain_frame :
      (fuel pos : ℕ) (buf : List ℕ) (h h₁ : H) (header : MsgHeader)
      → length buf < 2 ^ 31
      → pos ≤ length buf
      → whole_frame (drop pos buf) ≡ some header
      → (by_bytes hub).handle_msg h header.type (payload_at (drop pos buf) header) ≡ h₁
      → Client.read_loop (by_bytes hub) (suc fuel) (length buf) buf pos h
        ≡ Client.read_loop (by_bytes hub) fuel (length buf) buf (pos + (8 + header.data_size)) h₁
  unfolding Client.read_loop
  plain_frame fuel pos buf h h₁ header lt le e same =
      let fit = (whole_frame-eq-some (drop pos buf) e).2 in
      let next : add64 pos (add64 8 (sign_extend header.data_size)) ≡ pos + (8 + header.data_size) =
        ground (arith, length-drop pos buf) in
      rw (frame_ready-drop pos buf lt le, e, Client.read_loop, same, next)

  loops_end :
      (fuel pos : ℕ) (buf : List ℕ) (h : H) (c : MsgCache)
      → length buf < 2 ^ 31
      → pos ≤ length buf
      → whole_frame (drop pos buf) ≡ none
      → (read_loop hub heap (suc fuel) (length buf) buf pos h c ≡ some (pos, h, c))
        × (Client.read_loop (by_bytes hub) (suc fuel) (length buf) buf pos h ≡ some (pos, h))
  unfolding read_loop Client.read_loop
  loops_end fuel pos buf h c lt le e =
      let ends = frame_ready-drop pos buf lt le in
      (rw (ends, e, read_loop) refl, rw (ends, e, Client.read_loop) refl)

  -- The loops with and without blocks, on a round of fuel for each byte left.
  Runs : ℕ → ℕ → List ℕ → H → MsgCache → Type 0
  Runs fuel pos buf h c =
      (n : ℕ) × (h' : H) × (c' : MsgCache) × (read_loop hub heap fuel (length buf) buf pos h c
        ≡ some (n, h', c'))
      × (Client.read_loop (by_bytes hub) fuel (length buf) buf pos h ≡ some (n, h'))
      × Balanced c c'

  read_loop-Runs :
      (fuel pos : ℕ) (buf : List ℕ) (h : H) (c : MsgCache)
      → Reads hub
      → c.cache_size < 2 ^ 31
      → length buf < 2 ^ 31
      → pos ≤ length buf
      → length buf < pos + fuel
      → Runs fuel pos buf h c
  unfolding Runs
  read_loop-Runs zero pos buf h c reads small lt le enough = absurd (omega arith)
  read_loop-Runs (suc fuel) pos buf h c reads small lt le enough =
      elim (Option-cases (whole_frame (drop pos buf))) [
        | inl e ↦
            let ends = loops_end fuel pos buf h c lt le e in
            (pos, h, c, ends.0, ends.1, same-Balanced c)
        | inr (header, e) ↦
            let p = drop pos buf in
            let bound = length-drop pos buf in
            let fit = (whole_frame-eq-some p e).2 in
            let short : length p < 2 ^ 31 = omega arith in
            let step = handle_frame hub heap h c p header in
            let same = handle_frame-by_bytes hub heap h c p header reads fit short in
            let kept = handle_frame-Balanced hub heap h c p header fit short small in
            let (n, h', c', ran, plain, rest) =
              read_loop-Runs fuel (pos + (8 + header.data_size)) buf step.0 step.1 reads
                (omega (arith, kept.size)) lt (omega arith) (omega arith) in
            (
              n,
              h',
              c',
              read_loop-frame fuel pos buf h c header lt le e ∙ ran,
              plain_frame fuel pos buf h step.0 header lt le e (sym same) ∙ plain,
              trans-Balanced c step.1 c' kept rest,
            )
      ]

  -- For an application that reads of each block only the message and the 0 behind it, and for at most
  -- 2 ^ 31 - 1 bytes: `OnRecvData` comes to its end; it returns the number, and leaves the application
  -- in the state, that it would if the application were handed the bytes of each message themselves,
  -- whatever older messages, `new` or the application left in the blocks; every write stays inside its
  -- block; and each block that it takes is given back.
  pub on_recv_data-by_bytes :
      (h : H) (c : MsgCache) (buf : List ℕ)
      → Reads hub
      → c.cache_size < 2 ^ 31
      → length buf < 2 ^ 31
      → (n : ℕ) × (h' : H) × (c' : MsgCache) × (on_recv_data hub heap h c (some buf) (length buf)
          ≡ some (n, h', c'))
        × (Client.on_recv_data (by_bytes hub) h (some buf) (length buf) ≡ some (n, h'))
        × Balanced c c'
  unfolding on_recv_data Client.on_recv_data Runs
  on_recv_data-by_bytes h c buf reads small lt = elim (Bool-cases (length buf == 0)) [
    | inl e ↦ rw e (2 ^ 64 - 1, h, c, refl, refl, same-Balanced c)
    | inr e ↦
        rw e
          (read_loop-Runs (suc (length buf)) 0 buf h c reads small lt (omega arith) (omega arith))
  ]

  -- A client's calls one after the other.
  unfoldable pub on_calls : H → MsgCache → List (List ℕ) → Option (H × MsgCache)
  on_calls h c [] = some (h, c)
  on_calls h c (buf ∷ bufs) = elim (on_recv_data hub heap h c (some buf) (length buf)) [
    | none ↦ none
    | some (n, h', c') ↦ on_calls h' c' bufs
  ]

  on_calls-Balanced :
      (h : H) (c : MsgCache) (bufs : List (List ℕ))
      → Reads hub
      → c.cache_size < 2 ^ 31
      → AllSmall bufs
      → (h' : H) × (c' : MsgCache) × (on_calls h c bufs ≡ some (h', c')) × Balanced c c'
  unfolding on_calls AllSmall
  on_calls-Balanced h c [] reads small lt = (h, c, refl, same-Balanced c)
  on_calls-Balanced h c (buf ∷ bufs) reads small lt =
      let (n, h₁, c₁, ran, plain, kept) = on_recv_data-by_bytes h c buf reads small lt.0 in
      let (h', c', rest, kept') =
        on_calls-Balanced h₁ c₁ bufs reads (omega (arith, kept.size)) lt.1 in
      (h', c', rw (on_calls, ran) rest, trans-Balanced c c₁ c' kept kept')

  -- Over the life of a client, from its constructor over any calls to its destructor: every call
  -- returns, no write leaves a block, and as many blocks are given back as are taken.
  pub life_freed :
      (h : H) (bufs : List (List ℕ))
      → Reads hub
      → AllSmall bufs
      → (h' : H) × (c' : MsgCache) × (on_calls h (tcp_client_notify heap) bufs ≡ some (h', c'))
        × ((delete_cache c').news ≡ (delete_cache c').deletes)
        × (c'.in_bounds ≡ true)
  unfolding tcp_client_notify delete_cache
  life_freed h bufs reads lt =
      let (h', c', ran, kept) =
        on_calls-Balanced h (tcp_client_notify heap) bufs reads (omega arith) lt in
      (h', c', ran, omega (arith, kept.freed), kept.inside)
