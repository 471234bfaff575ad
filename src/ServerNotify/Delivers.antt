-- ===== src/ServerNotify/Delivers.antt =====
-- What `OnRecvData` promises: it hands over the whole frames at the front of the data, in order,
-- until one is refused or no whole frame is left, and returns the bytes that they took.
use linux_tcp_lib.Prelude.{
  ℕ, zero, suc, ◌+◌, ◌^◌, ◌≤◌, ◌<◌, ◌≡◌, refl, sym, ap, ◌∙◌, inl, inr, Bool, true, false, none,
  some, List, arith, if◌then◌else◌, Bool-cases, Option-cases, length, drop, length-drop, drop-drop,
}
use native.Mathlib.Nat.{add_assoc, add-zero}
use linux_tcp_lib.Words.{add64, sign_extend}
use linux_tcp_lib.Frame.{MsgHeader, payload_at}
use linux_tcp_lib.Frame.Ready.{whole_frame, frame_ready-drop, whole_frame-eq-some}
use linux_tcp_lib.ServerNotify.{TcpServerHub, read_loop, on_recv_data}

module _ {H : Type 0} (hub : TcpServerHub H) (clientid : ℕ) where
  pub data Delivers : H → List ℕ → ℕ → H → Type 0 where
    stop :
        {h h' : H} {p : List ℕ} {n : ℕ} → whole_frame p ≡ none → n ≡ 0 → h' ≡ h → Delivers h p n h'
    refuse :
        {h h' : H} {p : List ℕ} {n : ℕ} (header : MsgHeader)
        → whole_frame p ≡ some header
        → hub.on_read h clientid header (payload_at p header) ≡ (false, h')
        → n ≡ 0
        → Delivers h p n h'
    accept :
        {h h' : H} {p : List ℕ} {n : ℕ} (header : MsgHeader) (h₁ : H) (m : ℕ)
        → whole_frame p ≡ some header
        → hub.on_read h clientid header (payload_at p header) ≡ (true, h₁)
        → n ≡ 8 + header.data_size + m
        → Delivers h₁ (drop (8 + header.data_size) p) m h'
        → Delivers h p n h'

  -- Never more than there is.
  pub Delivers-le : {h h' : H} {p : List ℕ} {n : ℕ} → Delivers h p n h' → n ≤ length p
  Delivers-le (stop e z k) = omega arith
  Delivers-le (refuse header e r z) = omega arith
  Delivers-le {p = p} (accept header h₁ m e r z d) =
      omega
        (arith, Delivers-le d, (whole_frame-eq-some p e).2, length-drop (8 + header.data_size) p)

  -- One round of the loop at a whole frame.
  read_loop-frame :
      (fuel pos : ℕ) (buf : List ℕ) (h : H) (header : MsgHeader) (b : Bool) (h₁ : H)
      → length buf < 2 ^ 31
      → pos ≤ length buf
      → whole_frame (drop pos buf) ≡ some header
      → hub.on_read h clientid header (payload_at (drop pos buf) header) ≡ (b, h₁)
      → read_loop hub clientid (suc fuel) (length buf) buf pos h ≡ (
          if b
          then read_loop hub clientid fuel (length buf) buf (pos + (8 + header.data_size)) h₁
          else some (pos, h₁))
  unfolding read_loop
  read_loop-frame fuel pos buf h header b h₁ lt le e r =
      let fits = (whole_frame-eq-some (drop pos buf) e).2 in
      let next : add64 pos (add64 8 (sign_extend header.data_size)) ≡ pos + (8 + header.data_size) =
        ground (arith, length-drop pos buf) in
      rw (frame_ready-drop pos buf lt le, e, read_loop, r, next)

  read_loop-end :
      (fuel pos : ℕ) (buf : List ℕ) (h : H)
      → length buf < 2 ^ 31
      → pos ≤ length buf
      → whole_frame (drop pos buf) ≡ none
      → read_loop hub clientid (suc fuel) (length buf) buf pos h ≡ some (pos + 0, h)
  unfolding read_loop
  read_loop-end fuel pos buf h lt le e =
      rw (frame_ready-drop pos buf lt le, e, read_loop) (ap (λ k. some (k, h)) (sym (add-zero pos)))

  Runs : ℕ → ℕ → List ℕ → H → Type 0
  Runs fuel pos buf h =
      (n : ℕ) × (h' : H) × (read_loop hub clientid fuel (length buf) buf pos h ≡ some (pos + n, h'))
      × Delivers h (drop pos buf) n h'

  -- The loop runs to its end on a round of fuel for each byte left.
  read_loop-Delivers :
      (fuel pos : ℕ) (buf : List ℕ) (h : H)
      → length buf < 2 ^ 31
      → pos ≤ length buf
      → length buf < pos + fuel
      → Runs fuel pos buf h
  unfolding Runs
  read_loop-Delivers zero pos buf h lt le enough = absurd (omega arith)
  read_loop-Delivers (suc fuel) pos buf h lt le enough =
      elim (Option-cases (whole_frame (drop pos buf))) [
        | inl e ↦ (0, h, read_loop-end fuel pos buf h lt le e, stop e refl refl)
        | inr (header, e) ↦
            let r = hub.on_read h clientid header (payload_at (drop pos buf) header) in
            let fits = (whole_frame-eq-some (drop pos buf) e).2 in
            let bound = length-drop pos buf in
            let size = 8 + header.data_size in
            elim (Bool-cases r.0) [
              | inl good ↦
                  let (m, h', ran, d) =
                    read_loop-Delivers fuel (pos + size) buf r.1 lt (omega arith) (omega arith) in
                  let answer : r ≡ (true, r.1) = ap (λ b. (b, r.1)) good in
                  (
                    size + m,
                    h',
                    read_loop-frame fuel pos buf h header true r.1 lt le e answer
                        ∙ ran
                        ∙ ap (λ k. some (k, h')) (add_assoc pos size m),
                    accept header r.1 m e answer refl (rw (drop-drop pos size buf) d),
                  )
              | inr bad ↦
                  let answer : r ≡ (false, r.1) = ap (λ b. (b, r.1)) bad in
                  (
                    0,
                    r.1,
                    read_loop-frame fuel pos buf h header false r.1 lt le e answer
                        ∙ ap (λ k. some (k, r.1)) (sym (add-zero pos)),
                    refuse header e answer refl,
                  )
            ]
      ]

  -- A call with data returns, and does what it promises.
  pub on_recv_data-Delivers :
      (h : H) (buf : List ℕ)
      → 0 < clientid
      → 0 < length buf
      → length buf < 2 ^ 31
      → (n : ℕ) × (h' : H) × (on_recv_data hub clientid h (some buf) (length buf) ≡ some (n, h'))
        × Delivers h buf n h'
  unfolding on_recv_data Runs
  on_recv_data-Delivers h buf id some_data lt =
      let (n, h', ran, d) =
        read_loop-Delivers (suc (length buf)) 0 buf h lt (omega arith) (omega arith) in
      (n, h', ground (arith, ran), d)
