-- ===== src/ServerNotify/Stream.antt =====
-- How messages come out of the byte stream: the format's round trip, the independence of how TCP
-- cuts the stream into segments, and what a malformed header does.
use native.Mathlib.Nat.{add_assoc, zero-add}
use linux_tcp_lib.Prelude.{
  ℕ, ◌+◌, ◌^◌, ◌≤◌, ◌<◌, ◌≡◌, refl, sym, ap, ap₂, ◌∙◌, ◌⊎◌, Bool, true, none, some, List, [], ◌∷◌,
  ◌++◌, append_assoc, arith, length, drop, length-append, length-drop, drop-append_le,
  drop-length-append, drop-drop,
}
use mathlib.Core.Bool.{true≢false}
use mathlib.Core.Option.{some-injective}
use mathlib.Core.Path.{subst₂}
use linux_tcp_lib.Frame.{MsgHeader, Message, encode, encode_all, payload_at, header_at}
use linux_tcp_lib.Frame.Ready.{
  whole_frame, whole_frame-eq-some, whole_frame-append, whole_frame-encode, whole_frame-bad,
  payload_at-append, payload_at-encode, length-encode,
}
use linux_tcp_lib.ServerNotify.{TcpServerHub, on_recv_data}
use linux_tcp_lib.ServerNotify.Delivers.{
  Delivers, stop, refuse, accept, Delivers-le, on_recv_data-Delivers,
}

-- A message that the format can carry: an `int` type, and a body that is not empty.
abbrev pub IsSendable : Message → Type 0
IsSendable m = (m.type < 2 ^ 32) × (0 < length m.body) × (length m.body < 2 ^ 31)

abbrev pub AllSendable : List Message → Type 0
AllSendable [] = Unit {0}
AllSendable (m ∷ ms) = IsSendable m × AllSendable ms

abbrev pub header_of : Message → MsgHeader
header_of m = record { type = m.type; data_size = length m.body }

module _ {H : Type 0} (hub : TcpServerHub H) (clientid : ℕ) where
  -- The hub takes every message.
  abbrev pub Accepts : Type 0
  Accepts =
      (h : H) (header : MsgHeader) (body : List ℕ) → (hub.on_read h clientid header body).0 ≡ true

  -- The hub after it has been handed the messages one by one.
  unfoldable pub hand_over : H → List Message → H
  hand_over h [] = h
  hand_over h (m ∷ ms) = hand_over (hub.on_read h clientid (header_of m) m.body).1 ms

  pub encode_all-Delivers :
      (ms : List Message) (rest : List ℕ) (h : H)
      → Accepts
      → AllSendable ms
      → whole_frame rest ≡ none
      → Delivers hub clientid h (encode_all ms ++ rest) (length (encode_all ms)) (hand_over h ms)
  unfolding encode_all hand_over
  encode_all-Delivers [] rest h all ok part = stop part refl refl
  encode_all-Delivers (m ∷ ms) rest h all (good, ok) part =
      let after = (hub.on_read h clientid (header_of m) m.body).1 in
      let tail_bytes = encode_all ms ++ rest in
      let whole : List ℕ = encode m ++ tail_bytes in
      let size = length-encode m in
      let rest_is : drop (8 + length m.body) whole ≡ tail_bytes =
        ap (λ k. drop k whole) (sym size) ∙ drop-length-append (encode m) tail_bytes in
      rw (append_assoc (encode m) (encode_all ms) rest) (
        accept (header_of m) after (length (encode_all ms))
          (whole_frame-encode m tail_bytes good.0 good.1 good.2)
          (rw (payload_at-encode m tail_bytes m.type)
            (ap (λ b. (b, after)) (all h (header_of m) m.body)))
          (length-append (encode m) (encode_all ms) ∙ ap (λ k. k + length (encode_all ms)) size)
          (rw rest_is (encode_all-Delivers ms rest after all ok part)))

  -- Segmentation does not matter: what a first call leaves is delivered by a second call, with the
  -- data that has come since, exactly as one call would have delivered the whole.
  pub Delivers-append :
      {h h₁ h₂ : H} {p : List ℕ} {n m : ℕ} (q : List ℕ)
      → Accepts
      → Delivers hub clientid h p n h₁
      → Delivers hub clientid h₁ (drop n p ++ q) m h₂
      → Delivers hub clientid h (p ++ q) (n + m) h₂
  Delivers-append {h} {h₁} {h₂} {p} {n} {m} q all (stop e z k) d =
      rw (z, zero-add m) (rw (z, k) at d)
  Delivers-append {h} {h₁} {h₂} {p} {n} {m} q all (refuse header e r z) d =
      absurd (true≢false (sym (all h header (payload_at p header)) ∙ ap (λ a. a.0) r))
  Delivers-append {h} {h₁} {h₂} {p} {n} {m} q all (accept header h₃ k e r z d') d =
      let fits = (whole_frame-eq-some p e).2 in
      let size = 8 + header.data_size in
      let cut = drop-append_le size p q fits in
      let left : drop n p ≡ drop k (drop size p) =
        ap (λ i. drop i p) z ∙ sym (drop-drop size k p) in
      accept header h₃ (k + m) (whole_frame-append p q e) (rw (payload_at-append p q header fits) r)
        (ap (λ i. i + m) z ∙ add_assoc size k m) (rw cut (Delivers-append q all d' (rw (← left) d)))

  answers_eq :
      (h : H) (p : List ℕ) {header header' : MsgHeader} {a a' : Bool × H}
      → whole_frame p ≡ some header
      → whole_frame p ≡ some header'
      → hub.on_read h clientid header (payload_at p header) ≡ a
      → hub.on_read h clientid header' (payload_at p header') ≡ a'
      → a ≡ a'
  answers_eq h p {header} {header'} e e' r r' =
      let same : header ≡ header' = some-injective _ _ (sym e ∙ e') in
      sym r ∙ ap (λ i. hub.on_read h clientid i (payload_at p i)) same ∙ r'

  pub Delivers-unique :
      {h h₁ h₂ : H} {p : List ℕ} {n m : ℕ}
      → Delivers hub clientid h p n h₁
      → Delivers hub clientid h p m h₂
      → (n ≡ m) × (h₁ ≡ h₂)
  Delivers-unique (stop e z k) (stop e' z' k') = (z ∙ sym z', k ∙ sym k')
  Delivers-unique (stop e z k) (refuse header e' r' z') = cc
  Delivers-unique (stop e z k) (accept header h₁ m e' r' z' d') = cc
  Delivers-unique (refuse header e r z) (stop e' z' k') = cc
  Delivers-unique {h} {p = p} (refuse header e r z) (refuse header' e' r' z') =
      let same = answers_eq h p e e' r r' in (z ∙ sym z', ap (λ a. a.1) same)
  Delivers-unique {h} {p = p} (refuse header e r z) (accept header' h₁ m e' r' z' d') =
      absurd (true≢false (sym (ap (λ a. a.0) (answers_eq h p e e' r r'))))
  Delivers-unique (accept header h₁ m e r z d) (stop e' z' k') = cc
  Delivers-unique {h} {p = p} (accept header h₁ m e r z d) (refuse header' e' r' z') =
      absurd (true≢false (ap (λ a. a.0) (answers_eq h p e e' r r')))
  Delivers-unique {h} {h₂ = h₂} {p = p} (accept header h₁ m e r z d)
        (accept header' h₁' m' e' r' z' d') =
      let same = ap (λ a. a.1) (answers_eq h p e e' r r') in
      let size : header'.data_size ≡ header.data_size =
        ap (λ i. i.data_size) (some-injective _ _ (sym e' ∙ e)) in
      let moved : Delivers hub clientid h₁ (drop (8 + header.data_size) p) m' h₂ =
        rw (same, ← size) d' in
      let (mm, hh) = Delivers-unique d moved in (omega arith, hh)

  -- A hub that takes every message leaves no whole frame.
  pub Delivers-rest :
      {h h' : H} {p : List ℕ} {n : ℕ}
      → Accepts
      → Delivers hub clientid h p n h'
      → whole_frame (drop n p) ≡ none
  Delivers-rest {p = p} all (stop e z k) = rw z e
  Delivers-rest {h} {p = p} all (refuse header e r z) =
      absurd (true≢false (sym (all h header (payload_at p header)) ∙ ap (λ a. a.0) r))
  Delivers-rest {p = p} all (accept header h₁ m e r z d) =
      rw (z, ← drop-drop (8 + header.data_size) m p) (Delivers-rest all d)

  -- What a call returns is what `Delivers` allows, and that is one outcome.
  returns :
      {h h' : H} {n : ℕ} (buf : List ℕ)
      → 0 < clientid
      → 0 < length buf
      → length buf < 2 ^ 31
      → Delivers hub clientid h buf n h'
      → on_recv_data hub clientid h (some buf) (length buf) ≡ some (n, h')
  returns {h} {h'} {n} buf id pos lt d =
      let (m, h₁, ran, d₁) = on_recv_data-Delivers hub clientid h buf id pos lt in
      let (same_n, same_h) = Delivers-unique d₁ d in ran ∙ ap₂ (λ i j. some (i, j)) same_n same_h

  pub delivered :
      {h h' : H} {n : ℕ} (buf : List ℕ)
      → 0 < clientid
      → 0 < length buf
      → length buf < 2 ^ 31
      → on_recv_data hub clientid h (some buf) (length buf) ≡ some (n, h')
      → Delivers hub clientid h buf n h'
  delivered {h} {h'} {n} buf id pos lt e =
      let (m, h₁, ran, d₁) = on_recv_data-Delivers hub clientid h buf id pos lt in
      let same : (m, h₁) ≡ (n, h') = some-injective _ _ (sym ran ∙ e) in
      subst₂ (λ i j. Delivers hub clientid h buf i j) (ap (λ t. t.0) same) (ap (λ t. t.1) same) d₁

  -- For a client id that is not 0, and 1 to 2 ^ 31 - 1 bytes, the call returns, and the number that
  -- it returns is at most the number of bytes it was given.
  pub on_recv_data-le :
      (h : H) (buf : List ℕ)
      → 0 < clientid
      → 0 < length buf
      → length buf < 2 ^ 31
      → (n : ℕ) × (h' : H) × (on_recv_data hub clientid h (some buf) (length buf) ≡ some (n, h'))
        × (n ≤ length buf)
  on_recv_data-le h buf id pos lt =
      let (n, h', ran, d) = on_recv_data-Delivers hub clientid h buf id pos lt in
      (n, h', ran, Delivers-le hub clientid d)

  -- For a client id that is not 0 and a hub that takes every message: given the encodings of
  -- messages that are sendable, and behind them bytes that begin with no whole frame, together 1 to
  -- 2 ^ 31 - 1 bytes, the call hands exactly those messages to the hub, in order, and returns the
  -- length of their encodings.
  pub on_recv_data-encode_all :
      (h : H) (ms : List Message) (rest : List ℕ)
      → Accepts
      → AllSendable ms
      → whole_frame rest ≡ none
      → 0 < clientid
      → 0 < length (encode_all ms ++ rest)
      → length (encode_all ms ++ rest) < 2 ^ 31
      → on_recv_data hub clientid h (some (encode_all ms ++ rest)) (length (encode_all ms ++ rest))
        ≡ some (length (encode_all ms), hand_over h ms)
  on_recv_data-encode_all h ms rest all ok part id pos lt =
      returns (encode_all ms ++ rest) id pos lt (encode_all-Delivers ms rest h all ok part)

  -- How TCP cuts the stream does not matter. For a client id that is not 0 and a hub that takes
  -- every message: a call on `p`, and a call on what it left followed by `q`, have the same effect
  -- on the hub and take as many bytes together as one call on `p ++ q`, where each call is given
  -- at least one byte and `p ++ q` has fewer than 2 ^ 31.
  pub on_recv_data-append :
      (h h₁ h₂ : H) (p q : List ℕ) (n m : ℕ)
      → Accepts
      → 0 < clientid
      → 0 < length p
      → 0 < length (drop n p ++ q)
      → length (p ++ q) < 2 ^ 31
      → on_recv_data hub clientid h (some p) (length p) ≡ some (n, h₁)
      → on_recv_data hub clientid h₁ (some (drop n p ++ q)) (length (drop n p ++ q)) ≡ some (m, h₂)
      → on_recv_data hub clientid h (some (p ++ q)) (length (p ++ q)) ≡ some (n + m, h₂)
  on_recv_data-append h h₁ h₂ p q n m all id some_p some_q lt first second =
      let whole = length-append p q in
      let left = length-append (drop n p) q in
      let cut = length-drop n p in
      let d₁ = delivered p id some_p (omega arith) first in
      let d₂ = delivered (drop n p ++ q) id some_q (omega arith) second in
      returns (p ++ q) id (omega arith) lt (Delivers-append q all d₁ d₂)

  -- A header whose size is 0 or negative is never taken: with such a header at the front of the
  -- data, and whatever has come behind it, up to 2 ^ 31 - 1 bytes, the call for a client id that is
  -- not 0 returns 0 and does not call the hub.
  pub on_recv_data-bad_header :
      (h : H) (p q : List ℕ)
      → 0 < clientid
      → 8 ≤ length p
      → ((header_at p).data_size ≡ 0) ⊎ (2 ^ 31 ≤ (header_at p).data_size)
      → length (p ++ q) < 2 ^ 31
      → on_recv_data hub clientid h (some (p ++ q)) (length (p ++ q)) ≡ some (0, h)
  on_recv_data-bad_header h p q id size bad lt =
      returns (p ++ q) id (omega (arith, length-append p q)) lt
        (stop (whole_frame-bad p q size bad lt) refl refl)
