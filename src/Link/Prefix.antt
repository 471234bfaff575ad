-- ===== src/Link/Prefix.antt =====
-- What `OnRecvData` makes of a part of a stream of encoded messages.
use mathlib.Core.Bool.{true≢false}
use mathlib.Core.Option.{some-injective}
use linux_tcp_lib.Prelude.{
  ℕ, ◌+◌, ◌≡◌, refl, sym, ap, ap₂, ◌∙◌, List, [], ◌∷◌, ◌++◌, arith, length, drop, length-append,
  drop-append_le, drop-length-append, drop-drop,
}
use linux_tcp_lib.Frame.{Message, encode, encode_all, payload_at}
use linux_tcp_lib.Frame.Ready.{
  whole_frame, whole_frame-eq-some, whole_frame-append, whole_frame-encode, payload_at-append,
  payload_at-encode, length-encode,
}
use linux_tcp_lib.ServerNotify.{TcpServerHub}
use linux_tcp_lib.ServerNotify.Delivers.{Delivers, stop, refuse, accept}
use linux_tcp_lib.ServerNotify.Stream.{AllSendable, Accepts, header_of, hand_over}

module _ {H : Type 0} (hub : TcpServerHub H) (clientid : ℕ) where
  -- Of the messages `ms` some are done, and the others are still in the bytes that are left.
  pub record Split (h : H) (p later : List ℕ) (ms : List Message) (n : ℕ) (h' : H) : Type 0 where
    pub done : List Message
    pub left : List Message
    pub all : ms ≡ done ++ left
    pub sendable : AllSendable left
    pub handed : h' ≡ hand_over hub clientid h done
    pub bytes : drop n p ++ later ≡ encode_all left

  pub Delivers-Split :
      {h h' : H} {p : List ℕ} {n : ℕ} (later : List ℕ) (ms : List Message)
      → Accepts hub clientid
      → AllSendable ms
      → p ++ later ≡ encode_all ms
      → Delivers hub clientid h p n h'
      → Split h p later ms n h'
  unfolding hand_over encode_all
  Delivers-Split {p = p} later ms takes ok e (stop none_whole z k) = record {
    done = [];
    left = ms;
    all = refl;
    sendable = ok;
    handed = k;
    bytes = rw z e;
  }
  Delivers-Split {h} {p = p} later ms takes ok e (refuse header w r z) =
      absurd (true≢false (sym (takes h header (payload_at p header)) ∙ ap (λ a. a.0) r))
  Delivers-Split {p = p} later [] takes ok e (accept header h₁ m w r z d) =
      let (is, pos, fits) = whole_frame-eq-some p w in
      absurd (omega (arith, ap length e, length-append p later))
  Delivers-Split {h} {h'} {p} {n} later (x ∷ ms) takes ok e (accept header h₁ m w r z d) =
      let tail_bytes = encode_all ms in
      let (is, pos, fits) = whole_frame-eq-some p w in
      let same : header ≡ header_of x = some-injective _ _ (
        sym (whole_frame-append p later w)
        ∙ ap whole_frame e
        ∙ whole_frame-encode x tail_bytes ok.0.0 ok.0.1 ok.0.2) in
      let body : payload_at p header ≡ x.body =
        sym (payload_at-append p later header fits)
        ∙ ap₂ payload_at e same
        ∙ payload_at-encode x tail_bytes x.type in
      let size : 8 + header.data_size ≡ length (encode x) =
        ap (λ i. 8 + i.data_size) same ∙ sym (length-encode x) in
      let rest : drop (8 + header.data_size) p ++ later ≡ tail_bytes =
        sym (drop-append_le (8 + header.data_size) p later fits)
        ∙ ap₂ drop size e
        ∙ drop-length-append (encode x) tail_bytes in
      let after : h₁ ≡ (hub.on_read h clientid (header_of x) x.body).1 =
        ap (λ a. a.1) (sym r) ∙ ap₂ (λ i b. (hub.on_read h clientid i b).1) same body in
      let s = Delivers-Split later ms takes ok.1 rest d in
      record {
        done = x ∷ s.done;
        left = s.left;
        all = ap (◌∷◌ x) s.all;
        sendable = s.sendable;
        handed = s.handed ∙ ap (λ i. hand_over hub clientid i s.done) after;
        bytes =
            ap (λ i. drop i p ++ later) z
            ∙ ap (λ l. l ++ later) (sym (drop-drop (8 + header.data_size) m p))
            ∙ s.bytes;
      }
