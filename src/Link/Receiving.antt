-- ===== src/Link/Receiving.antt =====
-- The client's loop on a stream of encoded messages, cut anywhere.
use linux_tcp_lib.Prelude.{
  ℕ, ◌+◌, ◌≤◌, ◌<◌, ◌≡◌, refl, sym, ap, ◌∙◌, ◌⊎◌, inl, inr, Bool, true, false, Option, some, List,
  [], ◌∷◌, ◌++◌, append_assoc, arith, ◌==◌, Bool-cases, Option-cases, length, drop, length-append,
}
use linux_tcp_lib.Frame.{Message, encode_all}
use linux_tcp_lib.ServerNotify.Stream.{AllSendable, delivered}
use linux_tcp_lib.ClientNotify.{TcpClientHub}
use linux_tcp_lib.ClientNotify.Same.{as_server, handle_all, hand_over-handle_all, on_recv_data-same}
use linux_tcp_lib.TcpClient.{
  TCliNotify, EasyTcpClient, ready, failed, SelectAnswer, select_failed, timeout, readable, is_run,
  close, recv_bytes, pending, recv_data, on_run,
}
use linux_tcp_lib.TcpClient.Buffer.{IsBuffer, length-pending}
use linux_tcp_lib.TcpClient.Stream.{Took, recv_data_lem, recv_bytes-fits}
use linux_tcp_lib.TcpClient.Closing.{client_notify, client_notify-Returns, close-is_run}
use linux_tcp_lib.Link.Prefix.{Split, Delivers-Split}

module _ {H : Type 0} (hub : TcpClientHub H) where
  abbrev t : TCliNotify H
  t = client_notify hub

  pub handle_all-append :
      (h : H) (ms ns : List Message)
      → handle_all hub h (ms ++ ns) ≡ handle_all hub (handle_all hub h ms) ns
  unfolding handle_all
  handle_all-append h [] ns = refl
  handle_all-append h (m ∷ ms) ns = handle_all-append (hub.handle_msg h m.type m.body) ms ns

  close-notify : (c : EasyTcpClient H) → (close t c).notify ≡ c.notify
  unfolding close client_notify
  close-notify c = elim (Option-cases c.sock) [
    | inl e ↦ rw (e, close) refl
    | inr (fd, e) ↦ rw (e, close) refl
  ]

  -- The client has stopped; or its loop goes on, and the messages `left` are what is pending, what is
  -- on its way and what comes later.
  abbrev pub State : Bool → EasyTcpClient H → List ℕ → List ℕ → List Message → Type 0
  State ended c wire later left =
      ((ended ≡ true) × (is_run t c ≡ false))
      ⊎ ((ended ≡ false)
          × IsBuffer c
          × AllSendable left
          × (pending t c ++ (wire ++ later) ≡ encode_all left))

  pub record Reads (h : H) (later : List ℕ) (ms : List Message)
      (out : Option (Bool × EasyTcpClient H × List ℕ)) : Type 0 where
    pub ended : Bool
    pub c' : EasyTcpClient H
    pub rest : List ℕ
    pub done : List Message
    pub left : List Message
    pub result : out ≡ some (ended, c', rest)
    pub all : ms ≡ done ++ left
    pub handled : c'.notify ≡ handle_all hub h done
    pub state : State ended c' rest later left

  positive : (n : ℕ) → (n == 0) ≡ false → 0 < n
  positive n e = ground arith

  -- One call of the callback.
  Took-Split :
      (c c' : EasyTcpClient H) (bytes : List ℕ) (k : ℕ) (later : List ℕ) (ms : List Message)
      → IsBuffer c
      → 0 < length bytes
      → c.write_index + length bytes ≤ 51200
      → AllSendable ms
      → (pending t c ++ bytes) ++ later ≡ encode_all ms
      → Took t c bytes k c'
      → Split (as_server hub) 1 c.notify (pending t c ++ bytes) later ms k c'.notify
  unfolding as_server client_notify
  Took-Split c c' bytes k later ms v pos fits ok e took =
      let p = pending t c ++ bytes in
      let whole = length-append (pending t c) bytes in
      let size = length-pending t c v in
      let bound = v.in_bounds in
      Delivers-Split (as_server hub) 1 later ms (λ h header body. refl) ok e
        (delivered (as_server hub) 1 p (omega arith) (omega arith) (omega arith)
          (sym (on_recv_data-same hub 1 c.notify (some p) (length p) (omega arith)) ∙ took.ran))

  -- The loop has ended at once.
  stopped :
      (c : EasyTcpClient H) (h : H) (incoming later : List ℕ) (ms done left : List Message)
      → is_run t c ≡ false
      → ms ≡ done ++ left
      → c.notify ≡ handle_all hub h done
      → Reads h later ms (some (true, c, incoming))
  stopped c h incoming later ms done left e all handled = record {
    ended = true;
    c' = c;
    rest = incoming;
    done = done;
    left = left;
    result = refl;
    all = all;
    handled = handled;
    state = inl (refl, e);
  }

  -- A call has handled some messages, and the rest of the loop handles others.
  resumed :
      {h h₁ : H} {later : List ℕ} {ms ns : List Message}
      {out : Option (Bool × EasyTcpClient H × List ℕ)} (done : List Message)
      → ms ≡ done ++ ns
      → h₁ ≡ handle_all hub h done
      → Reads h₁ later ns out
      → Reads h later ms out
  resumed {h} done all handled r = record {
    ended = r.ended;
    c' = r.c';
    rest = r.rest;
    done = done ++ r.done;
    left = r.left;
    result = r.result;
    all = all ∙ ap (◌++◌ done) r.all ∙ sym (append_assoc done r.done r.left);
    handled =
        r.handled
        ∙ ap (λ i. handle_all hub i r.done) handled
        ∙ sym (handle_all-append h done r.done);
    state = r.state;
  }

  gives_up :
      (c : EasyTcpClient H) (incoming later : List ℕ) (ms : List Message)
      → Reads c.notify later ms (some (true, close t c, incoming))
  unfolding handle_all
  gives_up c incoming later ms =
      stopped (close t c) c.notify incoming later ms [] ms (close-is_run t c) refl (close-notify c)

  is_off :
      (c : EasyTcpClient H) (incoming later : List ℕ) (ms : List Message)
      → is_run t c ≡ false
      → Reads c.notify later ms (some (true, c, incoming))
  unfolding handle_all
  is_off c incoming later ms off = stopped c c.notify incoming later ms [] ms off refl refl

  -- What the loop does from a client, a stream and messages on.
  abbrev Resumes : List SelectAnswer → Type 0
  Resumes answers =
      (c : EasyTcpClient H) (incoming later : List ℕ) (ms : List Message)
      → IsBuffer c
      → AllSendable ms
      → pending t c ++ (incoming ++ later) ≡ encode_all ms
      → Reads c.notify later ms (on_run t answers c incoming)

  -- `recv` has given bytes.
  ready-Reads :
      (answers : List SelectAnswer) (c : EasyTcpClient H) (k : ℕ) (incoming later : List ℕ)
      (ms : List Message)
      → Resumes answers
      → is_run t c ≡ true
      → 0 < length (recv_bytes t c k incoming)
      → IsBuffer c
      → AllSendable ms
      → pending t c ++ (incoming ++ later) ≡ encode_all ms
      → Reads c.notify later ms (on_run t (readable (ready k) ∷ answers) c incoming)
  unfolding on_run
  ready-Reads answers c k incoming later ms resume q some_bytes v ok e =
      let bytes = recv_bytes t c k incoming in
      let rest = drop (length bytes) incoming in
      elim (recv_data_lem t c k incoming (client_notify-Returns hub) v) [
        | inl (z, ran) ↦ rw (q, on_run, ran) (gives_up c incoming later ms)
        | inr (stream, (taken, c', ran, took)) ↦
            let cut : (pending t c ++ bytes) ++ (rest ++ later) ≡ encode_all ms =
              append_assoc (pending t c) bytes (rest ++ later)
              ∙ ap (◌++◌ (pending t c))
                  (sym (append_assoc bytes rest later) ∙ ap (λ l. l ++ later) stream)
              ∙ e in
            let s =
              Took-Split c c' bytes taken (rest ++ later) ms v some_bytes
                (recv_bytes-fits t c k incoming v) ok cut took in
            let handled = s.handed ∙ hand_over-handle_all hub c.notify s.done in
            elim (Bool-cases (taken == 0)) [
              | inl f ↦
                  rw (q, on_run, ran, f)
                    (resumed s.done s.all handled (gives_up c' rest later s.left))
              | inr f ↦
                  rw (q, on_run, ran, f)
                    (resumed s.done s.all handled (
                      resume c' rest later s.left took.buffer s.sendable
                        (ap (λ p. p ++ (rest ++ later)) took.left ∙ s.bytes)))
            ]
      ]

  -- For a sound buffer whose pending bytes, with those on their way and those that come later, are
  -- the encodings of sendable messages, however the stream is cut and whatever else `select` and
  -- `recv` answer: the loop returns; the application has handled the first of the messages, in
  -- order, each once; and the loop has ended with a client that no longer runs, or the bytes that
  -- are left are the encodings of the other messages.
  pub on_run-Reads :
      (answers : List SelectAnswer) (c : EasyTcpClient H) (incoming later : List ℕ)
      (ms : List Message)
      → IsBuffer c
      → AllSendable ms
      → pending t c ++ (incoming ++ later) ≡ encode_all ms
      → Reads c.notify later ms (on_run t answers c incoming)
  unfolding on_run handle_all
  on_run-Reads [] c incoming later ms v ok e = elim (Bool-cases (is_run t c)) [
    | inl q ↦
        rw (q, on_run)
          record {
            ended = false;
            c' = c;
            rest = incoming;
            done = [];
            left = ms;
            result = refl;
            all = refl;
            handled = refl;
            state = inr (refl, v, ok, e);
          }
    | inr q ↦ rw (q, on_run) (is_off c incoming later ms q)
  ]
  on_run-Reads (select_failed ∷ answers) c incoming later ms v ok e =
      elim (Bool-cases (is_run t c)) [
        | inl q ↦ rw (q, on_run) (gives_up c incoming later ms)
        | inr q ↦ rw (q, on_run) (is_off c incoming later ms q)
      ]
  on_run-Reads (timeout ∷ answers) c incoming later ms v ok e = elim (Bool-cases (is_run t c)) [
    | inl q ↦ rw (q, on_run) (on_run-Reads answers c incoming later ms v ok e)
    | inr q ↦ rw (q, on_run) (is_off c incoming later ms q)
  ]
  on_run-Reads (readable failed ∷ answers) c incoming later ms v ok e =
      elim (Bool-cases (is_run t c)) [
        | inl q ↦ rw (q, on_run, recv_data) (gives_up c incoming later ms)
        | inr q ↦ rw (q, on_run) (is_off c incoming later ms q)
      ]
  on_run-Reads (readable (ready k) ∷ answers) c incoming later ms v ok e =
      let bytes = recv_bytes t c k incoming in
      elim (Bool-cases (is_run t c)) [
        | inr q ↦ rw (q, on_run) (is_off c incoming later ms q)
        | inl q ↦ elim (Bool-cases (length bytes == 0)) [
          | inl z ↦
              rw (q, on_run, recv_data, z) (gives_up c (drop (length bytes) incoming) later ms)
          | inr some_bytes ↦
              ready-Reads answers c k incoming later ms (on_run-Reads answers) q
                (positive (length bytes) some_bytes) v ok e
        ]
      ]
