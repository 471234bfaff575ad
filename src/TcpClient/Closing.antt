-- ===== src/TcpClient/Closing.antt =====
-- When the client's loop ends, and a connection that it gives up although nothing is wrong.
use linux_tcp_lib.Prelude.{
  ℕ, ◌^◌, ◌<◌, ◌≡◌, refl, sym, ap, ◌∙◌, ◌⊎◌, inl, inr, Bool, true, false, Option, none, some, List,
  [], ◌∷◌, ◌++◌, arith, ◌==◌, Bool-cases, Option-cases, length, drop, length-append,
}
use mathlib.Core.Option.{some-injective}
use linux_tcp_lib.Frame.{encode_all}
use linux_tcp_lib.Frame.Ready.{whole_frame}
use linux_tcp_lib.ServerNotify.Stream.{on_recv_data-le}
use linux_tcp_lib.ClientNotify.{TcpClientHub, on_recv_data}
use linux_tcp_lib.ClientNotify.Same.{
  as_server, handle_all, on_recv_data-same, on_recv_data-messages,
}
use linux_tcp_lib.TcpClient.{
  TCliNotify, EasyTcpClient, ready, failed, SelectAnswer, select_failed, timeout, readable, is_run,
  close, recv_bytes, pending, recv_data, on_run, send_data,
}
use linux_tcp_lib.TcpClient.Buffer.{IsBuffer, length-pending}
use linux_tcp_lib.TcpClient.Stream.{Returns, Took, recv_data_lem, recv_bytes-fits}

module _ {N : Type 0} (t : TCliNotify N) where
  is_run-disconnected : (c : EasyTcpClient N) → c.is_connect ≡ false → is_run t c ≡ false
  unfolding is_run
  is_run-disconnected c off = elim (Option-cases c.sock) [
    | inl e ↦ rw (e, is_run)
    | inr (fd, e) ↦ rw (e, is_run) off
  ]

  close-is_connect : (c : EasyTcpClient N) → (close t c).is_connect ≡ false
  unfolding close
  close-is_connect c = elim (Option-cases c.sock) [
    | inl e ↦ rw (e, close)
    | inr (fd, e) ↦ rw (e, close)
  ]

  pub close-is_run : (c : EasyTcpClient N) → is_run t (close t c) ≡ false
  close-is_run c = is_run-disconnected (close t c) (close-is_connect c)

  -- The loop has ended with a client that does not run, or goes on with a sound one that does.
  abbrev Ends : Option (Bool × EasyTcpClient N × List ℕ) → Type 0
  Ends out =
      (ended : Bool) × (c' : EasyTcpClient N) × (rest : List ℕ) × (out ≡ some (ended, c', rest))
      × (((ended ≡ true) × (is_run t c' ≡ false))
          ⊎ ((ended ≡ false) × (is_run t c' ≡ true) × IsBuffer c'))

  stopped :
      (c : EasyTcpClient N) (incoming : List ℕ)
      → is_run t c ≡ false
      → Ends (some (true, c, incoming))
  stopped c incoming e = (true, c, incoming, refl, inl (refl, e))

  -- `OnRun`, for a callback that returns and takes no more than it is handed, on a sound buffer,
  -- whatever `select` and `recv` answer: it always returns from the callback; when the loop has
  -- ended, the client no longer runs; as long as it goes on, the client runs and its buffer is
  -- sound.
  pub on_run-Ends :
      (answers : List SelectAnswer) (c : EasyTcpClient N) (incoming : List ℕ)
      → Returns t
      → IsBuffer c
      → (ended : Bool) × (c' : EasyTcpClient N) × (rest : List ℕ) × (on_run t answers c incoming
          ≡ some (ended, c', rest))
        × (((ended ≡ true) × (is_run t c' ≡ false))
            ⊎ ((ended ≡ false) × (is_run t c' ≡ true) × IsBuffer c'))
  unfolding on_run
  on_run-Ends [] c incoming back v = elim (Bool-cases (is_run t c)) [
    | inl e ↦ (false, c, incoming, rw e, inr (refl, e, v))
    | inr e ↦ (true, c, incoming, rw e, inl (refl, e))
  ]
  on_run-Ends (select_failed ∷ answers) c incoming back v = elim (Bool-cases (is_run t c)) [
    | inl e ↦ rw (e, on_run) (stopped (close t c) incoming (close-is_run c))
    | inr e ↦ rw (e, on_run) (stopped c incoming e)
  ]
  on_run-Ends (timeout ∷ answers) c incoming back v = elim (Bool-cases (is_run t c)) [
    | inl e ↦ rw (e, on_run) (on_run-Ends answers c incoming back v)
    | inr e ↦ rw (e, on_run) (stopped c incoming e)
  ]
  on_run-Ends (readable failed ∷ answers) c incoming back v = elim (Bool-cases (is_run t c)) [
    | inl e ↦ rw (e, on_run, recv_data) (stopped (close t c) incoming (close-is_run c))
    | inr e ↦ rw (e, on_run) (stopped c incoming e)
  ]
  on_run-Ends (readable (ready k) ∷ answers) c incoming back v = elim (Bool-cases (is_run t c)) [
    | inl e ↦ elim (recv_data_lem t c k incoming back v) [
      | inl (z, ran) ↦ rw (e, on_run, ran) (stopped (close t c) incoming (close-is_run c))
      | inr (stream, (taken, c', ran, took)) ↦ elim (Bool-cases (taken == 0)) [
        | inl f ↦
            rw (e, on_run, ran, f)
              (stopped (close t c') (drop (length (recv_bytes t c k incoming)) incoming)
                (close-is_run c'))
        | inr f ↦
            rw (e, on_run, ran, f)
              (on_run-Ends answers c' (drop (length (recv_bytes t c k incoming)) incoming) back
                took.buffer)
      ]
    ]
    | inr e ↦ rw (e, on_run) (stopped c incoming e)
  ]

  -- Once the client has been closed, `SendData` sends nothing, whatever `send` would answer.
  pub send_data-close :
      (c : EasyTcpClient N) (buf : Option (List ℕ)) (answer : Option ℕ)
      → send_data t (close t c) buf answer ≡ (none, close t c)
  unfolding send_data
  send_data-close c none answer = refl
  send_data-close c (some buf) none = rw (close-is_run c, send_data)
  send_data-close c (some buf) (some sent) = rw (close-is_run c, send_data)

module _ {H : Type 0} (hub : TcpClientHub H) where
  -- `tcp_client_notify` as the `tCliNotify` of the client; but for `OnRecvData` its callbacks only
  -- write a trace.
  unfoldable pub client_notify : TCliNotify H
  client_notify = record {
    on_connect = λ h. h;
    on_disconnect = λ h. h;
    on_recv_data = λ h bytes. on_recv_data hub h (some bytes) (length bytes);
  }

  pub client_notify-Returns : Returns client_notify
  unfolding client_notify
  client_notify-Returns h bytes pos short =
      let (k, h', ran, le) =
        on_recv_data-le (as_server hub) 1 h bytes (omega arith) pos (omega arith) in
      (k, h', on_recv_data-same hub 1 h (some bytes) (length bytes) (omega arith) ∙ ran, le)

  nothing_whole :
      (h : H) (p : List ℕ)
      → whole_frame p ≡ none
      → 0 < length p
      → length p < 2 ^ 31
      → on_recv_data hub h (some p) (length p) ≡ some (0, h)
  unfolding encode_all handle_all
  nothing_whole h p part pos lt = on_recv_data-messages hub h [] p tt part pos lt

  taken_nothing :
      (c c' : EasyTcpClient H) (bytes : List ℕ) (taken : ℕ)
      → Took client_notify c bytes taken c'
      → whole_frame (pending client_notify c ++ bytes) ≡ none
      → 0 < length (pending client_notify c ++ bytes)
      → length (pending client_notify c ++ bytes) < 2 ^ 31
      → (taken ≡ 0) × (c'.notify ≡ c.notify)
  unfolding client_notify
  taken_nothing c c' bytes taken took part pos lt =
      let same =
        some-injective _ _
          (sym took.ran ∙ nothing_whole c.notify (pending client_notify c ++ bytes) part pos lt) in
      (ap (λ x. x.0) same, ap (λ x. x.1) same)

  -- With the callbacks of `tcp_client_notify`, a running client with a sound buffer gives the
  -- connection up as soon as the bytes that it has do not yet make up one whole message, although
  -- more of it may come: whatever else `select` would answer, the loop ends with the client closed
  -- and no message handled.
  pub on_run-part_of_message :
      (answers : List SelectAnswer) (c : EasyTcpClient H) (k : ℕ) (incoming : List ℕ)
      → is_run client_notify c ≡ true
      → IsBuffer c
      → let bytes = recv_bytes client_notify c k incoming in
        0 < length bytes
        → whole_frame (pending client_notify c ++ bytes) ≡ none
        → (c' : EasyTcpClient H) × (on_run client_notify (readable (ready k) ∷ answers) c incoming
            ≡ some (true, close client_notify c', drop (length bytes) incoming))
          × (c'.notify ≡ c.notify)
          × (c'.sock ≡ c.sock)
  unfolding on_run
  on_run-part_of_message answers c k incoming runs v pos part =
      elim (recv_data_lem client_notify c k incoming client_notify-Returns v) [
        | inl (z, ran) ↦ absurd (omega arith)
        | inr (stream, (taken, c', ran, took)) ↦
            let bytes = recv_bytes client_notify c k incoming in
            let whole = length-append (pending client_notify c) bytes in
            let size = length-pending client_notify c v in
            let fits = recv_bytes-fits client_notify c k incoming v in
            let (z, same) = taken_nothing c c' bytes taken took part (omega arith) (omega arith) in
            (c', rw (runs, on_run, ran, z), same, took.sock)
      ]
