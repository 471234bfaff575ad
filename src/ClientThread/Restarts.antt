-- ===== src/ClientThread/Restarts.antt =====
-- A client that connects again.
use linux_tcp_lib.Prelude.{
  ℕ, ◌<◌, ◌≡◌, refl, sym, ap₂, ◌∙◌, inl, inr, true, not, Option, none, some, List, ◌++◌, arith,
  ◌==◌, length, drop,
}
use linux_tcp_lib.TcpClient.{
  TCliNotify, EasyTcpClient, ready, close, connect, init_socket, recv_bytes, pending, recv_data,
}
use linux_tcp_lib.TcpClient.Buffer.{IsBuffer}
use linux_tcp_lib.TcpClient.Stream.{Returns, recv_data_lem}
use linux_tcp_lib.ClientThread.{Client, stop}

module _ {N : Type 0} (t : TCliNotify N) where
  -- What the next connection starts from.
  record Fresh (c c₁ : EasyTcpClient N) (fd : ℕ) : Type 0 where
    pending : pending t c₁ ≡ pending t c
    buffer : IsBuffer c₁
    sock : c₁.sock ≡ some fd
    notify : c₁.notify ≡ t.on_connect (t.on_disconnect c.notify)

  abbrev again : EasyTcpClient N → ℕ → EasyTcpClient N
  again c fd = (connect t (close t c) (some fd) true).1

  with_sock-Fresh :
      (c : EasyTcpClient N) (sock : Option ℕ) (fd : ℕ)
      → IsBuffer c
      → Fresh (record c { sock = sock }) (again (record c { sock = sock }) fd) fd
  unfolding close connect init_socket pending
  with_sock-Fresh c none fd v = record {
    pending = refl;
    buffer = record { ordered = v.ordered; in_bounds = v.in_bounds; low = v.low };
    sock = refl;
    notify = refl;
  }
  with_sock-Fresh c (some old) fd v = record {
    pending = refl;
    buffer = record { ordered = v.ordered; in_bounds = v.in_bounds; low = v.low };
    sock = refl;
    notify = refl;
  }

  -- For a callback that returns and takes no more than it is handed, and a sound client that is
  -- closed and connects again: the first bytes that come from the new server are handed to the
  -- callback behind the bytes that were still pending from the old one.
  pub connect-stale :
      (c : EasyTcpClient N) (fd k : ℕ) (incoming : List ℕ)
      → Returns t
      → IsBuffer c
      → let c₁ = (connect t (close t c) (some fd) true).1 in
        let bytes = recv_bytes t c₁ k incoming in
        0 < length bytes
        → (taken : ℕ) × (c' : EasyTcpClient N) × (recv_data t c₁ (ready k) incoming
            ≡ some (not (taken == 0), c', drop (length bytes) incoming))
          × (t.on_recv_data (t.on_connect (t.on_disconnect c.notify)) (pending t c ++ bytes)
              ≡ some (taken, c'.notify))
          × (c'.sock ≡ some fd)
  connect-stale c fd k incoming back v pos =
      let c₁ = again c fd in
      let f = with_sock-Fresh c c.sock fd v in
      elim (recv_data_lem t c₁ k incoming back f.buffer) [
        | inl (z, ran) ↦ absurd (omega (arith, z, pos))
        | inr (stream, (taken, c', ran, took)) ↦ (
          taken,
          c',
          ran,
          ap₂ (λ n p. t.on_recv_data n (p ++ recv_bytes t c₁ k incoming)) (sym f.notify)
                (sym f.pending)
              ∙ took.ran,
          took.sock ∙ f.sock,
        )
      ]

  -- `Stop` twice.
  abbrev Stopped : Client t → Type 0
  Stopped c =
      let c₁ = stop t c in
      let c₂ = stop t c₁ in
      (c₁.client.sock ≡ none)
      × (c₁.t1 ≡ none)
      × (c₂.joined ≡ c₁.joined)
      × (c₂.client.closed ≡ c₁.client.closed)
      × (c₂.client.notify ≡ t.on_disconnect (t.on_disconnect c.client.notify))

  with-Stopped :
      (c : EasyTcpClient N) (sock t1 : Option ℕ) (joined : List ℕ)
      → Stopped (record { client = record c { sock = sock }; t1 = t1; joined = joined })
  unfolding stop close
  with-Stopped c none none joined = (refl, refl, refl, refl, refl)
  with-Stopped c none (some id) joined = (refl, refl, refl, refl, refl)
  with-Stopped c (some fd) none joined = (refl, refl, refl, refl, refl)
  with-Stopped c (some fd) (some id) joined = (refl, refl, refl, refl, refl)

  -- Whatever the client was, `Stop` closes it, joins its thread if it has one, and leaves none: a
  -- second `Stop` joins nothing, closes no descriptor, and tells the callbacks again.
  pub stop-stop :
      (c : Client t)
      → let c₁ = stop t c in
        let c₂ = stop t c₁ in
        (c₁.client.sock ≡ none)
        × (c₁.t1 ≡ none)
        × (c₂.joined ≡ c₁.joined)
        × (c₂.client.closed ≡ c₁.client.closed)
        × (c₂.client.notify ≡ t.on_disconnect (t.on_disconnect c.client.notify))
  stop-stop c = with-Stopped c.client c.client.sock c.t1 c.joined
