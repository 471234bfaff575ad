-- ===== src/ClientThread/Closes.antt =====
-- What becomes of the socket when the owner and the thread both close it.
use mathlib.Core.Option.{some-ne-none}
use linux_tcp_lib.Prelude.{
  ℕ, zero, suc, ◌+◌, ◌≤◌, ◌<◌, ◌≡◌, refl, sym, ap, ◌∙◌, ◌⊎◌, inl, inr, false, none, some, List, [],
  ◌∷◌, ◌++◌, arith,
}
use linux_tcp_lib.TcpClient.{TCliNotify, EasyTcpClient}
use linux_tcp_lib.ClientThread.{
  ClosePc, testing, closing, clearing, telling, finished, close_sock, clear_sock, tell_disconnect,
  CloseStep, finds_socket, finds_none, closes, clears, tells, Closing, done, owner_steps,
  thread_steps,
}

-- Whether a thread has passed `close(_sock)`, is about to clear the member, and is done.
abbrev passed : ClosePc → ℕ
passed testing = 0
passed closing = 0
passed clearing = 1
passed telling = 1
passed finished = 1

abbrev to_clear : ClosePc → ℕ
to_clear clearing = 1
to_clear _ = 0

abbrev over : ClosePc → ℕ
over finished = 1
over _ = 0

clear-passed : (p : ClosePc) → to_clear p ≤ passed p
clear-passed testing = omega arith
clear-passed closing = omega arith
clear-passed clearing = omega arith
clear-passed telling = omega arith
clear-passed finished = omega arith

unfoldable pub copies : ℕ → ℕ → List ℕ
copies zero fd = []
copies (suc k) fd = fd ∷ copies k fd

copies-snoc : (k fd : ℕ) → copies k fd ++ fd ∷ [] ≡ copies (suc k) fd
unfolding copies
copies-snoc zero fd = refl
copies-snoc (suc k) fd = ap (◌∷◌ fd) (copies-snoc k fd)

one_or_two : (k fd : ℕ) → 0 < k → k ≤ 2 → (copies k fd ≡ fd ∷ []) ⊎ (copies k fd ≡ fd ∷ fd ∷ [])
unfolding copies
one_or_two zero fd pos le = absurd (omega arith)
one_or_two (suc zero) fd pos le = inl refl
one_or_two (suc (suc zero)) fd pos le = inr refl
one_or_two (suc (suc (suc k))) fd pos le = absurd (omega arith)

module _ {N : Type 0} (t : TCliNotify N) where
  unfoldable pub told_times : ℕ → N → N
  told_times zero n = n
  told_times (suc k) n = t.on_disconnect (told_times k n)

  record Socket (fd : ℕ) (n : N) (c : EasyTcpClient N) (p q : ClosePc) : Type 0 where
    count : ℕ
    closed : c.closed ≡ copies count fd
    few : count ≤ passed p + passed q
    sock :
        ((c.sock ≡ some fd)
          × (count ≡ to_clear p + to_clear q)
          × (passed p + passed q ≡ to_clear p + to_clear q))
        ⊎ ((c.sock ≡ none) × (0 < count))
    told : c.notify ≡ told_times (over p + over q) n
    off : (over p + over q ≡ 0) ⊎ (c.is_connect ≡ false)

  Socket-swap :
      {fd : ℕ} {n : N} {c : EasyTcpClient N} {p q : ClosePc} → Socket fd n c p q → Socket fd n c q p
  Socket-swap {n = n} {p = p} {q = q} v = record {
    count = v.count;
    closed = v.closed;
    few = omega (arith, v.few);
    sock = elim v.sock [
      | inl (e, k, z) ↦ inl (e, omega (arith, k), omega (arith, z))
      | inr (e, k) ↦ inr (e, k)
    ];
    told = v.told ∙ ap (λ k. told_times k n) (omega arith);
    off = elim v.off [ inl e ↦ inl (omega (arith, e)) | inr e ↦ inr e ];
  }

  CloseStep-Socket :
      {fd : ℕ} {n : N} {c c₁ : EasyTcpClient N} {p p₁ q : ClosePc}
      → CloseStep t c p c₁ p₁
      → Socket fd n c p q
      → Socket fd n c₁ p₁ q
  unfolding close_sock clear_sock tell_disconnect told_times
  CloseStep-Socket (finds_socket fd e) v = record {
    count = v.count;
    closed = v.closed;
    few = v.few;
    sock = v.sock;
    told = v.told;
    off = v.off;
  }
  CloseStep-Socket (finds_none e) v = record {
    count = v.count;
    closed = v.closed;
    few = omega (arith, v.few);
    sock = elim v.sock [
      | inl (e', k, z) ↦ absurd (some-ne-none _ (sym e' ∙ e))
      | inr (e', k) ↦ inr (e', k)
    ];
    told = v.told;
    off = v.off;
  }
  CloseStep-Socket {fd} {c = c} closes v = elim v.sock [
    | inl (e, k, z) ↦
        rw (e, close_sock)
          record {
            count = suc v.count;
            closed = ap (λ l. l ++ fd ∷ []) v.closed ∙ copies-snoc v.count fd;
            few = omega (arith, v.few);
            sock = inl (e, omega (arith, k), omega (arith, z));
            told = v.told;
            off = v.off;
          }
    | inr (e, k) ↦
        rw (e, close_sock)
          record {
            count = v.count;
            closed = v.closed;
            few = omega (arith, v.few);
            sock = inr (e, k);
            told = v.told;
            off = v.off;
          }
  ]
  CloseStep-Socket clears v = record {
    count = v.count;
    closed = v.closed;
    few = omega (arith, v.few);
    sock = elim v.sock [
      | inl (e, k, z) ↦ inr (refl, omega (arith, k))
      | inr (e, k) ↦ inr (refl, k)
    ];
    told = v.told;
    off = v.off;
  }
  CloseStep-Socket {n = n} {q = q} tells v = record {
    count = v.count;
    closed = v.closed;
    few = omega (arith, v.few);
    sock = elim v.sock [
      | inl (e, k, z) ↦ absurd (omega (arith, z, clear-passed q))
      | inr (e, k) ↦ inr (e, k)
    ];
    told =
        let e : suc (over telling + over q) ≡ over finished + over q = omega arith in
        ap t.on_disconnect v.told ∙ ap (λ k. told_times k n) e;
    off = inr refl;
  }

  Closing-Socket :
      {fd : ℕ} {n : N} {c c₁ : EasyTcpClient N} {p q p₁ q₁ : ClosePc}
      → Closing t c p q c₁ p₁ q₁
      → Socket fd n c p q
      → Socket fd n c₁ p₁ q₁
  Closing-Socket done v = v
  Closing-Socket (owner_steps s r) v = Closing-Socket r (CloseStep-Socket s v)
  Closing-Socket (thread_steps s r) v =
      Closing-Socket r (Socket-swap (CloseStep-Socket s (Socket-swap v)))

  -- When the owner and the thread have both closed a client that was connected, in whatever order
  -- their steps came, the client has no socket and is not connected, the callbacks have been told
  -- twice, and the descriptor has been given to `close` once or twice.
  pub both_close :
      (c c' : EasyTcpClient N) (fd : ℕ)
      → c.sock ≡ some fd
      → c.closed ≡ []
      → Closing t c testing testing c' finished finished
      → (c'.sock ≡ none)
        × (c'.is_connect ≡ false)
        × (c'.notify ≡ t.on_disconnect (t.on_disconnect c.notify))
        × ((c'.closed ≡ fd ∷ []) ⊎ (c'.closed ≡ fd ∷ fd ∷ []))
  unfolding told_times copies
  both_close c c' fd e k r =
      let start : Socket fd c.notify c testing testing = record {
        count = 0;
        closed = k;
        few = omega arith;
        sock = inl (e, omega arith, omega arith);
        told = refl;
        off = inl (omega arith);
      } in
      let v = Closing-Socket r start in
      (
        elim v.sock [ inl (f, a, b) ↦ absurd (omega (arith, b)) | inr (f, a) ↦ f ],
        elim v.off [ inl f ↦ absurd (omega (arith, f)) | inr f ↦ f ],
        v.told,
        elim v.sock [
          | inl (f, a, b) ↦ absurd (omega (arith, b))
          | inr (f, a) ↦ elim (one_or_two v.count fd a (omega (arith, v.few))) [
            | inl one ↦ inl (v.closed ∙ one)
            | inr two ↦ inr (v.closed ∙ two)
          ]
        ],
      )

  close_sock-some :
      (c : EasyTcpClient N) (fd : ℕ)
      → c.sock ≡ some fd
      → ((close_sock t c).sock ≡ some fd) × ((close_sock t c).closed ≡ c.closed ++ fd ∷ [])
  unfolding close_sock
  close_sock-some c fd e = (rw (e, close_sock) e, rw (e, close_sock) refl)

  -- For every connected client there is an order of the steps of both threads in which the
  -- descriptor is closed a second time, after the first `close` has given it back to the system.
  pub closed_twice :
      (c : EasyTcpClient N) (fd : ℕ)
      → c.sock ≡ some fd
      → (c' : EasyTcpClient N) × Closing t c testing testing c' finished finished
        × (c'.closed ≡ (c.closed ++ fd ∷ []) ++ fd ∷ [])
  unfolding close_sock clear_sock tell_disconnect
  closed_twice c fd e =
      let c₁ = close_sock t c in
      let c₂ = close_sock t c₁ in
      let (sock₁, closed₁) = close_sock-some c fd e in
      let (sock₂, closed₂) = close_sock-some c₁ fd sock₁ in
      let c₃ = tell_disconnect t (clear_sock t c₂) in
      let c₄ = tell_disconnect t (clear_sock t c₃) in
      (
        c₄,
        owner_steps (finds_socket fd e) (
            thread_steps (finds_socket fd e) (
              owner_steps closes (
                thread_steps closes (
                  owner_steps clears
                    (owner_steps tells (thread_steps clears (thread_steps tells done))))))),
        closed₂ ∙ ap (λ l. l ++ fd ∷ []) closed₁,
      )
