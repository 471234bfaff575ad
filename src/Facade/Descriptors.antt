-- ===== src/Facade/Descriptors.antt =====
-- What `start` and `stop` do to the descriptors of the process.
use mathlib.Core.Path.{subst}
use mathlib.Core.Option.{some-ne-none}
use linux_tcp_lib.Prelude.{
  ℕ, zero, suc, ◌+◌, ◌-◌, ◌<◌, ◌≡◌, refl, sym, ap, ◌∙◌, ◌≢◌, ◌⊎◌, inl, inr, Option, none, some,
  List, [], ◌∷◌, ◌++◌, arith, ◌==◌, if◌then◌else◌,
}
use linux_tcp_lib.Limits.{BaseError, s_ok}
use linux_tcp_lib.Server
use linux_tcp_lib.Server.{
  TcpServer, ListenEnd, returned, exited, ListenAnswers, without, close_fd, close_old, close_loops,
  listen,
}
use linux_tcp_lib.Server.Listening.{
  WithoutOld, no_old, old, NoFd, failed, zero_fd, leaked, Listens, no_socket, no_bind, no_listen,
  no_epoll, listens, listen_lem,
}
use linux_tcp_lib.Facade.{CommonServer, new_tcp_server, held_fds, start, stop}

unfoldable count : ℕ → List ℕ → ℕ
count z [] = 0
count z (x ∷ xs) = (if x == z then 1 else 0) + count z xs

count-without :
    (z y : ℕ) (xs : List ℕ) → count z (without xs y) ≡ count z xs - (if y == z then 1 else 0)
unfolding count without
count-without z y [] = ground arith
count-without z y (x ∷ xs) = ground (arith, count-without z y xs)

-- Closing one descriptor after the other.
unfoldable without_all : List ℕ → List ℕ → List ℕ
without_all xs [] = xs
without_all xs (y ∷ ys) = without_all (without xs y) ys

no_more : (xs : List ℕ) → ((z : ℕ) → count z xs ≡ 0) → xs ≡ []
unfolding count
no_more [] h = refl
no_more (x ∷ xs) h = absurd (ground (arith, h x))

-- Closing, in any order, as many descriptors of each number as are open leaves none.
without_all-empty : (xs ys : List ℕ) → ((z : ℕ) → count z xs ≡ count z ys) → without_all xs ys ≡ []
unfolding count without_all
without_all-empty xs [] h = no_more xs h
without_all-empty xs (y ∷ ys) h =
    without_all-empty (without xs y) ys (λ z. omega (arith, count-without z y xs, h z))

count-append : (z : ℕ) (xs ys : List ℕ) → count z (xs ++ ys) ≡ count z xs + count z ys
unfolding count
count-append z [] ys = omega arith
count-append z (x ∷ xs) ys = omega (arith, count-append z xs ys)

close_loops-open_fds :
    (s : TcpServer) (fds : List ℕ)
    → (close_loops s fds ≡ record s { open_fds = without_all s.open_fds fds })
unfolding close_loops close_fd without_all
close_loops-open_fds s [] = refl
close_loops-open_fds s (fd ∷ fds) =
    close_loops-open_fds (record s { open_fds = without s.open_fds fd }) fds

without_all-append :
    (xs ys zs : List ℕ) → without_all xs (ys ++ zs) ≡ without_all (without_all xs ys) zs
unfolding without_all
without_all-append xs [] zs = refl
without_all-append xs (y ∷ ys) zs = without_all-append (without xs y) ys zs

-- The descriptors of the loops and those that a server listens with are closed by its `stop`.
listening-stop :
    (fds : List ℕ) (fd e port bound : ℕ)
    → (Server.stop (record {
      socket_fd = some fd;
      listen_fd = some e;
      loop_fds = fds;
      port = port;
      bound = bound;
      open_fds = e ∷ fd ∷ fds;
    })).open_fds
      ≡ []
unfolding Server.stop close_old close_fd without_all count
listening-stop fds fd e port bound =
    let s : TcpServer = record {
      socket_fd = some fd;
      listen_fd = some e;
      loop_fds = fds;
      port = port;
      bound = bound;
      open_fds = e ∷ fd ∷ fds;
    } in
    ap (λ s₁. (close_old (elim s₁.listen_fd [ none ↦ s₁ | some l ↦ close_fd s₁ l ])).open_fds)
      (close_loops-open_fds s fds)
    ∙ sym (without_all-append (e ∷ fd ∷ fds) fds (e ∷ fd ∷ []))
    ∙ without_all-empty (e ∷ fd ∷ fds) (fds ++ e ∷ fd ∷ [])
        (λ z. omega (arith, count-append z fds (e ∷ fd ∷ [])))

none-held_fds : (c : CommonServer) → c.tcpserver ≡ none → held_fds c ≡ []
unfolding held_fds
none-held_fds c e = rw (held_fds, e) refl

-- What a failed answer leaves open is nothing or the descriptor 0.
leaked_cases : (answer : Option ℕ) → NoFd answer → (leaked answer ≡ []) ⊎ (leaked answer ≡ 0 ∷ [])
unfolding leaked
leaked_cases none failed = inl refl
leaked_cases (some zero) zero_fd = inr refl
leaked_cases (some (suc n)) h = elim h [ ]

-- A server `s` that `Listen` has been called on, behind `start` on the server `c`.
pub record Started (c : CommonServer) (fds : List ℕ) (out : ListenEnd × CommonServer) : Type 0 where
  pub fd : ℕ
  pub e : ℕ
  pub ok : out.0 ≡ returned s_ok
  pub held : held_fds out.1 ≡ e ∷ fd ∷ fds
  pub back : stop out.1 ≡ c

pub record Exited (c : CommonServer) (fds : List ℕ) (out : ListenEnd × CommonServer) : Type 0 where
  pub exit_code : BaseError
  pub gone : out.0 ≡ exited exit_code
  pub bad : exit_code ≢ s_ok
  pub left : List ℕ
  pub few : (left ≡ []) ⊎ (left ≡ 0 ∷ [])
  pub held : held_fds out.1 ≡ left ++ fds
  pub orphans : out.1.orphans ≡ c.orphans

Listens-Started :
    (c : CommonServer) (fds : List ℕ) (a : ListenAnswers) (end : ListenEnd) (t : TcpServer)
    → c.tcpserver ≡ none
    → Listens (new_tcp_server fds) c.port a fds end t
    → Started c fds (end, record c { tcpserver = some t; orphans = c.orphans })
      ⊎ Exited c fds (end, record c { tcpserver = some t; orphans = c.orphans })
unfolding stop held_fds new_tcp_server
Listens-Started c fds a end t nothing (listens fd e _ _ _ _ _ _ same) =
    let closed = ap (λ y. (Server.stop y).open_fds) same ∙ listening-stop fds fd e c.port _ in
    inl record {
      fd = fd;
      e = e;
      ok = refl;
      held = ap (λ y. y.open_fds) same;
      back = λ x. record c { tcpserver = sym nothing x; orphans = closed x ++ c.orphans };
    }
Listens-Started c fds a end t nothing (no_socket none_given held) = inr record {
  exit_code = _;
  gone = refl;
  bad = λ q. cc;
  left = _;
  few = leaked_cases a.socket none_given;
  held = held;
  orphans = refl;
}
Listens-Started c fds a end t nothing (no_bind fd _ _ _ held) = inr record {
  exit_code = _;
  gone = refl;
  bad = λ q. cc;
  left = [];
  few = inl refl;
  held = held;
  orphans = refl;
}
Listens-Started c fds a end t nothing (no_listen fd _ _ _ _ held) = inr record {
  exit_code = _;
  gone = refl;
  bad = λ q. cc;
  left = [];
  few = inl refl;
  held = held;
  orphans = refl;
}
Listens-Started c fds a end t nothing (no_epoll fd _ _ _ _ none_given held) = inr record {
  exit_code = _;
  gone = refl;
  bad = λ q. cc;
  left = _;
  few = leaked_cases a.epoll_create none_given;
  held = held;
  orphans = refl;
}

no_old_socket : (fds before : List ℕ) → WithoutOld (new_tcp_server fds) before → before ≡ fds
unfolding new_tcp_server
no_old_socket fds before (no_old e same) = same
no_old_socket fds before (old fd e same) = absurd (some-ne-none fd (sym e))

-- `start` on a server with a port that is not 0 and with nothing started, whatever the kernel answers.
-- Either `Listen` returns OK; then the descriptors of the server are one for each event loop, the
-- socket and its epoll descriptor, and `stop` gives back the very state before `start`, with all of
-- them closed. Or the program ends with a code that is not OK; then those that are open are the ones of
-- the event loops, and at most a descriptor 0 that counted as an error.
pub start-stop :
    (c : CommonServer) (fds : List ℕ) (a : ListenAnswers)
    → 0 < c.port
    → c.tcpserver ≡ none
    → Started c fds (start c fds a) ⊎ Exited c fds (start c fds a)
unfolding start held_fds
start-stop c fds a pos nothing =
    let s = new_tcp_server fds in
    let (before, closed, done) = listen_lem s c.port a pos in
    let same : before ≡ fds = no_old_socket fds before closed in
    rw (none-held_fds c nothing) (
      Listens-Started c fds a (listen s c.port a).0 (listen s c.port a).1 nothing
        (subst (λ l. Listens s c.port a l (listen s c.port a).0 (listen s c.port a).1) same done))
