-- ===== src/Server/Listening.antt =====
-- Which descriptors the server has open behind `Listen`.
use linux_tcp_lib.Prelude.{
  ℕ, zero, suc, Bool, ◌%◌, ◌^◌, ◌<◌, ◌≡◌, refl, ap, inl, inr, true, false, Option, none, some, List,
  [], ◌∷◌, ◌++◌, arith, ◌==◌, Option-cases,
}
use linux_tcp_lib.Limits.{
  s_ok, tcp_server_socket, tcp_server_bind, tcp_server_listen, tcp_server_epoll_create,
}
use linux_tcp_lib.Server.{
  TcpServer, ListenEnd, returned, exited, ListenAnswers, without, close_fd, close_old, bind_listen,
  listen,
}

without_self : (xs : List ℕ) (fd : ℕ) → without (fd ∷ xs) fd ≡ xs
unfolding without
without_self xs fd = ground arith

-- `<= 0` holds for an answer.
pub data NoFd : Option ℕ → Type 0 where
  failed : NoFd none
  zero_fd : NoFd (some 0)

-- What such an answer leaves open.
unfoldable pub leaked : Option ℕ → List ℕ
leaked none = []
leaked (some fd) = fd ∷ []

-- What `Listen` does for each answer of the kernel. `before` are the descriptors that are open behind
-- the closing of the old socket.
pub data Listens (s : TcpServer) (port : ℕ) (a : ListenAnswers) (before : List ℕ)
    : ListenEnd → TcpServer → Type 0 where
  no_socket :
      {t : TcpServer}
      → NoFd a.socket
      → t.open_fds ≡ leaked a.socket ++ before
      → Listens s port a before (exited tcp_server_socket) t
  no_bind :
      {t : TcpServer} (fd : ℕ)
      → a.socket ≡ some fd
      → 0 < fd
      → a.bind ≡ false
      → t.open_fds ≡ before
      → Listens s port a before (exited tcp_server_bind) t
  no_listen :
      {t : TcpServer} (fd : ℕ)
      → a.socket ≡ some fd
      → 0 < fd
      → a.bind ≡ true
      → a.listen ≡ false
      → t.open_fds ≡ before
      → Listens s port a before (exited tcp_server_listen) t
  no_epoll :
      {t : TcpServer} (fd : ℕ)
      → a.socket ≡ some fd
      → 0 < fd
      → a.bind ≡ true
      → a.listen ≡ true
      → NoFd a.epoll_create
      → t.open_fds ≡ leaked a.epoll_create ++ before
      → Listens s port a before (exited tcp_server_epoll_create) t
  listens :
      {t : TcpServer} (fd e : ℕ)
      → a.socket ≡ some fd
      → 0 < fd
      → a.bind ≡ true
      → a.listen ≡ true
      → a.epoll_create ≡ some e
      → 0 < e
      → t ≡ (record {
        socket_fd = some fd;
        listen_fd = some e;
        loop_fds = s.loop_fds;
        port = port;
        bound = port % 2 ^ 16;
        open_fds = e ∷ fd ∷ before;
      })
      → Listens s port a before (returned s_ok) t

abbrev Answers : TcpServer → ℕ → ListenAnswers → List ℕ → ListenEnd × TcpServer → Type 0
Answers s port a before out = Listens s port a before out.0 out.1

-- The server with its new socket.
abbrev opened : TcpServer → ℕ → ℕ → TcpServer
opened s port fd = record s { port = port; socket_fd = some fd; open_fds = fd ∷ s.open_fds }

-- The socket is closed, an answer 0 of `epoll_create1` is not.
without_second : (fd : ℕ) (xs : List ℕ) → 0 < fd → without (0 ∷ fd ∷ xs) fd ≡ 0 ∷ xs
unfolding without
without_second fd xs pos =
    let z : (0 == fd) ≡ false = ground arith in rw (z, without_self xs fd) refl

suc_zero : (n : ℕ) → (suc n == 0) ≡ false
suc_zero n = ground arith

bind_listen-Answers :
    (s s₁ : TcpServer) (port k : ℕ) (bind listen : Bool) (epoll_create : Option ℕ)
    → s₁.loop_fds ≡ s.loop_fds
    → let fd = suc k in
      let a : ListenAnswers = record {
        socket = some fd;
        bind = bind;
        listen = listen;
        epoll_create = epoll_create;
      } in
      Answers s port a s₁.open_fds (bind_listen (opened s₁ port fd) fd a)
unfolding bind_listen close_fd leaked
bind_listen-Answers s s₁ port k false listen ep loops =
    no_bind (suc k) refl (omega arith) refl (without_self s₁.open_fds (suc k))
bind_listen-Answers s s₁ port k true false ep loops =
    no_listen (suc k) refl (omega arith) refl refl (without_self s₁.open_fds (suc k))
bind_listen-Answers s s₁ port k true true none loops =
    no_epoll (suc k) refl (omega arith) refl refl failed (without_self s₁.open_fds (suc k))
bind_listen-Answers s s₁ port k true true (some zero) loops =
    no_epoll (suc k) refl (omega arith) refl refl zero_fd
      (without_second (suc k) s₁.open_fds (omega arith))
bind_listen-Answers s s₁ port k true true (some (suc e)) loops =
    rw (suc_zero e, bind_listen)
      (listens (suc k) (suc e) refl (omega arith) refl refl refl (omega arith) (
        ap
          (λ l. record {
            socket_fd = some (suc k);
            listen_fd = some (suc e);
            loop_fds = l;
            port = port;
            bound = port % 2 ^ 16;
            open_fds = suc e ∷ suc k ∷ s₁.open_fds;
          })
          loops))

close_old-loop_fds : (s : TcpServer) → (close_old s).loop_fds ≡ s.loop_fds
unfolding close_old close_fd
close_old-loop_fds s = elim (Option-cases s.socket_fd) [
  | inl e ↦ rw (e, close_old) refl
  | inr (fd, e) ↦ rw (e, close_old) refl
]

socket_cases :
    (s : TcpServer) (port : ℕ) (socket : Option ℕ) (bind can_listen : Bool)
    (epoll_create : Option ℕ)
    → 0 < port
    → let a : ListenAnswers = record {
      socket = socket;
      bind = bind;
      listen = can_listen;
      epoll_create = epoll_create;
    } in
      Answers s port a (close_old s).open_fds (listen s port a)
unfolding listen leaked
socket_cases s port none bind can_listen ep pos =
    let z : (port == 0) ≡ false = ground arith in rw (z, listen) (no_socket failed refl)
socket_cases s port (some zero) bind can_listen ep pos =
    let z : (port == 0) ≡ false = ground arith in rw (z, listen) (no_socket zero_fd refl)
socket_cases s port (some (suc k)) bind can_listen ep pos =
    let z : (port == 0) ≡ false = ground arith in
    rw (z, suc_zero k, listen)
      (bind_listen-Answers s (close_old s) port k bind can_listen ep (close_old-loop_fds s))

-- The descriptors that are open when the old socket, if there is one, has been closed.
pub data WithoutOld (s : TcpServer) (before : List ℕ) : Type 0 where
  no_old : s.socket_fd ≡ none → before ≡ s.open_fds → WithoutOld s before
  old : (fd : ℕ) → s.socket_fd ≡ some fd → before ≡ without s.open_fds fd → WithoutOld s before

close_old-WithoutOld : (s : TcpServer) → WithoutOld s (close_old s).open_fds
unfolding close_old close_fd
close_old-WithoutOld s = elim (Option-cases s.socket_fd) [
  | inl e ↦ no_old e (rw (e, close_old) refl)
  | inr (fd, e) ↦ old fd e (rw (e, close_old) refl)
]

-- `Listen` for a port that is not 0, for each answer of the kernel: the first call that fails, where 0
-- is a failure of `socket` and `epoll_create1`, ends the program with its own code, and what `Listen`
-- opened is closed but for a descriptor 0; if none fails, it returns OK, and holds the new socket,
-- bound to the low 16 bits of the port, and the new epoll descriptor, with both open. In each case
-- the old socket is closed, and every other descriptor that was open before still is, an old epoll
-- descriptor included.
pub listen_lem :
    (s : TcpServer) (port : ℕ) (a : ListenAnswers)
    → 0 < port
    → (before : List ℕ) × WithoutOld s before
      × Listens s port a before (listen s port a).0 (listen s port a).1
listen_lem s port a pos = (
  (close_old s).open_fds,
  close_old-WithoutOld s,
  socket_cases s port a.socket a.bind a.listen a.epoll_create pos,
)
