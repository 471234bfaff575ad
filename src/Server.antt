-- ===== src/Server.antt =====
-- `tcpServer::Listen` and `stop` of base/src/tcp_server/server.h and server.cpp:
-- the server's descriptors.
pub mod Listening
mod Tests
use linux_tcp_lib.Prelude.{
  ℕ, ◌%◌, ◌^◌, Bool, Option, none, some, List, [], ◌∷◌, ◌==◌, if◌then◌else◌,
}
use linux_tcp_lib.Limits.{
  BaseError, s_ok, tcp_server_port, tcp_server_socket, tcp_server_bind, tcp_server_listen,
  tcp_server_epoll_create,
}

-- The descriptors are none for INVALID_SOCKET and for negative values. `loop_fds` are those that the
-- event loops of `m_CellManager` have from `epoll_create1`. `open_fds` are those that the server has
-- opened and not closed, newest first; `bound` is the port that the socket was bound to.
pub record TcpServer : Type 0 where
  pub socket_fd : Option ℕ
  pub listen_fd : Option ℕ
  pub loop_fds : List ℕ
  pub port : ℕ
  pub bound : ℕ
  pub open_fds : List ℕ

-- `Listen` returns a code, or it ends the program with one.
pub data ListenEnd : Type 0 where
  returned : BaseError → ListenEnd
  exited : BaseError → ListenEnd

-- What the kernel answers: a new descriptor, which may be 0, or none for an error; and whether `bind`
-- and `listen` succeed.
pub record ListenAnswers : Type 0 where
  pub socket : Option ℕ
  pub bind : Bool
  pub listen : Bool
  pub epoll_create : Option ℕ

-- `close(fd)`.
unfoldable pub without : List ℕ → ℕ → List ℕ
without [] fd = []
without (x ∷ xs) fd = if x == fd then xs else x ∷ without xs fd

unfoldable pub close_fd : TcpServer → ℕ → TcpServer
unfolding without
close_fd s fd = record s { open_fds = without s.open_fds fd }

-- An old socket is closed.
unfoldable pub close_old : TcpServer → TcpServer
unfolding close_fd
close_old s = elim s.socket_fd [ none ↦ s | some old ↦ close_fd s old ]

-- From `bind` on. The answer 0 of `epoll_create1` counts as an error: that descriptor stays open.
unfoldable pub bind_listen : TcpServer → ℕ → ListenAnswers → ListenEnd × TcpServer
unfolding close_fd
bind_listen s fd a =
    let bound : TcpServer = record s { bound = s.port % 2 ^ 16 } in
    if a.bind
    then (if a.listen
        then elim a.epoll_create [
          | none ↦ (exited tcp_server_epoll_create, close_fd (record bound { listen_fd = none }) fd)
          | some e ↦
              let made : TcpServer = record bound {
                listen_fd = some e;
                open_fds = e ∷ bound.open_fds;
              } in
              if e == 0
              then (exited tcp_server_epoll_create, close_fd made fd)
              else (returned s_ok, made)
        ]
        else (exited tcp_server_listen, close_fd bound fd))
    else (exited tcp_server_bind, close_fd s fd)

-- `Listen`; the options of the socket are left aside. The answer 0 of `socket` counts as an error:
-- that descriptor stays open.
unfoldable pub listen : TcpServer → ℕ → ListenAnswers → ListenEnd × TcpServer
unfolding close_old bind_listen
listen s port a = if port == 0 then (returned tcp_server_port, s) else elim a.socket [
  | none ↦ (exited tcp_server_socket, record (close_old s) { port = port; socket_fd = none })
  | some fd ↦
      let s' = close_old s in
      let made : TcpServer = record s' {
        port = port;
        socket_fd = some fd;
        open_fds = fd ∷ s'.open_fds;
      } in
      if fd == 0 then (exited tcp_server_socket, made) else bind_listen made fd a
]

-- The event loops are deleted, each of which closes its epoll descriptor.
unfoldable pub close_loops : TcpServer → List ℕ → TcpServer
unfolding close_fd
close_loops s [] = s
close_loops s (fd ∷ fds) = close_loops (close_fd s fd) fds

-- `stop`, but for the threads and the connections.
unfoldable pub stop : TcpServer → TcpServer
unfolding close_loops close_old close_fd
stop s =
    let s₁ = close_loops s s.loop_fds in
    let s₂ : TcpServer = elim s₁.listen_fd [ none ↦ s₁ | some fd ↦ close_fd s₁ fd ] in
    record (close_old s₂) { socket_fd = none; listen_fd = none }
