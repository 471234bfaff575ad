-- ===== src/Facade.antt =====
-- `tcp_server` of common/src/tcp_server.h and tcp_server.cpp: the class of common/ that makes a
-- `tcpServer`, starts it and stops it. The threads are left aside.
pub mod Descriptors
mod Tests
use linux_tcp_lib.Prelude.{ℕ, Option, none, some, List, [], ◌++◌}
use linux_tcp_lib.Server
use linux_tcp_lib.Server.{TcpServer, ListenEnd, ListenAnswers, listen}

-- `orphans` are the descriptors that are open with no object that knows them.
pub record CommonServer : Type 0 where
  pub tcpserver : Option TcpServer
  pub port : ℕ
  pub orphans : List ℕ

-- A new `tcpServer`, whose constructor sets `m_ListenFd` to 0 and makes the event loops, each with its
-- own epoll descriptor. `fds` are those that `epoll_create1` has given them.
unfoldable pub new_tcp_server : List ℕ → TcpServer
new_tcp_server fds = record {
  socket_fd = none;
  listen_fd = some 0;
  loop_fds = fds;
  port = 0;
  bound = 0;
  open_fds = fds;
}

unfoldable pub common_server : CommonServer
common_server = record { tcpserver = none; port = 0; orphans = [] }

unfoldable pub init : CommonServer → ℕ → CommonServer
init c port = record c { port = port }

-- The descriptors of the server that the pointer points to.
unfoldable pub held_fds : CommonServer → List ℕ
held_fds c = elim c.tcpserver [ none ↦ [] | some s ↦ s.open_fds ]

-- `start`: the answer of `Listen` is not looked at, and a server that was there is forgotten.
unfoldable pub start : CommonServer → List ℕ → ListenAnswers → ListenEnd × CommonServer
unfolding held_fds
start c fds a =
    let (end, s) = listen (new_tcp_server fds) c.port a in
    (end, record c { tcpserver = some s; orphans = held_fds c ++ c.orphans })

-- `stop`, with which the destructor ends, too.
unfoldable pub stop : CommonServer → CommonServer
stop c = elim c.tcpserver [
  | none ↦ c
  | some s ↦ record c { tcpserver = none; orphans = (Server.stop s).open_fds ++ c.orphans }
]
