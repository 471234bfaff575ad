-- ===== src/Server/Tests.antt =====
-- A server that listens.
use linux_tcp_lib.Prelude.{ℕ, List, true, some, [], ◌∷◌, arith}
use linux_tcp_lib.Server.{TcpServer, ListenAnswers, listen}
use linux_tcp_lib.Server.Listening.{WithoutOld, Listens, listen_lem}

abbrev server : TcpServer
server = record {
  socket_fd = some 2;
  listen_fd = some 0;
  loop_fds = 3 ∷ 4 ∷ [];
  port = 0;
  bound = 0;
  open_fds = 2 ∷ 4 ∷ 3 ∷ [];
}

abbrev answers : ListenAnswers
answers = record { socket = some 5; bind = true; listen = true; epoll_create = some 6 }

listen-server :
    (before : List ℕ) × WithoutOld server before
    × Listens server 8000 answers before
        (listen server 8000 answers).0
        (listen server 8000 answers).1
listen-server = listen_lem server 8000 answers (omega arith)
