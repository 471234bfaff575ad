-- ===== src/Facade/Tests.antt =====
-- A server on port 8000.
use linux_tcp_lib.Prelude.{◌<◌, ◌≡◌, refl, ◌⊎◌, true, none, some, [], ◌∷◌, arith}
use linux_tcp_lib.Server.{ListenAnswers}
use linux_tcp_lib.Facade.{CommonServer, common_server, init, start}
use linux_tcp_lib.Facade.Descriptors.{Started, Exited, start-stop}

abbrev fresh : CommonServer
fresh = init common_server 8000

abbrev answers : ListenAnswers
answers = record { socket = some 5; bind = true; listen = true; epoll_create = some 6 }

fresh-port : 0 < fresh.port
unfolding init
fresh-port = omega arith

fresh-tcpserver : fresh.tcpserver ≡ none
unfolding init common_server
fresh-tcpserver = refl

start-stop-fresh :
    Started fresh (3 ∷ 4 ∷ []) (start fresh (3 ∷ 4 ∷ []) answers)
    ⊎ Exited fresh (3 ∷ 4 ∷ []) (start fresh (3 ∷ 4 ∷ []) answers)
start-stop-fresh = start-stop fresh (3 ∷ 4 ∷ []) answers fresh-port fresh-tcpserver
