-- ===== src/ClientNotify/Tests.antt =====
-- `OnRecvData` of the client on concrete streams.
use linux_tcp_lib.Prelude.{ℕ, ◌≡◌, none, List, [], ◌∷◌, ◌++◌, arith}
use linux_tcp_lib.ServerNotify as Server
use linux_tcp_lib.ClientNotify.{TcpClientHub, on_recv_data}
use linux_tcp_lib.ClientNotify.Same.{as_server, on_recv_data-same}

abbrev client_hub : TcpClientHub (List (ℕ × List ℕ))
client_hub = record { handle_msg = λ h type body. h ++ (type, body) ∷ [] }

on_recv_data-null :
    on_recv_data client_hub [] none 3 ≡ Server.on_recv_data (as_server client_hub) 5 [] none 3
on_recv_data-null = on_recv_data-same client_hub 5 [] none 3 (omega arith)
