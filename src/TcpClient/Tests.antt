-- ===== src/TcpClient/Tests.antt =====
-- The client on concrete connections.
use linux_tcp_lib.Prelude.{
  ℕ, ◌+◌, ◌<◌, ◌≡◌, refl, true, none, some, List, [], ◌∷◌, ◌++◌, arith, length, drop,
}
use linux_tcp_lib.Memory.{slice}
use linux_tcp_lib.Frame.Ready.{whole_frame}
use linux_tcp_lib.ClientNotify.{TcpClientHub}
use linux_tcp_lib.TcpClient.{
  TCliNotify, EasyTcpClient, ready, timeout, readable, is_run, close, recv_bytes, pending, on_run,
}
use linux_tcp_lib.TcpClient.Buffer.{IsBuffer}
use linux_tcp_lib.TcpClient.Closing.{client_notify, on_run-part_of_message}

abbrev hub : TcpClientHub ℕ
hub = record { handle_msg = λ h type body. h + 1 }

abbrev t : TCliNotify ℕ
t = client_notify hub

-- A connected client with nothing in its buffer.
abbrev client : EasyTcpClient ℕ
client = record {
  sock = some 4;
  msg_buf = λ j. 0;
  read_index = 0;
  write_index = 0;
  is_connect = true;
  notify = 0;
  closed = [];
}

client-IsBuffer : IsBuffer client
client-IsBuffer = record { ordered = omega arith; in_bounds = omega arith; low = omega arith }

-- Five bytes of a header.
abbrev part : List ℕ
part = 7 ∷ 0 ∷ 0 ∷ 0 ∷ 2 ∷ []

part-bytes : 0 < length (recv_bytes t client 9 part)
unfolding recv_bytes
part-bytes = omega arith

part-none : whole_frame (pending t client ++ recv_bytes t client 9 part) ≡ none
unfolding recv_bytes whole_frame pending slice
part-none = refl

running : is_run t client ≡ true
unfolding is_run
running = refl

on_run-part :
    (c' : EasyTcpClient ℕ) × (on_run t (readable (ready 9) ∷ timeout ∷ []) client part
      ≡ some (true, close t c', drop (length (recv_bytes t client 9 part)) part))
    × (c'.notify ≡ 0)
    × (c'.sock ≡ some 4)
on_run-part =
    on_run-part_of_message hub (timeout ∷ []) client 9 part running client-IsBuffer part-bytes
      part-none
