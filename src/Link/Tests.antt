-- ===== src/Link/Tests.antt =====
-- A message on its way from a server to a client.
use linux_tcp_lib.Prelude.{ℕ, ◌≡◌, refl, true, some, List, [], ◌∷◌, ◌++◌, arith, length}
use linux_tcp_lib.Frame.{Message, encode, encode_all, int_bytes}
use linux_tcp_lib.Memory.{slice}
use linux_tcp_lib.ClientCell.{SendCell, ClientCell, append}
use linux_tcp_lib.ClientCell.Ring.{IsRing, append-IsRing}
use linux_tcp_lib.ClientNotify.{TcpClientHub}
use linux_tcp_lib.DoSend.{Writer, unsent}
use linux_tcp_lib.DoSend.Conserves.{unsent_all}
use linux_tcp_lib.TcpClient.{EasyTcpClient, ready, timeout, readable, SelectAnswer, pending}
use linux_tcp_lib.TcpClient.Buffer.{IsBuffer}
use linux_tcp_lib.TcpClient.Closing.{client_notify}
use linux_tcp_lib.Fixtures.{hello, world, cell, cell-IsRing, cell-is_full, takes_one, takes_all}
use linux_tcp_lib.Link.{exchange}
use linux_tcp_lib.Link.Rounds.{Arrives, exchange-Arrives}

abbrev hub : TcpClientHub (List ℕ)
hub = record { handle_msg = λ h type body. h ++ type ∷ [] }

abbrev client : EasyTcpClient (List ℕ)
client = record {
  sock = some 4;
  msg_buf = λ j. 0;
  read_index = 0;
  write_index = 0;
  is_connect = true;
  notify = [];
  closed = [];
}

client-IsBuffer : IsBuffer client
client-IsBuffer = record { ordered = omega arith; in_bounds = omega arith; low = omega arith }

abbrev messages : List Message
messages = hello ∷ world ∷ []

-- The ring of the server with both messages.
abbrev message : List ℕ → SendCell
message bytes = record { ptr = bytes; size = length bytes; send_pos = 0 }

abbrev both : SendCell
both = message (encode_all messages)

abbrev loaded : ClientCell
loaded = append cell both

loaded-IsRing : IsRing loaded (both ∷ [])
loaded-IsRing = append-IsRing cell [] both cell-IsRing cell-is_full

to_send : pending (client_notify hub) client ++ ([] ++ unsent_all (both ∷ [])) ≡ encode_all messages
unfolding pending slice unsent_all unsent encode_all encode int_bytes
to_send = refl

-- The socket takes it byte by byte, and the client reads in pieces.
abbrev rounds : List (Writer × List SelectAnswer)
rounds =
    (takes_one, timeout ∷ []) ∷ (takes_all, readable (ready 10) ∷ readable (ready 99) ∷ []) ∷ []

exchange-rounds : Arrives hub [] messages (exchange hub rounds loaded [] client)
exchange-rounds =
    exchange-Arrives hub rounds loaded (both ∷ []) [] client messages loaded-IsRing client-IsBuffer
      ((omega arith, omega arith, omega arith), ((omega arith, omega arith, omega arith), tt))
      to_send
