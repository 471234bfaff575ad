-- ===== src/ClientThread/Tests.antt =====
-- A client that is stopped while it loses its connection, and one that connects again.
use linux_tcp_lib.Prelude.{
  ℕ, ◌+◌, ◌<◌, ◌≡◌, refl, ◌⊎◌, true, false, not, none, some, [], ◌∷◌, ◌++◌, arith, ◌==◌, length,
  drop,
}
use linux_tcp_lib.TcpClient.{
  TCliNotify, EasyTcpClient, ready, close, connect, init_socket, recv_bytes, pending, recv_data,
}
use linux_tcp_lib.TcpClient.Buffer.{IsBuffer}
use linux_tcp_lib.TcpClient.Stream.{Returns}
use linux_tcp_lib.ClientThread.{
  testing, finished, close_sock, clear_sock, tell_disconnect, finds_socket, finds_none, closes,
  clears, tells, Closing, done, owner_steps, thread_steps,
}
use linux_tcp_lib.ClientThread.Closes.{both_close}
use linux_tcp_lib.ClientThread.Restarts.{connect-stale}

-- Callbacks that count the disconnections and take every byte.
abbrev t : TCliNotify ℕ
t = record {
  on_connect = λ n. n;
  on_disconnect = λ n. n + 1;
  on_recv_data = λ n bytes. some (length bytes, n);
}

t-Returns : Returns t
t-Returns n bytes pos short = (length bytes, n, refl, omega arith)

-- A connected client with five bytes of a message.
abbrev client : EasyTcpClient ℕ
client = record {
  sock = some 4;
  msg_buf = λ j. 7;
  read_index = 0;
  write_index = 5;
  is_connect = true;
  notify = 0;
  closed = [];
}

client-IsBuffer : IsBuffer client
client-IsBuffer = record { ordered = omega arith; in_bounds = omega arith; low = omega arith }

-- The thread loses the connection, then the owner stops the client.
abbrev lost : EasyTcpClient ℕ
lost = record client { sock = none; is_connect = false; notify = 1; closed = 4 ∷ [] }

abbrev both : EasyTcpClient ℕ
both = record lost { notify = 2 }

one_by_one : Closing t client testing testing both finished finished
unfolding close_sock clear_sock tell_disconnect
one_by_one = thread_steps (finds_socket 4 refl) (
    thread_steps closes (
      thread_steps clears
        (thread_steps tells (owner_steps (finds_none refl) (owner_steps tells done)))))

both_close-one_by_one :
    (both.sock ≡ none)
    × (both.is_connect ≡ false)
    × (both.notify ≡ t.on_disconnect (t.on_disconnect client.notify))
    × ((both.closed ≡ 4 ∷ []) ⊎ (both.closed ≡ 4 ∷ 4 ∷ []))
both_close-one_by_one = both_close t client both 4 refl refl one_by_one

some_bytes : 0 < length (recv_bytes t (connect t (close t client) (some 6) true).1 9 (1 ∷ 2 ∷ []))
unfolding recv_bytes connect close init_socket
some_bytes = omega arith

connect-stale_example :
    let c₁ = (connect t (close t client) (some 6) true).1 in
    let bytes = recv_bytes t c₁ 9 (1 ∷ 2 ∷ []) in
    (taken : ℕ) × (c' : EasyTcpClient ℕ) × (recv_data t c₁ (ready 9) (1 ∷ 2 ∷ [])
      ≡ some (not (taken == 0), c', drop (length bytes) (1 ∷ 2 ∷ [])))
    × (t.on_recv_data (t.on_connect (t.on_disconnect 0)) (pending t client ++ bytes)
        ≡ some (taken, c'.notify))
    × (c'.sock ≡ some 6)
connect-stale_example = connect-stale t client 6 9 (1 ∷ 2 ∷ []) t-Returns client-IsBuffer some_bytes
