-- ===== src/TcpClient.antt =====
-- base/src/tcp_client/tcpClient.h and tcpClient.cpp: the client, `easyTcpClient`, on one thread.
pub mod Buffer
pub mod Closing
pub mod Stream
mod Tests
use linux_tcp_lib.Prelude.{
  ℕ, ◌/◌, Bool, true, false, not, Option, none, some, List, [], ◌∷◌, ◌++◌, leb, ◌==◌, if◌then◌else◌,
  length, take, drop,
}
use linux_tcp_lib.Words.{add32, sub32}
use linux_tcp_lib.Memory.{Memory, slice, store, copy}

-- MAX_BUF_SIZE, 5 * 10240.
abbrev pub max_buf_size : ℕ
max_buf_size = 51200

-- `tCliNotify`, over the state `N` of the object that implements it. `on_recv_data` is none if the
-- callback does not return; its number is a `size_t`.
pub record TCliNotify (N : Type 0) : Type 0 where
  pub on_connect : N → N
  pub on_disconnect : N → N
  pub on_recv_data : N → List ℕ → Option (ℕ × N)

-- The socket is none for INVALID_SOCKET. `notify` is the callbacks' state, `closed` the descriptors
-- that were given to `close`.
pub record EasyTcpClient (N : Type 0) : Type 0 where
  pub sock : Option ℕ
  pub msg_buf : Memory
  pub read_index : ℕ
  pub write_index : ℕ
  pub is_connect : Bool
  pub notify : N
  pub closed : List ℕ

-- What `recv` meets: at most so many bytes at once, the end of the stream being none; or an error.
pub data RecvAnswer : Type 0 where
  ready : ℕ → RecvAnswer
  failed : RecvAnswer

-- What `select` comes back with: an error; nothing within a second; or that `recv` has an answer.
pub data SelectAnswer : Type 0 where
  select_failed : SelectAnswer
  timeout : SelectAnswer
  readable : RecvAnswer → SelectAnswer

module _ {N : Type 0} (t : TCliNotify N) where
  unfoldable pub is_run : EasyTcpClient N → Bool
  is_run c = elim c.sock [ none ↦ false | some fd ↦ c.is_connect ]

  -- `Close`: the descriptor is closed if there is one; the callback is called in any case.
  unfoldable pub close : EasyTcpClient N → EasyTcpClient N
  close c = elim c.sock [
    | none ↦ record c { is_connect = false; notify = t.on_disconnect c.notify }
    | some fd ↦ record c {
      sock = none;
      is_connect = false;
      notify = t.on_disconnect c.notify;
      closed = c.closed ++ fd ∷ [];
    }
  ]

  -- `InitSocket`; `fd` is the answer of `socket`, none for INVALID_SOCKET.
  unfoldable pub init_socket : EasyTcpClient N → Option ℕ → EasyTcpClient N
  unfolding close
  init_socket c fd = elim c.sock [
    | none ↦ record c { sock = fd }
    | some old ↦ record (close c) { sock = fd }
  ]

  -- `Connect`: `accepted` is whether the call of `connect` succeeds.
  unfoldable pub connect : EasyTcpClient N → Option ℕ → Bool → Bool × EasyTcpClient N
  unfolding init_socket
  connect c fd accepted =
      let c' : EasyTcpClient N = elim c.sock [ none ↦ init_socket c fd | some old ↦ c ] in
      if accepted
      then (true, record c' { is_connect = true; notify = t.on_connect c'.notify })
      else (false, c')

  -- The bytes of the stream that one call of `recv` stores.
  unfoldable pub recv_bytes : EasyTcpClient N → ℕ → List ℕ → List ℕ
  recv_bytes c k incoming =
      let room = sub32 max_buf_size c.write_index in take (if leb k room then k else room) incoming

  unfoldable pub store_bytes : EasyTcpClient N → List ℕ → EasyTcpClient N
  store_bytes c bytes = record c {
    msg_buf = store c.msg_buf c.write_index bytes;
    write_index = add32 c.write_index (length bytes);
  }

  -- What the callback is handed.
  unfoldable pub pending : EasyTcpClient N → List ℕ
  pending c = slice c.msg_buf c.read_index (sub32 c.write_index c.read_index)

  -- `m_ReadIndex += retsize`, and the move to the front.
  unfoldable pub consume : EasyTcpClient N → ℕ → EasyTcpClient N
  consume c retsize =
      let read_index = add32 c.read_index retsize in
      let n = sub32 c.write_index read_index in
      if leb (max_buf_size / 2) read_index
      then record c { msg_buf = copy c.msg_buf 0 read_index n; write_index = n; read_index = 0 }
      else record c { read_index = read_index }

  -- The callback, and what `RecvData` makes of its number.
  unfoldable pub after_store : EasyTcpClient N → Option (Bool × EasyTcpClient N)
  unfolding pending consume
  after_store c = elim (t.on_recv_data c.notify (pending c)) [
    | none ↦ none
    | some (retsize, n) ↦
        let c' : EasyTcpClient N = record c { notify = n } in
        if retsize == 0 then some (false, c') else some (true, consume c' retsize)
  ]

  -- `RecvData`: true for 0 and false for -1, with the rest of the stream; none if the callback does
  -- not return.
  unfoldable pub recv_data :
      EasyTcpClient N → RecvAnswer → List ℕ → Option (Bool × EasyTcpClient N × List ℕ)
  unfolding recv_bytes store_bytes after_store
  recv_data c failed incoming = some (false, c, incoming)
  recv_data c (ready k) incoming =
      let bytes = recv_bytes c k incoming in
      let rest = drop (length bytes) incoming in
      if length bytes == 0
      then some (false, c, rest)
      else elim (after_store (store_bytes c bytes)) [
        | none ↦ none
        | some (ok, c') ↦ some (ok, c', rest)
      ]

  -- `OnRun`: true if the loop has ended, false if it still runs when the answers are used up.
  unfoldable pub on_run :
      List SelectAnswer → EasyTcpClient N → List ℕ → Option (Bool × EasyTcpClient N × List ℕ)
  unfolding is_run close recv_data
  on_run [] c incoming = some (not (is_run c), c, incoming)
  on_run (select_failed ∷ answers) c incoming =
      if is_run c then some (true, close c, incoming) else some (true, c, incoming)
  on_run (timeout ∷ answers) c incoming =
      let later = on_run answers c incoming in if is_run c then later else some (true, c, incoming)
  on_run (readable a ∷ answers) c incoming =
      if is_run c
      then elim (recv_data c a incoming) [
        | none ↦ none
        | some (true, c', rest) ↦ on_run answers c' rest
        | some (false, c', rest) ↦ some (true, close c', rest)
      ]
      else some (true, c, incoming)

  -- `SendData`: `buf` is none for NULL, `answer` is that of `send`, none for SOCKET_ERROR, which is
  -- also what is returned where nothing is sent.
  unfoldable pub send_data :
      EasyTcpClient N → Option (List ℕ) → Option ℕ → Option ℕ × EasyTcpClient N
  unfolding is_run close
  send_data c none answer = (none, c)
  send_data c (some buf) none = if is_run c then (none, close c) else (none, c)
  send_data c (some buf) (some sent) = if is_run c then (some sent, c) else (none, c)
