-- ===== src/ServerLoops.antt =====
-- `tcpServer` of base/src/tcp_server/server.h and server.cpp as the owner of the event loops: which
-- loop a connection is handed to, and which one a message is sent through.
pub mod Placement
pub mod OneLoop
mod Tests
use linux_tcp_lib.Prelude.{
  ℕ, zero, suc, ◌+◌, ◌*◌, ◌%◌, Option, none, some, List, [], ◌∷◌, ◌++◌, ◌==◌, if◌then◌else◌, length,
  get_elem?, set, take, ltb, ◌^◌,
}
use mathlib.Core.Option
use linux_tcp_lib.Limits.{sys_send_buf, sys_recv_buf}
use linux_tcp_lib.Words.{to_int}
use linux_tcp_lib.Memory.{Memory}
use linux_tcp_lib.MessageQueue.{MessageQueue}
use linux_tcp_lib.ClientCell.{SendCell, Events, ClientCell, client_cell}
use linux_tcp_lib.DoRecv.{TNotify}
use linux_tcp_lib.CellManager.{CellTask, CellManager, find, add_task, send_task}

-- The number of event loops that the constructor makes: `sysconf` answers with a number of
-- processors, or with -1, which is none.
unfoldable pub loop_num : Option ℕ → ℕ
loop_num none = 0
loop_num (some cpu_n) = cpu_n * 2 + 2

-- What `accept4` answers: a descriptor that is positive, with the peer's address and port.
pub record Accepted : Type 0 where
  pub clientid : ℕ
  pub ip : List ℕ
  pub port : ℕ

-- The calls that prepare a socket: `setsockopt` with its option and value, and `fcntl`, which adds
-- O_NONBLOCK to the flags that the socket has.
pub data SocketCall : Type 0 where
  so_sndbuf : ℕ → ℕ → SocketCall
  so_rcvbuf : ℕ → ℕ → SocketCall
  so_keepalive : ℕ → ℕ → SocketCall
  tcp_keepidle : ℕ → ℕ → SocketCall
  tcp_keepintvl : ℕ → ℕ → SocketCall
  tcp_keepcnt : ℕ → ℕ → SocketCall
  add_nonblock : ℕ → SocketCall

unfoldable pub socket_calls : ℕ → List SocketCall
socket_calls clientid =
    so_sndbuf clientid sys_send_buf
    ∷ so_rcvbuf clientid sys_recv_buf
    ∷ so_keepalive clientid 1
    ∷ tcp_keepidle clientid 30
    ∷ tcp_keepintvl clientid 10
    ∷ tcp_keepcnt clientid 3
    ∷ add_nonblock clientid
    ∷ []

-- What the constructor of `clientCell` leaves uninitialised.
pub record Garbage : Type 0 where
  pub recv_buf : Memory
  pub send_buf : ℕ → Option SendCell
  pub events : Events

-- What `epoll_wait` answers in `run`: -1; 0; or an event with its descriptor, and what `accept4`
-- then answers, none for an error.
pub data WaitAnswer : Type 0 where
  wait_error : WaitAnswer
  wait_timeout : WaitAnswer
  woken : ℕ → Option Accepted → WaitAnswer

-- The bytes that `sendTask` is given: its `int len` has the low 32 bits of the `size_t`. None if they
-- are negative as an `int`, or 2 ^ 31 - 1.
unfoldable pub narrowed : List ℕ → Option (List ℕ)
narrowed buf =
    let len = to_int (length buf) in if ltb (len + 1) (2 ^ 31) then some (take len buf) else none

module _ {N : Type 0} (i : MessageQueue CellTask) (t : TNotify N) (g : Garbage) where
  -- The constructor's loop. A new event loop has no connection; its queue is one that `init` made.
  -- The callbacks, which the loops share, are not called here.
  unfoldable pub new_loops : i.Q → N → ℕ → List (CellManager i t)
  new_loops q n zero = []
  new_loops q n (suc k) =
      record { cells = []; cell_task = q; notify = n; calls = [] } ∷ new_loops q n k

  -- `m_CellManager[clientid % m_CellManager.size()]`, its place and the loop; none where the vector
  -- is empty, since the code then divides by 0. The descriptors are not negative.
  unfoldable pub curr_cell_manager : List (CellManager i t) → ℕ → Option (ℕ × CellManager i t)
  curr_cell_manager loops clientid =
      let k = clientid % length loops in
      if length loops == 0 then none else Option.map (λ m. (k, m)) (get_elem? loops k)

  -- `HandleAccept`: the loops that it leaves, and the calls that it makes on the new socket.
  unfoldable pub handle_accept :
      List (CellManager i t) → Option Accepted → Option (List (CellManager i t) × List SocketCall)
  unfolding curr_cell_manager socket_calls
  handle_accept loops none = some (loops, [])
  handle_accept loops (some a) =
      let cell = client_cell a.clientid g.recv_buf g.send_buf g.events a.ip a.port in
      elim (curr_cell_manager loops a.clientid) [
        | none ↦ none
        | some (k, m) ↦ some (set loops k (add_task i t m cell), socket_calls a.clientid)
      ]

  -- `run`, for as many rounds as `epoll_wait` has answers.
  unfoldable pub run :
      List (CellManager i t)
      → ℕ
      → List WaitAnswer
      → Option (List (CellManager i t) × List SocketCall)
  unfolding handle_accept
  run loops socket_fd [] = some (loops, [])
  run loops socket_fd (wait_error ∷ later) = run loops socket_fd later
  run loops socket_fd (wait_timeout ∷ later) = run loops socket_fd later
  run loops socket_fd (woken fd a ∷ later) =
      elim (if fd == socket_fd then handle_accept loops a else some (loops, [])) [
        | none ↦ none
        | some (loops', calls) ↦ Option.map (λ r. (r.0, calls ++ r.1)) (run loops' socket_fd later)
      ]

  -- `SendData`. The answer of `sendTask` is lost: the function has no return statement. None where
  -- the code is undefined: the size is negative as an `int`, or its successor is, and the client is
  -- there, so that `sendTask` allocates so many bytes.
  unfoldable pub send_data : List (CellManager i t) → ℕ → List ℕ → Option (List (CellManager i t))
  unfolding curr_cell_manager narrowed
  send_data loops clientid buf = elim (curr_cell_manager loops clientid) [
    | none ↦ none
    | some (k, m) ↦ elim (narrowed buf) [
      | none ↦ elim (find m.cells clientid) [ none ↦ some loops | some c ↦ none ]
      | some bytes ↦ some (set loops k (send_task i t m clientid bytes).1)
    ]
  ]
