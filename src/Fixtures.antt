-- ===== src/Fixtures.antt =====
-- Small concrete connections, queues and event loops for the tests.
use linux_tcp_lib.Prelude.{
  ℕ, zero, suc, ◌+◌, ◌-◌, ◌/◌, ◌%◌, ◌<◌, ◌≡◌, refl, ap, ◌∙◌, true, false, none, some, List, [], ◌∷◌,
  ◌++◌, arith, leb, length,
}
use linux_tcp_lib.Frame.{MsgHeader, Message}
use linux_tcp_lib.ServerNotify.{TcpServerHub}
use linux_tcp_lib.MessageQueue.{MessageQueue}
use linux_tcp_lib.ClientCell.{SendCell, ClientCell, client_cell, is_full, append}
use linux_tcp_lib.ClientCell.Ring.{Holds, IsRing, append-IsRing}
use linux_tcp_lib.DoSend.{wrote, Writer}
use linux_tcp_lib.DoRecv.{TNotify}
use linux_tcp_lib.DoRecv.Buffer.{IsBuffer}
use linux_tcp_lib.CellManager.{CellTask, added, deleted, CellManager, watched}
use linux_tcp_lib.CellManager.Invariant.{IsManager}
use linux_tcp_lib.SrtQueue.{SrtQueue, srt_queue, posted}
use linux_tcp_lib.SrtQueue.Fifo.{
  IsQueue, contents, srt_queue-IsQueue, srt_message_queue, posted-IsQueue,
}

-- A hub that keeps what it is handed, and takes everything.
abbrev pub Log : Type 0
Log = List (ℕ × MsgHeader × List ℕ)

abbrev pub log_hub : TcpServerHub Log
log_hub = record { on_read = λ h id header body. (true, h ++ (id, header, body) ∷ []) }

abbrev pub hello : Message
hello = record { type = 7; body = 104 ∷ 105 ∷ [] }

abbrev pub world : Message
world = record { type = 8; body = 119 ∷ [] }

-- A socket that takes all, ...
abbrev pub takes_all : Writer
takes_all = λ j count. wrote count

-- ... and one that takes one byte in every round.
abbrev pub takes_one : Writer
takes_one = λ j count. wrote 1

-- A new connection.
abbrev pub cell : ClientCell
cell = client_cell 5 (λ j. 0) (λ j. none) watched [] 8000

abbrev pub sc : SendCell
sc = record { ptr = 1 ∷ 2 ∷ 3 ∷ []; size = 3; send_pos = 0 }

pub cell-IsRing : IsRing cell []
unfolding client_cell
cell-IsRing = record {
  read_in = omega arith;
  write_in = omega arith;
  room = omega arith;
  holds = refl;
}

pub cell-IsBuffer : IsBuffer cell
unfolding client_cell
cell-IsBuffer = record { ordered = omega arith; in_bounds = omega arith; low = omega arith }

pub cell-is_full : is_full cell ≡ false
unfolding client_cell is_full
cell-is_full = refl

-- The connection with one message to send.
abbrev pub loaded : ClientCell
loaded = append cell sc

pub loaded-IsRing : IsRing loaded (sc ∷ [])
loaded-IsRing = append-IsRing cell [] sc cell-IsRing cell-is_full

-- A connection with 700000 bytes that have not been taken.
abbrev pub half : ClientCell
half = record cell { recv_write_pos = 700000 }

-- A connection whose ring has no free slot.
abbrev pub stuffed : ClientCell
stuffed = record cell { send_buf = λ j. some sc; send_write_pos = 1048575 }

unfoldable pub copies : ℕ → List SendCell
copies zero = []
copies (suc n) = sc ∷ copies n

pub length-copies : (n : ℕ) → length (copies n) ≡ n
unfolding copies
length-copies zero = refl
length-copies (suc n) = omega (arith, length-copies n)

copies-Holds :
    (r w n : ℕ) → r < 1048576 → w ≡ (r + n) % 1048576 → Holds (λ j. some sc) r w (copies n)
unfolding copies
copies-Holds r w zero lt e = omega arith
copies-Holds r w (suc n) lt e =
    (refl, copies-Holds ((r + 1) % 1048576) w n (omega arith) (omega arith))

pub stuffed-IsRing : IsRing stuffed (copies 1048575)
unfolding client_cell
stuffed-IsRing =
    let len = length-copies 1048575 in
    record {
      read_in = omega arith;
      write_in = omega arith;
      room = omega arith;
      holds = copies-Holds 0 1048575 1048575 (omega arith) (omega arith);
    }

-- The queue of tasks of an event loop.
abbrev pub tasks : MessageQueue CellTask
tasks = srt_message_queue (added 0)

abbrev pub no_tasks : SrtQueue CellTask
no_tasks = srt_queue (added 0) 2 2

-- The callbacks of an application that takes every byte.
abbrev pub count_notify : TNotify ℕ
count_notify = record {
  on_connect = λ n k ip port. n;
  on_disconnect = λ n k. n + 1;
  on_recv_data = λ n k bytes. some (length bytes, n + length bytes);
  on_error = λ n k e. n;
}

-- An event loop with that connection and no task.
abbrev pub manager : CellManager tasks count_notify
manager = record { cells = (5, cell) ∷ []; cell_task = no_tasks; notify = 0; calls = [] }

pub manager-IsManager : IsManager tasks count_notify manager
unfolding client_cell
manager-IsManager = record {
  queue = (srt_queue-IsQueue (added 0) 2 2).0;
  cells = ((refl, ([], cell-IsRing), cell-IsBuffer), tt);
}

-- The queue with one task.
abbrev pub one_task : SrtQueue CellTask
one_task = posted (added 0) no_tasks (deleted 5)

no_tasks-room :
    leb
      (no_tasks.page_index_count - 1)
      ((no_tasks.post_index - no_tasks.get_index) / no_tasks.page_msg_count)
    ≡ false
unfolding srt_queue
no_tasks-room = refl

pub one_task-IsQueue : IsQueue (added 0) one_task × (contents (added 0) one_task ≡ deleted 5 ∷ [])
one_task-IsQueue =
    let (sound, new) = srt_queue-IsQueue (added 0) 2 2 in
    let (sound', behind) = posted-IsQueue (added 0) no_tasks (deleted 5) sound no_tasks-room in
    (sound', behind ∙ ap (λ l. l ++ deleted 5 ∷ []) new)
