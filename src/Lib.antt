-- ===== src/Lib.antt =====
-- The TCP library of this repository as definitions, with the theorems that make it correct.
--
-- The program: base/ is a TCP server and client on epoll, common/ a message layer above it. A
-- server's accepting thread hands each connection (`clientCell`) to one of several event loops
-- (`cellManager`), chosen by the descriptor. An event loop is told what to do through a queue of
-- tasks (`srt_queue`): to add a connection, to delete one, to send a message to one. In each round
-- it works the tasks off (`handleTask`), watches EPOLLOUT where there is something to send
-- (`checkWrite`), and answers the events that epoll reports (`doEvent`): it reads into a
-- connection's buffer and hands the bytes to the callbacks (`doRecv`), or writes the messages of
-- the connection's ring (`doSend`). The callbacks of common/ cut the bytes into messages of a
-- header and a body (`OnRecvData`) and hand them to the application.
--
-- The files, with the code that each models:
--   Frame: common/src/tcp_struct.h and the guards of the receive loops of common/src.
--   ServerNotify: common/src/tcp_server_notify.cpp, `OnRecvData`.
--   ClientCell: base/src/tcp_server/client_cell.h and client_cell.cpp, and the operations on a
--     connection's ring that base/src/tcp_server/cell_manager.cpp writes out.
--   DoRecv, DoSend: `doRecv` and `doSend` of base/src/tcp_server/cell_manager.cpp for one
--     connection; DoRecv also has `tNotify` of base/src/tcp_server/notify.h.
--   CellManager: the other handlers of base/src/tcp_server/cell_manager.cpp; EventLoop: its `run`
--     and its destructor, but for the thread that `stop` waits for.
--   ServerStream: `tcp_server_notify` put in for the callbacks of `doRecv`.
--   ClientNotify: common/src/tcp_client_notify.cpp, `OnRecvData`, with an application that is handed
--     the bytes of each message; ClientCache: the same with `m_msg_cache` and the blocks that the
--     messages are copied to, and the constructor and destructor.
--   Server: `Listen` and `stop` of base/src/tcp_server/server.cpp; ServerLoops: its constructor,
--     `run`, `HandleAccept` and `SendData` over the event loops, and in ServerLoops.OneLoop these
--     together with the rounds of the loops, in any order.
--   ServerThreads: `start` and `stop` of the same file over the threads of a server.
--   Facade: common/src/tcp_server.cpp, the descriptors behind its `start` and `stop`.
--   Threads: `process_thread` of base/src/thread.cpp, its owner and its thread in any interleaving.
--   ThreadObject: the class `thread` of the same file.
--   TcpClient: base/src/tcp_client/tcpClient.h and tcpClient.cpp; ClientThread: its `Start` and
--     `Stop`, and `Close` on the owner's thread and on the client's in any interleaving.
--   Link: a connection from end to end, `doSend` on the server's side and the loop of the client on
--     the other, in rounds.
--   Reuse: `handleDel` of base/src/tcp_server/cell_manager.cpp, interleaved with `addTask`, which
--     the accepting thread calls.
--   Processor: base/src/message_base.h.
--   Trace: base/src/trace.h and trace.cpp.
--   StringKey: the keys of hash maps of base/src/base.h.
--   SrtQueue: `srt_queue` of base/src/mqueue.h. MessageQueue is its interface, which CellManager
--     takes as a parameter and SrtQueue.Fifo fills.
--   SharedQueue: the same queue with several threads that push and one that pops, as a step relation
--     with a step for each access.
--   DrbQueue: `drb_queue` of base/src/mqueue.h.
--   MicroBuffer, SendCell: base/src/tcp_common/micro_buffer.cpp and send_cell.cpp, which no other
--     file uses.
--   Limits: base/src/tcp_common/common.h and base/src/base_error.h.
--   Prelude, Words, Memory: shared names, the machine integers with their wrap-around, arrays of
--     bytes. Fixtures: data for the tests.
--
-- How state and operations correspond: a class is a record with its fields' names, an operation a
-- function from the state to the state and the answer, with one name (`handleAdd` is `handle_add`).
-- A NULL pointer is none; a function that would read through one gives none. What the kernel
-- answers is an argument: a list of answers to `read` with the bytes that the peer sends, and a
-- function from the round and the number of bytes for `write`. Calls that change what the kernel
-- watches are listed in the event loop's state. The application is a record of functions on a
-- state of its own.
--
-- Bounds and fuel: the loop of `doSend` has its 1000 rounds; `doRecv` has one round for each
-- answer of the socket and says so if it is still reading when they are used up; the destructor
-- of a connection has a round for each slot of the ring; `OnRecvData` has one for each byte and
-- one to stop; the loop that doubles the table of `drb_queue` has a round for each page up to the
-- one that is asked for; `handleTask` has fuel, and two rounds for each task with one to stop are
-- enough; the destructor of an event loop has a round for each task and one to stop, and `clear` of
-- `send_cell` one for each slot.
--
-- Numbers, on a 64-bit target: the sizes and positions of the receive buffers and of the messages in
-- them, the port of `Listen`, the length that `SendData` is given, the positions of `micro_buffer`, and
-- the hashes have the wrap-around and the signs of the code's types. Without a bound, and so taken to
-- stay in the range of their types, are the indices of `srt_queue` (below 2 ^ 63) and the powers that its
-- constructor shifts (`page_msg_bits` below 31), the positions of `send_cell` and the sizes of its
-- messages (below 2 ^ 31), the size of a message that `sendTask` has been given, and descriptors.
--
-- A descriptor is none for -1. `Server` has the answer 0 of the kernel, which the code takes for an
-- error; ServerLoops takes what `accept4` gives to be positive or an error.
--
-- Memory is seen alike by all threads; what goes as one step is said in SharedQueue, Threads,
-- ServerLoops.OneLoop, Reuse and ClientThread.
--
-- Not modelled: the options of the listening socket, how long a round of an event loop takes, which
-- spins in `doRecv` while `read` answers EAGAIN, concurrent use of `drb_queue` and of
-- `send_cell`, the memory of freed objects, an access to a map of connections that another thread
-- changes at the same moment, base/src/tools.cpp, which only calls the operating system, the
-- programs under common/test, and the parts that the files above do not name. The calls of the log
-- are left out of the other parts: they change nothing there.
pub mod Prelude
pub mod Words
pub mod Memory
pub mod Limits
pub mod Frame
pub mod ServerNotify
pub mod ClientCell
pub mod DoSend
pub mod DoRecv
pub mod ServerStream
pub mod MessageQueue
pub mod SrtQueue
pub mod CellManager
pub mod ClientNotify
pub mod ClientCache
pub mod TcpClient
pub mod Threads
pub mod MicroBuffer
pub mod SendCell
pub mod DrbQueue
pub mod SharedQueue
pub mod Reuse
pub mod Processor
pub mod StringKey
pub mod Link
pub mod ClientThread
pub mod Server
pub mod ServerThreads
pub mod ThreadObject
pub mod Facade
pub mod EventLoop
pub mod ServerLoops
pub mod Trace
pub mod Fixtures
