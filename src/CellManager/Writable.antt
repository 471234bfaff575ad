-- ===== src/CellManager/Writable.antt =====
-- `checkWrite` watches exactly the sockets that have something to send.
use linux_tcp_lib.MessageQueue.{MessageQueue}
use linux_tcp_lib.ClientCell.{ClientCell}
use linux_tcp_lib.CellManager.{CellManager}
