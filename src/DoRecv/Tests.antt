-- ===== src/DoRecv/Tests.antt =====
-- `doRecv` and its buffer on concrete connections.
use linux_tcp_lib.Prelude.{◌+◌, refl, List, [], ◌∷◌, arith, length}
use linux_tcp_lib.ClientCell.{client_cell}
use linux_tcp_lib.DoRecv.{ReadResult, ready, read_again, recv_loop}
use linux_tcp_lib.DoRecv.Feeds.{Returns, Receives, recv_loop-Receives}
use linux_tcp_lib.Fixtures.{cell, cell-IsBuffer, count_notify}

abbrev answers : List ReadResult
answers = ready 2 ∷ read_again ∷ ready 9 ∷ []

count_notify-Returns : Returns count_notify 5
count_notify-Returns n bytes pos short = (length bytes, n + length bytes, refl, omega arith)

recv_loop-answers :
    Receives count_notify 5 cell 0
      (1 ∷ 2 ∷ 3 ∷ [])
      (recv_loop count_notify answers (1 ∷ 2 ∷ 3 ∷ []) cell 0)
unfolding client_cell
recv_loop-answers =
    recv_loop-Receives count_notify 5 answers (1 ∷ 2 ∷ 3 ∷ []) cell 0 refl count_notify-Returns
      cell-IsBuffer
