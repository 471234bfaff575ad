-- ===== src/CellManager/Tests.antt =====
-- The event loop on one connection.
use linux_tcp_lib.Prelude.{
  ℕ, ◌+◌, ◌≡◌, refl, ap, ◌∙◌, ◌⊎◌, true, none, some, List, [], ◌∷◌, ◌++◌, arith, ◌==◌,
  if◌then◌else◌, length,
}
use linux_tcp_lib.Limits.{s_ok, tcp_server_client_closed, tcp_server_push_cache_failed}
use linux_tcp_lib.ClientCell.{SendCell, ClientCell}
use linux_tcp_lib.ClientCell.Ring.{IsRing}
use linux_tcp_lib.DoSend.Conserves.{unsent_all}
use linux_tcp_lib.SrtQueue.{SrtQueue, srt_queue, posted, with_page}
use linux_tcp_lib.SrtQueue.Fifo.{IsQueue, contents, srt_queue-IsQueue, posted-IsQueue}
use linux_tcp_lib.CellManager.{
  CellTask, added, deleted, sending, epoll_del, close_fd, find, CellManager, new_send_cell,
  send_task, handle_send, handle_del, handle_task, do_send,
}
use linux_tcp_lib.CellManager.Invariant.{IsManager}
use linux_tcp_lib.CellManager.Tasks.{handle_task-total}
use linux_tcp_lib.CellManager.Ordering.{sent_to, spares}
use linux_tcp_lib.CellManager.InOrder.{handle_task-in_order}
use linux_tcp_lib.CellManager.Sending.{send_task-answers, handle_send-do_send}
use linux_tcp_lib.CellManager.Closing.{handle_del-closes}
use linux_tcp_lib.Fixtures.{
  takes_one, cell, cell-IsRing, sc, tasks, no_tasks, count_notify, manager, manager-IsManager,
  one_task, one_task-IsQueue,
}

-- The event loop with a task to delete the connection.
abbrev busy : CellManager tasks count_notify
busy = record manager { cell_task = one_task }

busy-IsManager : IsManager tasks count_notify busy
busy-IsManager = record { queue = one_task-IsQueue.0; cells = manager-IsManager.cells }

handle_task-busy :
    (m' : CellManager tasks count_notify) × (handle_task tasks count_notify 3 busy ≡ some m')
    × IsManager tasks count_notify m'
    × (contents (added 0) m'.cell_task ≡ [])
handle_task-busy =
    handle_task-total tasks count_notify busy 3 busy-IsManager
      (omega (arith, ap length one_task-IsQueue.1))

found : find manager.cells 5 ≡ some cell
unfolding find
found = refl

abbrev hello : SendCell
hello = record { ptr = 7 ∷ 8 ∷ []; size = 2; send_pos = 0 }

abbrev task : CellTask
task = sending 5 (new_send_cell tasks count_notify (1 ∷ 2 ∷ []))

send_task-manager :
    let (code, m') = send_task tasks count_notify manager 5 (1 ∷ 2 ∷ []) in
    ((find manager.cells 5 ≡ none) × (code ≡ tcp_server_client_closed) × (m' ≡ manager))
    ⊎ (((c : ClientCell) × (find manager.cells 5 ≡ some c))
        × (((code ≡ s_ok)
              × (contents (added 0) m'.cell_task ≡ contents (added 0) no_tasks ++ task ∷ [])
              × (m'.cells ≡ manager.cells))
            ⊎ ((code ≡ tcp_server_push_cache_failed) × (m' ≡ manager))))
send_task-manager =
    send_task-answers tasks count_notify manager 5 (1 ∷ 2 ∷ []) (srt_queue-IsQueue (added 0) 2 2).0

handle_send-manager :
    (m' : CellManager tasks count_notify) × (sent : List ℕ) × (c' : ClientCell) × (cs' : List
      SendCell)
    × (do_send tasks count_notify
          (handle_send tasks count_notify manager 5 (new_send_cell tasks count_notify (1 ∷ 2 ∷ [])))
          5
          takes_one
        ≡ some (m', sent))
    × (find m'.cells 5 ≡ some c')
    × IsRing c' cs'
    × (sent ++ unsent_all cs' ≡ unsent_all [] ++ 1 ∷ 2 ∷ [])
handle_send-manager =
    handle_send-do_send tasks count_notify manager 5 (1 ∷ 2 ∷ []) cell [] takes_one found
      cell-IsRing (omega arith)

handle_del-manager :
    (m' : CellManager tasks count_notify) × (handle_del tasks count_notify manager 5 ≡ some m')
    × (m'.notify ≡ 0 + 1)
    × (m'.calls ≡ [] ++ epoll_del 5 ∷ close_fd 5 ∷ [])
    × ((j : ℕ) → find m'.cells j ≡ (if 5 == j then none else find manager.cells j))
    × ((bytes : List ℕ) → send_task tasks count_notify m' 5 bytes ≡ (tcp_server_client_closed, m'))
    × (handle_del tasks count_notify m' 5 ≡ some m')
handle_del-manager = handle_del-closes tasks count_notify manager 5 cell manager-IsManager found

-- Two messages for client 5, and between them a task to delete client 6.
abbrev first_task : SrtQueue CellTask
first_task = posted (added 0) no_tasks (sending 5 sc)

abbrev second_task : SrtQueue CellTask
second_task = posted (added 0) first_task (deleted 6)

abbrev three_tasks : SrtQueue CellTask
three_tasks = posted (added 0) second_task (sending 5 hello)

three_tasks-contents :
    IsQueue (added 0) three_tasks
    × (contents (added 0) three_tasks ≡ sending 5 sc ∷ deleted 6 ∷ sending 5 hello ∷ [])
unfolding posted srt_queue with_page
three_tasks-contents =
    let (v, e) = srt_queue-IsQueue (added 0) 2 2 in
    let (v₁, e₁) = posted-IsQueue (added 0) no_tasks (sending 5 sc) v refl in
    let (v₂, e₂) = posted-IsQueue (added 0) first_task (deleted 6) v₁ refl in
    let (v₃, e₃) = posted-IsQueue (added 0) second_task (sending 5 hello) v₂ refl in
    (
      v₃,
      e₃
          ∙ ap (λ l. l ++ sending 5 hello ∷ [])
              (e₂ ∙ ap (λ l. l ++ deleted 6 ∷ []) (e₁ ∙ ap (λ l. l ++ sending 5 sc ∷ []) e)),
    )

abbrev sends : CellManager tasks count_notify
sends = record manager { cell_task = three_tasks }

sends-IsManager : IsManager tasks count_notify sends
sends-IsManager = record { queue = three_tasks-contents.0; cells = manager-IsManager.cells }

sends-spares : spares 5 (contents (added 0) three_tasks) ≡ true
unfolding spares
sends-spares = ap (spares 5) (three_tasks-contents.1)

sends-sent : sent_to 5 (contents (added 0) three_tasks) ≡ sc ∷ hello ∷ []
unfolding sent_to
sends-sent = ap (sent_to 5) (three_tasks-contents.1)

handle_task-sends :
    (m' : CellManager tasks count_notify) × (c' : ClientCell) × (handle_task tasks count_notify 9
        sends
      ≡ some m')
    × (find m'.cells 5 ≡ some c')
    × IsRing c' ([] ++ sent_to 5 (contents (added 0) three_tasks))
handle_task-sends =
    handle_task-in_order tasks count_notify sends 9 5 cell [] sends-IsManager
      (omega (arith, ap length (three_tasks-contents.1))) found cell-IsRing sends-spares
      (omega (arith, ap length sends-sent))
