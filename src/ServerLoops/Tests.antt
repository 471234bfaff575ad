-- ===== src/ServerLoops/Tests.antt =====
-- A server with four loops that accepts two connections.
use linux_tcp_lib.Prelude.{
  ℕ, ◌%◌, ◌≡◌, refl, sym, ◌⊎◌, inl, inr, true, false, none, some, List, [], ◌∷◌, ◌++◌, arith, ◌==◌,
  ==_iff, Bool-cases, length, get_elem?, set,
}
use mathlib.Core.Option.{some-ne-none}
use linux_tcp_lib.ServerLoops.{handle_accept, curr_cell_manager}
use linux_tcp_lib.CellManager.{add_task, push_task, assign}
use linux_tcp_lib.ClientCell.{client_cell}
use linux_tcp_lib.ServerLoops.OneLoop.{Reach, fresh, later, accepts, one_loop}
use linux_tcp_lib.Fixtures.{tasks, count_notify, no_tasks, cell, manager, manager-IsManager}
use linux_tcp_lib.CellManager.{CellManager, watched, find, sending, new_send_cell}
use linux_tcp_lib.ClientCell.{ClientCell}
use linux_tcp_lib.SrtQueue.Fifo.{srt_queue-IsQueue}
use linux_tcp_lib.CellManager.{added}
use linux_tcp_lib.ServerLoops.{
  SocketCall, Garbage, WaitAnswer, wait_timeout, woken, loop_num, new_loops, run, send_data,
}
use linux_tcp_lib.ServerLoops.Placement.{
  IsServer, set-IsServer, new_loops-IsServer, run-IsServer, send_data-reaches,
}

abbrev garbage : Garbage
garbage = record { recv_buf = λ j. 0; send_buf = λ j. none; events = watched }

abbrev loops : List (CellManager tasks count_notify)
loops = new_loops tasks count_notify garbage no_tasks 0 (loop_num (some 1))

abbrev wakes : List WaitAnswer
wakes =
    woken 3 (some (record { clientid = 6; ip = []; port = 8000 }))
    ∷ wait_timeout
    ∷ woken 3 none
    ∷ woken 3 (some (record { clientid = 9; ip = []; port = 8001 }))
    ∷ []

loops-IsServer : IsServer tasks count_notify garbage loops
loops-IsServer =
    new_loops-IsServer tasks count_notify garbage no_tasks 0 1 (srt_queue-IsQueue (added 0) 2 2).0

run-accepts :
    (loops' : List (CellManager tasks count_notify)) × (calls : List SocketCall) × (run tasks
        count_notify garbage loops 3 wakes
      ≡ some (loops', calls))
    × IsServer tasks count_notify garbage loops'
    × (length loops' ≡ length loops)
run-accepts = run-IsServer tasks count_notify garbage loops 3 wakes loops-IsServer

-- Two loops, and the connection 5 in the second.
abbrev served : List (CellManager tasks count_notify)
served = set (new_loops tasks count_notify garbage no_tasks 0 (loop_num (some 0))) 1 manager

of_manager : (fd : ℕ) (c : ClientCell) → find manager.cells fd ≡ some c → 1 ≡ fd % 2
unfolding find
of_manager fd c e = elim (Bool-cases (5 == fd)) [
  | inl q ↦ omega (arith, (==_iff 5 fd).0 q)
  | inr q ↦ absurd (some-ne-none c (sym (rw (q, find) at e)))
]

served-IsServer : IsServer tasks count_notify garbage served
unfolding new_loops loop_num
served-IsServer =
    set-IsServer tasks count_notify garbage
      (new_loops tasks count_notify garbage no_tasks 0 (loop_num (some 0))) 1 manager
      (new_loops-IsServer tasks count_notify garbage no_tasks 0 0
        (srt_queue-IsQueue (added 0) 2 2).0)
      manager-IsManager of_manager

at_one : get_elem? served 1 ≡ some manager
unfolding new_loops loop_num
at_one = refl

has_five : find manager.cells 5 ≡ some cell
unfolding find
has_five = refl

send_data-served :
    let ct = sending 5 (new_send_cell tasks count_notify (1 ∷ 2 ∷ [])) in
    (loops' : List (CellManager tasks count_notify)) × (send_data tasks count_notify garbage served
        5
        (1 ∷ 2 ∷ [])
      ≡ some loops')
    × ((((tasks.push no_tasks ct).0 ≡ true)
          × ((m' : CellManager tasks count_notify) × (loops' ≡ set served 1 m')
              × (tasks.contents m'.cell_task ≡ tasks.contents no_tasks ++ ct ∷ [])
              × (m'.cells ≡ manager.cells)))
        ⊎ (((tasks.push no_tasks ct).0 ≡ false) × (loops' ≡ served)))
send_data-served =
    send_data-reaches tasks count_notify garbage served 1 5 manager cell (1 ∷ 2 ∷ [])
      served-IsServer at_one has_five (omega arith)

-- Four loops that have accepted the connection 6 and made a round.
abbrev Run : Type 0
Run = (l : List (CellManager tasks count_notify)) × Reach tasks count_notify garbage no_tasks 0 4 l

accepted : Run
unfolding handle_accept curr_cell_manager new_loops
accepted = (_, later fresh (accepts (some (record { clientid = 6; ip = []; port = 80 })) refl))

six_at : (m : CellManager tasks count_notify) × (get_elem? accepted.0 2 ≡ some m)
unfolding accepted handle_accept curr_cell_manager new_loops
six_at = (_, refl)

six : (c : ClientCell) × (find six_at.0.cells 6 ≡ some c)
unfolding six_at accepted handle_accept add_task push_task find assign client_cell
six = (_, refl)

one_loop-accepted :
    ◌≡◌ {A = ℕ} 2 2
    × (curr_cell_manager tasks count_notify garbage accepted.0 6 ≡ some (2, six_at.0))
one_loop-accepted =
    one_loop tasks count_notify garbage 2 2 6 (omega arith) accepted.1 six_at.1 six.1 six_at.1 six.1
