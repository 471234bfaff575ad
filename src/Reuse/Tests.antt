-- ===== src/Reuse/Tests.antt =====
-- A connection deleted while another one is accepted.
use linux_tcp_lib.Prelude.{
  ◌+◌, ◌≡◌, refl, sym, ◌∙◌, ◌≢◌, inl, inr, true, false, none, some, [], ◌==◌, Bool-cases,
}
use mathlib.Core.Option.{some-ne-none}
use linux_tcp_lib.ClientCell.{ClientCell, client_cell, destroy}
use linux_tcp_lib.ClientCell.Destroy.{destroy-IsRing}
use linux_tcp_lib.CellManager.{added, find, handle_add, handle_del, del_task}
use linux_tcp_lib.Reuse.{
  outside, with_open, Sharing, accept_cell, del_client_cell, erase_cell, notify_disconnect, closes,
  accepts, erases, notifies, Run, done, step, is_closing, reuses, any_reuses,
}
use linux_tcp_lib.Reuse.Tracking.{has, Tracked, run-Tracked, reused-lost}
use linux_tcp_lib.Fixtures.{cell, cell-IsRing, tasks, count_notify, manager, manager-IsManager}
use linux_tcp_lib.CellManager.Cells.{find-IsCell}

abbrev sharing : Sharing tasks count_notify
sharing = record { manager = manager; is_open = λ j. 5 == j; pc = outside }

sharing-Tracked : Tracked tasks count_notify sharing
unfolding find has is_closing client_cell
sharing-Tracked = record {
  keyed = λ j c e. (find-IsCell manager.cells j c manager-IsManager.cells e).0;
  agree = λ j. elim (Bool-cases (5 == j)) [ inl q ↦ rw q refl | inr q ↦ rw q refl ];
}

abbrev other : ClientCell
other = record cell { client_fd = 6 }

abbrev again : ClientCell
again = record cell { port = 9000 }

found : find manager.cells 5 ≡ some cell
unfolding find
found = refl

frees : destroy cell ≢ none
frees e = let (c, ran, _) = destroy-IsRing cell [] cell-IsRing in some-ne-none (c, []) (sym ran ∙ e)

free : with_open (λ j. 5 == j) 5 false 6 ≡ false
unfolding with_open
free = refl

-- The client 5 is deleted while the descriptor 6 is accepted.
abbrev closed5 : Sharing tasks count_notify
closed5 = del_client_cell tasks count_notify sharing 5 cell

abbrev added6 : Sharing tasks count_notify
added6 = accept_cell tasks count_notify closed5 other

abbrev erased5 : Sharing tasks count_notify
erased5 = erase_cell tasks count_notify added6 5

abbrev told5 : Sharing tasks count_notify
told5 = notify_disconnect tasks count_notify erased5 5

run5 : Run tasks count_notify sharing told5
unfolding client_cell del_client_cell accept_cell erase_cell
run5 =
    step (closes 5 cell refl found frees)
      (step (accepts other free) (step (erases 5 refl) (step (notifies 5 refl) done)))

run5-calm : any_reuses tasks count_notify run5 ≡ false
unfolding run5 any_reuses reuses is_closing client_cell del_client_cell
run5-calm = refl

run5-Tracked : Tracked tasks count_notify told5
run5-Tracked = run-Tracked tasks count_notify run5 run5-calm sharing-Tracked

reused-lost_example :
    (s₁ : Sharing tasks count_notify) × Run tasks count_notify sharing s₁
    × (s₁.pc ≡ outside)
    × (s₁.is_open 5 ≡ true)
    × (find s₁.manager.cells 5 ≡ none)
    × (s₁.manager.notify ≡ 0 + 1)
    × (s₁.manager.cell_task ≡ (tasks.push manager.cell_task (added 5)).1)
    × (handle_add tasks count_notify s₁.manager 5 ≡ del_task tasks count_notify s₁.manager 5)
    × (handle_del tasks count_notify (del_task tasks count_notify s₁.manager 5) 5
        ≡ some (del_task tasks count_notify s₁.manager 5))
unfolding client_cell
reused-lost_example =
    reused-lost tasks count_notify sharing cell again sharing-Tracked refl found frees
