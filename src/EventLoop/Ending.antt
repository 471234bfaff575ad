-- ===== src/EventLoop/Ending.antt =====
-- The end of an event loop.
use linux_tcp_lib.Prelude.{
  ℕ, zero, suc, ◌<◌, ◌≡◌, refl, sym, ap, ◌∙◌, Option, some, List, [], ◌∷◌, ◌++◌, append-nil,
  append_assoc, arith, length,
}
use linux_tcp_lib.ClientCell.Destroy.{destroy-IsRing}
use linux_tcp_lib.CellManager.{SysCall, epoll_del, close_fd, CellMap}
use linux_tcp_lib.CellManager.Cells.{AllCells}
use linux_tcp_lib.MessageQueue.{MessageQueue}
use linux_tcp_lib.DoRecv.{TNotify}
use linux_tcp_lib.CellManager.{CellTask, CellManager}
use linux_tcp_lib.CellManager.Invariant.{IsManager}
use linux_tcp_lib.EventLoop.{close_epoll, delete_cells, free_tasks, destroy_manager}

-- An `epoll_ctl` and a `close` for each descriptor of the map, in the order of the map.
unfoldable pub closing : CellMap → List SysCall
closing [] = []
closing ((k, c) ∷ m) = epoll_del k ∷ close_fd k ∷ closing m

pub delete_cells-closing : (m : CellMap) → AllCells m → delete_cells m ≡ some (closing m)
unfolding delete_cells closing
delete_cells-closing [] all = refl
delete_cells-closing ((k, c) ∷ m) (one_cell, all) =
    let (c', ran, _) = destroy-IsRing c one_cell.1.0 one_cell.1.1 in
    rw (ran, delete_cells, delete_cells-closing m all)
      (ap (λ j. some (epoll_del j ∷ close_fd j ∷ closing m)) one_cell.0)

module _ {N : Type 0} (i : MessageQueue CellTask) (t : TNotify N) where
  free_tasks-contents :
      (fuel : ℕ) (q : i.Q) (cts freed : List CellTask)
      → i.IsValid q
      → i.contents q ≡ cts
      → length cts < fuel
      → free_tasks i t fuel q freed ≡ some (freed ++ cts)
  unfolding free_tasks
  free_tasks-contents zero q cts freed v e lt = absurd (omega arith)
  free_tasks-contents (suc fuel) q [] freed v e lt =
      rw (free_tasks, i.pop_empty q v e) (ap some (sym (append-nil freed)))
  free_tasks-contents (suc fuel) q (ct ∷ cts) freed v e lt =
      let (q', popped, v', rest) = i.pop_front q ct cts v e in
      rw (free_tasks, popped)
        (free_tasks-contents fuel q' cts (freed ++ ct ∷ []) v' rest (omega arith)
          ∙ ap some (append_assoc freed (ct ∷ []) cts))

  -- The destructor of a sound event loop, behind the end of its thread, comes to its end and reads
  -- nothing through NULL. It first closes the epoll descriptor, if there is one. Then, in the order
  -- of the map, it calls `epoll_ctl` for each descriptor under which a connection stands, on the epoll
  -- descriptor that is closed by then, and closes the descriptor. It frees each task that is still in
  -- the queue once, in their order.
  pub destroy_manager_lem :
      (m : CellManager i t) (listen_fd : Option ℕ)
      → IsManager i t m
      → destroy_manager i t m listen_fd
        ≡ some (close_epoll listen_fd ++ closing m.cells, i.contents m.cell_task)
  unfolding destroy_manager
  destroy_manager_lem m listen_fd v =
      let cts = i.contents m.cell_task in
      rw
        (
          destroy_manager,
          delete_cells-closing m.cells v.cells,
          free_tasks-contents (suc (length cts)) m.cell_task cts [] v.queue refl (omega arith),
        )
        refl
