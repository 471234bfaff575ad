-- ===== src/CellManager/Invariant.antt =====
-- What holds of an event loop between two steps, and that every step keeps it. No step reads
-- through a NULL pointer.
use linux_tcp_lib.Prelude.{
  ℕ, ◌≡◌, refl, inl, inr, false, not, Option, some, List, [], ◌∷◌, ◌++◌, arith, ◌==◌, Bool-cases,
  Option-cases,
}
use linux_tcp_lib.MessageQueue.{MessageQueue, push-IsValid}
use linux_tcp_lib.ClientCell.{SendCell, Events, ClientCell, is_full, append}
use linux_tcp_lib.ClientCell.Ring.{IsRing, append-IsRing}
use linux_tcp_lib.ClientCell.Destroy.{destroy-IsRing}
use linux_tcp_lib.DoSend.Conserves.{SameRest}
use linux_tcp_lib.DoRecv.{TNotify}
use linux_tcp_lib.DoRecv.Buffer.{IsBuffer}
use linux_tcp_lib.DoRecv.Feeds.{SameSend}
use linux_tcp_lib.CellManager.{
  CellTask, epoll_del, close_fd, added, deleted, sending, CellMap, find, erase, watched, check_cell,
  check_cells, CellManager, push_task, add_task, del_task, new_send_cell, send_task, handle_add,
  handle_send, handle_del, dispatch, check_write,
}
use linux_tcp_lib.CellManager.Cells.{IsCell, AllCells, find-IsCell, assign-AllCells, erase-AllCells}

append-IsCell :
    (k : ℕ) (c : ClientCell) (sc : SendCell)
    → IsCell k c
    → is_full c ≡ false
    → IsCell k (append c sc)
unfolding append
append-IsCell k c sc v e =
    let ring = append-IsRing c v.1.0 sc v.1.1 e in
    (
      v.0,
      (v.1.0 ++ sc ∷ [], ring),
      record { ordered = v.2.ordered; in_bounds = v.2.in_bounds; low = v.2.low },
    )

events-IsCell :
    (k : ℕ) (c : ClientCell) (e : Events) → IsCell k c → IsCell k (record c { events = e })
events-IsCell k c e v =
    let r = v.1.1 in
    (
      v.0,
      (
        v.1.0,
        record { read_in = r.read_in; write_in = r.write_in; room = r.room; holds = r.holds },
      ),
      record { ordered = v.2.ordered; in_bounds = v.2.in_bounds; low = v.2.low },
    )

-- `checkWrite` sets the flag for EPOLLOUT to whether there is something to send, and no more.
pub check_cell_lem :
    (c : ClientCell)
    → (check_cell c).0 ≡ record c {
      events = record c.events { epollout = not (c.send_write_pos == c.send_read_pos) };
    }
unfolding check_cell
check_cell_lem c = ground arith

check_cells-AllCells : (m : CellMap) → AllCells m → AllCells (check_cells m).0
unfolding check_cells
check_cells-AllCells [] all = tt
check_cells-AllCells ((k, c) ∷ m) (v, all) =
    (rw check_cell_lem (events-IsCell k c _ v), check_cells-AllCells m all)

pub SameRest-IsBuffer : {c d : ClientCell} → SameRest c d → IsBuffer c → IsBuffer d
SameRest-IsBuffer s v = record { ordered = omega arith; in_bounds = omega arith; low = omega arith }

pub SameSend-IsRing :
    {c d : ClientCell} {cs : List SendCell} → SameSend c d → IsRing c cs → IsRing d cs
SameSend-IsRing s v = record {
  read_in = omega arith;
  write_in = omega arith;
  room = v.room;
  holds = rw (s.send_buf, s.send_read_pos, s.send_write_pos) v.holds;
}

module _ {N : Type 0} (i : MessageQueue CellTask) (t : TNotify N) where
  pub record IsManager (m : CellManager i t) : Type 0 where
    pub queue : i.IsValid m.cell_task
    pub cells : AllCells m.cells

  push_task-IsManager :
      (m : CellManager i t) (ct : CellTask) → IsManager m → IsManager (push_task i t m ct)
  unfolding push_task
  push_task-IsManager m ct v = record {
    queue = push-IsValid i m.cell_task ct v.queue;
    cells = v.cells;
  }

  pub del_task-IsManager :
      (m : CellManager i t) (k : ℕ) → IsManager m → IsManager (del_task i t m k)
  unfolding del_task
  del_task-IsManager m k v = push_task-IsManager m (deleted k) v

  -- A new connection with a sound cell.
  pub add_task-IsManager :
      (m : CellManager i t) (c : ClientCell)
      → IsCell c.client_fd c
      → IsManager m
      → IsManager (add_task i t m c)
  unfolding add_task
  add_task-IsManager m c ok v = record {
    queue = push-IsValid i m.cell_task (added c.client_fd) v.queue;
    cells = assign-AllCells m.cells c.client_fd c v.cells ok;
  }

  pushed :
      (m : CellManager i t) (ct : CellTask)
      → IsManager m
      → IsManager (record m { cell_task = (i.push m.cell_task ct).1 })
  pushed m ct v = record { queue = push-IsValid i m.cell_task ct v.queue; cells = v.cells }

  pub send_task-IsManager :
      (m : CellManager i t) (k : ℕ) (bytes : List ℕ)
      → IsManager m
      → IsManager (send_task i t m k bytes).1
  unfolding send_task
  send_task-IsManager m k bytes v = elim (Option-cases (find m.cells k)) [
    | inl e ↦ rw (e, send_task) v
    | inr (c, e) ↦
        let ct = sending k (new_send_cell i t bytes) in
        elim (Bool-cases (i.push m.cell_task ct).0) [
          | inl f ↦ rw (e, send_task, f) (pushed m ct v)
          | inr f ↦ rw (e, send_task, f) (pushed m ct v)
        ]
  ]

  handle_add-IsManager :
      (m : CellManager i t) (k : ℕ) → IsManager m → IsManager (handle_add i t m k)
  unfolding handle_add
  handle_add-IsManager m k v = elim (Option-cases (find m.cells k)) [
    | inl e ↦ rw (e, handle_add) (del_task-IsManager m k v)
    | inr (c, e) ↦
        rw (e, handle_add)
          (record {
            queue = v.queue;
            cells =
                assign-AllCells m.cells k (record c { events = watched }) v.cells
                  (events-IsCell k c watched (find-IsCell m.cells k c v.cells e));
          })
  ]

  handle_send-IsManager :
      (m : CellManager i t) (k : ℕ) (sc : SendCell)
      → IsManager m
      → IsManager (handle_send i t m k sc)
  unfolding handle_send
  handle_send-IsManager m k sc v = elim (Option-cases (find m.cells k)) [
    | inl e ↦ rw (e, handle_send) v
    | inr (c, e) ↦ elim (Bool-cases (is_full c)) [
      | inl f ↦ rw (e, handle_send, f) v
      | inr f ↦
          rw (e, handle_send, f)
            (record {
              queue = v.queue;
              cells =
                  assign-AllCells m.cells k (append c sc) v.cells
                    (append-IsCell k c sc (find-IsCell m.cells k c v.cells e) f);
            })
    ]
  ]

  -- A handler that returns, and leaves a sound loop.
  abbrev Keeps : Option (CellManager i t) → Type 0
  Keeps out = (m' : CellManager i t) × (out ≡ some m') × IsManager m'

  handle_del-Keeps : (m : CellManager i t) (k : ℕ) → IsManager m → Keeps (handle_del i t m k)
  unfolding handle_del
  handle_del-Keeps m k v = elim (Option-cases (find m.cells k)) [
    | inl e ↦ (m, rw (e, handle_del), v)
    | inr (c, e) ↦
        let ok = find-IsCell m.cells k c v.cells e in
        let (c', ran, _) = destroy-IsRing c ok.1.0 ok.1.1 in
        (
          record m {
            cells = erase m.cells k;
            calls = m.calls ++ epoll_del c.client_fd ∷ close_fd c.client_fd ∷ [];
            notify = t.on_disconnect m.notify k;
          },
          rw (e, handle_del, ran),
          record { queue = v.queue; cells = erase-AllCells m.cells k v.cells },
        )
  ]

  pub dispatch-Keeps :
      (m : CellManager i t) (ct : CellTask) → IsManager m → Keeps (dispatch i t m ct)
  unfolding dispatch
  dispatch-Keeps m (added k) v = (handle_add i t m k, refl, handle_add-IsManager m k v)
  dispatch-Keeps m (deleted k) v = handle_del-Keeps m k v
  dispatch-Keeps m (sending k sc) v = (handle_send i t m k sc, refl, handle_send-IsManager m k sc v)

  -- `checkWrite` keeps the loop sound.
  pub check_write-IsManager : (m : CellManager i t) → IsManager m → IsManager (check_write i t m)
  unfolding check_write
  check_write-IsManager m v = record {
    queue = v.queue;
    cells = check_cells-AllCells m.cells v.cells;
  }
