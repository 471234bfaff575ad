-- ===== src/CellManager/Closing.antt =====
-- The end of a connection.
use linux_tcp_lib.Prelude.{
  ℕ, ◌≡◌, refl, ◌∙◌, none, some, List, [], ◌∷◌, ◌++◌, arith, ◌==◌, if◌then◌else◌,
}
use linux_tcp_lib.Limits.{tcp_server_client_closed}
use linux_tcp_lib.MessageQueue.{MessageQueue}
use linux_tcp_lib.ClientCell.{ClientCell}
use linux_tcp_lib.ClientCell.Destroy.{destroy-IsRing}
use linux_tcp_lib.DoRecv.{TNotify}
use linux_tcp_lib.CellManager.{
  CellTask, epoll_del, close_fd, find, erase, CellManager, send_task, handle_del,
}
use linux_tcp_lib.CellManager.Cells.{find-IsCell, find-erase}
use linux_tcp_lib.CellManager.Invariant.{IsManager}

module _ {N : Type 0} (i : MessageQueue CellTask) (t : TNotify N) where
  -- Deleting a client of a sound loop: the callbacks hear of it once, the descriptor leaves epoll
  -- and is closed, the other clients stay, later sends are answered CLIENT_CLOSED, and deleting it
  -- again does nothing.
  pub handle_del-closes :
      (m : CellManager i t) (k : ℕ) (c : ClientCell)
      → IsManager i t m
      → find m.cells k ≡ some c
      → (m' : CellManager i t) × (handle_del i t m k ≡ some m')
        × (m'.notify ≡ t.on_disconnect m.notify k)
        × (m'.calls ≡ m.calls ++ epoll_del k ∷ close_fd k ∷ [])
        × ((j : ℕ) → find m'.cells j ≡ (if k == j then none else find m.cells j))
        × ((bytes : List ℕ) → send_task i t m' k bytes ≡ (tcp_server_client_closed, m'))
        × (handle_del i t m' k ≡ some m')
  unfolding handle_del send_task
  handle_del-closes m k c v e =
      let ok = find-IsCell m.cells k c v.cells e in
      let (c', ran, _) = destroy-IsRing c ok.1.0 ok.1.1 in
      let gone : find (erase m.cells k) k ≡ none = find-erase m.cells k k ∙ ground arith in
      (
        record m {
          cells = erase m.cells k;
          calls = m.calls ++ epoll_del c.client_fd ∷ close_fd c.client_fd ∷ [];
          notify = t.on_disconnect m.notify k;
        },
        rw (e, handle_del, ran),
        refl,
        rw ok.0,
        find-erase m.cells k,
        λ bytes. rw (gone, send_task),
        rw (gone, handle_del),
      )
