-- ===== src/DoRecv/Spins.antt =====
-- Where `doRecv` makes no progress.
use linux_tcp_lib.Prelude.{ℕ, zero, suc, ◌≤◌, ◌<◌, ◌≡◌, false, List, [], ◌∷◌, arith, ltb, lt→ltb}
use linux_tcp_lib.ClientCell.{ClientCell}
use linux_tcp_lib.DoRecv.{TNotify, ReadResult, read_again, fine, still_reading, recv_loop}

-- The socket has nothing to read, `k` times in a row.
abbrev pub nothing_to_read : ℕ → List ReadResult
nothing_to_read zero = []
nothing_to_read (suc k) = read_again ∷ nothing_to_read k

module _ {N : Type 0} (t : TNotify N) where
  -- EAGAIN does not end the loop: with room in the buffer, and however often the socket answers
  -- that it has nothing to read, `doRecv` is still reading, and nothing else has changed.
  pub recv_loop-nothing_to_read :
      (k : ℕ) (incoming : List ℕ) (cell : ClientCell) (n : N)
      → cell.recv_write_pos < 1048576
      → recv_loop t (nothing_to_read k) incoming cell n
        ≡ record { cell = cell; notify = n; incoming = incoming; end = still_reading }
  unfolding recv_loop
  recv_loop-nothing_to_read zero incoming cell n h = rw (lt→ltb _ _ h)
  recv_loop-nothing_to_read (suc k) incoming cell n h =
      rw (lt→ltb _ _ h, recv_loop) (recv_loop-nothing_to_read k incoming cell n h)

  -- A buffer that was reported full is never read into again: whatever the socket answers, `doRecv`
  -- on a cell whose write position is at the end reads nothing and calls nobody.
  pub recv_loop-full :
      (answers : List ReadResult) (incoming : List ℕ) (cell : ClientCell) (n : N)
      → 1048576 ≤ cell.recv_write_pos
      → recv_loop t answers incoming cell n
        ≡ record { cell = cell; notify = n; incoming = incoming; end = fine }
  unfolding recv_loop
  recv_loop-full [] incoming cell n h =
      let e : ltb cell.recv_write_pos 1048576 ≡ false = ground arith in rw (e, recv_loop)
  recv_loop-full (a ∷ answers) incoming cell n h =
      let e : ltb cell.recv_write_pos 1048576 ≡ false = ground arith in rw (e, recv_loop)
