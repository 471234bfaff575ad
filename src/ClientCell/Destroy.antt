-- ===== src/ClientCell/Destroy.antt =====
-- The destructor frees what the ring holds.
use linux_tcp_lib.Prelude.{
  ℕ, zero, suc, ◌<◌, ◌≡◌, sym, ap, ◌∙◌, true, false, some, List, [], ◌∷◌, ◌++◌, append-nil,
  append_assoc, arith, ◌==◌, length,
}
use linux_tcp_lib.ClientCell.{SendCell, ClientCell, free_loop, destroy, release_front}
use linux_tcp_lib.ClientCell.Ring.{IsRing, empty_iff, release_front-IsRing}

free_loop-IsRing :
    (fuel : ℕ) (cell : ClientCell) (cs freed : List SendCell)
    → IsRing cell cs
    → length cs < fuel
    → (cell' : ClientCell) × (free_loop fuel cell freed ≡ some (cell', freed ++ cs))
      × IsRing cell' []
unfolding free_loop release_front
free_loop-IsRing zero cell cs freed v h = absurd (omega arith)
free_loop-IsRing (suc fuel) cell [] freed v h =
    let e : (cell.send_read_pos == cell.send_write_pos) ≡ true = ground arith in
    (cell, rw (e, free_loop) (ap (λ k. some (cell, k)) (sym (append-nil freed))), v)
free_loop-IsRing (suc fuel) cell (c ∷ cs) freed v h =
    let e : (cell.send_read_pos == cell.send_write_pos) ≡ false =
      ground (arith, (empty_iff cell (c ∷ cs) v).0) in
    let (cell', ran, ended) =
      free_loop-IsRing fuel (release_front cell) cs (freed ++ c ∷ [])
        (release_front-IsRing cell c cs v) (omega arith) in
    (
      cell',
      rw (e, free_loop, v.holds.0)
          (ran ∙ ap (λ k. some (cell', k)) (append_assoc freed (c ∷ []) cs)),
      ended,
    )

-- Destroying a sound cell reads no NULL slot, frees every message that its ring holds once, in
-- order, and leaves the ring empty.
pub destroy-IsRing :
    (cell : ClientCell) (cs : List SendCell)
    → IsRing cell cs
    → (cell' : ClientCell) × (destroy cell ≡ some (cell', cs)) × IsRing cell' []
unfolding destroy
destroy-IsRing cell cs v = free_loop-IsRing 1048576 cell cs [] v v.room
