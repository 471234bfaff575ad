-- ===== src/EventLoop/Keys.antt =====
-- A round of an event loop brings in no connection.
use mathlib.Core.Path.{subst}
use linux_tcp_lib.Prelude.{
  suc, ◌*◌, inl, inr, Option, none, some, List, [], ◌∷◌, Option-cases, length,
}
use linux_tcp_lib.MessageQueue.{MessageQueue}
use linux_tcp_lib.DoRecv.{TNotify}
use linux_tcp_lib.CellManager.{CellTask, CellManager, check_write, handle_task, do_event}
use linux_tcp_lib.CellManager.Keys.{
  Within, Stays, StaysBy, handle_task-Stays, check_write-Within, do_event-StaysBy,
}
use linux_tcp_lib.EventLoop.{EpollEvent, do_events, round}

module _ {N : Type 0} (i : MessageQueue CellTask) (t : TNotify N) where
  Stays-Within :
      (a b : CellManager i t) (out : Option (CellManager i t))
      → Within a.cells b.cells
      → Stays i t b out
      → Stays i t a out
  Stays-Within a b none first later = tt
  Stays-Within a b (some c) first later = λ k z. later k (first k z)

  do_events-Stays : (m : CellManager i t) (es : List EpollEvent) → Stays i t m (do_events i t m es)
  unfolding do_events
  do_events-Stays m [] = λ k z. z
  do_events-Stays m (e ∷ es) =
      elim (Option-cases (do_event i t m e.events e.fd e.answers e.incoming e.socket)) [
        | inl f ↦ rw (do_events, f) tt
        | inr ((m₁, rest, sent), f) ↦
            let first : Within m.cells m₁.cells =
              subst (StaysBy i t (λ r. r.0) m) f
                (do_event-StaysBy i t m e.events e.fd e.answers e.incoming e.socket) in
            rw (do_events, f)
              (Stays-Within m m₁ (do_events i t m₁ es) first (do_events-Stays m₁ es))
      ]

  pub round-Stays : (m : CellManager i t) (es : List EpollEvent) → Stays i t m (round i t m es)
  unfolding round
  round-Stays m es =
      let fuel = suc (2 * length (i.contents m.cell_task)) in
      elim (Option-cases (handle_task i t fuel m)) [
        | inl f ↦ rw (round, f) tt
        | inr (m₁, f) ↦
            let first : Within m.cells m₁.cells =
              subst (Stays i t m) f (handle_task-Stays i t fuel m) in
            let m₂ = check_write i t m₁ in
            rw (round, f)
              (Stays-Within m m₂ (do_events i t m₂ es)
                (λ k z. check_write-Within i t m₁ k (first k z)) (do_events-Stays m₂ es))
      ]
