-- ===== src/CellManager/Event.antt =====
-- `doEvent` keeps a sound event loop sound, and what can keep it from returning.
use linux_tcp_lib.Prelude.{
  ℕ, ◌≡◌, refl, ◌∙◌, ◌≢◌, ◌⊎◌, inl, inr, Bool, true, false, ◌||◌, Option, some, List, [],
  Bool-cases, Option-cases,
}
use linux_tcp_lib.MessageQueue.{MessageQueue}
use linux_tcp_lib.ClientCell.{Events, ClientCell}
use linux_tcp_lib.DoSend.{Writer}
use linux_tcp_lib.DoSend.Conserves.{do_send-Sends}
use linux_tcp_lib.DoRecv.{
  TNotify, ReadResult, RecvEnd, fine, closed, buffer_full, still_reading, in_callback, recv_loop,
}
use linux_tcp_lib.DoRecv.Feeds.{Returns, recv_loop-Receives}
use linux_tcp_lib.CellManager.{
  CellTask, CellMap, find, assign, CellManager, del_task, at_end, do_recv, do_send, on_epollin,
  on_epollout, do_event,
}
use linux_tcp_lib.CellManager.Cells.{IsCell, find-IsCell, assign-AllCells}
use linux_tcp_lib.CellManager.Invariant.{
  IsManager, del_task-IsManager, SameRest-IsBuffer, SameSend-IsRing,
}

module _ {N : Type 0} (i : MessageQueue CellTask) (t : TNotify N) where
  -- A call that returns, and leaves a sound loop, ...
  abbrev Runs : {B : Type 0} → Option (CellManager i t × B) → Type 0
  Runs {B} out = (m' : CellManager i t) × (b : B) × (out ≡ some (m', b)) × IsManager i t m'

  -- ... and a call of `doRecv` that is still in its loop when the socket has given these answers.
  abbrev Reading : CellManager i t → ℕ → List ReadResult → List ℕ → Type 0
  Reading m k answers incoming =
      (c : ClientCell) × (find m.cells k ≡ some c)
      × ((recv_loop t answers incoming c m.notify).end ≡ still_reading)

  abbrev received : CellManager i t → CellMap → N → CellManager i t
  received m cells n = record m { cells = cells; notify = n }

  at_end-Runs :
      (e : RecvEnd) (m₁ m₂ : CellManager i t) (rest : List ℕ)
      → e ≢ in_callback
      → IsManager i t m₁
      → IsManager i t m₂
      → Runs (at_end e (m₁, rest) (m₂, rest)) ⊎ (e ≡ still_reading)
  unfolding at_end
  at_end-Runs fine m₁ m₂ rest ret v w = inl (m₁, rest, refl, v)
  at_end-Runs closed m₁ m₂ rest ret v w = inl (m₂, rest, refl, w)
  at_end-Runs buffer_full m₁ m₂ rest ret v w = inl (m₁, rest, refl, v)
  at_end-Runs still_reading m₁ m₂ rest ret v w = inr refl
  at_end-Runs in_callback m₁ m₂ rest ret v w = absurd (ret refl)

  do_recv-Runs :
      (m : CellManager i t) (k : ℕ) (answers : List ReadResult) (incoming : List ℕ)
      → Returns t k
      → IsManager i t m
      → Runs (do_recv i t m k answers incoming) ⊎ Reading m k answers incoming
  unfolding do_recv
  do_recv-Runs m k answers incoming back v = elim (Option-cases (find m.cells k)) [
    | inl e ↦ inl (m, incoming, rw (e, do_recv), v)
    | inr (c, e) ↦
        let ok = find-IsCell m.cells k c v.cells e in
        let out = recv_loop t answers incoming c m.notify in
        let g = recv_loop-Receives t k answers incoming c m.notify ok.0 back ok.2 in
        let cell_ok : IsCell k out.cell =
          (g.same.client_fd ∙ ok.0, (ok.1.0, SameSend-IsRing g.same ok.1.1), g.buffer) in
        let m₁ = received m (assign m.cells k out.cell) out.notify in
        let sound : IsManager i t m₁ = record {
          queue = v.queue;
          cells = assign-AllCells m.cells k out.cell v.cells cell_ok;
        } in
        elim (at_end-Runs out.end m₁ (del_task i t m₁ c.client_fd) out.incoming g.returned sound
          (del_task-IsManager i t m₁ c.client_fd sound)) [
            | inl (m', rest, ran, v') ↦ inl (m', rest, rw (e, do_recv) ran, v')
            | inr stuck ↦ inr (c, e, stuck)
          ]
  ]

  do_send-Runs :
      (m : CellManager i t) (k : ℕ) (socket : Writer)
      → IsManager i t m
      → (m' : CellManager i t) × (sent : List ℕ) × (do_send i t m k socket ≡ some (m', sent))
        × IsManager i t m'
  unfolding do_send
  do_send-Runs m k socket v = elim (Option-cases (find m.cells k)) [
    | inl e ↦ (m, [], rw (e, do_send), v)
    | inr (c, e) ↦
        let ok = find-IsCell m.cells k c v.cells e in
        let g = do_send-Sends socket c ok.1.0 ok.1.1 in
        let cell_ok : IsCell k g.cell' =
          (g.rest.client_fd ∙ ok.0, (g.cs', g.ring), SameRest-IsBuffer g.rest ok.2) in
        (
          record m { cells = assign m.cells k g.cell' },
          g.more,
          rw (e, do_send, g.result),
          record { queue = v.queue; cells = assign-AllCells m.cells k g.cell' v.cells cell_ok },
        )
  ]

  on_epollin-Runs :
      (b : Bool) (m : CellManager i t) (k : ℕ) (answers : List ReadResult) (incoming : List ℕ)
      → Returns t k
      → IsManager i t m
      → Runs (on_epollin i t b m k answers incoming) ⊎ ((b ≡ true) × Reading m k answers incoming)
  unfolding on_epollin
  on_epollin-Runs true m k answers incoming back v =
      elim (do_recv-Runs m k answers incoming back v) [
        | inl ran ↦ inl ran
        | inr stuck ↦ inr (refl, stuck)
      ]
  on_epollin-Runs false m k answers incoming back v = inl (m, incoming, refl, v)

  on_epollout-Runs :
      (b : Bool) (m : CellManager i t) (k : ℕ) (socket : Writer)
      → IsManager i t m
      → (m' : CellManager i t) × (sent : List ℕ) × (on_epollout i t b m k socket ≡ some (m', sent))
        × IsManager i t m'
  unfolding on_epollout
  on_epollout-Runs true m k socket v = do_send-Runs m k socket v
  on_epollout-Runs false m k socket v = (m, [], refl, v)

  -- `doEvent` on a sound loop, for a descriptor whose callback returns and takes no more than it is
  -- handed, whatever the event is and the socket answers: it returns without reading through NULL
  -- and leaves a sound loop, or the event has EPOLLIN and none of the hang-up flags, and `doRecv`
  -- is still reading when the answers are used up.
  pub do_event-IsManager :
      (m : CellManager i t) (event : Events) (fd : ℕ) (answers : List ReadResult)
      (incoming : List ℕ) (socket : Writer)
      → Returns t fd
      → IsManager i t m
      → ((m' : CellManager i t) × (rest : List ℕ) × (sent : List ℕ) × (do_event i t m event fd
              answers incoming socket
            ≡ some (m', rest, sent))
          × IsManager i t m')
        ⊎ ((event.epollin ≡ true)
            × (event.epollhup || (event.epollerr || event.epollrdhup) ≡ false)
            × Reading m fd answers incoming)
  unfolding do_event
  do_event-IsManager m event fd answers incoming socket back v =
      elim (Bool-cases (event.epollhup || (event.epollerr || event.epollrdhup))) [
        | inl gone ↦ inl (del_task i t m fd, incoming, [], rw gone, del_task-IsManager i t m fd v)
        | inr well ↦ elim (on_epollin-Runs event.epollin m fd answers incoming back v) [
          | inl (m₁, rest, ran₁, v₁) ↦
              let (m₂, sent, ran₂, v₂) = on_epollout-Runs event.epollout m₁ fd socket v₁ in
              inl (m₂, rest, sent, rw (well, ran₁, ran₂), v₂)
          | inr (reads, stuck) ↦ inr (reads, well, stuck)
        ]
      ]
