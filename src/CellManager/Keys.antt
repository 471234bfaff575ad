-- ===== src/CellManager/Keys.antt =====
-- No handler of an event loop brings in a connection: only `addTask` does.
use linux_tcp_lib.Prelude.{
  ℕ, zero, suc, ◌≡◌, refl, sym, ap, ◌∙◌, inl, inr, Bool, true, false, ◌||◌, Option, none, some,
  List, [], ◌∷◌, ◌==◌, ==_iff, Bool-cases, Option-cases,
}
use mathlib.Core.Option.{some-ne-none}
use mathlib.Core.Path.{subst}
use linux_tcp_lib.MessageQueue.{MessageQueue}
use linux_tcp_lib.ClientCell.{SendCell, ClientCell, Events, is_full, destroy}
use linux_tcp_lib.DoSend
use linux_tcp_lib.DoSend.{Writer}
use linux_tcp_lib.DoRecv.{
  TNotify, ReadResult, RecvEnd, fine, closed, buffer_full, still_reading, in_callback, recv_loop,
}
use linux_tcp_lib.CellManager.{
  CellTask, added, deleted, sending, CellMap, CellManager, find, assign, erase, check_cells,
  push_task, del_task, handle_add, handle_send, handle_del, dispatch, handle_task, check_write,
  at_end, do_recv, do_send, on_epollin, on_epollout, do_event,
}
use linux_tcp_lib.CellManager.Cells.{find-assign, find-erase}

-- What is not in the first map is not in the second.
abbrev pub Within : CellMap → CellMap → Type 0
Within cells cells' = (k : ℕ) → find cells k ≡ none → find cells' k ≡ none

assign-Within :
    (cells : CellMap) (j : ℕ) (c c' : ClientCell)
    → find cells j ≡ some c
    → Within cells (assign cells j c')
assign-Within cells j c c' has k e = elim (Bool-cases (j == k)) [
  | inl q ↦ absurd (some-ne-none c (sym has ∙ ap (find cells) ((==_iff j k).0 q) ∙ e))
  | inr q ↦ find-assign cells j k c' ∙ rw q e
]

erase-Within : (cells : CellMap) (j : ℕ) → Within cells (erase cells j)
erase-Within cells j k e = elim (Bool-cases (j == k)) [
  | inl q ↦ find-erase cells j k ∙ rw q refl
  | inr q ↦ find-erase cells j k ∙ rw q e
]

check_cells-Within : (cells : CellMap) → Within cells (check_cells cells).0
unfolding check_cells find
check_cells-Within [] k e = refl
check_cells-Within ((j, c) ∷ cells) k e = elim (Bool-cases (j == k)) [
  | inl q ↦ absurd (some-ne-none c (rw (q, find) at e))
  | inr q ↦ rw q (check_cells-Within cells k (rw (q, find) at e))
]

module _ {N : Type 0} (i : MessageQueue CellTask) (t : TNotify N) where
  handle_add-Within : (m : CellManager i t) (j : ℕ) → Within m.cells (handle_add i t m j).cells
  unfolding handle_add del_task push_task
  handle_add-Within m j = elim (Option-cases (find m.cells j)) [
    | inl e ↦ rw (handle_add, e) (λ k z. z)
    | inr (c, e) ↦ rw (handle_add, e) (assign-Within m.cells j c _ e)
  ]

  handle_send-Within :
      (m : CellManager i t) (j : ℕ) (sc : SendCell) → Within m.cells (handle_send i t m j sc).cells
  unfolding handle_send
  handle_send-Within m j sc = elim (Option-cases (find m.cells j)) [
    | inl e ↦ rw (handle_send, e) (λ k z. z)
    | inr (c, e) ↦ elim (Bool-cases (is_full c)) [
      | inl f ↦ rw (handle_send, e, f) (λ k z. z)
      | inr f ↦ rw (handle_send, e, f) (assign-Within m.cells j c _ e)
    ]
  ]

  abbrev pub Stays : CellManager i t → Option (CellManager i t) → Type 0
  Stays m none = Unit {0}
  Stays m (some m') = Within m.cells m'.cells

  handle_del-Stays : (m : CellManager i t) (j : ℕ) → Stays m (handle_del i t m j)
  unfolding handle_del
  handle_del-Stays m j = elim (Option-cases (find m.cells j)) [
    | inl e ↦ rw (handle_del, e) (λ k z. z)
    | inr (c, e) ↦ elim (Option-cases (destroy c)) [
      | inl f ↦ rw (handle_del, e, f) tt
      | inr (x, f) ↦ rw (handle_del, e, f) (erase-Within m.cells j)
    ]
  ]

  dispatch-Stays : (m : CellManager i t) (ct : CellTask) → Stays m (dispatch i t m ct)
  unfolding dispatch
  dispatch-Stays m (added j) = handle_add-Within m j
  dispatch-Stays m (deleted j) = handle_del-Stays m j
  dispatch-Stays m (sending j sc) = handle_send-Within m j sc

  pub handle_task-Stays : (fuel : ℕ) (m : CellManager i t) → Stays m (handle_task i t fuel m)
  unfolding handle_task
  handle_task-Stays zero m = tt
  handle_task-Stays (suc fuel) m = elim (Option-cases (i.pop m.cell_task)) [
    | inl e ↦ rw (handle_task, e) (λ k z. z)
    | inr ((ct, q), e) ↦
        let m₁ : CellManager i t = record m { cell_task = q } in
        elim (Option-cases (dispatch i t m₁ ct)) [
          | inl f ↦ rw (handle_task, e, f) tt
          | inr (m₂, f) ↦
              let first : Within m.cells m₂.cells = subst (Stays m₁) f (dispatch-Stays m₁ ct) in
              rw (handle_task, e, f)
                (after m m₂ (handle_task i t fuel m₂) first (handle_task-Stays fuel m₂))
        ]
  ]
    where
      after :
          (a b : CellManager i t) (out : Option (CellManager i t))
          → Within a.cells b.cells
          → Stays b out
          → Stays a out
      after a b none first later = tt
      after a b (some c) first later = λ k z. later k (first k z)

  pub check_write-Within : (m : CellManager i t) → Within m.cells (check_write i t m).cells
  unfolding check_write
  check_write-Within m = check_cells-Within m.cells

  abbrev pub StaysBy : {A : Type 0} → (A → CellManager i t) → CellManager i t → Option A → Type 0
  StaysBy f m none = Unit {0}
  StaysBy f m (some a) = Within m.cells (f a).cells

  at_end-StaysBy :
      {A : Type 0} (f : A → CellManager i t) (m : CellManager i t) (end : RecvEnd) (kept gone : A)
      → Within m.cells (f kept).cells
      → Within m.cells (f gone).cells
      → StaysBy f m (at_end end kept gone)
  unfolding at_end
  at_end-StaysBy f m fine kept gone v w = v
  at_end-StaysBy f m closed kept gone v w = w
  at_end-StaysBy f m buffer_full kept gone v w = v
  at_end-StaysBy f m still_reading kept gone v w = tt
  at_end-StaysBy f m in_callback kept gone v w = tt

  do_recv-StaysBy :
      (m : CellManager i t) (j : ℕ) (answers : List ReadResult) (incoming : List ℕ)
      → StaysBy (λ r. r.0) m (do_recv i t m j answers incoming)
  unfolding do_recv del_task push_task
  do_recv-StaysBy m j answers incoming = elim (Option-cases (find m.cells j)) [
    | inl e ↦ rw (do_recv, e) (λ k z. z)
    | inr (c, e) ↦
        let out = recv_loop t answers incoming c m.notify in
        let kept = assign-Within m.cells j c out.cell e in
        rw (do_recv, e) (at_end-StaysBy (λ r. r.0) m out.end _ _ kept kept)
  ]

  do_send-StaysBy :
      (m : CellManager i t) (j : ℕ) (socket : Writer)
      → StaysBy (λ r. r.0) m (do_send i t m j socket)
  unfolding do_send
  do_send-StaysBy m j socket = elim (Option-cases (find m.cells j)) [
    | inl e ↦ rw (do_send, e) (λ k z. z)
    | inr (c, e) ↦ elim (Option-cases (DoSend.do_send socket c)) [
      | inl f ↦ rw (do_send, e, f) tt
      | inr ((c', sent), f) ↦ rw (do_send, e, f) (assign-Within m.cells j c c' e)
    ]
  ]

  on_epollin-StaysBy :
      (b : Bool) (m : CellManager i t) (j : ℕ) (answers : List ReadResult) (incoming : List ℕ)
      → StaysBy (λ r. r.0) m (on_epollin i t b m j answers incoming)
  unfolding on_epollin
  on_epollin-StaysBy true m j answers incoming = do_recv-StaysBy m j answers incoming
  on_epollin-StaysBy false m j answers incoming = λ k z. z

  on_epollout-StaysBy :
      (b : Bool) (m : CellManager i t) (j : ℕ) (socket : Writer)
      → StaysBy (λ r. r.0) m (on_epollout i t b m j socket)
  unfolding on_epollout
  on_epollout-StaysBy true m j socket = do_send-StaysBy m j socket
  on_epollout-StaysBy false m j socket = λ k z. z

  pub do_event-StaysBy :
      (m : CellManager i t) (event : Events) (fd : ℕ) (answers : List ReadResult)
      (incoming : List ℕ) (socket : Writer)
      → StaysBy (λ r. r.0) m (do_event i t m event fd answers incoming socket)
  unfolding do_event del_task push_task
  do_event-StaysBy m event fd answers incoming socket =
      elim (Bool-cases (event.epollhup || (event.epollerr || event.epollrdhup))) [
        | inl e ↦ rw (do_event, e) (λ k z. z)
        | inr e ↦
            let reads = on_epollin i t event.epollin m fd answers incoming in
            elim (Option-cases reads) [
              | inl f ↦ rw (do_event, e, f) tt
              | inr ((m₁, rest), f) ↦
                  let first : Within m.cells m₁.cells =
                    subst (StaysBy (λ r. r.0) m) f
                      (on_epollin-StaysBy event.epollin m fd answers incoming) in
                  elim (Option-cases (on_epollout i t event.epollout m₁ fd socket)) [
                    | inl g ↦ rw (do_event, e, f, g) tt
                    | inr ((m₂, sent), g) ↦
                        let later : Within m₁.cells m₂.cells =
                          subst (StaysBy (λ r. r.0) m₁) g
                            (on_epollout-StaysBy event.epollout m₁ fd socket) in
                        rw (do_event, e, f, g) (λ k z. later k (first k z))
                  ]
            ]
      ]
