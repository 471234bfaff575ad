-- ===== src/CellManager/InOrder.antt =====
-- The order of the messages for one client, from the queue of tasks to its ring: `handleTask`,
-- `handleAdd`, `handleSend` and `handleDel` of base/src/tcp_server/cell_manager.cpp.
use mathlib.Core.Option.{some-injective, some-ne-none}
use mathlib.Core.Path.{subst}
use linux_tcp_lib.Prelude.{
  List-cases, ℕ, zero, suc, ◌+◌, ◌*◌, ◌≤◌, ◌<◌, ◌≡◌, refl, sym, ap, ◌∙◌, ◌≢◌, inl, inr, true, false,
  none, some, List, [], ◌∷◌, ◌++◌, append-nil, append_assoc, arith, ◌==◌, ==_iff, Bool-cases,
  Option-cases, length, length-append,
}
use linux_tcp_lib.MessageQueue.{MessageQueue}
use linux_tcp_lib.ClientCell.{SendCell, ClientCell, destroy, is_full, append}
use linux_tcp_lib.ClientCell.Ring.{IsRing, append-IsRing}
use linux_tcp_lib.DoRecv.{TNotify}
use linux_tcp_lib.CellManager.{
  CellTask, added, deleted, sending, CellMap, find, assign, CellManager, watched, push_task,
  del_task, handle_add, handle_send, handle_del, dispatch, handle_task,
}
use linux_tcp_lib.CellManager.Sending.{not_full}
use linux_tcp_lib.CellManager.Invariant.{IsManager, dispatch-Keeps}
use linux_tcp_lib.CellManager.Tasks.{
  work_of, work_of-le, queued, handle_send-queue, handle_del-queue, dispatch-work, taken,
}
use linux_tcp_lib.CellManager.Ordering.{
  sent_to, spares, HasRing, sent_to-snoc, spares-snoc, gone, sent_to-cons, spares-cons,
  HasRing-assign_ne, HasRing-assign, HasRing-erase,
}

module _ {N : Type 0} (i : MessageQueue CellTask) (t : TNotify N) where
  -- What a handler leaves of the other tasks, as far as the client is concerned.
  record Rest (k : ℕ) (q q' : i.Q) : Type 0 where
    sent : sent_to k (i.contents q') ≡ sent_to k (i.contents q)
    spared : spares k (i.contents q) ≡ true → spares k (i.contents q') ≡ true

  same-Rest : (k : ℕ) (q q' : i.Q) → q' ≡ q → Rest k q q'
  same-Rest k q q' e = record {
    sent = ap (λ x. sent_to k (i.contents x)) e;
    spared = λ h. ap (λ x. spares k (i.contents x)) e ∙ h;
  }

  del_task-Rest :
      (m : CellManager i t) (j k : ℕ)
      → i.IsValid m.cell_task
      → j ≢ k
      → Rest k m.cell_task (del_task i t m j).cell_task
  unfolding del_task push_task
  del_task-Rest m j k v ne = elim (Bool-cases (i.push m.cell_task (deleted j)).0) [
    | inl e ↦
        let grown = (i.push_accepts m.cell_task (deleted j) v e).1 in
        record {
          sent = ap (sent_to k) grown ∙ sent_to-snoc k j (i.contents m.cell_task);
          spared = λ h. ap (spares k) grown ∙ spares-snoc k j (i.contents m.cell_task) ne h;
        }
    | inr e ↦ same-Rest k m.cell_task _ (i.push_refuses m.cell_task (deleted j) e)
  ]

  -- A client with a ring is another one than a client that is not there.
  other : (m : CellMap) (j k : ℕ) (cs : List SendCell) → HasRing m k cs → find m j ≡ none → j ≢ k
  other m j k cs v e same = some-ne-none v.cell (sym v.found ∙ ap (find m) (sym same) ∙ e)

  events-IsRing :
      (c : ClientCell) (cs : List SendCell)
      → IsRing c cs
      → IsRing (record c { events = watched }) cs
  events-IsRing c cs r = record {
    read_in = r.read_in;
    write_in = r.write_in;
    room = r.room;
    holds = r.holds;
  }

  handle_add-HasRing :
      (m : CellManager i t) (j k : ℕ) (cs : List SendCell)
      → i.IsValid m.cell_task
      → HasRing m.cells k cs
      → HasRing (handle_add i t m j).cells k cs × Rest k m.cell_task (handle_add i t m j).cell_task
  unfolding handle_add del_task push_task
  handle_add-HasRing m j k cs v r = elim (Option-cases (find m.cells j)) [
    | inl e ↦ rw (e, handle_add) (r, del_task-Rest m j k v (other m.cells j k cs r e))
    | inr (d, e) ↦
        rw (e, handle_add)
          (
            elim (Bool-cases (j == k)) [
              | inl same ↦
                  let at = (==_iff j k).0 same in
                  let d_is : d ≡ r.cell =
                    some-injective d r.cell (sym e ∙ ap (find m.cells) at ∙ r.found) in
                  subst (λ x. HasRing (assign m.cells j (record d { events = watched })) x cs) at
                    (HasRing-assign m.cells j (record d { events = watched }) cs
                      (events-IsRing d cs (subst (λ x. IsRing x cs) (sym d_is) r.ring)))
              | inr ne ↦
                  HasRing-assign_ne m.cells j k (record d { events = watched }) cs
                    (λ q. ground (arith, q)) r
            ],
            same-Rest k m.cell_task m.cell_task refl,
          )
  ]

  handle_send-HasRing :
      (m : CellManager i t) (j k : ℕ) (sc : SendCell) (cs : List SendCell)
      → HasRing m.cells k cs
      → length cs + length (sent_to k (sending j sc ∷ [])) ≤ 1048575
      → HasRing (handle_send i t m j sc).cells k (cs ++ sent_to k (sending j sc ∷ []))
  unfolding handle_send sent_to
  handle_send-HasRing m j k sc cs r room = elim (Bool-cases (j == k)) [
    | inl same ↦
        let at = (==_iff j k).0 same in
        let found : find m.cells j ≡ some r.cell = ap (find m.cells) at ∙ r.found in
        let one : length cs + 1 ≤ 1048575 = rw same at room in
        let free : is_full r.cell ≡ false =
          not_full r.cell cs r.ring (λ e. omega (arith, e, one)) in
        rw (same, found, free, handle_send)
          (subst (λ x. HasRing (assign m.cells j (append r.cell sc)) x (cs ++ sc ∷ [])) at
            (HasRing-assign m.cells j (append r.cell sc) (cs ++ sc ∷ [])
              (append-IsRing r.cell cs sc r.ring free)))
    | inr ne ↦
        rw (ne, append-nil cs)
          (elim (Option-cases (find m.cells j)) [
            | inl e ↦ rw (e, handle_send) r
            | inr (d, e) ↦ elim (Bool-cases (is_full d)) [
              | inl f ↦ rw (e, f, handle_send) r
              | inr f ↦
                  rw (e, f, handle_send)
                    (HasRing-assign_ne m.cells j k (append d sc) cs (λ q. ground (arith, q)) r)
            ]
          ])
  ]

  handle_del-HasRing :
      (m m' : CellManager i t) (j k : ℕ) (cs : List SendCell)
      → handle_del i t m j ≡ some m'
      → j ≢ k
      → HasRing m.cells k cs
      → HasRing m'.cells k cs
  unfolding handle_del
  handle_del-HasRing m m' j k cs ran ne r = elim (Option-cases (find m.cells j)) [
    | inl e ↦ subst (λ x. HasRing x.cells k cs) (some-injective m m' (rw (e, handle_del) at ran)) r
    | inr (d, e) ↦ elim (Option-cases (destroy d)) [
      | inl f ↦ absurd (some-ne-none m' (sym (rw (e, f, handle_del) at ran)))
      | inr (freed, f) ↦
          subst (λ x. HasRing x.cells k cs) (some-injective _ m' (rw (e, f, handle_del) at ran))
            (HasRing-erase m.cells j k cs ne r)
    ]
  ]

  dispatch-HasRing :
      (m m' : CellManager i t) (ct : CellTask) (k : ℕ) (cs : List SendCell)
      → i.IsValid m.cell_task
      → dispatch i t m ct ≡ some m'
      → HasRing m.cells k cs
      → spares k (ct ∷ []) ≡ true
      → length cs + length (sent_to k (ct ∷ [])) ≤ 1048575
      → HasRing m'.cells k (cs ++ sent_to k (ct ∷ [])) × Rest k m.cell_task m'.cell_task
  unfolding dispatch sent_to spares
  dispatch-HasRing m m' (added j) k cs v ran r ok room =
      subst (λ x. HasRing x.cells k (cs ++ []) × Rest k m.cell_task x.cell_task)
        (some-injective _ m' ran) (rw (append-nil cs) (handle_add-HasRing m j k cs v r))
  dispatch-HasRing m m' (deleted j) k cs v ran r ok room = (
    rw (append-nil cs) (handle_del-HasRing m m' j k cs ran (λ e. gone j k e ok) r),
    same-Rest k m.cell_task m'.cell_task (handle_del-queue i t m m' j ran),
  )
  dispatch-HasRing m m' (sending j sc) k cs v ran r ok room =
      let same = some-injective _ m' ran in
      (
        subst (λ x. HasRing x.cells k (cs ++ sent_to k (sending j sc ∷ []))) same
            (handle_send-HasRing m j k sc cs r room),
        subst (λ x. Rest k m.cell_task x.cell_task) same
            (same-Rest k m.cell_task _ (handle_send-queue i t m j sc)),
      )

  handle_task-HasRing :
      (fuel : ℕ) (m : CellManager i t) (k : ℕ) (cs : List SendCell)
      → IsManager i t m
      → queued i t m < fuel
      → HasRing m.cells k cs
      → spares k (i.contents m.cell_task) ≡ true
      → length cs + length (sent_to k (i.contents m.cell_task)) ≤ 1048575
      → (m' : CellManager i t) × (handle_task i t fuel m ≡ some m')
        × HasRing m'.cells k (cs ++ sent_to k (i.contents m.cell_task))
  unfolding handle_task work_of sent_to
  handle_task-HasRing zero m k cs v h r ok room = absurd (omega arith)
  handle_task-HasRing (suc fuel) m k cs v h r ok room = elim (List-cases (i.contents m.cell_task)) [
    | inl e ↦ (
      m,
      rw (i.pop_empty m.cell_task v.queue e, handle_task) refl,
      subst (HasRing m.cells k) (sym (append-nil cs) ∙ ap (λ l. cs ++ sent_to k l) (sym e)) r,
    )
    | inr (ct, xs, e) ↦
        let (q, popped, sound, left) = i.pop_front m.cell_task ct xs v.queue e in
        let m₁ = taken i t m q in
        let v₁ : IsManager i t m₁ = record { queue = sound; cells = v.cells } in
        let (m₂, ran, v₂) = dispatch-Keeps i t m₁ ct v₁ in
        let less : queued i t m₂ < fuel =
          omega (arith, dispatch-work i t m₁ m₂ ct v₁ ran, ap work_of left, ap work_of e) in
        let first = sent_to k (ct ∷ []) in
        let all : sent_to k (i.contents m.cell_task) ≡ first ++ sent_to k xs =
          ap (sent_to k) e ∙ sent_to-cons k ct xs in
        let (ok₁, ok₂) = spares-cons k ct xs (ap (spares k) (sym e) ∙ ok) in
        let size = ap length all ∙ length-append first (sent_to k xs) in
        let (r₂, rest) =
          dispatch-HasRing m₁ m₂ ct k cs sound ran r ok₁ (omega (arith, size, room)) in
        let later : sent_to k (i.contents m₂.cell_task) ≡ sent_to k xs =
          rest.sent ∙ ap (sent_to k) left in
        let (m', rest_ran, r') =
          handle_task-HasRing fuel m₂ k (cs ++ first) v₂ less r₂
            (rest.spared (ap (spares k) left ∙ ok₂))
            (omega (arith, size, room, length-append cs first, ap length later)) in
        (
          m',
          rw (popped, handle_task, ran) rest_ran,
          subst (HasRing m'.cells k)
              (append_assoc cs first (sent_to k (i.contents m₂.cell_task))
                ∙ ap (λ l. cs ++ (first ++ l)) later
                ∙ ap (◌++◌ cs) (sym all))
              r',
        )
  ]

  -- On a sound loop with a client whose ring holds `cs`, where no task in the queue deletes the client
  -- and the ring has room for the messages for it: with two rounds of fuel for each task and one to
  -- stop, `handleTask` comes to its end, and the client's ring holds `cs` and behind it the messages
  -- for the client in the order of their tasks, whatever the other tasks are.
  pub handle_task-in_order :
      (m : CellManager i t) (fuel k : ℕ) (c : ClientCell) (cs : List SendCell)
      → IsManager i t m
      → 2 * length (i.contents m.cell_task) < fuel
      → find m.cells k ≡ some c
      → IsRing c cs
      → spares k (i.contents m.cell_task) ≡ true
      → length cs + length (sent_to k (i.contents m.cell_task)) ≤ 1048575
      → (m' : CellManager i t) × (c' : ClientCell) × (handle_task i t fuel m ≡ some m')
        × (find m'.cells k ≡ some c')
        × IsRing c' (cs ++ sent_to k (i.contents m.cell_task))
  handle_task-in_order m fuel k c cs v h e ring ok room =
      let (m', ran, r) =
        handle_task-HasRing fuel m k cs v (omega (arith, work_of-le (i.contents m.cell_task)))
          (record { cell = c; found = e; ring = ring }) ok room in
      (m', r.cell, ran, r.found, r.ring)
