-- ===== src/CellManager/Tasks.antt =====
-- `handleTask` works its queue off.
use mathlib.Core.Option.{some-injective}
use linux_tcp_lib.Prelude.{
  List-cases, ℕ, zero, suc, ◌+◌, ◌*◌, ◌≤◌, ◌<◌, ◌≡◌, ap, inl, inr, some, List, [], ◌∷◌, ◌++◌, arith,
  Bool-cases, Option-cases, length,
}
use linux_tcp_lib.MessageQueue.{MessageQueue}
use linux_tcp_lib.ClientCell.{SendCell}
use linux_tcp_lib.DoRecv.{TNotify}
use linux_tcp_lib.CellManager.{
  CellTask, added, deleted, sending, find, CellManager, del_task, handle_add, handle_send,
  handle_del, dispatch, handle_task,
}
use linux_tcp_lib.CellManager.Invariant.{IsManager, dispatch-Keeps}

-- A task to add a client may leave a task to delete it.
abbrev pub work : CellTask → ℕ
work (added k) = 2
work (deleted k) = 1
work (sending k sc) = 1

unfoldable pub work_of : List CellTask → ℕ
work_of [] = 0
work_of (ct ∷ cts) = work ct + work_of cts

work_of-append : (xs ys : List CellTask) → work_of (xs ++ ys) ≡ work_of xs + work_of ys
unfolding work_of
work_of-append [] ys = omega arith
work_of-append (x ∷ xs) ys = omega (arith, work_of-append xs ys)

pub work_of-le : (xs : List CellTask) → work_of xs ≤ 2 * length xs
unfolding work_of
work_of-le [] = omega arith
work_of-le (added k ∷ xs) = omega (arith, work_of-le xs)
work_of-le (deleted k ∷ xs) = omega (arith, work_of-le xs)
work_of-le (sending k sc ∷ xs) = omega (arith, work_of-le xs)

module _ {N : Type 0} (i : MessageQueue CellTask) (t : TNotify N) where
  abbrev pub queued : CellManager i t → ℕ
  queued m = work_of (i.contents m.cell_task)

  del_task-work :
      (m : CellManager i t) (k : ℕ) → IsManager i t m → queued (del_task i t m k) ≤ queued m + 1
  unfolding del_task work_of
  del_task-work m k v = elim (Bool-cases (i.push m.cell_task (deleted k)).0) [
    | inl e ↦
        let grown = (i.push_accepts m.cell_task (deleted k) v.queue e).1 in
        omega (arith, ap work_of grown, work_of-append (i.contents m.cell_task) (deleted k ∷ []))
    | inr e ↦
        let same = i.push_refuses m.cell_task (deleted k) e in
        omega (arith, ap (λ q. work_of (i.contents q)) same)
  ]

  handle_add-work :
      (m : CellManager i t) (k : ℕ) → IsManager i t m → queued (handle_add i t m k) ≤ queued m + 1
  unfolding handle_add
  handle_add-work m k v = elim (Option-cases (find m.cells k)) [
    | inl e ↦ rw (e, handle_add) (del_task-work m k v)
    | inr (c, e) ↦ rw (e, handle_add) (omega arith)
  ]

  pub handle_send-queue :
      (m : CellManager i t) (k : ℕ) (sc : SendCell)
      → (handle_send i t m k sc).cell_task ≡ m.cell_task
  unfolding handle_send
  handle_send-queue m k sc = ground arith

  pub handle_del-queue :
      (m m' : CellManager i t) (k : ℕ) → handle_del i t m k ≡ some m' → m'.cell_task ≡ m.cell_task
  unfolding handle_del
  handle_del-queue m m' k e = ground arith

  pub dispatch-work :
      (m m' : CellManager i t) (ct : CellTask)
      → IsManager i t m
      → dispatch i t m ct ≡ some m'
      → queued m' < queued m + work ct
  unfolding dispatch
  dispatch-work m m' (added k) v e =
      omega (arith, handle_add-work m k v, ap (λ x. queued x) (some-injective _ _ e))
  dispatch-work m m' (deleted k) v e =
      omega (arith, ap (λ q. work_of (i.contents q)) (handle_del-queue m m' k e))
  dispatch-work m m' (sending k sc) v e = omega (
    arith,
    ap (λ q. work_of (i.contents q)) (handle_send-queue m k sc),
    ap (λ x. queued x) (some-injective _ _ e),
  )

  abbrev pub taken : CellManager i t → i.Q → CellManager i t
  taken m q = record m { cell_task = q }

  handle_task-ends :
      (fuel : ℕ) (m : CellManager i t)
      → IsManager i t m
      → queued m < fuel
      → (m' : CellManager i t) × (handle_task i t fuel m ≡ some m')
        × IsManager i t m'
        × (i.contents m'.cell_task ≡ [])
  unfolding handle_task work_of
  handle_task-ends zero m v h = absurd (omega arith)
  handle_task-ends (suc fuel) m v h = elim (List-cases (i.contents m.cell_task)) [
    | inl e ↦ (m, rw (i.pop_empty m.cell_task v.queue e, handle_task), v, e)
    | inr (ct, xs, e) ↦
        let (q, popped, sound, left) = i.pop_front m.cell_task ct xs v.queue e in
        let m₁ = taken m q in
        let v₁ : IsManager i t m₁ = record { queue = sound; cells = v.cells } in
        let (m₂, ran, v₂) = dispatch-Keeps i t m₁ ct v₁ in
        let less : queued m₂ < fuel =
          omega (arith, dispatch-work m₁ m₂ ct v₁ ran, ap work_of left, ap work_of e) in
        let (m', rest_ran, v', none_left) = handle_task-ends fuel m₂ v₂ less in
        (m', rw (popped, handle_task, ran) rest_ran, v', none_left)
  ]

  -- With two rounds of fuel for each task in the queue and one to stop, `handleTask` on a sound
  -- loop comes to its end without reading through NULL, and leaves a sound loop and no task.
  pub handle_task-total :
      (m : CellManager i t) (fuel : ℕ)
      → IsManager i t m
      → 2 * length (i.contents m.cell_task) < fuel
      → (m' : CellManager i t) × (handle_task i t fuel m ≡ some m')
        × IsManager i t m'
        × (i.contents m'.cell_task ≡ [])
  handle_task-total m fuel v h =
      handle_task-ends fuel m v (omega (arith, work_of-le (i.contents m.cell_task)))
