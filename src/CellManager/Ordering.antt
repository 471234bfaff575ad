-- ===== src/CellManager/Ordering.antt =====
-- The messages for one client in the queue of tasks, and the ring of that client in the map of cells:
-- `m_cellmap` and `m_cell_task` of base/src/tcp_server/cell_manager.h.
use linux_tcp_lib.Prelude.{
  ℕ, ◌≡◌, refl, ap, ◌≢◌, inl, inr, Bool, true, false, not, ◌&&◌, some, List, [], ◌∷◌, ◌++◌, arith,
  ◌==◌, if◌then◌else◌, ==_iff, Bool-cases,
}
use linux_tcp_lib.ClientCell.{SendCell, ClientCell}
use linux_tcp_lib.ClientCell.Ring.{IsRing}
use linux_tcp_lib.CellManager.{CellTask, added, deleted, sending, CellMap, find, assign, erase}
use linux_tcp_lib.CellManager.Cells.{find-assign, find-erase}

-- The messages for a client among the tasks.
unfoldable pub sent_to : ℕ → List CellTask → List SendCell
sent_to k [] = []
sent_to k (added j ∷ cts) = sent_to k cts
sent_to k (deleted j ∷ cts) = sent_to k cts
sent_to k (sending j sc ∷ cts) = let rest = sent_to k cts in if j == k then sc ∷ rest else rest

-- No task deletes the client.
unfoldable pub spares : ℕ → List CellTask → Bool
spares k [] = true
spares k (added j ∷ cts) = spares k cts
spares k (deleted j ∷ cts) = not (j == k) && spares k cts
spares k (sending j sc ∷ cts) = spares k cts

pub sent_to-snoc :
    (k j : ℕ) (cts : List CellTask) → sent_to k (cts ++ deleted j ∷ []) ≡ sent_to k cts
unfolding sent_to
sent_to-snoc k j [] = refl
sent_to-snoc k j (added i ∷ cts) = sent_to-snoc k j cts
sent_to-snoc k j (deleted i ∷ cts) = sent_to-snoc k j cts
sent_to-snoc k j (sending i sc ∷ cts) =
    ap (λ l. if i == k then sc ∷ l else l) (sent_to-snoc k j cts)

pub spares-snoc :
    (k j : ℕ) (cts : List CellTask)
    → j ≢ k
    → spares k cts ≡ true
    → spares k (cts ++ deleted j ∷ []) ≡ true
unfolding spares
spares-snoc k j [] ne h = let e : (j == k) ≡ false = ground (arith, ne) in rw e refl
spares-snoc k j (added i ∷ cts) ne h = spares-snoc k j cts ne h
spares-snoc k j (deleted i ∷ cts) ne h = elim (Bool-cases (i == k)) [
  | inl e ↦ let at : false ≡ true = rw e at h in cc
  | inr e ↦ rw e (spares-snoc k j cts ne (rw e at h))
]
spares-snoc k j (sending i sc ∷ cts) ne h = spares-snoc k j cts ne h

pub gone : (j k : ℕ) → j ≡ k → spares k (deleted j ∷ []) ≢ true
unfolding spares
gone j k e ok = let same = (==_iff j k).1 e in let bad : false ≡ true = rw same at ok in cc

-- A task and those behind it.
pub sent_to-cons :
    (k : ℕ) (ct : CellTask) (cts : List CellTask)
    → sent_to k (ct ∷ cts) ≡ sent_to k (ct ∷ []) ++ sent_to k cts
unfolding sent_to
sent_to-cons k (added j) cts = refl
sent_to-cons k (deleted j) cts = refl
sent_to-cons k (sending j sc) cts = elim (Bool-cases (j == k)) [
  | inl e ↦ rw e refl
  | inr e ↦ rw e refl
]

pub spares-cons :
    (k : ℕ) (ct : CellTask) (cts : List CellTask)
    → spares k (ct ∷ cts) ≡ true
    → (spares k (ct ∷ []) ≡ true) × (spares k cts ≡ true)
unfolding spares
spares-cons k (added j) cts h = (refl, h)
spares-cons k (deleted j) cts h = elim (Bool-cases (j == k)) [
  | inl e ↦ let bad : false ≡ true = rw e at h in cc
  | inr e ↦ rw e (refl, rw e at h)
]
spares-cons k (sending j sc) cts h = (refl, h)

-- The client has a ring with these messages.
pub record HasRing (m : CellMap) (k : ℕ) (cs : List SendCell) : Type 0 where
  pub cell : ClientCell
  pub found : find m k ≡ some cell
  pub ring : IsRing cell cs

pub HasRing-assign_ne :
    (m : CellMap) (j k : ℕ) (d : ClientCell) (cs : List SendCell)
    → j ≢ k
    → HasRing m k cs
    → HasRing (assign m j d) k cs
HasRing-assign_ne m j k d cs ne v =
    let e : (j == k) ≡ false = ground (arith, ne) in
    record { cell = v.cell; found = rw (find-assign m j k d, e) v.found; ring = v.ring }

pub HasRing-assign :
    (m : CellMap) (k : ℕ) (d : ClientCell) (cs : List SendCell)
    → IsRing d cs
    → HasRing (assign m k d) k cs
HasRing-assign m k d cs ring =
    let e : (k == k) ≡ true = ground arith in
    record { cell = d; found = rw (find-assign m k k d, e) refl; ring = ring }

pub HasRing-erase :
    (m : CellMap) (j k : ℕ) (cs : List SendCell) → j ≢ k → HasRing m k cs → HasRing (erase m j) k cs
HasRing-erase m j k cs ne v =
    let e : (j == k) ≡ false = ground (arith, ne) in
    record { cell = v.cell; found = rw (find-erase m j k, e) v.found; ring = v.ring }
