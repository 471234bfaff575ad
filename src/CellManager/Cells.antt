-- ===== src/CellManager/Cells.antt =====
-- The laws of the map of connections, and what holds of every connection in it.
use mathlib.Core.Path.{subst₂}
use mathlib.Core.Option.{some-injective}
use linux_tcp_lib.Prelude.{
  ℕ, ◌≡◌, refl, inl, inr, none, some, List, [], ◌∷◌, arith, ◌==◌, if◌then◌else◌, ==_iff, Bool-cases,
}
use linux_tcp_lib.ClientCell.{SendCell, ClientCell}
use linux_tcp_lib.ClientCell.Ring.{IsRing}
use linux_tcp_lib.DoRecv.Buffer.{IsBuffer}
use linux_tcp_lib.CellManager.{CellMap, find, assign, erase}

pub find-assign :
    (m : CellMap) (k j : ℕ) (c : ClientCell)
    → find (assign m k c) j ≡ (if k == j then some c else find m j)
unfolding find assign
find-assign [] k j c = refl
find-assign ((i, d) ∷ m) k j c = ground (arith, find-assign m k j c)

pub find-erase : (m : CellMap) (k j : ℕ) → find (erase m k) j ≡ (if k == j then none else find m j)
unfolding find erase
find-erase [] k j = ground arith
find-erase ((i, d) ∷ m) k j = ground (arith, find-erase m k j)

-- A connection under its descriptor, with a sound ring and a sound buffer.
abbrev pub IsCell : ℕ → ClientCell → Type 0
IsCell k c = (c.client_fd ≡ k) × ((cs : List SendCell) × IsRing c cs) × IsBuffer c

abbrev pub AllCells : CellMap → Type 0
AllCells [] = Unit {0}
AllCells ((k, c) ∷ m) = IsCell k c × AllCells m

pub find-IsCell :
    (m : CellMap) (k : ℕ) (c : ClientCell) → AllCells m → find m k ≡ some c → IsCell k c
unfolding find
find-IsCell [] k c all e = cc
find-IsCell ((j, d) ∷ m) k c (one_cell, all) e = elim (Bool-cases (j == k)) [
  | inl q ↦
      let at : some d ≡ some c = rw (q, find) at e in
      subst₂ IsCell ((==_iff j k).0 q) (some-injective d c at) one_cell
  | inr q ↦ find-IsCell m k c all (rw (q, find) at e)
]

pub assign-AllCells :
    (m : CellMap) (k : ℕ) (c : ClientCell) → AllCells m → IsCell k c → AllCells (assign m k c)
unfolding assign
assign-AllCells [] k c all v = (v, tt)
assign-AllCells ((j, d) ∷ m) k c (one_cell, all) v = elim (Bool-cases (j == k)) [
  | inl q ↦ rw (q, assign) (v, all)
  | inr q ↦ rw (q, assign) (one_cell, assign-AllCells m k c all v)
]

pub erase-AllCells : (m : CellMap) (k : ℕ) → AllCells m → AllCells (erase m k)
unfolding erase
erase-AllCells [] k all = tt
erase-AllCells ((j, d) ∷ m) k (one_cell, all) = elim (Bool-cases (j == k)) [
  | inl q ↦ rw (q, erase) (erase-AllCells m k all)
  | inr q ↦ rw (q, erase) (one_cell, erase-AllCells m k all)
]
