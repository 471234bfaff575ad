-- ===== src/SendCell/Ring.antt =====
-- The ring as a list of messages, oldest first.
use native.Mathlib.Nat.{add-mod_right}
use linux_tcp_lib.Prelude.{
  ℕ, suc, ◌+◌, ◌%◌, ◌≤◌, ◌<◌, ◌≡◌, refl, sym, ap, ◌∙◌, ◌≢◌, ◌⊎◌, inl, inr, true, false, Option,
  some, List, [], ◌∷◌, ◌++◌, append_assoc, arith, ◌==◌, ==_iff, Bool-cases, length, drop,
}
use linux_tcp_lib.SrtQueue.Slots.{mod-ne}
use linux_tcp_lib.SendCell.{SendCellUnit, SendCell, Sizes, set_slot, is_empty, is_full}

-- A message that has not been sent to its end.
pub record IsReady (u : SendCellUnit) : Type 0 where
  pub holds : length u.ptr ≡ u.size
  pub unsent : u.send_pos < u.size
  pub enabled : u.enable_read ≡ 1

-- The slots from position `r` up to `w` hold these messages.
abbrev pub Holds : ℕ → (ℕ → Option SendCellUnit) → ℕ → ℕ → List SendCellUnit → Type 0
Holds n f r w [] = r ≡ w
Holds n f r w (u ∷ us) = (f (r % n) ≡ some u) × IsReady u × Holds n f (suc r) w us

pub record IsRing (z : Sizes) (c : SendCell) (us : List SendCellUnit) : Type 0 where
  pub room : length us < z.send_cell_size
  pub slots : Holds z.send_cell_size c.scu_ptr c.read_pos c.write_pos us

-- The bytes that are still to be sent.
abbrev pub bytes : List SendCellUnit → List ℕ
bytes [] = []
bytes (u ∷ us) = drop u.send_pos u.ptr ++ bytes us

pub Holds-write :
    (n : ℕ) (f : ℕ → Option SendCellUnit) (r w : ℕ) (us : List SendCellUnit)
    → Holds n f r w us
    → w ≡ r + length us
Holds-write n f r w [] h = omega arith
Holds-write n f r w (u ∷ us) (e, v, h) = omega (arith, Holds-write n f (suc r) w us h)

-- A write to a slot in front of or behind the stretch.
pub Holds-set_slot :
    (n : ℕ) (f : ℕ → Option SendCellUnit) (r w i : ℕ) (x : Option SendCellUnit)
    (us : List SendCellUnit)
    → ((k : ℕ) → r ≤ k → k < w → i % n ≢ k % n)
    → Holds n f r w us
    → Holds n (set_slot f (i % n) x) r w us
unfolding set_slot
Holds-set_slot n f r w i x [] out h = h
Holds-set_slot n f r w i x (u ∷ us) out (e, v, h) =
    let ne = out r (omega arith) (omega (arith, Holds-write n f (suc r) w us h)) in
    (
      ground (arith, ne, e),
      v,
      Holds-set_slot n f (suc r) w i x us (λ k le lt. out k (omega arith) lt) h,
    )

pub set_slot_self :
    (f : ℕ → Option SendCellUnit) (i : ℕ) (x : Option SendCellUnit) → set_slot f i x i ≡ x
unfolding set_slot
set_slot_self f i x = ground arith

-- The read slot, and the messages behind it.
pub Holds-set_slot_first :
    (n : ℕ) (f : ℕ → Option SendCellUnit) (r w : ℕ) (x : Option SendCellUnit)
    (us : List SendCellUnit)
    → suc (length us) < n
    → Holds n f (suc r) w us
    → Holds n (set_slot f (r % n) x) (suc r) w us
Holds-set_slot_first n f r w x us room h =
    let count = Holds-write n f (suc r) w us h in
    Holds-set_slot n f (suc r) w r x us (λ k le lt. mod-ne r k n (omega arith) (omega arith)) h

pub Holds-snoc :
    (n : ℕ) (f : ℕ → Option SendCellUnit) (r w : ℕ) (u : SendCellUnit) (us : List SendCellUnit)
    → Holds n f r w us
    → f (w % n) ≡ some u
    → IsReady u
    → Holds n f r (suc w) (us ++ u ∷ [])
Holds-snoc n f r w u [] h e v = (ap (λ i. f (i % n)) h ∙ e, v, ap suc h)
Holds-snoc n f r w u (a ∷ us) (e', v', h) e v = (e', v', Holds-snoc n f (suc r) w u us h e v)

pub bytes-append : (us vs : List SendCellUnit) → bytes (us ++ vs) ≡ bytes us ++ bytes vs
bytes-append [] vs = refl
bytes-append (u ∷ us) vs =
    ap (◌++◌ (drop u.send_pos u.ptr)) (bytes-append us vs)
    ∙ sym (append_assoc (drop u.send_pos u.ptr) (bytes us) (bytes vs))

-- The tests of the positions, in the ring's messages.
pub is_empty-IsRing :
    (z : Sizes) (c : SendCell) (us : List SendCellUnit)
    → IsRing z c us
    → 0 < length us
    → is_empty z c ≡ false
unfolding is_empty
is_empty-IsRing z c us v pos =
    let w = Holds-write z.send_cell_size c.scu_ptr c.read_pos c.write_pos us v.slots in
    let ne = mod-ne c.read_pos c.write_pos z.send_cell_size (omega arith) (omega (arith, v.room)) in
    ground (arith, ne)

pub is_empty-nil : (z : Sizes) (c : SendCell) → IsRing z c [] → is_empty z c ≡ true
unfolding is_empty
is_empty-nil z c v = let e = v.slots in ground (arith, e)

pub is_full-IsRing :
    (z : Sizes) (c : SendCell) (us : List SendCellUnit)
    → IsRing z c us
    → ((is_full z c ≡ true) × (suc (length us) ≡ z.send_cell_size))
      ⊎ ((is_full z c ≡ false) × (suc (length us) < z.send_cell_size))
unfolding is_full
is_full-IsRing z c us v =
    let n = z.send_cell_size in
    let w = Holds-write n c.scu_ptr c.read_pos c.write_pos us v.slots in
    elim (Bool-cases (suc (length us) == n)) [
      | inl e ↦
          let last : suc (length us) ≡ n = (==_iff (suc (length us)) n).0 e in
          let round : c.write_pos + 1 ≡ c.read_pos + n = omega arith in
          let same : (c.write_pos + 1) % n ≡ c.read_pos % n =
            ap (λ i. i % n) round ∙ add-mod_right c.read_pos n in
          inl ((==_iff ((c.write_pos + 1) % n) (c.read_pos % n)).1 same, last)
      | inr e ↦
          let lt : suc (length us) < n = ground (arith, v.room) in
          let ne = mod-ne c.read_pos (c.write_pos + 1) n (omega arith) (omega arith) in
          inr (ground (arith, ne), lt)
    ]
