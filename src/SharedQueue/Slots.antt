-- ===== src/SharedQueue/Slots.antt =====
-- What an access to the table changes: which slots read differently, and which pages are still there.
use linux_tcp_lib.Prelude.{
  ℕ, ◌+◌, ◌-◌, ◌*◌, ◌/◌, ◌%◌, ◌<◌, ◌≡◌, refl, ap, ◌∙◌, ◌≢◌, inl, inr, none, some, arith, ltb, ◌==◌,
  if◌then◌else◌, ltb→lt, ==_iff, Bool-cases,
}
use native.Mathlib.Nat.{div-add-mod}
use linux_tcp_lib.SrtQueue.{
  SrtMessage, Page, SrtQueue, blank_page, msg_page, with_page, write_slot, page_of,
}
use linux_tcp_lib.SrtQueue.Slots.{mod-ne, div-le-div, slot, msg_page-with_page}
use linux_tcp_lib.SharedQueue.{Shared, update, ensure, put_slot, drop_page, Held}

-- Indices whose pages are fewer than a table apart do not share a slot.
pub window_apart : (p n j k : ℕ) → j < k → k / p < j / p + n → j / p % n ≡ k / p % n → j % p ≢ k % p
window_apart p n j k lt near same_page same_place = elim (Bool-cases (ltb (j / p) (k / p))) [
  | inl later ↦ mod-ne (j / p) (k / p) n (ltb→lt (j / p) (k / p) later) near same_page
  | inr same ↦
      let le = div-le-div p j k (omega arith) in
      let e : j / p ≡ k / p = ground arith in
      omega (arith, div-add-mod j p, div-add-mod k p, ap (λ i. p * i) e)
]

module _ {T : Type 0} (zero_msg : T) where
  pub at_page :
      (q : SrtQueue T) (p : ℕ) (page : Page T)
      → q.page_indexes p ≡ some page
      → msg_page zero_msg q p ≡ page
  unfolding msg_page
  at_page q p page e = rw (msg_page, e) refl

  if_same : (f : ℕ → Page T) (p b : ℕ) → (if b == p then f p else f b) ≡ f b
  if_same f p b = elim (Bool-cases (b == p)) [
    | inl e ↦ rw (e, (==_iff b p).0 e) refl
    | inr e ↦ rw e refl
  ]

  -- Making a page shows in no slot.
  pub ensure-slot :
      (s : Shared T) (p j : ℕ)
      → slot zero_msg (ensure zero_msg s p).queue j ≡ slot zero_msg s.queue j
  unfolding ensure slot page_of with_page
  ensure-slot s p j =
      let b = page_of zero_msg s.queue j in
      ap (λ page. page (j % s.queue.page_msg_count))
        (msg_page-with_page zero_msg s.queue p b (msg_page zero_msg s.queue p)
          ∙ if_same (msg_page zero_msg s.queue) p b)

  -- A page that is held stays, ...
  pub ensure-Held :
      (s : Shared T) (p j g : ℕ) (page : Page T)
      → Held zero_msg s j g page
      → Held zero_msg (ensure zero_msg s p) j g page
  unfolding ensure msg_page with_page update page_of
  ensure-Held s p j g page h =
      let b = page_of zero_msg s.queue j in
      elim (Bool-cases (b == p)) [
        | inl e ↦ let q = (==_iff b p).0 e in (ground arith, ground arith)
        | inr e ↦ (ground (arith, h.0), ground (arith, h.1))
      ]

  -- ... and the page that is asked for is there.
  pub ensure-Held_self :
      (s : Shared T) (j : ℕ)
      → Held zero_msg
          (ensure zero_msg s (page_of zero_msg s.queue j))
          j
          ((ensure zero_msg s (page_of zero_msg s.queue j)).made (page_of zero_msg s.queue j))
          (msg_page zero_msg s.queue (page_of zero_msg s.queue j))
  unfolding ensure with_page page_of
  ensure-Held_self s j = (ground arith, refl)

  -- The slot that is written, ...
  pub put_slot-slot_self :
      (s : Shared T) (j : ℕ) (page : Page T) (x : SrtMessage T)
      → slot zero_msg (put_slot zero_msg s j page x).queue j ≡ x
  unfolding put_slot slot msg_page with_page write_slot page_of
  put_slot-slot_self s j page x = ground arith

  pub Held-slot :
      (s : Shared T) (j g : ℕ) (page : Page T)
      → Held zero_msg s j g page
      → slot zero_msg s.queue j ≡ page (j % s.queue.page_msg_count)
  unfolding slot
  Held-slot s j g page h = ap (λ p. p (j % s.queue.page_msg_count)) (at_page s.queue _ page h.0)

  -- ... and the others, which are elsewhere.
  pub put_slot-slot_other :
      (s : Shared T) (j k g : ℕ) (page : Page T) (x : SrtMessage T)
      → Held zero_msg s j g page
      → (page_of zero_msg s.queue j ≡ page_of zero_msg s.queue k
          → j % s.queue.page_msg_count ≢ k % s.queue.page_msg_count)
      → slot zero_msg (put_slot zero_msg s j page x).queue k ≡ slot zero_msg s.queue k
  unfolding put_slot slot msg_page with_page write_slot page_of
  put_slot-slot_other s j k g page x h apart = ground (arith, apart, h.0)

  pub put_slot-Held :
      (s : Shared T) (j k g : ℕ) (page page' : Page T) (x : SrtMessage T)
      → Held zero_msg s k g page'
      → (page'' : Page T) × Held zero_msg (put_slot zero_msg s j page x) k g page''
  unfolding put_slot with_page page_of
  put_slot-Held s j k g page page' x h =
      let a = page_of zero_msg s.queue j in
      let b = page_of zero_msg s.queue k in
      elim (Bool-cases (b == a)) [
        | inl e ↦ (write_slot zero_msg page (j % s.queue.page_msg_count) x, (ground arith, h.1))
        | inr e ↦ (page', (ground (arith, h.0), h.1))
      ]

  -- The reader's page deleted.
  abbrev pub sans_page : Shared T → Shared T
  sans_page s = record s {
    queue = with_page zero_msg s.queue (page_of zero_msg s.queue s.queue.get_index) none;
  }

  pub drop_page_last :
      (s : Shared T)
      → s.queue.get_index % s.queue.page_msg_count ≡ s.queue.page_msg_count - 1
      → drop_page zero_msg s ≡ sans_page s
  unfolding drop_page
  drop_page_last s last = ground (arith, last)

  pub drop_page_keeps :
      (s : Shared T)
      → s.queue.get_index % s.queue.page_msg_count ≢ s.queue.page_msg_count - 1
      → drop_page zero_msg s ≡ s
  unfolding drop_page
  drop_page_keeps s ne = ground (arith, ne)

  -- That changes no slot of another page, ...
  pub sans_page-slot :
      (s : Shared T) (j : ℕ)
      → page_of zero_msg s.queue j ≢ page_of zero_msg s.queue s.queue.get_index
      → slot zero_msg (sans_page s).queue j ≡ slot zero_msg s.queue j
  unfolding slot msg_page with_page page_of
  sans_page-slot s j ne = ground (arith, ne)

  pub sans_page-Held :
      (s : Shared T) (j g : ℕ) (page : Page T)
      → page_of zero_msg s.queue j ≢ page_of zero_msg s.queue s.queue.get_index
      → Held zero_msg s j g page
      → Held zero_msg (sans_page s) j g page
  unfolding with_page page_of
  sans_page-Held s j g page ne h = (ground (arith, ne, h.0), h.1)

  -- ... and leaves blank slots in its own.
  pub sans_page-blank :
      (s : Shared T) (j : ℕ)
      → page_of zero_msg s.queue j ≡ page_of zero_msg s.queue s.queue.get_index
      → (slot zero_msg (sans_page s).queue j).flag ≡ 0
  unfolding slot msg_page with_page page_of blank_page
  sans_page-blank s j e = ground (arith, e)
