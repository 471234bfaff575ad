-- ===== src/DrbQueue/Keeps.antt =====
-- `drb_queue` keeps every message under its position.
use native.Mathlib.Nat.{
  div-lt_iff_lt-mul, div-add-mod, suc-mul, pow-zero, pow-suc, mul-le-mul_right,
}
use native.Mathlib.Decide.{dec_lt}
use mathlib.Core.Path.{subst, subst₂}
use linux_tcp_lib.Prelude.{
  ℕ, zero, suc, ◌+◌, ◌*◌, ◌/◌, ◌%◌, ◌^◌, ◌≤◌, ◌<◌, ◌≡◌, refl, sym, ap, ap₂, ◌∙◌, inl, inr, false,
  some, List, [], ◌∷◌, ◌++◌, arith, leb, ◌==◌, ==_iff, Bool-cases, length, get_or, length-append,
  get_or-append_lt,
}
use linux_tcp_lib.DrbQueue.{
  DrbMessage, Page, DrbQueue, msg_page, with_page, write_slot, push, get, drb_queue, page_bits,
}
use linux_tcp_lib.DrbQueue.Slots.{table, Longer, msg_page-Longer}

pow_pos : (n : ℕ) → 0 < 2 ^ n
pow_pos zero = omega (arith, pow-zero 2)
pow_pos (suc n) = omega (arith, pow-suc 2 n, pow_pos n)

module _ {T : Type 0} (zero_msg : T) where
  -- The messages `xs` stand flagged in the slots of their positions.
  pub record Keeps (q : DrbQueue T) (xs : List T) : Type 0 where
    pub page_size : 0 < q.page_msg_count
    pub table_size : 0 < q.page_index_count
    pub posted : q.post_index ≡ length xs
    pub written : q.write_index ≡ length xs
    pub room : length xs ≤ q.page_index_count * q.page_msg_count
    pub slots :
        (j : ℕ)
        → j < length xs
        → table zero_msg q (j / q.page_msg_count) (j % q.page_msg_count)
          ≡ record { msg = get_or xs j zero_msg; flag = 1 }

  div-le_of-room : (p n k : ℕ) → 0 < p → k ≤ n * p → k / p ≤ n
  div-le_of-room p n k pos h =
      omega (arith, (div-lt_iff_lt-mul {x = k} {y = suc n} pos).1 (omega (arith, suc-mul n p)))

  abbrev Slots : DrbQueue T → List T → Type 0
  Slots q xs =
      (j : ℕ)
      → j < length xs
      → table zero_msg q (j / q.page_msg_count) (j % q.page_msg_count)
        ≡ record { msg = get_or xs j zero_msg; flag = 1 }

  Longer-Slots :
      (q q' : DrbQueue T) (p : ℕ) (xs : List T)
      → Longer zero_msg q p q'
      → 0 < q.page_msg_count
      → length xs ≤ q.page_index_count * q.page_msg_count
      → Slots q xs
      → Slots q' xs
  Longer-Slots q q' p xs l pos room slots j lt =
      let below : j / q.page_msg_count < q.page_index_count =
        (div-lt_iff_lt-mul pos).1 (omega arith) in
      subst
        (λ n. table zero_msg q' (j / n) (j % n) ≡ record { msg = get_or xs j zero_msg; flag = 1 })
        (sym l.page_msg_count)
        (ap (λ f. f (j % q.page_msg_count)) (l.same (j / q.page_msg_count) below) ∙ slots j lt)

  Longer-room :
      (q q' : DrbQueue T) (p k : ℕ)
      → Longer zero_msg q p q'
      → k ≤ q.page_index_count * q.page_msg_count
      → k ≤ q'.page_index_count * q'.page_msg_count
  Longer-room q q' p k l room =
      rw (l.page_msg_count) (omega (arith, mul-le-mul_right q.page_msg_count l.longer))

  Longer-Keeps :
      (q q' : DrbQueue T) (p : ℕ) (xs : List T) → Longer zero_msg q p q' → Keeps q xs → Keeps q' xs
  Longer-Keeps q q' p xs l v = record {
    page_size = omega (arith, l.page_msg_count, v.page_size);
    table_size = omega (arith, l.longer, v.table_size);
    posted = l.post_index ∙ v.posted;
    written = l.write_index ∙ v.written;
    room = Longer-room q q' p (length xs) l v.room;
    slots = Longer-Slots q q' p xs l v.page_size v.room v.slots;
  }

  -- `get` with a position that is in the queue gives the message that was pushed there.
  pub get-Keeps :
      (q : DrbQueue T) (xs : List T) (pos : ℕ)
      → Keeps q xs
      → pos < length xs
      → (q' : DrbQueue T) × (get zero_msg q pos ≡ some (some (get_or xs pos zero_msg), q'))
        × Keeps q' xs
  unfolding get
  get-Keeps q xs pos v lt =
      let e : leb q.write_index pos ≡ false = let w = v.written in ground arith in
      let below : pos / q.page_msg_count < q.page_index_count =
        (div-lt_iff_lt-mul v.page_size).1 (omega (arith, v.room)) in
      let (page, q', ran, l, is) =
        msg_page-Longer zero_msg q (pos / q.page_msg_count) v.table_size (omega arith) in
      let val =
        ap (λ f. f (pos % q.page_msg_count)) (is ∙ l.same (pos / q.page_msg_count) below)
        ∙ v.slots pos lt in
      (q', rw (e, ran, val), Longer-Keeps q q' (pos / q.page_msg_count) xs l v)

  abbrev new_message : T → DrbMessage T
  new_message x = record { msg = x; flag = 1 }

  abbrev counted : DrbQueue T → DrbQueue T
  counted q = record q { post_index = q.post_index + 1 }

  abbrev filled : DrbQueue T → ℕ → ℕ → Page T → T → DrbQueue T
  filled q p k page x =
      record (with_page zero_msg q p (write_slot zero_msg page k (new_message x))) {
        write_index = q.write_index + 1;
      }

  filled_self :
      (q : DrbQueue T) (p k : ℕ) (page : Page T) (x : T)
      → table zero_msg (filled q p k page x) p k ≡ new_message x
  unfolding table with_page write_slot
  filled_self q p k page x = ground arith

  filled_other :
      (q : DrbQueue T) (p k p' k' : ℕ) (page : Page T) (x : T)
      → page ≡ table zero_msg q p
      → ¬ ((p' ≡ p) × (k' ≡ k))
      → table zero_msg (filled q p k page x) p' k' ≡ table zero_msg q p' k'
  unfolding table with_page write_slot
  filled_other q p k p' k' page x is apart = elim (Bool-cases (p' == p)) [
    | inl e ↦
        let same : p' ≡ p = (==_iff p' p).0 e in
        elim (Bool-cases (k' == k)) [
          | inl f ↦ absurd (apart (same, (==_iff k' k).0 f))
          | inr f ↦
              rw (e, table, write_slot, f) (ap (λ g. g k') (is ∙ ap (table zero_msg q) (sym same)))
        ]
    | inr e ↦ rw (e, table)
  ]

  get_or-snoc : (xs : List T) (x : T) → get_or (xs ++ x ∷ []) (length xs) zero_msg ≡ x
  get_or-snoc [] x = refl
  get_or-snoc (y ∷ xs) x = get_or-snoc xs x

  apart : (j k n : ℕ) → j < k → ¬ ((j / n ≡ k / n) × (j % n ≡ k % n))
  apart j k n lt (e, f) = omega (arith, div-add-mod j n, div-add-mod k n, ap (λ i. n * i) e)

  filled-Slots :
      (q : DrbQueue T) (xs : List T) (page : Page T) (x : T)
      → Slots q xs
      → page ≡ table zero_msg q (length xs / q.page_msg_count)
      → (j : ℕ) → j < length xs + 1
      → table zero_msg
          (filled q (length xs / q.page_msg_count) (length xs % q.page_msg_count) page x)
          (j / q.page_msg_count)
          (j % q.page_msg_count)
        ≡ record { msg = get_or (xs ++ x ∷ []) j zero_msg; flag = 1 }
  filled-Slots q xs page x slots is j lt =
      let n = q.page_msg_count in
      let p = length xs / n in
      let k = length xs % n in
      elim (dec_lt j (length xs)) [
        | yes before ↦
            filled_other q p k (j / n) (j % n) page x is (apart j (length xs) n before)
            ∙ slots j before
            ∙ ap new_message (sym (get_or-append_lt xs (x ∷ []) j zero_msg before))
        | no last ↦
            let e : j ≡ length xs = omega arith in
            ap (λ i. table zero_msg (filled q p k page x) (i / n) (i % n)) e
            ∙ filled_self q p k page x
            ∙ ap new_message (sym (get_or-snoc xs x))
            ∙ ap (λ i. new_message (get_or (xs ++ x ∷ []) i zero_msg)) (sym e)
      ]

  counted-Slots : (q : DrbQueue T) (xs : List T) → Slots q xs → Slots (counted q) xs
  unfolding table
  counted-Slots q xs slots = slots

  push-ran :
      (q q' : DrbQueue T) (page : Page T) (x : T)
      → msg_page zero_msg (counted q) (q.post_index / q.page_msg_count) ≡ some (page, q')
      → push zero_msg q x
        ≡ some
            (filled q' (q.post_index / q.page_msg_count) (q.post_index % q.page_msg_count) page x)
  unfolding push
  push-ran q q' page x ran = rw (ran, push)

  -- `push` on a queue that keeps `xs` stays inside the table of pages, made longer if it must be,
  -- and leaves a queue that keeps `xs` with the message behind them.
  pub push-Keeps :
      (q : DrbQueue T) (xs : List T) (x : T)
      → Keeps q xs
      → (q' : DrbQueue T) × (push zero_msg q x ≡ some q') × Keeps q' (xs ++ x ∷ [])
  unfolding with_page
  push-Keeps q xs x v =
      let n = q.page_msg_count in
      let p = q.post_index / n in
      let k = q.post_index % n in
      let near : p ≤ q.page_index_count =
        div-le_of-room n q.page_index_count q.post_index v.page_size
          (omega (arith, v.posted, v.room)) in
      let (page, q', ran, l, is) = msg_page-Longer zero_msg (counted q) p v.table_size near in
      let same_n : n ≡ q'.page_msg_count = sym l.page_msg_count in
      let ep : p ≡ length xs / q'.page_msg_count = ap₂ ◌/◌ v.posted same_n in
      let ek : k ≡ length xs % q'.page_msg_count = ap₂ ◌%◌ v.posted same_n in
      let below : q.post_index < q'.page_index_count * n =
        (div-lt_iff_lt-mul v.page_size).0 l.in_table in
      let fits : q.post_index < q'.page_index_count * q'.page_msg_count =
        subst (λ i. q.post_index < q'.page_index_count * i) same_n below in
      let slots =
        Longer-Slots (counted q) q' p xs l v.page_size v.room (counted-Slots q xs v.slots) in
      let more = length-append xs (x ∷ []) in
      let new =
        subst₂
          (λ a b.
            (j : ℕ)
            → j < length xs + 1
            → table zero_msg (filled q' a b page x) (j / q'.page_msg_count) (j % q'.page_msg_count)
              ≡ record { msg = get_or (xs ++ x ∷ []) j zero_msg; flag = 1 })
          (sym ep) (sym ek) (filled-Slots q' xs page x slots (is ∙ ap (table zero_msg q') ep)) in
      (
        filled q' p k page x,
        push-ran q q' page x ran,
        record {
          page_size = omega (arith, l.page_msg_count, v.page_size);
          table_size = omega (arith, l.longer, v.table_size);
          posted = omega (arith, more, l.post_index, v.posted);
          written = omega (arith, more, l.write_index, v.written);
          room = omega (arith, more, v.posted, fits);
          slots = λ j lt. new j (omega (arith, more));
        },
      )

  -- A new queue, whatever the size of its pages and with a table of one page or more, keeps nothing.
  pub drb_queue-Keeps :
      (page_msg_count init_page_msg_count : ℕ)
      → 0 < init_page_msg_count
      → Keeps (drb_queue zero_msg page_msg_count init_page_msg_count) []
  unfolding drb_queue
  drb_queue-Keeps a b pos = record {
    page_size = pow_pos (page_bits a a 1);
    table_size = pos;
    posted = refl;
    written = refl;
    room = omega arith;
    slots = λ j lt. absurd (omega arith);
  }
