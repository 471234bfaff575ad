-- ===== src/SrtQueue/Fifo.antt =====
-- `srt_queue` is a bounded first-in first-out queue.
use native.Mathlib.Decide.{dec_lt}
use native.Mathlib.Nat.{
  div-add-mod, mul_comm, le-div_iff_mul-le, mul-suc, div-lt_iff_lt-mul, suc-mul, pow-zero, pow-suc,
  mul-le-mul_right,
}
use linux_tcp_lib.Prelude.{
  ℕ, zero, suc, ◌+◌, ◌-◌, ◌*◌, ◌/◌, ◌%◌, ◌^◌, ◌≤◌, ◌<◌, ◌≡◌, refl, sym, ap, ap₂, ◌∙◌, ◌⊎◌, inl, inr,
  Bool, true, false, none, some, List, [], ◌∷◌, ◌++◌, arith, leb, Bool-cases, length,
}
use mathlib.Core.List.{cons≢nil, cons-eq-cons}
use mathlib.Core.Option
use linux_tcp_lib.MessageQueue.{MessageQueue}
use linux_tcp_lib.SrtQueue.{
  SrtMessage, SrtQueue, srt_queue, msg_page, with_page, write_slot, page_of, posted, push, taken,
  pop,
}
use linux_tcp_lib.SrtQueue.Slots.{
  mod-ne, div-lt-add, slots_apart, slot, messages, messages_ext, messages-snoc,
}

-- Behind the last message of a page another page begins.
pub next_page : (p g j : ℕ) → 0 < p → g % p ≡ p - 1 → g < j → g / p < j / p
next_page p g j pos last lt =
    let e = div-add-mod g p in
    let up : p * suc (g / p) ≤ j = omega (arith, mul-suc p (g / p)) in
    (le-div_iff_mul-le pos).1 (omega (arith, mul_comm p (suc (g / p))))

pub pred_mul : (n p : ℕ) → 0 < n → (n - 1) * p + p ≡ n * p
pred_mul zero p h = elim h [ ]
pred_mul (suc n) p h =
    let e : suc n - 1 ≡ n = omega arith in ap (λ i. i * p + p) e ∙ sym (suc-mul n p)

pub pow_pos : (n : ℕ) → 0 < 2 ^ n
pow_pos zero = omega (arith, pow-zero 2)
pow_pos (suc n) = omega (arith, pow-suc 2 n, pow_pos n)

module _ {T : Type 0} (zero_msg : T) where
  -- The messages between the two indices stand flagged in their slots, and fit the table.
  pub record IsQueue (q : SrtQueue T) : Type 0 where
    pub page_size : 0 < q.page_msg_count
    pub table_size : 0 < q.page_index_count
    pub ordered : q.get_index ≤ q.post_index
    pub room : q.post_index + q.page_msg_count ≤ q.get_index + q.page_index_count * q.page_msg_count
    pub flagged : (j : ℕ) → q.get_index ≤ j → j < q.post_index → (slot zero_msg q j).flag ≡ 1

  -- The messages in the queue, oldest first.
  unfoldable pub contents : SrtQueue T → List T
  contents q = messages zero_msg (slot zero_msg q) q.get_index (q.post_index - q.get_index)

  -- A new queue is sound and empty, whatever the sizes of its pages and of its table.
  pub srt_queue-IsQueue :
      (page_msg_bits page_index_bits : ℕ)
      → IsQueue (srt_queue zero_msg page_msg_bits page_index_bits)
        × (contents (srt_queue zero_msg page_msg_bits page_index_bits) ≡ [])
  unfolding srt_queue contents messages
  srt_queue-IsQueue b x =
      let p = pow_pos b in
      let n = pow_pos x in
      (
        record {
          page_size = p;
          table_size = n;
          ordered = omega arith;
          room = omega (arith, mul-le-mul_right {m = 1} (2 ^ b) n);
          flagged = λ j ge lt. absurd (omega arith);
        },
        refl,
      )

  -- The guard of `push`, in plain arithmetic.
  pub room_after :
      (p n g k : ℕ)
      → 0 < p
      → 0 < n
      → g ≤ k
      → leb (n - 1) ((k - g) / p) ≡ false
      → k + 1 + p ≤ g + n * p
  room_after p n g k pos some_pages le e =
      let below : (k - g) / p < n - 1 = ground arith in
      let apart = (div-lt_iff_lt-mul pos).0 below in
      let whole = pred_mul n p some_pages in omega arith

  abbrev full : SrtQueue T → Bool
  full q = leb (q.page_index_count - 1) ((q.post_index - q.get_index) / q.page_msg_count)

  abbrev Guard : SrtQueue T → Type 0
  Guard q = full q ≡ false

  posted-slot_self :
      (q : SrtQueue T) (msg : T)
      → slot zero_msg (posted zero_msg q msg) q.post_index ≡ record { msg = msg; flag = 1 }
  unfolding posted slot msg_page with_page write_slot page_of
  posted-slot_self q msg = ground arith

  posted-slot_other :
      (q : SrtQueue T) (msg : T) (j : ℕ)
      → IsQueue q
      → Guard q
      → q.get_index ≤ j
      → j < q.post_index
      → slot zero_msg (posted zero_msg q msg) j ≡ slot zero_msg q j
  unfolding posted slot msg_page with_page write_slot page_of
  posted-slot_other q msg j v e ge lt =
      let free =
        room_after q.page_msg_count q.page_index_count q.get_index q.post_index v.page_size
          v.table_size v.ordered e in
      let apart =
        slots_apart q.page_msg_count q.page_index_count j q.post_index v.page_size lt
          (omega arith) in
      ground (arith, apart)

  -- A message that fits stands behind the others, ...
  posted-flagged :
      (q : SrtQueue T) (msg : T)
      → IsQueue q
      → Guard q
      → (j : ℕ) → q.get_index ≤ j
      → j < q.post_index + 1
      → (slot zero_msg (posted zero_msg q msg) j).flag ≡ 1
  posted-flagged q msg v e j ge lt = elim (dec_lt j q.post_index) [
    | yes before ↦
        ap (λ s. s.flag) (posted-slot_other q msg j v e ge before) ∙ v.flagged j ge before
    | no last ↦
        let at : j ≡ q.post_index = omega arith in
        ap (λ i. (slot zero_msg (posted zero_msg q msg) i).flag) at
        ∙ ap (λ s. s.flag) (posted-slot_self q msg)
  ]

  -- ... which are as they were.
  posted-contents :
      (q : SrtQueue T) (msg : T)
      → IsQueue q
      → Guard q
      → messages zero_msg
          (slot zero_msg (posted zero_msg q msg))
          q.get_index
          (q.post_index + 1 - q.get_index)
        ≡ contents q ++ msg ∷ []
  unfolding contents
  posted-contents q msg v e =
      let g = q.get_index in
      let n = q.post_index - g in
      let f = slot zero_msg (posted zero_msg q msg) in
      let more : q.post_index + 1 - g ≡ suc n = omega (arith, v.ordered) in
      let last : g + n ≡ q.post_index = omega (arith, v.ordered) in
      let old =
        messages_ext zero_msg f (slot zero_msg q) g n
          (λ j ge lt. posted-slot_other q msg j v e ge (omega arith)) in
      let new : (f (g + n)).msg ≡ msg =
        ap (λ i. (f i).msg) last ∙ ap (λ s. s.msg) (posted-slot_self q msg) in
      ap (messages zero_msg f g) more
      ∙ messages-snoc zero_msg f g n
      ∙ ap₂ (λ a b. a ++ b ∷ []) old new

  pub posted-IsQueue :
      (q : SrtQueue T) (msg : T)
      → IsQueue q
      → Guard q
      → IsQueue (posted zero_msg q msg)
        × (contents (posted zero_msg q msg) ≡ contents q ++ msg ∷ [])
  unfolding contents posted with_page
  posted-IsQueue q msg v e =
      let free =
        room_after q.page_msg_count q.page_index_count q.get_index q.post_index v.page_size
          v.table_size v.ordered e in
      let ordered = v.ordered in
      (
        record {
          page_size = v.page_size;
          table_size = v.table_size;
          ordered = omega arith;
          room = free;
          flagged = posted-flagged q msg v e;
        },
        posted-contents q msg v e,
      )

  -- Reading a message leaves the slots of those behind it alone, also when it frees its page.
  taken-slot :
      (q : SrtQueue T) (j : ℕ)
      → IsQueue q
      → q.get_index < j
      → j < q.post_index
      → slot zero_msg (taken zero_msg q) j ≡ slot zero_msg q j
  unfolding taken slot msg_page with_page page_of
  taken-slot q j v gt lt =
      let p = q.page_msg_count in
      let g = q.get_index in
      let room = v.room in
      let other = λ (last : g % p ≡ p - 1).
        mod-ne (g / p) (j / p) q.page_index_count (next_page p g j v.page_size last gt)
          (div-lt-add p q.page_index_count g j v.page_size (omega arith)) in
      ground (arith, other)

  messages_step :
      (f f' : ℕ → SrtMessage T) (a n : ℕ)
      → ((j : ℕ) → a + 1 ≤ j → j < a + 1 + n → f' j ≡ f j)
      → messages zero_msg f a (suc n) ≡ (f a).msg ∷ messages zero_msg f' (a + 1) n
  unfolding messages
  messages_step f f' a n h =
      let e : suc a ≡ a + 1 = omega arith in
      ap (λ i. (f a).msg ∷ messages zero_msg f i n) e
      ∙ ap (◌∷◌ (f a).msg) (sym (messages_ext zero_msg f' f (a + 1) n h))

  -- What stays when the oldest message, `x`, is read.
  taken-IsQueue :
      (q : SrtQueue T)
      → IsQueue q
      → q.get_index < q.post_index
      → IsQueue (taken zero_msg q)
        × (contents q ≡ (slot zero_msg q q.get_index).msg ∷ contents (taken zero_msg q))
  unfolding contents taken with_page
  taken-IsQueue q v some_left =
      let ordered = v.ordered in
      let room = v.room in
      let g = q.get_index in
      let n = q.post_index - (g + 1) in
      let e : q.post_index - g ≡ suc n = omega arith in
      let same =
        λ (j : ℕ) (ge : g + 1 ≤ j) (lt : j < q.post_index). taken-slot q j v (omega arith) lt in
      (
        record {
          page_size = v.page_size;
          table_size = v.table_size;
          ordered = omega arith;
          room = omega arith;
          flagged = λ j ge lt. ap (λ s. s.flag) (same j ge lt) ∙ v.flagged j (omega arith) lt;
        },
        ap (messages zero_msg (slot zero_msg q) g) e
            ∙ messages_step (slot zero_msg q) (slot zero_msg (taken zero_msg q)) g n
                (λ j ge lt. same j ge (omega arith)),
      )

  pop-some :
      (q : SrtQueue T)
      → IsQueue q
      → q.get_index < q.post_index
      → pop zero_msg q ≡ (some (slot zero_msg q q.get_index).msg, taken zero_msg q)
  unfolding pop slot
  pop-some q v some_left =
      let flagged = v.flagged q.get_index (omega arith) some_left in ground arith

  contents-empty : (q : SrtQueue T) → q.post_index - q.get_index ≡ 0 → contents q ≡ []
  unfolding contents messages
  contents-empty q z = ap (messages zero_msg (slot zero_msg q) q.get_index) z

  pub push-accepts :
      (q : SrtQueue T) (x : T)
      → IsQueue q
      → (push zero_msg q x).0 ≡ true
      → IsQueue (push zero_msg q x).1 × (contents (push zero_msg q x).1 ≡ contents q ++ x ∷ [])
  unfolding push
  push-accepts q x v e = elim (Bool-cases (full q)) [
    | inl is_full ↦ ground arith
    | inr not_full ↦ rw (not_full) (posted-IsQueue q x v not_full)
  ]

  pub push-refuses :
      (q : SrtQueue T) (x : T) → (push zero_msg q x).0 ≡ false → (push zero_msg q x).1 ≡ q
  unfolding push
  push-refuses q x e = ground arith

  pub messages-length : (f : ℕ → SrtMessage T) (a n : ℕ) → length (messages zero_msg f a n) ≡ n
  unfolding messages
  messages-length f a zero = refl
  messages-length f a (suc n) = omega (arith, messages-length f (suc a) n)

  -- The last page of the table is kept free: a push is accepted exactly when fewer messages than
  -- the other pages hold are in the queue. An accepted message stands behind the others, a refused
  -- one changes nothing.
  pub push_lem :
      (q : SrtQueue T) (x : T)
      → IsQueue q
      → ((length (contents q) < (q.page_index_count - 1) * q.page_msg_count)
          × (push zero_msg q x ≡ (true, posted zero_msg q x))
          × IsQueue (posted zero_msg q x)
          × (contents (posted zero_msg q x) ≡ contents q ++ x ∷ []))
        ⊎ (((q.page_index_count - 1) * q.page_msg_count ≤ length (contents q))
            × (push zero_msg q x ≡ (false, q)))
  unfolding push contents
  push_lem q x v =
      let n = q.post_index - q.get_index in
      let len = messages-length (slot zero_msg q) q.get_index n in
      let below = div-lt_iff_lt-mul {x = n} {y = q.page_index_count - 1} v.page_size in
      elim (Bool-cases (full q)) [
        | inl is_full ↦
            let above : ¬ (n < (q.page_index_count - 1) * q.page_msg_count) =
              λ lt. let small = below.1 lt in ground arith in
            inr (omega (arith, above), ground arith)
        | inr not_full ↦
            let (kept, behind) = posted-IsQueue q x v not_full in
            inl (omega (arith, below.0 (ground arith)), ground arith, kept, behind)
      ]

  -- A pop on an empty queue gives nothing and changes nothing.
  pub pop-empty : (q : SrtQueue T) → IsQueue q → contents q ≡ [] → pop zero_msg q ≡ (none, q)
  unfolding pop contents messages
  pop-empty q v e = elim (dec_lt q.get_index q.post_index) [
    | yes left ↦ absurd (cons≢nil (sym (taken-IsQueue q v left).1 ∙ e))
    | no none_left ↦ ground arith
  ]

  -- A pop on a queue with messages gives the oldest one and leaves the others in order.
  pub pop-front :
      (q : SrtQueue T) (x : T) (xs : List T)
      → IsQueue q
      → contents q ≡ x ∷ xs
      → (q' : SrtQueue T) × (pop zero_msg q ≡ (some x, q')) × IsQueue q' × (contents q' ≡ xs)
  pop-front q x xs v e = elim (dec_lt q.get_index q.post_index) [
    | yes left ↦
        let (kept, front) = taken-IsQueue q v left in
        let (same, rest) = cons-eq-cons.0 (sym front ∙ e) in
        (
          taken zero_msg q,
          pop-some q v left ∙ ap (λ y. (some y, taken zero_msg q)) same,
          kept,
          rest,
        )
    | no none_left ↦
        let z : q.post_index - q.get_index ≡ 0 = omega arith in
        absurd (cons≢nil (sym e ∙ contents-empty q z))
  ]

  -- What the event loops and the processors see of the queue.
  abbrev pub srt_message_queue : MessageQueue T
  srt_message_queue = record {
    Q = SrtQueue T;
    IsValid = IsQueue;
    contents = contents;
    push = push zero_msg;
    pop = λ q. Option.map (λ x. (x, (pop zero_msg q).1)) (pop zero_msg q).0;
    push_accepts = push-accepts;
    push_refuses = push-refuses;
    pop_empty = λ q v e. ap (λ r. Option.map (λ x. (x, r.1)) r.0) (pop-empty q v e);
    pop_front = λ q x xs v e.
        let (q', popped, kept, rest) = pop-front q x xs v e in
        (q', ap (λ r. Option.map (λ y. (y, r.1)) r.0) popped, kept, rest);
  }
