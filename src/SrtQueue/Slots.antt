-- ===== src/SrtQueue/Slots.antt =====
-- Where a message stands in the pages, and that messages that are both in the queue never share a
-- slot, although the table of pages is used round and round.
use native.Mathlib.Nat.{
  div-add-mod, lt_of_mul-lt-mul_left, mul-le-mul_left, div-lt_iff_lt-mul, lt-mul-div-succ, mul_comm,
}
use native.Mathlib.Decide.{dec_lt}
use linux_tcp_lib.Prelude.{
  ℕ, zero, suc, ◌+◌, ◌*◌, ◌/◌, ◌%◌, ◌≤◌, ◌<◌, ◌≡◌, refl, ap, ap₂, ◌∙◌, ◌≢◌, none, some, List, [],
  ◌∷◌, ◌++◌, arith, ◌==◌, if◌then◌else◌,
}
use linux_tcp_lib.SrtQueue.{SrtMessage, Page, SrtQueue, msg_page, with_page, page_of}

-- Numbers less than `n` apart have different remainders.
pub mod-ne : (a b n : ℕ) → a < b → b < a + n → a % n ≢ b % n
mod-ne a b n lt near e =
    let ea = div-add-mod a n in
    let eb = div-add-mod b n in
    let up : n * (a / n) < n * (b / n) = omega arith in
    let next = mul-le-mul_left n (lt_of_mul-lt-mul_left n up) in omega arith

-- The page numbers of near messages are near.
pub div-lt-add : (p n j k : ℕ) → 0 < p → k + p ≤ j + n * p → k / p < j / p + n
div-lt-add p n j k pos near =
    let top = lt-mul-div-succ j pos in (div-lt_iff_lt-mul pos).1 (omega (arith, mul_comm p (j / p)))

pub div-le-div : (p j k : ℕ) → j ≤ k → j / p ≤ k / p
div-le-div p j k h = grind arith

-- A message behind another, fewer than a table apart, is not in the same slot.
pub slots_apart :
    (p n j k : ℕ) → 0 < p → j < k → k + p ≤ j + n * p → j / p % n ≡ k / p % n → j % p ≢ k % p
slots_apart p n j k pos lt near same_page same_place =
    let le = div-le-div p j k (omega arith) in
    elim (dec_lt (j / p) (k / p)) [
      | yes later ↦ mod-ne (j / p) (k / p) n later (div-lt-add p n j k pos near) same_page
      | no same ↦
          let e : j / p ≡ k / p = omega arith in
          omega (arith, div-add-mod j p, div-add-mod k p, ap (λ i. p * i) e)
    ]

module _ {T : Type 0} (zero_msg : T) where
  -- The slot of the message with index `j`.
  unfoldable pub slot : SrtQueue T → ℕ → SrtMessage T
  slot q j = msg_page zero_msg q (page_of zero_msg q j) (j % q.page_msg_count)

  -- The messages from index `a` on.
  unfoldable pub messages : (ℕ → SrtMessage T) → ℕ → ℕ → List T
  messages f a zero = []
  messages f a (suc n) = (f a).msg ∷ messages f (suc a) n

  pub messages_ext :
      (f g : ℕ → SrtMessage T) (a n : ℕ)
      → ((j : ℕ) → a ≤ j → j < a + n → f j ≡ g j)
      → messages f a n ≡ messages g a n
  unfolding messages
  messages_ext f g a zero h = refl
  messages_ext f g a (suc n) h =
      ap₂ ◌∷◌ (ap (λ s. s.msg) (h a (omega arith) (omega arith)))
        (messages_ext f g (suc a) n (λ j ge lt. h j (omega arith) (omega arith)))

  pub messages-snoc :
      (f : ℕ → SrtMessage T) (a n : ℕ)
      → messages f a (suc n) ≡ messages f a n ++ (f (a + n)).msg ∷ []
  unfolding messages
  messages-snoc f a zero = let e : a ≡ a + 0 = omega arith in ap (λ i. (f i).msg ∷ []) e
  messages-snoc f a (suc n) =
      let e : suc a + n ≡ a + suc n = omega arith in
      ap (◌∷◌ (f a).msg)
        (messages-snoc f (suc a) n ∙ ap (λ i. messages f (suc a) n ++ (f i).msg ∷ []) e)

  pub msg_page-with_page :
      (q : SrtQueue T) (a b : ℕ) (page : Page T)
      → msg_page zero_msg (with_page zero_msg q a (some page)) b
        ≡ (if b == a then page else msg_page zero_msg q b)
  unfolding msg_page with_page
  msg_page-with_page q a b page = ground arith

  pub msg_page-without_page :
      (q : SrtQueue T) (a b : ℕ)
      → b ≢ a
      → msg_page zero_msg (with_page zero_msg q a none) b ≡ msg_page zero_msg q b
  unfolding msg_page with_page
  msg_page-without_page q a b ne = ground arith
