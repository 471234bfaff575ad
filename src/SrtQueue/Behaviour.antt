-- ===== src/SrtQueue/Behaviour.antt =====
-- What a user of the queue sees: the answers to its pushes and pops, against those of a bounded list.
use mathlib.Core.Path.{subst}
use mathlib.Core.Option.{some-injective, some-ne-none}
use linux_tcp_lib.Prelude.{
  ℕ, ◌-◌, ◌*◌, ◌/◌, ◌%◌, ◌^◌, ◌≤◌, ◌≡◌, refl, sym, ap, ap₂, ◌∙◌, inl, inr, Bool, true, false,
  Option, none, some, List, [], ◌∷◌, ◌++◌, arith, ltb, leb, ◌==◌, if◌then◌else◌, lt→ltb, Bool-cases,
  length,
}
use linux_tcp_lib.SrtQueue.{SrtQueue, posted, push, taken, pop, with_page, msg_page, page_of}
use linux_tcp_lib.SrtQueue.Fifo.{IsQueue, contents, push_lem, pop-empty, pop-front}

module _ {T : Type 0} (zero_msg : T) where
  -- The sizes that the constructor has set.
  pub record Sized (page_msg_bits page_index_bits : ℕ) (q : SrtQueue T) : Type 0 where
    pub pages : q.page_index_count ≡ 2 ^ page_index_bits
    pub slots : q.page_msg_count ≡ 2 ^ page_msg_bits

  pub posted-Sized :
      (b x : ℕ) (q : SrtQueue T) (m : T) → Sized b x q → Sized b x (posted zero_msg q m)
  unfolding posted with_page
  posted-Sized b x q m v = record { pages = v.pages; slots = v.slots }

  pub push-Sized :
      (b x : ℕ) (q : SrtQueue T) (m : T) → Sized b x q → Sized b x (push zero_msg q m).1
  unfolding push
  push-Sized b x q m v =
      let full = leb (q.page_index_count - 1) ((q.post_index - q.get_index) / q.page_msg_count) in
      elim (Bool-cases full) [
        | inl e ↦ rw (e, push) v
        | inr e ↦ rw (e, push) (posted-Sized b x q m v)
      ]

  pub pop-Sized : (b x : ℕ) (q : SrtQueue T) → Sized b x q → Sized b x (pop zero_msg q).1
  unfolding pop taken with_page
  pop-Sized b x q v =
      let page = msg_page zero_msg q (page_of zero_msg q q.get_index) in
      let s = page (q.get_index % q.page_msg_count) in
      elim (Bool-cases (leb q.post_index q.get_index)) [
        | inl e ↦ rw (e, pop) v
        | inr e ↦ elim (Bool-cases (s.flag == 1)) [
          | inl f ↦ rw (e, f, pop) record { pages = v.pages; slots = v.slots }
          | inr f ↦ rw (e, f, pop) record { pages = v.pages; slots = v.slots }
        ]
      ]

pub data QueueCall (T : Type 0) : Type 0 where
  pushing : T → QueueCall T
  popping : QueueCall T

pub data Answer (T : Type 0) : Type 0 where
  pushed : Bool → Answer T
  popped : Option T → Answer T

-- The specification: a list that takes `cap` messages.
module _ {T : Type 0} (cap : ℕ) where
  unfoldable pub bounded : List T → T → Bool × List T
  bounded xs msg = if ltb (length xs) cap then (true, xs ++ msg ∷ []) else (false, xs)

  unfoldable pub expected : List (QueueCall T) → List T → List (Answer T)
  unfolding bounded
  expected [] xs = []
  expected (pushing msg ∷ cs) xs = pushed (bounded xs msg).0 ∷ expected cs (bounded xs msg).1
  expected (popping ∷ cs) [] = popped none ∷ expected cs []
  expected (popping ∷ cs) (x ∷ xs) = popped (some x) ∷ expected cs xs

unfoldable first_message : {T : Type 0} → List (Answer T) → Option T
first_message [] = none
first_message (pushed b ∷ others) = none
first_message (popped m ∷ others) = m

unfoldable later_answers : {T : Type 0} → List (Answer T) → List (Answer T)
later_answers [] = []
later_answers (a ∷ others) = others

-- Lists that answer alike are equal: popping shows all of them.
pub expected-injective :
    {T : Type 0} (cap : ℕ) (xs ys : List T)
    → ((cs : List (QueueCall T)) → expected cap cs xs ≡ expected cap cs ys)
    → xs ≡ ys
unfolding expected first_message later_answers
expected-injective cap [] [] same = refl
expected-injective cap [] (y ∷ ys) same =
    absurd (some-ne-none y (sym (ap first_message (same (popping ∷ [])))))
expected-injective cap (x ∷ xs) [] same =
    absurd (some-ne-none x (ap first_message (same (popping ∷ []))))
expected-injective cap (x ∷ xs) (y ∷ ys) same =
    ap₂ ◌∷◌ (some-injective x y (ap first_message (same (popping ∷ []))))
      (expected-injective cap xs ys (λ cs. ap later_answers (same (popping ∷ cs))))

below_not : (n cap : ℕ) → cap ≤ n → ltb n cap ≡ false
below_not n cap h = ground arith

module _ {T : Type 0} (zero_msg : T) where
  -- What the queue answers.
  unfoldable pub observed : List (QueueCall T) → SrtQueue T → List (Answer T)
  observed [] q = []
  observed (pushing msg ∷ cs) q =
      pushed (push zero_msg q msg).0 ∷ observed cs (push zero_msg q msg).1
  observed (popping ∷ cs) q = popped (pop zero_msg q).0 ∷ observed cs (pop zero_msg q).1

  module _ (b x : ℕ) where
    abbrev pub capacity : ℕ
    capacity = (2 ^ x - 1) * 2 ^ b

    -- A queue answers any pushes and pops as the list of its messages does.
    pub observed-expected :
        (cs : List (QueueCall T)) (q : SrtQueue T) (xs : List T)
        → IsQueue zero_msg q
        → Sized zero_msg b x q
        → contents zero_msg q ≡ xs
        → observed cs q ≡ expected capacity cs xs
    unfolding observed expected bounded
    observed-expected [] q xs v s are = refl
    observed-expected (pushing msg ∷ cs) q xs v s are =
        let size = ap length are in
        let cap : (q.page_index_count - 1) * q.page_msg_count ≡ capacity =
          ap₂ (λ n m. (n - 1) * m) s.pages s.slots in
        elim (push_lem zero_msg q msg v) [
          | inl (room, ran, v', are') ↦
              let low = lt→ltb (length xs) capacity (omega (arith, cap, size, room)) in
              rw (ran, low)
                (ap (◌∷◌ (pushed true)) (
                  observed-expected cs (posted zero_msg q msg) (xs ++ msg ∷ []) v'
                    (posted-Sized zero_msg b x q msg s) (are' ∙ ap (λ l. l ++ msg ∷ []) are)))
          | inr (full, ran) ↦
              let high = below_not (length xs) capacity (omega (arith, cap, size, full)) in
              rw (ran, high) (ap (◌∷◌ (pushed false)) (observed-expected cs q xs v s are))
        ]
    observed-expected (popping ∷ cs) q [] v s are =
        let ran = pop-empty zero_msg q v are in
        rw ran (ap (◌∷◌ (popped none)) (observed-expected cs q [] v s are))
    observed-expected (popping ∷ cs) q (y ∷ ys) v s are =
        let (q', ran, v', are') = pop-front zero_msg q y ys v are in
        let s' = subst (Sized zero_msg b x) (ap (λ r. r.1) ran) (pop-Sized zero_msg b x q s) in
        rw ran (ap (◌∷◌ (popped (some y))) (observed-expected cs q' ys v' s' are'))
