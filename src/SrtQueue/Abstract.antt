-- ===== src/SrtQueue/Abstract.antt =====
-- The queue without its representation: queues that answer alike are one, and what is left is the
-- lists that the queue has room for.
use mathlib.Core.HLevel.{Σ_prop_path, Σ_set, prop→set}
use mathlib.Core.List.{is_set}
use mathlib.Core.Quot
use mathlib.Core.Quot.{Quot}
use native.Mathlib.Bridge.{le_prop}
use linux_tcp_lib.Prelude.{ℕ, ◌-◌, ◌*◌, ◌≤◌, ◌≡◌, refl, sym, ap₂, ◌∙◌, List, arith, length}
use linux_tcp_lib.SrtQueue.{SrtQueue}
use linux_tcp_lib.SrtQueue.Slots.{slot}
use linux_tcp_lib.SrtQueue.Fifo.{IsQueue, contents, messages-length, pred_mul}
use linux_tcp_lib.SrtQueue.Behaviour.{
  Sized, capacity, QueueCall, observed, observed-expected, expected-injective,
}

module _ {T : Type 0} (zero_msg : T) where
  module _ (page_msg_bits page_index_bits : ℕ) where
    abbrev cap : ℕ
    cap = capacity zero_msg page_msg_bits page_index_bits

    -- The queues that a constructor with these sizes can become.
    abbrev pub Sound : Type 0
    Sound = (q : SrtQueue T) × IsQueue zero_msg q × Sized zero_msg page_msg_bits page_index_bits q

    -- Two queues that give the same answers to any sequence of pushes and pops.
    abbrev pub Alike : Sound → Sound → Type 0
    Alike p q = (cs : List (QueueCall T)) → observed zero_msg cs p.0 ≡ observed zero_msg cs q.0

    abbrev pub AbstractQueue : Type 0
    AbstractQueue = Quot Alike

    Alike-contents : (p q : Sound) → Alike p q → contents zero_msg p.0 ≡ contents zero_msg q.0
    Alike-contents (p, v, s) (q, w, r) same = expected-injective cap _ _ (λ cs.
        sym (observed-expected zero_msg page_msg_bits page_index_bits cs p _ v s refl)
        ∙ same cs
        ∙ observed-expected zero_msg page_msg_bits page_index_bits cs q _ w r refl)

    abbrev pub Bounded : Type 0
    Bounded = (xs : List T) × (length xs ≤ cap)

    sizes :
        (q : SrtQueue T)
        → Sized zero_msg page_msg_bits page_index_bits q
        → (q.page_index_count - 1) * q.page_msg_count ≡ cap
    sizes q v = ap₂ (λ n m. (n - 1) * m) v.pages v.slots

    length-contents : (q : Sound) → length (contents zero_msg q.0) ≤ cap
    unfolding contents
    length-contents (q, v, s) = omega (
      arith,
      messages-length zero_msg (slot zero_msg q) q.get_index (q.post_index - q.get_index),
      v.room,
      sizes q s,
      pred_mul q.page_index_count q.page_msg_count v.table_size,
    )

    Bounded-ext : (a b : Bounded) → a.0 ≡ b.0 → a ≡ b
    Bounded-ext a b h = Σ_prop_path (λ xs. le_prop) h

    module _ (T_set : IsSet T) where
      Bounded_set : IsSet Bounded
      Bounded_set = Σ_set (is_set T_set) (λ xs. prop→set le_prop)

      -- The messages of an abstract queue.
      pub view : AbstractQueue → Bounded
      unfolding Bounded_set
      view =
          Quot.lift Bounded_set (λ q. (contents zero_msg q.0, length-contents q))
            (λ p q h. Bounded-ext _ _ (Alike-contents p q h))
