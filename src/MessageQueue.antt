-- ===== src/MessageQueue.antt =====
-- What the event loops and the processors need of `srt_queue` (base/src/mqueue.h): a queue that
-- may refuse a message, seen as the list of the messages in it, oldest first.
use linux_tcp_lib.Prelude.{
  ◌≡◌, inl, inr, Bool, true, false, Option, none, some, List, [], ◌∷◌, ◌++◌, Bool-cases,
}

pub record MessageQueue (T : Type 0) : Type 1 where
  pub Q : Type 0
  pub IsValid : Q → Type 0
  pub contents : Q → List T
  pub push : Q → T → Bool × Q
  pub pop : Q → Option (T × Q)
  pub push_accepts :
      (q : Q) (x : T)
      → IsValid q
      → (push q x).0 ≡ true
      → IsValid (push q x).1 × (contents (push q x).1 ≡ contents q ++ x ∷ [])
  pub push_refuses : (q : Q) (x : T) → (push q x).0 ≡ false → (push q x).1 ≡ q
  pub pop_empty : (q : Q) → IsValid q → contents q ≡ [] → pop q ≡ none
  pub pop_front :
      (q : Q) (x : T) (xs : List T)
      → IsValid q
      → contents q ≡ x ∷ xs
      → (q' : Q) × (pop q ≡ some (x, q')) × IsValid q' × (contents q' ≡ xs)

-- A push, taken or refused, leaves a sound queue.
pub push-IsValid :
    {T : Type 0} (i : MessageQueue T) (q : i.Q) (x : T) → i.IsValid q → i.IsValid (i.push q x).1
push-IsValid i q x v = elim (Bool-cases (i.push q x).0) [
  | inl e ↦ (i.push_accepts q x v e).0
  | inr e ↦ rw (i.push_refuses q x e) v
]
