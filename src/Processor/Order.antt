-- ===== src/Processor/Order.antt =====
-- A processor against a bounded list of messages.
use mathlib.Core.Path.{subst}
use linux_tcp_lib.Prelude.{
  ℕ, ◌-◌, ◌*◌, ◌≤◌, ◌≡◌, refl, sym, ap, ap₂, ◌∙◌, inl, inr, false, Option, none, some, List, [],
  ◌∷◌, ◌++◌, arith, ltb, if◌then◌else◌, lt→ltb, length,
}
use linux_tcp_lib.SrtQueue.{srt_queue}
use linux_tcp_lib.SrtQueue.Behaviour.{Sized, push-Sized, pop-Sized}
use linux_tcp_lib.SrtQueue.Fifo.{
  IsQueue, contents, srt_queue-IsQueue, push_lem, pop-empty, pop-front,
}
use linux_tcp_lib.Processor.{
  AtpMessage, zero_message, ProcessorBase, processor_base, post, got, get,
}

pub data Request : Type 0 where
  posting : AtpMessage → Request
  getting : Request

-- What the gets of a sequence of calls answer.
unfoldable pub answers : List Request → ProcessorBase → List (Option AtpMessage × ℕ)
answers [] p = []
answers (posting msg ∷ rs) p = answers rs (post p msg)
answers (getting ∷ rs) p = let (msg, ret, p') = get p in (msg, ret) ∷ answers rs p'

-- The specification: a list that takes 134213632 messages.
unfoldable pub bounded : List AtpMessage → AtpMessage → List AtpMessage
bounded xs msg = if ltb (length xs) 134213632 then xs ++ msg ∷ [] else xs

unfoldable pub expected : List Request → List AtpMessage → List (Option AtpMessage × ℕ)
unfolding bounded
expected [] xs = []
expected (posting msg ∷ rs) xs = expected rs (bounded xs msg)
expected (getting ∷ rs) [] = (none, 4294967295) ∷ expected rs []
expected (getting ∷ rs) (x ∷ xs) = (some x, 0) ∷ expected rs xs

-- The queue holds the list.
record Has (p : ProcessorBase) (xs : List AtpMessage) : Type 0 where
  sound : IsQueue zero_message p.msg_queue
  are : contents zero_message p.msg_queue ≡ xs
  sized : Sized zero_message 12 15 p.msg_queue

not_below : (n : ℕ) → 134213632 ≤ n → ltb n 134213632 ≡ false
not_below n h = ground arith

post-Has :
    (p : ProcessorBase) (xs : List AtpMessage) (x : AtpMessage)
    → Has p xs
    → Has (post p x) (bounded xs x)
unfolding post bounded
post-Has p xs x v =
    let q = p.msg_queue in
    let size = ap length v.are in
    let kept = push-Sized zero_message 12 15 q x v.sized in
    let cap : (q.page_index_count - 1) * q.page_msg_count ≡ 134213632 =
      ap₂ (λ n m. (n - 1) * m) v.sized.pages v.sized.slots in
    elim (push_lem zero_message q x v.sound) [
      | inl (room, ran, sound, are) ↦
          let same = ap (λ r. r.1) ran in
          let b = lt→ltb (length xs) 134213632 (omega (arith, cap, size, room)) in
          rw b record {
            sound = subst (IsQueue zero_message) (sym same) sound;
            are = ap (contents zero_message) same ∙ are ∙ ap (λ l. l ++ x ∷ []) v.are;
            sized = kept;
          }
      | inr (full, ran) ↦
          let same = ap (λ r. r.1) ran in
          let b = not_below (length xs) (omega (arith, cap, size, full)) in
          rw b record {
            sound = subst (IsQueue zero_message) (sym same) v.sound;
            are = ap (contents zero_message) same ∙ v.are;
            sized = kept;
          }
    ]

-- Every answer is the specification's.
answers-Has :
    (rs : List Request) (p : ProcessorBase) (xs : List AtpMessage)
    → Has p xs
    → answers rs p ≡ expected rs xs
unfolding answers expected get
answers-Has [] p xs v = refl
answers-Has (posting msg ∷ rs) p xs v =
    answers-Has rs (post p msg) (bounded xs msg) (post-Has p xs msg v)
answers-Has (getting ∷ rs) p [] v =
    let ran = pop-empty zero_message p.msg_queue v.sound v.are in
    ap (λ g. (g.0, g.1) ∷ answers rs g.2) (ap got ran)
    ∙ ap (◌∷◌ (none, 4294967295)) (answers-Has rs p [] v)
answers-Has (getting ∷ rs) p (x ∷ xs) v =
    let (q', ran, sound, are) = pop-front zero_message p.msg_queue x xs v.sound v.are in
    let sized =
      subst (Sized zero_message 12 15) (ap (λ r. r.1) ran)
        (pop-Sized zero_message 12 15 p.msg_queue v.sized) in
    let p' : ProcessorBase = record { msg_queue = q' } in
    ap (λ g. (g.0, g.1) ∷ answers rs g.2) (ap got ran)
    ∙ ap (◌∷◌ (some x, 0))
        (answers-Has rs p' xs (record { sound = sound; are = are; sized = sized }))

-- Used by one thread at a time, a new processor answers every sequence of posts and gets as the list
-- does that takes 134213632 messages and drops those that are posted when it is full: a get gives
-- the oldest message and 0, or nothing and -1 if there is none.
pub answers-expected : (rs : List Request) → answers rs processor_base ≡ expected rs []
unfolding processor_base srt_queue
answers-expected rs =
    let (sound, are) = srt_queue-IsQueue zero_message 12 15 in
    answers-Has rs processor_base []
      (record { sound = sound; are = are; sized = record { pages = refl; slots = refl } })
