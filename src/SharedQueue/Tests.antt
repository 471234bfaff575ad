-- ===== src/SharedQueue/Tests.antt =====
-- Two threads that push and a reader, on pages of two messages in a table of two; and three threads
-- that come to share a slot.
use linux_tcp_lib.Prelude.{
  ℕ, ◌≤◌, ◌<◌, ◌≡◌, refl, inl, inr, none, some, [], ◌∷◌, ◌++◌, arith, ◌==◌, Bool-cases, length,
  drop, get_elem?,
}
use linux_tcp_lib.SrtQueue.{srt_queue, msg_page, page_of, with_page, write_slot}
use linux_tcp_lib.SrtQueue.Slots.{slot}
use linux_tcp_lib.SharedQueue.{
  Shared, Pc, full, claim, update, ensure, put_slot, Move, passes, fetches, gets_page, writes,
  flags, looks, takes, System, pushes, pops, Reach, fresh, later,
}
use linux_tcp_lib.SharedQueue.Invariant.{index}
use linux_tcp_lib.SharedQueue.Order.{popped_in_order, never_stuck, all_ready}

abbrev Run : ℕ → ℕ → Type 0
Run n page_msg_bits = (s : System {T = ℕ} 0) × Reach 0 n page_msg_bits 1 s

-- Both threads pass the guard; the second one fetches the first index, the first one the second.
fetched : Run 2 1
unfolding srt_queue full update claim
fetched = (
  _,
  later
      (later
        (later (later fresh (pushes 0 (omega arith) (passes 5 refl)))
          (pushes 1 (omega arith) (passes 6 refl)))
        (pushes 1 (omega arith) fetches))
      (pushes 0 (omega arith) fetches),
)

-- The second thread ends its push, ...
flagged : Run 2 1
unfolding fetched srt_queue full update claim ensure put_slot msg_page with_page page_of
flagged = (
  _,
  later
      (later (later fetched.1 (pushes 1 (omega arith) gets_page))
        (pushes 1 (omega arith) (writes _ (refl, refl))))
      (pushes 1 (omega arith) (flags _ (refl, refl))),
)

-- ... the reader takes its message, ...
popped : Run 2 1
unfolding flagged fetched srt_queue full update claim ensure put_slot msg_page with_page page_of
    write_slot
popped = (_, later (later flagged.1 (pops (looks (omega arith)))) (pops (takes _ refl refl)))

popped-taken : (popped.0.taken ≡ 6 ∷ []) × (popped.0.shared.claims ≡ 6 ∷ 5 ∷ [])
unfolding popped flagged fetched srt_queue update claim ensure put_slot msg_page with_page page_of
    write_slot
popped-taken = (refl, refl)

-- ... and the first thread ends its own.
ended : Run 2 1
unfolding popped flagged fetched srt_queue full update claim ensure put_slot msg_page with_page
    page_of write_slot
ended = (
  _,
  later
      (later (later popped.1 (pushes 0 (omega arith) gets_page))
        (pushes 0 (omega arith) (writes _ (refl, refl))))
      (pushes 0 (omega arith) (flags _ (refl, refl))),
)

popped-in_order :
    popped.0.taken ++ drop (length popped.0.taken) popped.0.shared.claims ≡ popped.0.shared.claims
popped-in_order = popped_in_order 0 (omega arith) popped.1

flagged-never_stuck : (t : Shared ℕ) × (p : Pc ℕ) × Move 0 flagged.0.shared (flagged.0.pc 0) t p
flagged-never_stuck = never_stuck 0 (omega arith) flagged.1 0

ended-quiet : (i : ℕ) → index (ended.0.pc i) ≡ none
unfolding ended popped flagged fetched update
ended-quiet i = elim (Bool-cases (0 == i)) [
  | inl e ↦ rw e refl
  | inr e ↦ elim (Bool-cases (1 == i)) [ inl f ↦ rw (e, f) refl | inr f ↦ rw (e, f) refl ]
]

ended-low : length ended.0.taken ≤ 1
unfolding ended popped flagged fetched srt_queue update claim ensure put_slot msg_page with_page
    page_of write_slot
ended-low = omega arith

ended-high : 1 < length ended.0.shared.claims
unfolding ended popped flagged fetched srt_queue update claim ensure put_slot
ended-high = omega arith

ended-all_ready :
    ((slot 0 ended.0.shared.queue 1).flag ≡ 1)
    × (get_elem? ended.0.shared.claims 1 ≡ some (slot 0 ended.0.shared.queue 1).msg)
ended-all_ready = all_ready 0 (omega arith) ended.1 ended-quiet 1 ended-low ended-high

-- Three threads pass the guard of an empty queue with two pages of one message; the first and the
-- third get the same slot, and write it.
overrun : Run 3 0
unfolding srt_queue full update claim ensure put_slot msg_page with_page page_of write_slot
overrun =
    let passed_all =
      later
        (later (later fresh (pushes 0 (omega arith) (passes 5 refl)))
          (pushes 1 (omega arith) (passes 6 refl)))
        (pushes 2 (omega arith) (passes 7 refl)) in
    let fetched_all =
      later
        (later (later passed_all (pushes 0 (omega arith) fetches)) (pushes 1 (omega arith) fetches))
        (pushes 2 (omega arith) fetches) in
    let first =
      later
        (later (later fetched_all (pushes 0 (omega arith) gets_page))
          (pushes 0 (omega arith) (writes _ (refl, refl))))
        (pushes 0 (omega arith) (flags _ (refl, refl))) in
    let third =
      later
        (later (later first (pushes 2 (omega arith) gets_page))
          (pushes 2 (omega arith) (writes _ (refl, refl))))
        (pushes 2 (omega arith) (flags _ (refl, refl))) in
    (_, later (later third (pops (looks (omega arith)))) (pops (takes _ refl refl)))

-- The reader takes the third message for the first, which is lost.
overrun-taken : (overrun.0.taken ≡ 7 ∷ []) × (overrun.0.shared.claims ≡ 5 ∷ 6 ∷ 7 ∷ [])
unfolding overrun srt_queue update claim ensure put_slot msg_page with_page page_of write_slot
overrun-taken = (refl, refl)
