-- ===== src/SharedQueue/Order.antt =====
-- What the queue promises to two threads that push and one that pops, in every interleaving.
use mathlib.Core.Path.{subst}
use mathlib.Core.Option.{some-ne-none}
use linux_tcp_lib.Prelude.{
  take-append-drop-length, ℕ, zero, suc, ◌≤◌, ◌<◌, ◌≡◌, refl, sym, ap, ◌∙◌, inl, inr, none, some,
  [], ◌++◌, arith, Bool-cases, length, drop, length-take, get_elem?,
}
use linux_tcp_lib.SrtQueue.{srt_queue, blank_page, msg_page}
use linux_tcp_lib.SrtQueue.Slots.{slot}
use linux_tcp_lib.SrtQueue.Fifo.{srt_queue-IsQueue}
use linux_tcp_lib.SharedQueue.{
  Shared, Pc, idle, passed, claimed, holding, written, away, full, Move, refuses, passes, fetches,
  gets_page, writes, flags, System, Step, pushes, pops, Reach, fresh, later,
}
use linux_tcp_lib.SharedQueue.Invariant.{index, count, done, Active, IsShared}
use linux_tcp_lib.SharedQueue.Sharing.{done-le-ahead}
use linux_tcp_lib.SharedQueue.Writing.{Move-IsShared}
use linux_tcp_lib.SharedQueue.Popping.{Look-IsShared}

module _ {T : Type 0} (zero_msg : T) where
  fresh-IsShared :
      (n b x : ℕ)
      → n ≤ 2
      → IsShared zero_msg n
          (record { queue = srt_queue zero_msg b x; made = λ p. 0; claims = [] })
          (λ i. idle)
          away
          []
  unfolding srt_queue slot msg_page blank_page
  fresh-IsShared n b x few =
      let v = (srt_queue-IsQueue zero_msg b x).0 in
      let idle_count = no_count n in
      record {
        page_size = v.page_size;
        table_size = v.table_size;
        ordered = omega arith;
        in_order = refl;
        room = omega (arith, v.room, idle_count);
        history = refl;
        active = λ i. tt;
        unique = λ i k j e f. absurd (some-ne-none j (sym e));
        settled = λ j low high. absurd (omega arith);
        blank = λ j ge near. ground arith;
      }
    where
      no_count : (m : ℕ) → count {T = T} m (λ i. idle) ≡ 0
      no_count zero = refl
      no_count (suc m) = omega (arith, no_count m)

  Step-IsShared :
      (n : ℕ) {s t : System zero_msg}
      → n ≤ 2
      → Step zero_msg n s t
      → IsShared zero_msg n s.shared s.pc s.reader s.taken
      → IsShared zero_msg n t.shared t.pc t.reader t.taken
  Step-IsShared n {s} few (pushes i lt move) v =
      Move-IsShared zero_msg n s.pc s.reader s.taken i few lt move refl v
  Step-IsShared n {s} few (pops look) v = Look-IsShared zero_msg n s.pc look v

  pub Reach-IsShared :
      {n b x : ℕ} {s : System zero_msg}
      → n ≤ 2
      → Reach zero_msg n b x s
      → IsShared zero_msg n s.shared s.pc s.reader s.taken
  Reach-IsShared {n} {b} {x} few fresh = fresh-IsShared n b x few
  Reach-IsShared {n} few (later before step) = Step-IsShared n few step (Reach-IsShared few before)

  -- With at most two threads that push, whatever the sizes of the pages and of the table: what the
  -- reader has popped, followed by the rest of the messages in the order in which their indices
  -- were fetched, is all of these messages. None is lost, doubled or overtaken.
  pub popped_in_order :
      {n b x : ℕ} {s : System zero_msg}
      → n ≤ 2
      → Reach zero_msg n b x s
      → s.taken ++ drop (length s.taken) s.shared.claims ≡ s.shared.claims
  popped_in_order {s} few r =
      let v = Reach-IsShared few r in
      subst (λ l. l ++ drop (length l) s.shared.claims ≡ s.shared.claims) (sym v.history)
        (take-append-drop-length (done s.reader s.shared.queue.get_index) s.shared.claims)

  -- With at most two threads that push, a thread is never stuck, wherever it stands: a thread that
  -- keeps a page finds it in the table, the one that it got, so that it never writes into a page
  -- that the reader has deleted.
  pub never_stuck :
      {n b x : ℕ} {s : System zero_msg}
      → n ≤ 2
      → Reach zero_msg n b x s
      → (i : ℕ) → (t : Shared T) × (p : Pc T) × Move zero_msg s.shared (s.pc i) t p
  never_stuck {s} few r i = next_move s.shared _ (s.pc i) ((Reach-IsShared few r).active i)
    where
      next_move :
          (m : Shared T) (d : ℕ) (p : Pc T)
          → Active zero_msg m d p
          → (t : Shared T) × (p' : Pc T) × Move zero_msg m p t p'
      next_move m d idle v = elim (Bool-cases (full m.queue)) [
        | inl e ↦ (m, idle, refuses e)
        | inr e ↦ (m, passed zero_msg, passes zero_msg e)
      ]
      next_move m d (passed msg) v = (_, _, fetches)
      next_move m d (claimed msg j) v = (_, _, gets_page)
      next_move m d (holding msg j g) (c, h) = (_, _, writes h.0 h.1)
      next_move m d (written msg j g) (c, h, e) = (_, _, flags h.0 h.1)

  -- With at most two threads that push, when none of them has an index that it has not flagged:
  -- every message that has not been popped stands in the slot of its index, with its flag.
  pub all_ready :
      {n b x : ℕ} {s : System zero_msg}
      → n ≤ 2
      → Reach zero_msg n b x s
      → ((i : ℕ) → index (s.pc i) ≡ none)
      → (j : ℕ) → length s.taken ≤ j
      → j < length s.shared.claims
      → ((slot zero_msg s.shared.queue j).flag ≡ 1)
        × (get_elem? s.shared.claims j ≡ some (slot zero_msg s.shared.queue j).msg)
  all_ready {s} few r quiet j low high =
      let v = Reach-IsShared few r in
      let d = done s.reader s.shared.queue.get_index in
      let le : d ≤ length s.shared.claims =
        omega (arith, v.ordered, v.in_order, done-le-ahead s.reader s.shared.queue.get_index) in
      let len : length s.taken ≡ d =
        ap length v.history ∙ length-take d s.shared.claims ∙ omega (arith, le) in
      elim (v.settled j (omega arith) (omega (arith, v.in_order))) [
        | inl (i, e) ↦ absurd (some-ne-none j (sym e ∙ quiet i))
        | inr here ↦ here
      ]
