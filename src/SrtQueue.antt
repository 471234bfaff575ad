-- ===== src/SrtQueue.antt =====
-- `srt_queue` of base/src/mqueue.h: the paged queue of messages with one reader, used by one thread
-- at a time. `x >> page_msg_bits_` and `x & page_msg_mask_` on an index are the quotient and the
-- remainder by `page_msg_count_`, so too with the pages and `page_index_count_`.
pub mod Slots
pub mod Fifo
pub mod Behaviour
pub mod Abstract
mod Tests
use linux_tcp_lib.Prelude.{
  ℕ, ◌+◌, ◌-◌, ◌/◌, ◌%◌, ◌^◌, Bool, true, false, Option, none, some, leb, ◌==◌, if◌then◌else◌,
}

-- `srt_message`.
pub record SrtMessage (T : Type 0) : Type 0 where
  pub msg : T
  pub flag : ℕ

abbrev pub Page : Type 0 → Type 0
Page T = ℕ → SrtMessage T

-- The pages are pointers, none for NULL. The indices count messages and do not reach 2 ^ 63.
pub record SrtQueue (T : Type 0) : Type 0 where
  pub page_indexes : ℕ → Option (Page T)
  pub post_index : ℕ
  pub get_index : ℕ
  pub page_index_count : ℕ
  pub page_msg_count : ℕ

-- `zero` is the message of zero bytes that `memset` leaves.
module _ {T : Type 0} (zero_msg : T) where
  unfoldable pub blank_page : Page T
  blank_page j = record { msg = zero_msg; flag = 0 }

  -- The constructor and `init`: the first page is there. `page_msg_bits` is below 31, where the `int`
  -- that the code shifts holds 2 ^ page_msg_bits, and `page_index_bits` below 63.
  unfoldable pub srt_queue : ℕ → ℕ → SrtQueue T
  unfolding blank_page
  srt_queue page_msg_bits page_index_bits = record {
    page_indexes = λ p. if p == 0 then some blank_page else none;
    post_index = 0;
    get_index = 0;
    page_index_count = 2 ^ page_index_bits;
    page_msg_count = 2 ^ page_msg_bits;
  }

  -- `get_msg_page`: the page, made and zeroed if there is none, ...
  unfoldable pub msg_page : SrtQueue T → ℕ → Page T
  unfolding blank_page
  msg_page q page_index = elim (q.page_indexes page_index) [ none ↦ blank_page | some p ↦ p ]

  -- ... and the table with `page` in its place.
  unfoldable pub with_page : SrtQueue T → ℕ → Option (Page T) → SrtQueue T
  with_page q page_index page = record q {
    page_indexes = λ p. if p == page_index then page else q.page_indexes p;
  }

  unfoldable pub write_slot : Page T → ℕ → SrtMessage T → Page T
  write_slot page j s k = if k == j then s else page k

  unfoldable pub page_of : SrtQueue T → ℕ → ℕ
  page_of q j = j / q.page_msg_count % q.page_index_count

  -- The message and its flag written, and the index taken.
  unfoldable pub posted : SrtQueue T → T → SrtQueue T
  posted q msg =
      let page_index = page_of q q.post_index in
      let s : SrtMessage T = record { msg = msg; flag = 1 } in
      record (with_page q page_index
        (some (write_slot (msg_page q page_index) (q.post_index % q.page_msg_count) s))) {
          post_index = q.post_index + 1;
        }

  unfoldable pub push : SrtQueue T → T → Bool × SrtQueue T
  push q msg =
      if leb (q.page_index_count - 1) ((q.post_index - q.get_index) / q.page_msg_count)
      then (false, q)
      else (true, posted q msg)

  -- The oldest message read; the last one of a page takes the page with it.
  unfoldable pub taken : SrtQueue T → SrtQueue T
  taken q =
      let page_index = page_of q q.get_index in
      record (with_page q page_index (
        if q.get_index % q.page_msg_count == q.page_msg_count - 1
        then none
        else some (msg_page q page_index))) { get_index = q.get_index + 1 }

  unfoldable pub pop : SrtQueue T → Option T × SrtQueue T
  pop q =
      let page_index = page_of q q.get_index in
      let s = msg_page q page_index (q.get_index % q.page_msg_count) in
      if leb q.post_index q.get_index
      then (none, q)
      else if s.flag == 1
      then (some s.msg, taken q)
      else (none, with_page q page_index (some (msg_page q page_index)))

  unfoldable pub size : SrtQueue T → ℕ
  size q = q.post_index - q.get_index
