-- ===== src/DrbQueue.antt =====
-- `drb_queue` of base/src/mqueue.h: a queue that keeps every message, in pages of a table that
-- grows, used by one thread at a time.
pub mod Slots
pub mod Keeps
mod Tests
use linux_tcp_lib.Prelude.{
  ℕ, zero, suc, ◌+◌, ◌*◌, ◌/◌, ◌%◌, ◌^◌, Option, none, some, ltb, leb, ◌==◌, if◌then◌else◌,
}

-- `drb_message`.
pub record DrbMessage (T : Type 0) : Type 0 where
  pub msg : T
  pub flag : ℕ

abbrev pub Page : Type 0 → Type 0
Page T = ℕ → DrbMessage T

-- The pages are pointers, none for NULL; the table has `page_index_count` of them.
pub record DrbQueue (T : Type 0) : Type 0 where
  pub page_indexes : ℕ → Option (Page T)
  pub post_index : ℕ
  pub write_index : ℕ
  pub page_index_count : ℕ
  pub page_msg_count : ℕ

-- The loop of the constructor: the first power of 2, from 2 on, that is not below `count`.
unfoldable pub page_bits : ℕ → ℕ → ℕ → ℕ
page_bits zero count bits = bits
page_bits (suc fuel) count bits =
    let more = page_bits fuel count (bits + 1) in if ltb (2 ^ bits) count then more else bits

-- The loop that doubles the size of the table.
unfoldable pub grow : ℕ → ℕ → ℕ → Option ℕ
grow zero page_index extend_size = none
grow (suc fuel) page_index extend_size =
    let more = grow fuel page_index (extend_size * 2) in
    if ltb extend_size page_index then more else some extend_size

-- `zero_msg` is the message of zero bytes that `memset` leaves.
module _ {T : Type 0} (zero_msg : T) where
  unfoldable pub blank_page : Page T
  blank_page j = record { msg = zero_msg; flag = 0 }

  -- The constructor and `init`: the first page is there.
  unfoldable pub drb_queue : ℕ → ℕ → DrbQueue T
  unfolding blank_page page_bits
  drb_queue page_msg_count init_page_msg_count = record {
    page_indexes = λ p. if p == 0 then some blank_page else none;
    post_index = 0;
    write_index = 0;
    page_index_count = init_page_msg_count;
    page_msg_count = 2 ^ page_bits page_msg_count page_msg_count 1;
  }

  unfoldable pub with_page : DrbQueue T → ℕ → Page T → DrbQueue T
  with_page q page_index page = record q {
    page_indexes = λ p. if p == page_index then some page else q.page_indexes p;
  }

  -- The table with room for the page: `memset` and `memcpy` keep the old pages and put NULL behind
  -- them; none if the loop ran out of fuel.
  unfoldable pub extended : DrbQueue T → ℕ → Option (DrbQueue T)
  unfolding grow
  extended q page_index =
      if leb q.page_index_count page_index
      then elim (grow (suc page_index) page_index (q.page_index_count * 2)) [
        | none ↦ none
        | some extend_size ↦ some (record q {
          page_indexes = λ p. if ltb p q.page_index_count then q.page_indexes p else none;
          page_index_count = extend_size;
        })
      ]
      else some q

  -- `page_indexes_[page_index]` of a table that has been made long enough; none if it is read
  -- behind its end.
  unfoldable pub page_at : DrbQueue T → ℕ → Option (Page T × DrbQueue T)
  unfolding blank_page with_page
  page_at q page_index =
      if leb q.page_index_count page_index
      then none
      else some (elim (q.page_indexes page_index) [
        | none ↦ (blank_page, with_page q page_index blank_page)
        | some page ↦ (page, q)
      ])

  -- `get_msg_page`.
  unfoldable pub msg_page : DrbQueue T → ℕ → Option (Page T × DrbQueue T)
  unfolding extended page_at
  msg_page q page_index = elim (extended q page_index) [
    | none ↦ none
    | some q' ↦ page_at q' page_index
  ]

  unfoldable pub write_slot : Page T → ℕ → DrbMessage T → Page T
  write_slot page j s k = if k == j then s else page k

  -- `push`, which always answers true; none if it leaves the table.
  unfoldable pub push : DrbQueue T → T → Option (DrbQueue T)
  unfolding msg_page with_page write_slot
  push q msg =
      let page_index = q.post_index / q.page_msg_count in
      elim (msg_page (record q { post_index = q.post_index + 1 }) page_index) [
        | none ↦ none
        | some (page, q') ↦
            let s : DrbMessage T = record { msg = msg; flag = 1 } in
            some
              (record (with_page q' page_index
                (write_slot page (q.post_index % q.page_msg_count) s)) {
                  write_index = q'.write_index + 1;
                })
      ]

  -- `get`: none outside if it leaves the table, none inside for false.
  unfoldable pub get : DrbQueue T → ℕ → Option (Option T × DrbQueue T)
  unfolding msg_page
  get q pos =
      if leb q.write_index pos then some (none, q) else elim (msg_page q (pos / q.page_msg_count)) [
        | none ↦ none
        | some (page, q') ↦
            let s = page (pos % q.page_msg_count) in
            some (if s.flag == 1 then some s.msg else none, q')
      ]

  unfoldable pub size : DrbQueue T → ℕ
  size q = q.write_index
