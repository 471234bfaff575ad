-- ===== src/SharedQueue.antt =====
-- `srt_queue` of base/src/mqueue.h used as it is meant to be: by several threads that push and one
-- that pops, interleaved in any order, on memory that all see alike. A step is an access to the
-- shared memory; these go as one: the two reads of the guard, `get_msg_page` with its mutex, the
-- reader's reads of a flag and of its message, and the deletion of a page with the clearing of its
-- pointer.
pub mod Slots
pub mod Invariant
pub mod Sharing
pub mod Pushing
pub mod Writing
pub mod Dropping
pub mod Popping
pub mod Order
mod Tests
use linux_tcp_lib.Prelude.{
  ℕ, suc, ◌+◌, ◌-◌, ◌/◌, ◌%◌, ◌≤◌, ◌<◌, ◌≡◌, ◌≢◌, Bool, true, false, none, some, List, [], ◌∷◌,
  ◌++◌, leb, ◌==◌, if◌then◌else◌,
}
use linux_tcp_lib.SrtQueue.{
  SrtMessage, Page, SrtQueue, srt_queue, msg_page, with_page, write_slot, page_of,
}

-- The queue; how many pages each place of the table has had, so that a page and its successor in
-- the same place are told apart; and, in no code, the messages in the order in which their indices
-- were fetched.
pub record Shared (T : Type 0) : Type 0 where
  pub queue : SrtQueue T
  pub made : ℕ → ℕ
  pub claims : List T

-- Where a thread stands in `push`: outside; behind the guard; with an index; with the page, of
-- which it keeps the pointer; with its message written.
pub data Pc (T : Type 0) : Type 0 where
  idle : Pc T
  passed : T → Pc T
  claimed : T → ℕ → Pc T
  holding : T → ℕ → ℕ → Pc T
  written : T → ℕ → ℕ → Pc T

-- Where the reader stands in `pop`: outside; with the page of its index; with the message; behind
-- the `if` that deletes the page.
pub data Reader : Type 0 where
  away : Reader
  looking : Reader
  took : Reader
  dropped : Reader

-- The guard of `push`; its two reads are one access.
unfoldable pub full : {T : Type 0} → SrtQueue T → Bool
full q = leb (q.page_index_count - 1) ((q.post_index - q.get_index) / q.page_msg_count)

-- `base_fetch_and_inc(&post_index_)`.
unfoldable pub claim : {T : Type 0} → Shared T → T → Shared T
claim s msg = record s {
  queue = record s.queue { post_index = s.queue.post_index + 1 };
  claims = s.claims ++ msg ∷ [];
}

unfoldable pub update : {A : Type 0} → (ℕ → A) → ℕ → A → ℕ → A
update f i a k = if i == k then a else f k

module _ {T : Type 0} (zero_msg : T) where
  -- `get_msg_page`, which makes a page where there is none, under the mutex.
  unfoldable pub ensure : Shared T → ℕ → Shared T
  unfolding update
  ensure s page_index =
      let times : ℕ = elim (s.queue.page_indexes page_index) [
        | none ↦ suc (s.made page_index)
        | some p ↦ s.made page_index
      ] in
      record s {
        queue = with_page zero_msg s.queue page_index (some (msg_page zero_msg s.queue page_index));
        made = update s.made page_index times;
      }

  -- A slot of `page`, which stands in the table, written.
  unfoldable pub put_slot : Shared T → ℕ → Page T → SrtMessage T → Shared T
  put_slot s j page x = record s {
    queue =
        with_page zero_msg s.queue (page_of zero_msg s.queue j)
          (some (write_slot zero_msg page (j % s.queue.page_msg_count) x));
  }

  -- The end of a page takes the page with it.
  unfoldable pub drop_page : Shared T → Shared T
  drop_page s =
      if s.queue.get_index % s.queue.page_msg_count == s.queue.page_msg_count - 1
      then record s {
        queue = with_page zero_msg s.queue (page_of zero_msg s.queue s.queue.get_index) none;
      }
      else s

  unfoldable pub next : Shared T → Shared T
  next s = record s { queue = record s.queue { get_index = suc s.queue.get_index } }

  -- The page in the place of index `j` is there, and it is the one that was made `g`-th.
  abbrev pub Held : Shared T → ℕ → ℕ → Page T → Type 0
  Held s j g page =
      (s.queue.page_indexes (page_of zero_msg s.queue j) ≡ some page)
      × (s.made (page_of zero_msg s.queue j) ≡ g)

  -- One access of one thread in `push`.
  pub data Move (s : Shared T) : Pc T → Shared T → Pc T → Type 0 where
    refuses : full s.queue ≡ true → Move s idle s idle
    passes : (msg : T) → full s.queue ≡ false → Move s idle s (passed msg)
    fetches : {msg : T} → Move s (passed msg) (claim s msg) (claimed msg s.queue.post_index)
    gets_page :
        {msg : T} {j : ℕ}
        → Move s (claimed msg j) (ensure s (page_of zero_msg s.queue j)) (
            holding msg j
              ((ensure s (page_of zero_msg s.queue j)).made (page_of zero_msg s.queue j)))
    writes :
        {msg : T} {j g : ℕ} (page : Page T)
        → Held s j g page
        → Move s
            (holding msg j g)
            (put_slot s j page
              (record { msg = msg; flag = (page (j % s.queue.page_msg_count)).flag }))
            (written msg j g)
    flags :
        {msg : T} {j g : ℕ} (page : Page T)
        → Held s j g page
        → Move s
            (written msg j g)
            (put_slot s j page (record { msg = (page (j % s.queue.page_msg_count)).msg; flag = 1 }))
            idle

  -- One access of the reader in `pop`, with the messages that it has popped.
  pub data Look (s : Shared T) : Reader → List T → Shared T → Reader → List T → Type 0 where
    finds_none : {l : List T} → s.queue.post_index ≤ s.queue.get_index → Look s away l s away l
    looks :
        {l : List T}
        → s.queue.get_index < s.queue.post_index
        → Look s away l (ensure s (page_of zero_msg s.queue s.queue.get_index)) looking l
    sees_no_flag :
        {l : List T} (page : Page T)
        → s.queue.page_indexes (page_of zero_msg s.queue s.queue.get_index) ≡ some page
        → (page (s.queue.get_index % s.queue.page_msg_count)).flag ≢ 1
        → Look s looking l s away l
    takes :
        {l : List T} (page : Page T)
        → s.queue.page_indexes (page_of zero_msg s.queue s.queue.get_index) ≡ some page
        → (page (s.queue.get_index % s.queue.page_msg_count)).flag ≡ 1
        → Look s looking l s took
            (l ++ (page (s.queue.get_index % s.queue.page_msg_count)).msg ∷ [])
    drops : {l : List T} → Look s took l (drop_page s) dropped l
    counts : {l : List T} → Look s dropped l (next s) away l

  pub record System : Type 0 where
    pub shared : Shared T
    pub pc : ℕ → Pc T
    pub reader : Reader
    pub taken : List T

  -- `n` threads that push, and the reader.
  pub data Step (n : ℕ) (s : System) : System → Type 0 where
    pushes :
        (i : ℕ) {m : Shared T} {p : Pc T}
        → i < n
        → Move s.shared (s.pc i) m p
        → Step n s (record { shared = m; pc = update s.pc i p; reader = s.reader; taken = s.taken })
    pops :
        {m : Shared T} {r : Reader} {l : List T}
        → Look s.shared s.reader s.taken m r l
        → Step n s (record { shared = m; pc = s.pc; reader = r; taken = l })

  -- From a new queue on.
  pub data Reach (n page_msg_bits page_index_bits : ℕ) : System → Type 0 where
    fresh : Reach n page_msg_bits page_index_bits (record {
      shared = record {
        queue = srt_queue zero_msg page_msg_bits page_index_bits;
        made = λ p. 0;
        claims = [];
      };
      pc = λ i. idle;
      reader = away;
      taken = [];
    })
    later :
        {s t : System}
        → Reach n page_msg_bits page_index_bits s
        → Step n s t
        → Reach n page_msg_bits page_index_bits t
