-- ===== src/SharedQueue/Dropping.antt =====
-- The reader that comes to the end of a page deletes it, and keeps the invariant.
use native.Mathlib.Nat.{add-mod_right, div-add-mod, mod-lt, div-lt_iff_lt-mul, mul_comm, mul-suc}
use mathlib.Core.Path.{subst}
use linux_tcp_lib.Prelude.{
  ℕ, suc, ◌+◌, ◌-◌, ◌*◌, ◌/◌, ◌%◌, ◌≤◌, ◌<◌, ◌≡◌, sym, ap, ◌∙◌, ◌≢◌, inl, inr, some, List, arith,
  ◌==◌, ==_iff, Bool-cases,
}
use linux_tcp_lib.SrtQueue.{page_of, with_page}
use linux_tcp_lib.SrtQueue.Slots.{mod-ne, slot, div-lt-add}
use linux_tcp_lib.SrtQueue.Fifo.{next_page}
use linux_tcp_lib.SharedQueue.{Shared, Pc, took, dropped, drop_page}
use linux_tcp_lib.SharedQueue.Slots.{
  sans_page, drop_page_last, drop_page_keeps, sans_page-slot, sans_page-Held, sans_page-blank,
}
use linux_tcp_lib.SharedQueue.Invariant.{IsShared, Active-transfer}

-- The page of the next index is the same one, but behind the end of a page.
same_page : (p g : ℕ) → 0 < p → g % p ≢ p - 1 → suc g / p < suc (g / p)
same_page p g pos ne =
    let e = div-add-mod g p in
    let lt = mod-lt g pos in
    let inside : suc g < suc (g / p) * p =
      omega (arith, mul_comm p (suc (g / p)), mul-suc p (g / p)) in
    (div-lt_iff_lt-mul pos).1 inside

module _ {T : Type 0} (zero_msg : T) (n : ℕ) (s : Shared T) (pc : ℕ → Pc T) (l : List T) where
  -- At the end of its page, the reader's page is no page of a later index.
  leaves_page :
      (x : ℕ)
      → IsShared zero_msg n s pc took l
      → s.queue.get_index % s.queue.page_msg_count ≡ s.queue.page_msg_count - 1
      → s.queue.get_index < x
      → x / s.queue.page_msg_count
        < s.queue.get_index / s.queue.page_msg_count + s.queue.page_index_count
      → page_of zero_msg s.queue x ≢ page_of zero_msg s.queue s.queue.get_index
  unfolding page_of
  leaves_page x v last lt near same =
      let p = s.queue.page_msg_count in
      let g = s.queue.get_index in
      mod-ne (g / p) (x / p) s.queue.page_index_count (next_page p g x v.page_size last lt) near
        (sym same)

  live_page :
      (x : ℕ)
      → IsShared zero_msg n s pc took l
      → s.queue.get_index % s.queue.page_msg_count ≡ s.queue.page_msg_count - 1
      → s.queue.get_index < x
      → x < s.queue.post_index
      → page_of zero_msg s.queue x ≢ page_of zero_msg s.queue s.queue.get_index
  live_page x v last lt high = leaves_page x v last lt (
      div-lt-add s.queue.page_msg_count s.queue.page_index_count s.queue.get_index x v.page_size
        (omega (arith, v.room)))

  -- The indices of the next round of the table find blank slots.
  sans_page-blank_at :
      (x : ℕ)
      → IsShared zero_msg n s pc took l
      → s.queue.get_index % s.queue.page_msg_count ≡ s.queue.page_msg_count - 1
      → s.queue.post_index ≤ x
      → x / s.queue.page_msg_count
        < suc s.queue.get_index / s.queue.page_msg_count + s.queue.page_index_count
      → (slot zero_msg (sans_page zero_msg s).queue x).flag ≡ 0
  unfolding page_of
  sans_page-blank_at x v last ge near =
      let p = s.queue.page_msg_count in
      let c = s.queue.page_index_count in
      let g = s.queue.get_index in
      let up : suc g / p < g / p + 2 =
        div-lt-add p 2 g (suc g) v.page_size (omega (arith, v.page_size)) in
      let behind : g < x = omega (arith, v.ordered) in
      elim (Bool-cases (x / p == g / p + c)) [
        | inl e ↦
            sans_page-blank zero_msg s x
              (ap (λ a. a % c) ((==_iff (x / p) (g / p + c)).0 e) ∙ add-mod_right (g / p) c)
        | inr e ↦
            let inside : x / p < g / p + c = ground arith in
            ap (λ y. y.flag) (sans_page-slot zero_msg s x (leaves_page x v last behind inside))
            ∙ v.blank x ge inside
      ]

  -- Behind the end of its page: no thread holds that page.
  sans_page-IsShared :
      s.queue.get_index % s.queue.page_msg_count ≡ s.queue.page_msg_count - 1
      → IsShared zero_msg n s pc took l
      → IsShared zero_msg n (sans_page zero_msg s) pc dropped l
  unfolding with_page
  sans_page-IsShared last v =
      let d = suc s.queue.get_index in
      let s' = sans_page zero_msg s in
      let same = λ (x : ℕ) (low : d ≤ x) (high : x < s.queue.post_index).
        sans_page-slot zero_msg s x (live_page x v last (omega arith) high) in
      record {
        page_size = v.page_size;
        table_size = v.table_size;
        ordered = v.ordered;
        in_order = v.in_order;
        room = v.room;
        history = v.history;
        active = λ k.
            Active-transfer zero_msg s s' d d (pc k)
              (λ m x e c.
                let slots = same x c.low c.high in
                let low = c.low in
                (
                  record {
                    low = c.low;
                    high = c.high;
                    in_claims = c.in_claims;
                    no_flag = ap (λ y. y.flag) slots ∙ c.no_flag;
                  },
                  slots,
                  λ g h. (
                    h.0,
                    sans_page-Held zero_msg s x g h.0 (live_page x v last (omega arith) c.high) h.1,
                  ),
                ))
              (v.active k);
        unique = v.unique;
        settled = λ x low high. elim (v.settled x low high) [
          | inl own ↦ inl own
          | inr (f, c) ↦
              let slots = same x low high in
              inr (ap (λ y. y.flag) slots ∙ f, c ∙ ap (λ y. some y.msg) (sym slots))
        ];
        blank = λ x ge near. sans_page-blank_at x v last ge near;
      }

  keeps_page-IsShared :
      s.queue.get_index % s.queue.page_msg_count ≢ s.queue.page_msg_count - 1
      → IsShared zero_msg n s pc took l
      → IsShared zero_msg n s pc dropped l
  keeps_page-IsShared ne v = record {
    page_size = v.page_size;
    table_size = v.table_size;
    ordered = v.ordered;
    in_order = v.in_order;
    room = v.room;
    history = v.history;
    active = v.active;
    unique = v.unique;
    settled = v.settled;
    blank = λ x ge near.
        let same = same_page s.queue.page_msg_count s.queue.get_index v.page_size ne in
        v.blank x ge (omega arith);
  }

  pub drops-IsShared :
      IsShared zero_msg n s pc took l → IsShared zero_msg n (drop_page zero_msg s) pc dropped l
  drops-IsShared v =
      let g = s.queue.get_index in
      let p = s.queue.page_msg_count in
      elim (Bool-cases (g % p == p - 1)) [
        | inl e ↦
            let last = (==_iff (g % p) (p - 1)).0 e in
            subst (λ t. IsShared zero_msg n t pc dropped l) (sym (drop_page_last zero_msg s last))
              (sans_page-IsShared last v)
        | inr e ↦
            let ne : g % p ≢ p - 1 = ground arith in
            subst (λ t. IsShared zero_msg n t pc dropped l) (sym (drop_page_keeps zero_msg s ne))
              (keeps_page-IsShared ne v)
      ]
