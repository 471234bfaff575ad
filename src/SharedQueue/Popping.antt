-- ===== src/SharedQueue/Popping.antt =====
-- Every access of the reader in `pop` keeps the invariant.
use linux_tcp_lib.Prelude.{
  ℕ, suc, ◌%◌, ◌<◌, ◌≡◌, refl, sym, ap, ◌∙◌, ◌≢◌, inl, inr, some, List, [], ◌∷◌, ◌++◌, arith,
  get_elem?, take-suc,
}
use linux_tcp_lib.SrtQueue.{Page, msg_page, page_of, with_page}
use linux_tcp_lib.SrtQueue.Slots.{slot}
use linux_tcp_lib.SharedQueue.{
  Shared, Pc, Reader, away, looking, took, dropped, ensure, next, Look, finds_none, looks,
  sees_no_flag, takes, drops, counts,
}
use linux_tcp_lib.SharedQueue.Slots.{at_page, ensure-slot, ensure-Held}
use linux_tcp_lib.SharedQueue.Invariant.{IsShared, Active-transfer, Active-IsClaim}
use linux_tcp_lib.SharedQueue.Sharing.{ensure-IsClaim}
use linux_tcp_lib.SharedQueue.Dropping.{drops-IsShared}

module _ {T : Type 0} (zero_msg : T) (n : ℕ) (s : Shared T) (pc : ℕ → Pc T) (l : List T) where
  looks-IsShared :
      IsShared zero_msg n s pc away l
      → s.queue.get_index < s.queue.post_index
      → IsShared zero_msg n
          (ensure zero_msg s (page_of zero_msg s.queue s.queue.get_index))
          pc
          looking
          l
  unfolding ensure with_page
  looks-IsShared v lt =
      let q = s.queue in
      let b = page_of zero_msg q q.get_index in
      let s' = ensure zero_msg s b in
      let d = q.get_index in
      let same = ensure-slot zero_msg s b in
      record {
        page_size = v.page_size;
        table_size = v.table_size;
        ordered = omega arith;
        in_order = v.in_order;
        room = v.room;
        history = v.history;
        active = λ k.
            Active-transfer zero_msg s s' d d (pc k)
              (λ m x e c. (
                ensure-IsClaim zero_msg n s pc away l v b m x c,
                same x,
                λ g h. (h.0, ensure-Held zero_msg s b x g h.0 h.1),
              ))
              (v.active k);
        unique = v.unique;
        settled = λ x low high. elim (v.settled x low high) [
          | inl own ↦ inl own
          | inr (f, c) ↦
              inr (ap (λ y. y.flag) (same x) ∙ f, c ∙ ap (λ y. some y.msg) (sym (same x)))
        ];
        blank = λ x ge near. ap (λ y. y.flag) (same x) ∙ v.blank x ge near;
      }

  sees_no_flag-IsShared : IsShared zero_msg n s pc looking l → IsShared zero_msg n s pc away l
  sees_no_flag-IsShared v = record {
    page_size = v.page_size;
    table_size = v.table_size;
    ordered = omega (arith, v.ordered);
    in_order = v.in_order;
    room = v.room;
    history = v.history;
    active = v.active;
    unique = v.unique;
    settled = v.settled;
    blank = v.blank;
  }

  -- The message that is taken is the oldest one that has not been taken.
  takes-IsShared :
      (page : Page T)
      → IsShared zero_msg n s pc looking l
      → s.queue.page_indexes (page_of zero_msg s.queue s.queue.get_index) ≡ some page
      → (page (s.queue.get_index % s.queue.page_msg_count)).flag ≡ 1
      → IsShared zero_msg n s pc took
          (l ++ (page (s.queue.get_index % s.queue.page_msg_count)).msg ∷ [])
  unfolding slot
  takes-IsShared page v there flag =
      let q = s.queue in
      let g = q.get_index in
      let here : slot zero_msg q g ≡ page (g % q.page_msg_count) =
        ap (λ p. p (g % q.page_msg_count)) (at_page zero_msg q _ page there) in
      let flagged : (slot zero_msg q g).flag ≡ 1 = ap (λ y. y.flag) here ∙ flag in
      let msg = (page (g % q.page_msg_count)).msg in
      let oldest : get_elem? s.claims g ≡ some msg =
        elim (v.settled g (omega arith) (omega (arith, v.ordered))) [
          | inl (i, e) ↦
              let (m, c) = Active-IsClaim zero_msg s g (pc i) g (v.active i) e in
              absurd (omega (arith, flagged, c.no_flag))
          | inr (f, c) ↦ c ∙ ap (λ y. some y.msg) here
        ] in
      record {
        page_size = v.page_size;
        table_size = v.table_size;
        ordered = v.ordered;
        in_order = v.in_order;
        room = v.room;
        history = ap (λ a. a ++ msg ∷ []) v.history ∙ sym (take-suc g s.claims msg oldest);
        active = λ k.
            Active-transfer zero_msg s s g (suc g) (pc k)
              (λ m x e c.
                let apart : g ≢ x = λ a.
                  let z = ap (λ y. (slot zero_msg q y).flag) a in
                  absurd (omega (arith, flagged, c.no_flag, z)) in
                let low = c.low in
                (
                  record {
                    low = omega arith;
                    high = c.high;
                    in_claims = c.in_claims;
                    no_flag = c.no_flag;
                  },
                  refl,
                  λ i h. h,
                ))
              (v.active k);
        unique = v.unique;
        settled = λ x low high. v.settled x (omega arith) high;
        blank = v.blank;
      }

  counts-IsShared :
      IsShared zero_msg n s pc dropped l → IsShared zero_msg n (next zero_msg s) pc away l
  unfolding next slot msg_page page_of
  counts-IsShared v = record {
    page_size = v.page_size;
    table_size = v.table_size;
    ordered = v.ordered;
    in_order = v.in_order;
    room = omega (arith, v.room);
    history = v.history;
    active = λ k.
        Active-transfer zero_msg s (next zero_msg s) (suc s.queue.get_index) (suc s.queue.get_index)
          (pc k)
          (λ m x e c. (
            record { low = c.low; high = c.high; in_claims = c.in_claims; no_flag = c.no_flag },
            refl,
            λ i h. h,
          ))
          (v.active k);
    unique = v.unique;
    settled = v.settled;
    blank = v.blank;
  }

-- Every access of the reader.
pub Look-IsShared :
    {T : Type 0} (zero_msg : T) (n : ℕ) {s t : Shared T} (pc : ℕ → Pc T) {r r' : Reader}
    {l l' : List T}
    → Look zero_msg s r l t r' l'
    → IsShared zero_msg n s pc r l
    → IsShared zero_msg n t pc r' l'
Look-IsShared zero_msg n pc (finds_none behind) v = v
Look-IsShared zero_msg n {s} pc (looks {l} lt) v = looks-IsShared zero_msg n s pc l v lt
Look-IsShared zero_msg n {s} pc (sees_no_flag {l} page there flag) v =
    sees_no_flag-IsShared zero_msg n s pc l v
Look-IsShared zero_msg n {s} pc (takes {l} page there flag) v =
    takes-IsShared zero_msg n s pc l page v there flag
Look-IsShared zero_msg n {s} pc (drops {l}) v = drops-IsShared zero_msg n s pc l v
Look-IsShared zero_msg n {s} pc (counts {l}) v = counts-IsShared zero_msg n s pc l v
