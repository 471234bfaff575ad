-- ===== src/SharedQueue/Pushing.antt =====
-- A thread that passes the guard, fetches an index and gets the page keeps the invariant, with at
-- most two threads that push.
use mathlib.Core.Path.{subst}
use mathlib.Core.Option.{some-injective, some-ne-none}
use linux_tcp_lib.Prelude.{
  ℕ, ◌+◌, ◌/◌, ◌≤◌, ◌<◌, ◌≡◌, refl, sym, ap, ◌∙◌, ◌≢◌, ◌⊎◌, inl, inr, false, none, some, List, [],
  ◌∷◌, ◌++◌, arith, ◌==◌, ==_iff, Bool-cases, length-append, take-append_le, get_elem?,
  get_elem?-append_lt, get_elem?-append_self,
}
use linux_tcp_lib.SrtQueue.{msg_page, page_of, with_page}
use linux_tcp_lib.SrtQueue.Slots.{slot, div-lt-add}
use linux_tcp_lib.SrtQueue.Fifo.{room_after}
use linux_tcp_lib.SharedQueue.{
  Shared, Pc, idle, passed, claimed, holding, Reader, full, claim, update, ensure,
}
use linux_tcp_lib.SharedQueue.Slots.{ensure-slot, ensure-Held, ensure-Held_self}
use linux_tcp_lib.SharedQueue.Invariant.{
  index, waiting, count, done, base, count-le, count-update, update_self, update_other, IsClaim,
  Active, IsShared, Active-transfer, Active-IsClaim,
}
use linux_tcp_lib.SharedQueue.Sharing.{
  le-base, done-le-ahead, le-done, Active-update, unique-update, Settled-update, ensure-IsClaim,
}

module _ {T : Type 0} (zero_msg : T) (n : ℕ) (s : Shared T) (pc : ℕ → Pc T) (r : Reader)
    (l : List T) (v : IsShared zero_msg n s pc r l) where
  -- A push that is refused.
  pub refuses-IsShared :
      (i : ℕ) → i < n → pc i ≡ idle → IsShared zero_msg n s (update pc i idle) r l
  refuses-IsShared i lt at =
      let same : index {T = T} idle ≡ index (pc i) = ap index (sym at) in
      record {
        page_size = v.page_size;
        table_size = v.table_size;
        ordered = v.ordered;
        in_order = v.in_order;
        room = omega (arith, v.room, count-update n pc i idle lt, ap waiting at);
        history = v.history;
        active =
            Active-update zero_msg n s pc r l v s (done r s.queue.get_index) i idle tt
              (λ k ne. v.active k);
        unique = unique-update zero_msg n s pc r l v i idle same;
        settled = λ j low high.
            Settled-update zero_msg n s pc r l v s i j idle same refl (λ f. refl)
              (v.settled j low high);
        blank = v.blank;
      }

  -- Passing the guard.
  pub passes-IsShared :
      (i : ℕ) (msg : T)
      → n ≤ 2
      → i < n
      → pc i ≡ idle
      → full s.queue ≡ false
      → IsShared zero_msg n s (update pc i (passed msg)) r l
  unfolding full
  passes-IsShared i msg few lt at e =
      let q = s.queue in
      let get_le : q.get_index ≤ q.post_index =
        omega (arith, v.ordered, done-le-ahead r q.get_index, le-done r q.get_index) in
      let free =
        room_after zero_msg q.page_msg_count q.page_index_count q.get_index q.post_index v.page_size
          v.table_size get_le e in
      let same : index (passed msg) ≡ index (pc i) = ap index (sym at) in
      record {
        page_size = v.page_size;
        table_size = v.table_size;
        ordered = v.ordered;
        in_order = v.in_order;
        room = omega (arith, free, count-le n (update pc i (passed msg)));
        history = v.history;
        active =
            Active-update zero_msg n s pc r l v s (done r q.get_index) i (passed msg) tt
              (λ k ne. v.active k);
        unique = unique-update zero_msg n s pc r l v i (passed msg) same;
        settled = λ j low high.
            Settled-update zero_msg n s pc r l v s i j (passed msg) same refl (λ f. refl)
              (v.settled j low high);
        blank = v.blank;
      }

  index-high : (i j : ℕ) → index (pc i) ≡ some j → j < s.queue.post_index
  index-high i j e = (Active-IsClaim zero_msg s _ (pc i) j (v.active i) e).1.high

  index-elsewhere :
      (i k j : ℕ) (p : Pc T)
      → index (pc i) ≡ none
      → index (pc k) ≡ some j
      → index (update pc i p k) ≡ some j
  index-elsewhere i k j p no_index e =
      let ne : i ≢ k = λ q. some-ne-none j (sym e ∙ ap (λ x. index (pc x)) (sym q) ∙ no_index) in
      ap index (update_other pc i k p ne) ∙ e

  new_index :
      (i k j : ℕ) (msg : T)
      → index (update pc i (claimed msg s.queue.post_index) k) ≡ some j
      → ((i ≡ k) × (j ≡ s.queue.post_index)) ⊎ ((i ≢ k) × (index (pc k) ≡ some j))
  new_index i k j msg e = elim (Bool-cases (i == k)) [
    | inl q ↦
        let at = (==_iff i k).0 q in
        let p = claimed msg s.queue.post_index in
        let own = ap (λ x. index (update pc i p x)) at in
        inl (
          at,
          some-injective j s.queue.post_index (sym e ∙ sym own ∙ ap index (update_self pc i p)),
        )
    | inr q ↦
        let ne : i ≢ k = ground arith in
        let p = claimed msg s.queue.post_index in
        inr (ne, sym (ap index (update_other pc i k p ne)) ∙ e)
  ]

  unique-new :
      (i k m j : ℕ) (msg : T)
      → index (update pc i (claimed msg s.queue.post_index) k) ≡ some j
      → index (update pc i (claimed msg s.queue.post_index) m) ≡ some j
      → k ≡ m
  unique-new i k m j msg a b = elim (new_index i k j msg a) [
    | inl (ik, new) ↦ elim (new_index i m j msg b) [
      | inl (im, new') ↦ sym ik ∙ im
      | inr (ne, old) ↦ absurd (omega (arith, index-high m j old, new))
    ]
    | inr (ne, old) ↦ elim (new_index i m j msg b) [
      | inl (im, new) ↦ absurd (omega (arith, index-high k j old, new))
      | inr (ne', old') ↦ v.unique k m j old old'
    ]
  ]

  -- Fetching an index: it is free, since at most one other thread can have passed the guard since.
  pub fetches-IsShared :
      (i : ℕ) (msg : T)
      → i < n
      → pc i ≡ passed msg
      → IsShared zero_msg n (claim s msg) (update pc i (claimed msg s.queue.post_index)) r l
  unfolding claim slot msg_page page_of
  fetches-IsShared i msg lt at =
      let q = s.queue in
      let g = q.get_index in
      let w = q.post_index in
      let p = claimed msg w in
      let d = done r g in
      let s' = claim s msg in
      let one : waiting (pc i) ≡ 1 = ap waiting at in
      let counted = count-update n pc i p lt in
      let some_waits : 0 < count n pc = omega (arith, one, counted) in
      let near =
        div-lt-add q.page_msg_count q.page_index_count g w v.page_size
          (omega (arith, v.room, some_waits)) in
      let near' : w / q.page_msg_count < base r g q.page_msg_count + q.page_index_count =
        omega (arith, near, le-base r g q.page_msg_count) in
      let before : d ≤ w = omega (arith, v.ordered, done-le-ahead r g) in
      let kept = λ (j : ℕ) (h : j < w).
        get_elem?-append_lt s.claims (msg ∷ []) j (omega (arith, v.in_order)) in
      let own : IsClaim zero_msg s' d msg w = record {
        low = before;
        high = omega arith;
        in_claims =
            ap (get_elem? (s.claims ++ msg ∷ [])) (sym v.in_order)
            ∙ get_elem?-append_self s.claims msg;
        no_flag = v.blank w (omega arith) near';
      } in
      record {
        page_size = v.page_size;
        table_size = v.table_size;
        ordered = omega (arith, v.ordered);
        in_order = omega (arith, length-append s.claims (msg ∷ []), v.in_order);
        room = omega (arith, v.room, counted, one);
        history =
            v.history ∙ sym (take-append_le d s.claims (msg ∷ []) (omega (arith, v.in_order)));
        active = Active-update zero_msg n s pc r l v s' d i p own (λ k ne.
            Active-transfer zero_msg s s' d d (pc k)
              (λ m j e c. (
                record {
                  low = c.low;
                  high = omega (arith, c.high);
                  in_claims = kept j c.high ∙ c.in_claims;
                  no_flag = c.no_flag;
                },
                refl,
                λ x h. h,
              ))
              (v.active k));
        unique = λ k m j a b. unique-new i k m j msg a b;
        settled = λ j low high. elim (Bool-cases (j == w)) [
          | inl e ↦ inl (i, ap index (update_self pc i p) ∙ ap some (sym ((==_iff j w).0 e)))
          | inr e ↦ elim (v.settled j low (ground arith)) [
            | inl (k, here) ↦ inl (k, index-elsewhere i k j p (ap index at) here)
            | inr (flag, here) ↦ inr (flag, kept j (ground arith) ∙ here)
          ]
        ];
        blank = λ j ge near. v.blank j (omega arith) near;
      }

  -- Getting the page.
  pub gets_page-IsShared :
      (i j : ℕ) (msg : T)
      → i < n
      → pc i ≡ claimed msg j
      → let e = page_of zero_msg s.queue j in
        IsShared zero_msg n
          (ensure zero_msg s e)
          (update pc i (holding msg j ((ensure zero_msg s e).made e)))
          r
          l
  unfolding ensure with_page
  gets_page-IsShared i j msg lt at =
      let q = s.queue in
      let b = page_of zero_msg q j in
      let s' = ensure zero_msg s b in
      let d = done r q.get_index in
      let p = holding msg j (s'.made b) in
      let same : index p ≡ index (pc i) = ap index (sym at) in
      let counted = count-update n pc i p lt in
      let zero_waits : waiting (pc i) ≡ 0 = ap waiting at in
      let mine : IsClaim zero_msg s d msg j = subst (Active zero_msg s d) at (v.active i) in
      let kept = λ (m : T) (k : ℕ) (c : IsClaim zero_msg s d m k).
        ensure-IsClaim zero_msg n s pc r l v b m k c in
      record {
        page_size = v.page_size;
        table_size = v.table_size;
        ordered = v.ordered;
        in_order = v.in_order;
        room = omega (arith, v.room, counted, zero_waits);
        history = v.history;
        active =
            Active-update zero_msg n s pc r l v s' d i p
              (kept msg j mine, (_, ensure-Held_self zero_msg s j))
              (λ k ne.
                Active-transfer zero_msg s s' d d (pc k)
                  (λ m x e c. (
                    kept m x c,
                    ensure-slot zero_msg s b x,
                    λ g h. (h.0, ensure-Held zero_msg s b x g h.0 h.1),
                  ))
                  (v.active k));
        unique = unique-update zero_msg n s pc r l v i p same;
        settled = λ x low high.
            Settled-update zero_msg n s pc r l v s' i x p same refl
              (λ f. ensure-slot zero_msg s b x) (v.settled x low high);
        blank = λ x ge near. ap (λ y. y.flag) (ensure-slot zero_msg s b x) ∙ v.blank x ge near;
      }
