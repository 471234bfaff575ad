-- ===== src/SharedQueue/Writing.antt =====
-- A thread that writes its message, and its flag, keeps the invariant.
use mathlib.Core.Path.{subst}
use mathlib.Core.Option.{some-injective, some-ne-none}
use linux_tcp_lib.Prelude.{
  ℕ, ◌+◌, ◌/◌, ◌%◌, ◌≤◌, ◌<◌, ◌≡◌, refl, sym, ap, ◌∙◌, ◌≢◌, inl, inr, some, List, arith, ◌==◌,
  ==_iff, Bool-cases,
}
use linux_tcp_lib.SrtQueue.{SrtMessage, Page, with_page}
use linux_tcp_lib.SrtQueue.Slots.{slot}
use linux_tcp_lib.SharedQueue.{
  Shared, Pc, idle, holding, written, Reader, update, put_slot, Held, Move, refuses, passes,
  fetches, gets_page, writes, flags,
}
use linux_tcp_lib.SharedQueue.Slots.{
  put_slot-slot_self, put_slot-slot_other, put_slot-Held, Held-slot,
}
use linux_tcp_lib.SharedQueue.Invariant.{
  index, waiting, done, base, count-update, update_self, update_other, IsClaim, Active, Settled,
  IsShared, Active-transfer,
}
use linux_tcp_lib.SharedQueue.Pushing.{
  refuses-IsShared, passes-IsShared, fetches-IsShared, gets_page-IsShared,
}
use linux_tcp_lib.SharedQueue.Sharing.{
  le-done, apart_live, apart_blank, Active-update, unique-update, Settled-update,
}

module _ {T : Type 0} (zero_msg : T) (n : ℕ) (s : Shared T) (pc : ℕ → Pc T) (r : Reader)
    (l : List T) (v : IsShared zero_msg n s pc r l) (i j g : ℕ) (page : Page T)
    (held : Held zero_msg s j g page) (msg : T)
    (mine : IsClaim zero_msg s (done r s.queue.get_index) msg j) (at_j : index (pc i) ≡ some j)
    (x : SrtMessage T) where
  -- The other slots are as they were, those of the messages in the queue ...
  put_slot-live :
      (k : ℕ)
      → done r s.queue.get_index ≤ k
      → k < s.queue.post_index
      → j ≢ k
      → slot zero_msg (put_slot zero_msg s j page x).queue k ≡ slot zero_msg s.queue k
  put_slot-live k low high ne =
      let g_le = le-done r s.queue.get_index in
      put_slot-slot_other zero_msg s j k g page x held (λ same.
        apart_live zero_msg n s pc r l v j k (omega (arith, mine.low, g_le)) (omega arith) mine.high
          high ne same)

  -- ... and those that are to come.
  put_slot-blank :
      (k : ℕ)
      → s.queue.post_index ≤ k
      → k / s.queue.page_msg_count
        < base r s.queue.get_index s.queue.page_msg_count + s.queue.page_index_count
      → slot zero_msg (put_slot zero_msg s j page x).queue k ≡ slot zero_msg s.queue k
  put_slot-blank k behind near =
      put_slot-slot_other zero_msg s j k g page x held
        (λ same. apart_blank zero_msg n s pc r l v j k mine.low mine.high behind near same)

  others-Active :
      (k : ℕ)
      → i ≢ k
      → Active zero_msg (put_slot zero_msg s j page x) (done r s.queue.get_index) (pc k)
  unfolding put_slot with_page
  others-Active k ne =
      let d = done r s.queue.get_index in
      Active-transfer zero_msg s (put_slot zero_msg s j page x) d d (pc k)
        (λ m y e c.
          let apart : j ≢ y = λ q. ne (v.unique i k y (at_j ∙ ap some q) e) in
          let same = put_slot-live y c.low c.high apart in
          (
            record {
              low = c.low;
              high = c.high;
              in_claims = c.in_claims;
              no_flag = ap (λ z. z.flag) same ∙ c.no_flag;
            },
            same,
            λ g' h. put_slot-Held zero_msg s j y g' page h.0 x h.1,
          ))
        (v.active k)

  -- Writing the message.
  pub writes-IsShared :
      i < n
      → pc i ≡ holding msg j g
      → x ≡ record { msg = msg; flag = (page (j % s.queue.page_msg_count)).flag }
      → IsShared zero_msg n (put_slot zero_msg s j page x) (update pc i (written msg j g)) r l
  unfolding put_slot with_page
  writes-IsShared lt at new =
      let q = s.queue in
      let s' = put_slot zero_msg s j page x in
      let d = done r q.get_index in
      let p = written msg j g in
      let same : index p ≡ index (pc i) = sym at_j in
      let self = put_slot-slot_self zero_msg s j page x in
      let no_flag : (slot zero_msg s'.queue j).flag ≡ 0 =
        ap (λ y. y.flag) (self ∙ new)
        ∙ ap (λ y. y.flag) (sym (Held-slot zero_msg s j g page held))
        ∙ mine.no_flag in
      let own : IsClaim zero_msg s' d msg j = record {
        low = mine.low;
        high = mine.high;
        in_claims = mine.in_claims;
        no_flag = no_flag;
      } in
      let flagged_apart = λ (k : ℕ) (f : (slot zero_msg q k).flag ≡ 1) (e : j ≡ k).
        let z = sym f ∙ ap (λ a. (slot zero_msg q a).flag) (sym e) ∙ mine.no_flag in
        absurd (omega (arith, z)) in
      record {
        page_size = v.page_size;
        table_size = v.table_size;
        ordered = v.ordered;
        in_order = v.in_order;
        room = omega (arith, v.room, count-update n pc i p lt, ap waiting at);
        history = v.history;
        active =
            Active-update zero_msg n s pc r l v s' d i p
              (own, put_slot-Held zero_msg s j j g page page x held, ap (λ y. y.msg) (self ∙ new))
              others-Active;
        unique = unique-update zero_msg n s pc r l v i p same;
        settled = λ k low high.
            Settled-update zero_msg n s pc r l v s' i k p same refl
              (λ f. put_slot-live k low high (flagged_apart k f)) (v.settled k low high);
        blank = λ k ge near. ap (λ y. y.flag) (put_slot-blank k ge near) ∙ v.blank k ge near;
      }

  index-idle : (k y : ℕ) → index (update pc i idle k) ≡ some y → (i ≢ k) × (index (pc k) ≡ some y)
  index-idle k y e =
      let ne : i ≢ k = λ q.
        some-ne-none y (
          sym e
          ∙ ap (λ a. index (update pc i idle a)) (sym q)
          ∙ ap index (update_self pc i idle)) in
      (ne, sym (ap index (update_other pc i k idle ne)) ∙ e)

  -- Writing the flag.
  pub flags-IsShared :
      i < n
      → pc i ≡ written msg j g
      → (slot zero_msg s.queue j).msg ≡ msg
      → x ≡ record { msg = (page (j % s.queue.page_msg_count)).msg; flag = 1 }
      → IsShared zero_msg n (put_slot zero_msg s j page x) (update pc i idle) r l
  unfolding put_slot with_page
  flags-IsShared lt at has new =
      let q = s.queue in
      let s' = put_slot zero_msg s j page x in
      let d = done r q.get_index in
      let self = put_slot-slot_self zero_msg s j page x in
      let message : (slot zero_msg s'.queue j).msg ≡ msg =
        ap (λ y. y.msg) (self ∙ new)
        ∙ ap (λ y. y.msg) (sym (Held-slot zero_msg s j g page held))
        ∙ has in
      record {
        page_size = v.page_size;
        table_size = v.table_size;
        ordered = v.ordered;
        in_order = v.in_order;
        room = omega (arith, v.room, count-update n pc i idle lt, ap waiting at);
        history = v.history;
        active = Active-update zero_msg n s pc r l v s' d i idle tt others-Active;
        unique = λ a b y e f. v.unique a b y (index-idle a y e).1 (index-idle b y f).1;
        settled = λ k low high. elim (Bool-cases (j == k)) [
          | inl e ↦
              let here = (==_iff j k).0 e in
              subst (Settled zero_msg s' (update pc i idle)) here
                (inr (ap (λ y. y.flag) (self ∙ new), mine.in_claims ∙ ap some (sym message)))
          | inr e ↦
              let ne : j ≢ k = ground arith in
              let same = put_slot-live k low high ne in
              elim (v.settled k low high) [
                | inl (a, f) ↦
                    let ne' : i ≢ a =
                      λ q'. ne (some-injective j k (sym at_j ∙ ap (λ b. index (pc b)) q' ∙ f)) in
                    inl (a, ap index (update_other pc i a idle ne') ∙ f)
                | inr (f, c) ↦ inr (ap (λ y. y.flag) same ∙ f, c ∙ ap (λ y. some y.msg) (sym same))
              ]
        ];
        blank = λ k ge near. ap (λ y. y.flag) (put_slot-blank k ge near) ∙ v.blank k ge near;
      }

-- Every access of a thread that pushes.
pub Move-IsShared :
    {T : Type 0} (zero_msg : T) (n : ℕ) {s t : Shared T} (pc : ℕ → Pc T) (r : Reader) (l : List T)
    (i : ℕ) {p p' : Pc T}
    → n ≤ 2
    → i < n
    → Move zero_msg s p t p'
    → pc i ≡ p
    → IsShared zero_msg n s pc r l
    → IsShared zero_msg n t (update pc i p') r l
Move-IsShared zero_msg n {s} pc r l i few lt (refuses full_up) at v =
    refuses-IsShared zero_msg n s pc r l v i lt at
Move-IsShared zero_msg n {s} pc r l i few lt (passes msg room_left) at v =
    passes-IsShared zero_msg n s pc r l v i msg few lt at room_left
Move-IsShared zero_msg n {s} pc r l i few lt (fetches {msg}) at v =
    fetches-IsShared zero_msg n s pc r l v i msg lt at
Move-IsShared zero_msg n {s} pc r l i few lt (gets_page {msg} {j}) at v =
    gets_page-IsShared zero_msg n s pc r l v i j msg lt at
Move-IsShared zero_msg n {s} pc r l i few lt (writes {msg} {j} {g} page held) at v =
    let (mine, h) = subst (Active zero_msg s _) at (v.active i) in
    writes-IsShared zero_msg n s pc r l v i j g page held msg mine (ap index at) _ lt at refl
Move-IsShared zero_msg n {s} pc r l i few lt (flags {msg} {j} {g} page held) at v =
    let (mine, h, has) = subst (Active zero_msg s _) at (v.active i) in
    flags-IsShared zero_msg n s pc r l v i j g page held msg mine (ap index at) _ lt at has refl
