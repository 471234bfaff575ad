-- ===== src/SharedQueue/Sharing.antt =====
-- What stays when one thread moves: the messages keep apart, and what the others rely on.
use mathlib.Core.Path.{subst}
use linux_tcp_lib.Prelude.{
  ℕ, suc, ◌+◌, ◌/◌, ◌%◌, ◌≤◌, ◌<◌, ◌≡◌, sym, ap, ◌∙◌, ◌≢◌, inl, inr, some, List, arith, ltb, ◌==◌,
  ltb→lt, ==_iff, Bool-cases, get_elem?,
}
use linux_tcp_lib.SrtQueue.{page_of, with_page}
use linux_tcp_lib.SrtQueue.Slots.{slot, slots_apart, div-le-div}
use linux_tcp_lib.SharedQueue.{Shared, Pc, Reader, away, looking, took, dropped, update, ensure}
use linux_tcp_lib.SharedQueue.Slots.{window_apart, ensure-slot}
use linux_tcp_lib.SharedQueue.Invariant.{
  index, done, ahead, base, update_self, update_other, index-update, IsClaim, Active, Settled,
  IsShared,
}

base-le : (r : Reader) (g p j : ℕ) → done r g ≤ j → base r g p ≤ j / p
base-le away g p j h = div-le-div p g j h
base-le looking g p j h = div-le-div p g j h
base-le took g p j h = div-le-div p g j (omega arith)
base-le dropped g p j h = div-le-div p (suc g) j h

pub le-base : (r : Reader) (g p : ℕ) → g / p ≤ base r g p
le-base away g p = omega arith
le-base looking g p = omega arith
le-base took g p = omega arith
le-base dropped g p = div-le-div p g (suc g) (omega arith)

pub le-done : (r : Reader) (g : ℕ) → g ≤ done r g
le-done away g = omega arith
le-done looking g = omega arith
le-done took g = omega arith
le-done dropped g = omega arith

pub done-le-ahead : (r : Reader) (g : ℕ) → done r g ≤ ahead r g
done-le-ahead away g = omega arith
done-le-ahead looking g = omega arith
done-le-ahead took g = omega arith
done-le-ahead dropped g = omega arith

module _ {T : Type 0} (zero_msg : T) (n : ℕ) (s : Shared T) (pc : ℕ → Pc T) (r : Reader)
    (l : List T) (v : IsShared zero_msg n s pc r l) where
  -- Two messages that are in the queue do not share a slot, ...
  pub apart_live :
      (j k : ℕ)
      → s.queue.get_index ≤ j
      → s.queue.get_index ≤ k
      → j < s.queue.post_index
      → k < s.queue.post_index
      → j ≢ k
      → page_of zero_msg s.queue j ≡ page_of zero_msg s.queue k
      → j % s.queue.page_msg_count ≢ k % s.queue.page_msg_count
  unfolding page_of
  apart_live j k gj gk lj lk ne same place =
      let p = s.queue.page_msg_count in
      let c = s.queue.page_index_count in
      elim (Bool-cases (ltb j k)) [
        | inl lt ↦
            slots_apart p c j k v.page_size (ltb→lt j k lt) (omega (arith, v.room)) same place
        | inr ge ↦
            let lt : k < j = ground arith in
            slots_apart p c k j v.page_size lt (omega (arith, v.room)) (sym same) (sym place)
      ]

  -- ... nor one of them with an index that may be fetched before its page is deleted.
  pub apart_blank :
      (j k : ℕ)
      → done r s.queue.get_index ≤ j
      → j < s.queue.post_index
      → s.queue.post_index ≤ k
      → k / s.queue.page_msg_count
        < base r s.queue.get_index s.queue.page_msg_count + s.queue.page_index_count
      → page_of zero_msg s.queue j ≡ page_of zero_msg s.queue k
      → j % s.queue.page_msg_count ≢ k % s.queue.page_msg_count
  unfolding page_of
  apart_blank j k low high behind near =
      let below = base-le r s.queue.get_index s.queue.page_msg_count j low in
      window_apart s.queue.page_msg_count s.queue.page_index_count j k (omega arith) (omega arith)

  pub Active-update :
      (s' : Shared T) (d : ℕ) (i : ℕ) (p : Pc T)
      → Active zero_msg s' d p
      → ((k : ℕ) → i ≢ k → Active zero_msg s' d (pc k))
      → (k : ℕ) → Active zero_msg s' d (update pc i p k)
  Active-update s' d i p own others k = elim (Bool-cases (i == k)) [
    | inl e ↦
        let at = (==_iff i k).0 e in
        subst (Active zero_msg s' d) (sym (update_self pc i p) ∙ ap (update pc i p) at) own
    | inr e ↦
        let ne : i ≢ k = ground arith in
        subst (Active zero_msg s' d) (sym (update_other pc i k p ne)) (others k ne)
  ]

  pub unique-update :
      (i : ℕ) (p : Pc T)
      → index p ≡ index (pc i)
      → (k m j : ℕ) → index (update pc i p k) ≡ some j
      → index (update pc i p m) ≡ some j
      → k ≡ m
  unique-update i p e k m j a b =
      v.unique k m j (sym (index-update pc i k p e) ∙ a) (sym (index-update pc i m p e) ∙ b)

  pub Settled-update :
      (s' : Shared T) (i j : ℕ) (p : Pc T)
      → index p ≡ index (pc i)
      → s'.claims ≡ s.claims
      → ((slot zero_msg s.queue j).flag ≡ 1 → slot zero_msg s'.queue j ≡ slot zero_msg s.queue j)
      → Settled zero_msg s pc j
      → Settled zero_msg s' (update pc i p) j
  Settled-update s' i j p e claims same (inl (k, at)) = inl (k, index-update pc i k p e ∙ at)
  Settled-update s' i j p e claims same (inr (flag, here)) =
      let x = same flag in
      inr (
        ap (λ y. y.flag) x ∙ flag,
        ap (λ c. get_elem? c j) claims ∙ here ∙ ap (λ y. some y.msg) (sym x),
      )

  pub ensure-IsClaim :
      (b : ℕ) (m : T) (k : ℕ)
      → IsClaim zero_msg s (done r s.queue.get_index) m k
      → IsClaim zero_msg (ensure zero_msg s b) (done r s.queue.get_index) m k
  unfolding ensure with_page
  ensure-IsClaim b m k c = record {
    low = c.low;
    high = c.high;
    in_claims = c.in_claims;
    no_flag = ap (λ y. y.flag) (ensure-slot zero_msg s b k) ∙ c.no_flag;
  }
