-- ===== src/SharedQueue/Invariant.antt =====
-- What holds in every state of the queue and of the threads that use it.
use mathlib.Core.Path.{subst}
use mathlib.Core.Option.{some-injective, some-ne-none}
use linux_tcp_lib.Prelude.{
  ℕ, zero, suc, ◌+◌, ◌*◌, ◌/◌, ◌≤◌, ◌<◌, ◌≡◌, refl, sym, ap, ap₂, ◌∙◌, ◌≢◌, ◌⊎◌, inl, inr, Option,
  none, some, List, arith, ◌==◌, ==_iff, Bool-cases, length, take, get_elem?,
}
use linux_tcp_lib.SrtQueue.{Page}
use linux_tcp_lib.SrtQueue.Slots.{slot}
use linux_tcp_lib.SharedQueue.{
  Shared, Pc, idle, passed, claimed, holding, written, Reader, away, looking, took, dropped, update,
  Held,
}

-- The index that a thread has fetched and not flagged.
abbrev pub index : {T : Type 0} → Pc T → Option ℕ
index idle = none
index (passed msg) = none
index (claimed msg j) = some j
index (holding msg j g) = some j
index (written msg j g) = some j

-- The threads behind the guard that have no index yet.
abbrev pub waiting : {T : Type 0} → Pc T → ℕ
waiting idle = 0
waiting (passed msg) = 1
waiting (claimed msg j) = 0
waiting (holding msg j g) = 0
waiting (written msg j g) = 0

abbrev pub count : {T : Type 0} → ℕ → (ℕ → Pc T) → ℕ
count zero f = 0
count (suc n) f = waiting (f n) + count n f

-- How many messages the reader has taken when its index is `g`.
abbrev pub done : Reader → ℕ → ℕ
done away g = g
done looking g = g
done took g = suc g
done dropped g = suc g

-- How many there are at least.
abbrev pub ahead : Reader → ℕ → ℕ
ahead away g = g
ahead looking g = suc g
ahead took g = suc g
ahead dropped g = suc g

-- The first page that has not been deleted.
abbrev pub base : Reader → ℕ → ℕ → ℕ
base away g p = g / p
base looking g p = g / p
base took g p = g / p
base dropped g p = suc g / p

pub count-le : {T : Type 0} (n : ℕ) (f : ℕ → Pc T) → count n f ≤ n
count-le zero f = omega arith
count-le (suc n) f = omega (arith, count-le n f, waiting-le (f n))
  where
    waiting-le : {T : Type 0} (p : Pc T) → waiting p ≤ 1
    waiting-le idle = omega arith
    waiting-le (passed msg) = omega arith
    waiting-le (claimed msg j) = omega arith
    waiting-le (holding msg j g) = omega arith
    waiting-le (written msg j g) = omega arith

pub update_self : {A : Type 0} (f : ℕ → A) (i : ℕ) (a : A) → update f i a i ≡ a
unfolding update
update_self f i a = ground arith

pub update_other : {A : Type 0} (f : ℕ → A) (i k : ℕ) (a : A) → i ≢ k → update f i a k ≡ f k
unfolding update
update_other f i k a ne = ground (arith, ne)

count-update_ge :
    {T : Type 0} (n : ℕ) (f : ℕ → Pc T) (i : ℕ) (p : Pc T)
    → n ≤ i
    → count n (update f i p) ≡ count n f
count-update_ge zero f i p h = refl
count-update_ge (suc n) f i p h =
    ap₂ (λ x y. waiting x + y) (update_other f i n p (λ e. omega arith))
      (count-update_ge n f i p (omega arith))

pub count-update :
    {T : Type 0} (n : ℕ) (f : ℕ → Pc T) (i : ℕ) (p : Pc T)
    → i < n
    → count n (update f i p) + waiting (f i) ≡ count n f + waiting p
count-update zero f i p h = absurd (omega arith)
count-update (suc n) f i p h = elim (Bool-cases (i == n)) [
  | inl e ↦
      let at = (==_iff i n).0 e in
      let new : waiting (update f i p n) ≡ waiting p =
        ap (λ k. waiting (update f i p k)) (sym at) ∙ ap waiting (update_self f i p) in
      let old : waiting (f n) ≡ waiting (f i) = ap (λ k. waiting (f k)) (sym at) in
      omega (arith, count-update_ge n f i p (omega arith), new, old)
  | inr e ↦
      let ne : i ≢ n = ground arith in
      let same = ap waiting (update_other f i n p ne) in
      omega (arith, count-update n f i p (omega arith), same)
]

module _ {T : Type 0} (zero_msg : T) where
  -- `msg` has index `j`, which the reader has not come to, and its slot is not flagged.
  pub record IsClaim (s : Shared T) (d : ℕ) (msg : T) (j : ℕ) : Type 0 where
    pub low : d ≤ j
    pub high : j < s.queue.post_index
    pub in_claims : get_elem? s.claims j ≡ some msg
    pub no_flag : (slot zero_msg s.queue j).flag ≡ 0

  abbrev pub HeldBy : Shared T → ℕ → ℕ → Type 0
  HeldBy s j g = (page : Page T) × Held zero_msg s j g page

  abbrev pub Active : Shared T → ℕ → Pc T → Type 0
  Active s d idle = Unit {0}
  Active s d (passed msg) = Unit {0}
  Active s d (claimed msg j) = IsClaim s d msg j
  Active s d (holding msg j g) = IsClaim s d msg j × (HeldBy s j g)
  Active s d (written msg j g) =
      IsClaim s d msg j × (HeldBy s j g) × ((slot zero_msg s.queue j).msg ≡ msg)

  -- An index is a thread's that is still writing, or its message stands in its slot, flagged.
  abbrev pub Settled : Shared T → (ℕ → Pc T) → ℕ → Type 0
  Settled s pc j =
      ((i : ℕ) × (index (pc i) ≡ some j))
      ⊎ (((slot zero_msg s.queue j).flag ≡ 1)
          × (get_elem? s.claims j ≡ some (slot zero_msg s.queue j).msg))

  pub record IsShared (n : ℕ) (s : Shared T) (pc : ℕ → Pc T) (r : Reader) (taken : List T)
      : Type 0 where
    pub page_size : 0 < s.queue.page_msg_count
    pub table_size : 0 < s.queue.page_index_count
    pub ordered : ahead r s.queue.get_index ≤ s.queue.post_index
    pub in_order : length s.claims ≡ s.queue.post_index
    pub room :
        s.queue.post_index + count n pc + s.queue.page_msg_count
        ≤ s.queue.get_index + s.queue.page_index_count * s.queue.page_msg_count + 1
    pub history : taken ≡ take (done r s.queue.get_index) s.claims
    pub active : (i : ℕ) → Active s (done r s.queue.get_index) (pc i)
    pub unique : (i k j : ℕ) → index (pc i) ≡ some j → index (pc k) ≡ some j → i ≡ k
    pub settled : (j : ℕ) → done r s.queue.get_index ≤ j → j < s.queue.post_index → Settled s pc j
    pub blank :
        (j : ℕ)
        → s.queue.post_index ≤ j
        → j / s.queue.page_msg_count
          < base r s.queue.get_index s.queue.page_msg_count + s.queue.page_index_count
        → (slot zero_msg s.queue j).flag ≡ 0

  -- What a thread relies on carries over to a state that leaves its index, its slot and its page.
  pub Active-transfer :
      (s s' : Shared T) (d d' : ℕ) (p : Pc T)
      → ((msg : T) (j : ℕ)
          → index p ≡ some j
          → IsClaim s d msg j
          → IsClaim s' d' msg j
            × (slot zero_msg s'.queue j ≡ slot zero_msg s.queue j)
            × ((g : ℕ) → HeldBy s j g → HeldBy s' j g))
      → Active s d p
      → Active s' d' p
  Active-transfer s s' d d' idle f v = tt
  Active-transfer s s' d d' (passed msg) f v = tt
  Active-transfer s s' d d' (claimed msg j) f v = (f msg j refl v).0
  Active-transfer s s' d d' (holding msg j g) f (c, h) =
      let (c', same, held) = f msg j refl c in (c', held g h)
  Active-transfer s s' d d' (written msg j g) f (c, h, e) =
      let (c', same, held) = f msg j refl c in (c', held g h, ap (λ x. x.msg) same ∙ e)

  -- The claim behind an index.
  pub Active-IsClaim :
      (s : Shared T) (d : ℕ) (p : Pc T) (j : ℕ)
      → Active s d p
      → index p ≡ some j
      → (msg : T) × IsClaim s d msg j
  Active-IsClaim s d idle j v e = absurd (some-ne-none j (sym e))
  Active-IsClaim s d (passed msg) j v e = absurd (some-ne-none j (sym e))
  Active-IsClaim s d (claimed msg k) j v e = (msg, subst (IsClaim s d msg) (some-injective k j e) v)
  Active-IsClaim s d (holding msg k g) j (c, h) e =
      (msg, subst (IsClaim s d msg) (some-injective k j e) c)
  Active-IsClaim s d (written msg k g) j (c, h, e') e =
      (msg, subst (IsClaim s d msg) (some-injective k j e) c)

-- A thread's place changes without its index.
pub index-update :
    {T : Type 0} (pc : ℕ → Pc T) (i k : ℕ) (p : Pc T)
    → index p ≡ index (pc i)
    → index (update pc i p k) ≡ index (pc k)
index-update pc i k p e = elim (Bool-cases (i == k)) [
  | inl q ↦
      let at = (==_iff i k).0 q in
      ap (λ x. index (update pc i p x)) (sym at)
      ∙ ap index (update_self pc i p)
      ∙ e
      ∙ ap (λ x. index (pc x)) at
  | inr q ↦ let ne : i ≢ k = ground arith in ap index (update_other pc i k p ne)
]
