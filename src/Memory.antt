-- ===== src/Memory.antt =====
-- A C array of `char` as a function from its indices, with the block operations that the receive
-- buffers use: `read`/`recv` into it, `memcpy` inside it, and the bytes between two positions.
use native.Mathlib.Nat.{add-zero}
use linux_tcp_lib.Prelude.{
  ℕ, zero, suc, ◌+◌, ◌-◌, ◌≤◌, ◌<◌, ◌≡◌, refl, sym, ap, ap₂, ◌∙◌, ◌&&◌, List, [], ◌∷◌, ◌++◌, arith,
  ltb, leb, if◌then◌else◌, length, get_or, drop, drop-length-append,
}

abbrev pub Memory : Type 0
Memory = ℕ → ℕ

-- The `n` bytes from index `a` on.
unfoldable pub slice : Memory → ℕ → ℕ → List ℕ
slice m a zero = []
slice m a (suc n) = m a ∷ slice m (suc a) n

-- The bytes `xs` stored from index `a` on.
unfoldable pub store : Memory → ℕ → List ℕ → Memory
store m a xs i = if leb a i && ltb i (a + length xs) then get_or xs (i - a) 0 else m i

-- `memcpy(buf + dst, buf + src, n)`.
unfoldable pub copy : Memory → ℕ → ℕ → ℕ → Memory
copy m dst src n i = if leb dst i && ltb i (dst + n) then m (src + (i - dst)) else m i

pub length-slice : (m : Memory) (a n : ℕ) → length (slice m a n) ≡ n
unfolding slice
length-slice m a zero = refl
length-slice m a (suc n) = ap suc (length-slice m (suc a) n)

-- Two stretches that agree byte by byte.
pub slice_ext :
    (m m' : Memory) (a b n : ℕ)
    → ((i : ℕ) → i < n → m (a + i) ≡ m' (b + i))
    → slice m a n ≡ slice m' b n
unfolding slice
slice_ext m m' a b zero h = refl
slice_ext m m' a b (suc n) h =
    let first : m a ≡ m' b = ap m (sym (add-zero a)) ∙ h 0 (omega arith) ∙ ap m' (add-zero b) in
    let later : (i : ℕ) → i < n → m (suc a + i) ≡ m' (suc b + i) = λ i lt.
      let ea : suc a + i ≡ a + suc i = omega arith in
      let eb : b + suc i ≡ suc b + i = omega arith in
      ap m ea ∙ h (suc i) (omega arith) ∙ ap m' eb in
    ap₂ ◌∷◌ first (slice_ext m m' (suc a) (suc b) n later)

pub slice-append : (m : Memory) (a n k : ℕ) → slice m a (n + k) ≡ slice m a n ++ slice m (a + n) k
unfolding slice
slice-append m a zero k =
    let e : zero + k ≡ k = omega arith in
    let e' : a ≡ a + 0 = omega arith in ap (slice m a) e ∙ ap (λ i. slice m i k) e'
slice-append m a (suc n) k =
    let e : suc n + k ≡ suc (n + k) = omega arith in
    let e' : suc a + n ≡ a + suc n = omega arith in
    ap (slice m a) e
    ∙ ap (◌∷◌ (m a)) (slice-append m (suc a) n k ∙ ap (λ i. slice m (suc a) n ++ slice m i k) e')

pub slice-store_below :
    (m : Memory) (a n b : ℕ) (xs : List ℕ) → a + n ≤ b → slice (store m b xs) a n ≡ slice m a n
unfolding store
slice-store_below m a n b xs h = slice_ext (store m b xs) m a a n (λ i lt. ground arith)

get_or-slice : (xs : List ℕ) (a : ℕ) → slice (λ i. get_or xs (i - a) 0) a (length xs) ≡ xs
unfolding slice
get_or-slice [] a = refl
get_or-slice (x ∷ xs) a =
    let z : a - a ≡ 0 = omega arith in
    let shift =
      slice_ext (λ i. get_or (x ∷ xs) (i - a) 0) (λ i. get_or xs (i - suc a) 0) (suc a) (suc a)
        (length xs)
        (λ i lt.
          let e : suc a + i - a ≡ suc (suc a + i - suc a) = omega arith in
          ap (λ k. get_or (x ∷ xs) k 0) e) in
    ap₂ ◌∷◌ (ap (λ k. get_or (x ∷ xs) k 0) z) (shift ∙ get_or-slice xs (suc a))

pub slice-store_self : (m : Memory) (a : ℕ) (xs : List ℕ) → slice (store m a xs) a (length xs) ≡ xs
unfolding store
slice-store_self m a xs =
    slice_ext (store m a xs) (λ i. get_or xs (i - a) 0) a a (length xs) (λ i lt. ground arith)
    ∙ get_or-slice xs a

-- Reading `xs` in at the end of the bytes from `a` on.
pub slice-store_end :
    (m : Memory) (a n : ℕ) (xs : List ℕ)
    → slice (store m (a + n) xs) a (n + length xs) ≡ slice m a n ++ xs
slice-store_end m a n xs =
    slice-append (store m (a + n) xs) a n (length xs)
    ∙ ap₂ ◌++◌ (slice-store_below m a n (a + n) xs (omega arith)) (slice-store_self m (a + n) xs)

pub slice-copy : (m : Memory) (dst src n : ℕ) → slice (copy m dst src n) dst n ≡ slice m src n
unfolding copy
slice-copy m dst src n =
    slice_ext (copy m dst src n) m dst src n
      (λ i lt. let e : dst + i - dst ≡ i = omega arith in ground arith)

pub drop-slice : (m : Memory) (a n k : ℕ) → k ≤ n → drop k (slice m a n) ≡ slice m (a + k) (n - k)
drop-slice m a n k h =
    let e : n ≡ k + (n - k) = omega arith in
    let len = length-slice m a k in
    ap (λ i. drop k (slice m a i)) e
    ∙ ap (drop k) (slice-append m a k (n - k))
    ∙ ap (λ i. drop i (slice m a k ++ slice m (a + k) (n - k))) (sym len)
    ∙ drop-length-append (slice m a k) (slice m (a + k) (n - k))
