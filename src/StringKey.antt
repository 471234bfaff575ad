-- ===== src/StringKey.antt =====
-- base/src/base.h: `string_hash` and `string_compare`, with which a hash map has C strings as its
-- keys. A string is the bytes from its pointer to the end of its block, with a NUL among them.
mod Tests
use Prim.Native.Nat.{bit_xor}
use linux_tcp_lib.Prelude.{
  List-cases, take-nil, take-take, take-split, take-append-drop-length, ℕ, zero, suc, ◌+◌, ◌-◌, ◌*◌,
  ◌/◌, ◌%◌, ◌^◌, ◌≤◌, ◌<◌, ◌≡◌, refl, sym, ap, ap₂, ◌∙◌, ◌≢◌, ◌↔◌, ◌⊎◌, inl, inr, Bool, true, false,
  not, ◌&&◌, ◌||◌, Option, none, some, List, [], ◌∷◌, ◌++◌, map, append-nil, append_assoc, arith,
  ltb, leb, ◌==◌, if◌then◌else◌, ltb→lt, lt→ltb, leb→le, ==_iff, tests, Bool-cases, Option-cases,
  length, get_or, take, drop, length-append, take-append-drop, length-take, length-drop, take_all,
  drop_all, take-append_le, drop-append_le, take-length-append, drop-length-append, drop-nil,
  drop-drop, get_or-append_lt, get_elem?, set, length-set, get_elem?-set_self, get_elem?-set_ne,
  get_elem?-lt, get_elem?-set, set-get_elem?, get_elem?-append_lt, get_elem?-append_self, take-suc,
}
use linux_tcp_lib.Words.{add64}

-- A `char` of the target, converted to `size_t`: sign extension of a byte.
unfoldable pub char_word : ℕ → ℕ
char_word c = if ltb c 128 then c else c + 2 ^ 64 - 2 ^ 8

-- One round of the loop.
unfoldable pub mix : ℕ → ℕ → ℕ
unfolding char_word
mix hash c = bit_xor hash (add64 (add64 (hash * 2 ^ 5 % 2 ^ 64) (char_word c)) (hash / 2 ^ 2))

-- The loop; none if it reads behind the block.
unfoldable pub hash_loop : ℕ → List ℕ → Option ℕ
unfolding mix
hash_loop hash [] = none
hash_loop hash (c ∷ str) =
    let later = hash_loop (mix hash c) str in if c == 0 then some hash else later

unfoldable pub string_hash : List ℕ → Option ℕ
unfolding hash_loop
string_hash str = elim (hash_loop 1315423911 str) [ none ↦ none | some hash ↦ some (hash % 2 ^ 31) ]

-- `strcmp(a, b) == 0`; none if it reads behind a block.
unfoldable pub string_compare : List ℕ → List ℕ → Option Bool
string_compare [] b = none
string_compare (c ∷ a) [] = none
string_compare (c ∷ a) (d ∷ b) =
    let rest = string_compare a b in
    if c == d then (if c == 0 then some true else rest) else some false

hash_loop-compare :
    (hash : ℕ) (a b : List ℕ)
    → string_compare a b ≡ some true
    → (h : ℕ) × (hash_loop hash a ≡ some h) × (hash_loop hash b ≡ some h)
unfolding string_compare hash_loop
hash_loop-compare hash [] b e = cc
hash_loop-compare hash (c ∷ a) [] e = cc
hash_loop-compare hash (c ∷ a) (d ∷ b) e = elim (Bool-cases (c == d)) [
  | inl q ↦
      let same : c ≡ d = (==_iff c d).0 q in
      elim (Bool-cases (c == 0)) [
        | inl z ↦
            let z' : (d == 0) ≡ true = ground arith in
            (hash, rw (z, hash_loop) refl, rw (z', hash_loop) refl)
        | inr z ↦
            let z' : (d == 0) ≡ false = ground arith in
            let (h, f, g) = hash_loop-compare (mix hash c) a b (rw (q, z, string_compare) at e) in
            (
              h,
              rw (z, hash_loop) f,
              rw (z', hash_loop) (ap (λ x. hash_loop (mix hash x) b) (sym same) ∙ g),
            )
      ]
  | inr q ↦ let no : some false ≡ some true = rw (q, string_compare) at e in cc
]

-- What a hash map asks of the two: keys that compare equal have the same hash, whatever stands
-- behind their NULs, and it is below 2 ^ 31.
pub compare-hash :
    (a b : List ℕ)
    → string_compare a b ≡ some true
    → (h : ℕ) × (string_hash a ≡ some h) × (string_hash b ≡ some h) × (h < 2 ^ 31)
unfolding string_hash
compare-hash a b e =
    let (h, f, g) = hash_loop-compare 1315423911 a b e in
    (h % 2 ^ 31, rw (f, string_hash) refl, rw (g, string_hash) refl, omega arith)
