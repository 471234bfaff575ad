-- ===== src/Trace/FileName.antt =====
-- `parseFileName`: the part of a path behind its last separator.
use linux_tcp_lib.Prelude.{
  ℕ, zero, suc, ◌≡◌, refl, ap, inl, inr, Bool, true, false, ◌||◌, Option, none, some, List, [], ◌∷◌,
  arith, ltb, ◌==◌, if◌then◌else◌, Bool-cases, length, get_or, drop,
}

unfoldable pub is_separator : ℕ → Bool
is_separator c = (c == b'/') || (c == b'\\')

-- The loop, from the position `i` of the pointer down to the first one; the position it ends at.
unfoldable pub scan : List ℕ → ℕ → ℕ
unfolding is_separator
scan filename zero = 0
scan filename (suc i) =
    let rest = scan filename i in
    if is_separator (get_or filename (suc i) 0) then suc (suc i) else rest

-- None is the pointer in front of the text, which the code returns for the empty text.
unfoldable pub parse_file_name : List ℕ → Option (List ℕ)
unfolding scan
parse_file_name [] = none
parse_file_name (c ∷ rest) = some (drop (scan (c ∷ rest) (length rest)) (c ∷ rest))

unfoldable pub has_separator : List ℕ → Bool
has_separator [] = false
has_separator (c ∷ cs) = has_separator cs || is_separator c

-- What stands behind the last separator; the whole text if it has none.
unfoldable pub base_name : List ℕ → List ℕ
base_name [] = []
base_name (c ∷ cs) =
    let rest = base_name cs in
    if has_separator cs then rest else (if is_separator c then cs else c ∷ cs)

positive : (n : ℕ) → ltb 0 (suc n) ≡ true
positive n = ground arith

-- A text with one more byte in front.
scan-suc :
    (c : ℕ) (d : ℕ) (rest : List ℕ) (i : ℕ)
    → scan (c ∷ d ∷ rest) (suc i) ≡ (
        if ltb 0 (scan (d ∷ rest) i)
        then suc (scan (d ∷ rest) i)
        else (if is_separator d then 2 else 0))
unfolding scan
scan-suc c d rest zero = refl
scan-suc c d rest (suc i) = elim (Bool-cases (is_separator (get_or (d ∷ rest) (suc i) 0))) [
  | inl e ↦ rw (e, scan, positive (suc i)) refl
  | inr e ↦ rw (e, scan) (scan-suc c d rest i)
]

-- Where the loop ends, and what the pointer points to.
scan-base_name :
    (c : ℕ) (rest : List ℕ)
    → (ltb 0 (scan (c ∷ rest) (length rest)) ≡ has_separator rest)
      × (drop (scan (c ∷ rest) (length rest)) (c ∷ rest)
          ≡ (if has_separator rest then base_name rest else c ∷ rest))
unfolding scan has_separator base_name
scan-base_name c [] = (refl, refl)
scan-base_name c (d ∷ rest) =
    let (found, at) = scan-base_name d rest in
    elim (Bool-cases (has_separator rest)) [
      | inl e ↦
          rw (scan-suc c d rest (length rest), found, e, positive (scan (d ∷ rest) (length rest)))
            (refl, rw e at at)
      | inr e ↦ elim (Bool-cases (is_separator d)) [
        | inl q ↦ rw (scan-suc c d rest (length rest), found, e, q) (refl, refl)
        | inr q ↦ rw (scan-suc c d rest (length rest), found, e, q) (refl, refl)
      ]
    ]

-- For a text of a byte and a rest, `parseFileName` gives what stands behind the last separator of
-- the rest, or the whole text where the rest has none: a separator in front of all is kept.
pub parse_file_name_lem :
    (c : ℕ) (rest : List ℕ)
    → parse_file_name (c ∷ rest) ≡ some (if has_separator rest then base_name rest else c ∷ rest)
unfolding parse_file_name
parse_file_name_lem c rest = ap some (scan-base_name c rest).1
