-- ===== src/StringKey/Tests.antt =====
-- One key in two blocks.
use linux_tcp_lib.Prelude.{ℕ, ◌≡◌, refl, true, some, List, [], ◌∷◌}
use linux_tcp_lib.StringKey.{string_hash, string_compare}

abbrev key : List ℕ
key = 107 ∷ 200 ∷ 0 ∷ []

abbrev longer : List ℕ
longer = 107 ∷ 200 ∷ 0 ∷ 9 ∷ 9 ∷ []

equal : string_compare key longer ≡ some true
unfolding string_compare
equal = refl

bounded : string_hash key ≡ string_hash longer
unfolding string_hash
bounded = refl
