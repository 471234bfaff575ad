-- ===== src/Words.antt =====
-- The machine integers of the C++ code on a 64-bit target: `size_t`, `uint32_t` and `int` as bit
-- patterns with their wrap-around written out, and the conversions the code makes between them.
use linux_tcp_lib.Prelude.{ℕ, ◌+◌, ◌-◌, ◌%◌, ◌^◌, Bool, ltb, leb, if◌then◌else◌}

-- `size_t` subtraction and addition.
abbrev pub sub64 : ℕ → ℕ → ℕ
sub64 a b = (a + 2 ^ 64 - b) % 2 ^ 64

abbrev pub add64 : ℕ → ℕ → ℕ
add64 a b = (a + b) % 2 ^ 64

-- `uint32_t` subtraction and addition; the second argument may be a `size_t`.
abbrev pub sub32 : ℕ → ℕ → ℕ
sub32 a b = (a + 2 ^ 32 - b % 2 ^ 32) % 2 ^ 32

abbrev pub add32 : ℕ → ℕ → ℕ
add32 a b = (a + b) % 2 ^ 32

-- `static_cast<int>` of a `size_t` keeps the low 32 bits.
abbrev pub to_int : ℕ → ℕ
to_int a = a % 2 ^ 32

-- An `int` pattern converted to `size_t`: sign extension.
abbrev pub sign_extend : ℕ → ℕ
sign_extend w = if ltb w (2 ^ 31) then w else w + 2 ^ 64 - 2 ^ 32

-- Comparison of two `int` patterns, with the sign bit flipped.
abbrev pub bias : ℕ → ℕ
bias w = (w + 2 ^ 31) % 2 ^ 32

abbrev pub int_lt : ℕ → ℕ → Bool
int_lt a b = ltb (bias a) (bias b)

abbrev pub int_le : ℕ → ℕ → Bool
int_le a b = leb (bias a) (bias b)
