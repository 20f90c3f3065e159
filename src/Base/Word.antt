-- ===== src/Base/Word.antt =====
-- Unsigned machine words of 8, 16, 32 and 64 bits as native numbers: every operation wraps.
use qof.Base.{ℕ, ◌+◌, ◌-◌, ◌%◌, ◌^◌, bit_and, Bool, not, ◌==◌}

abbrev pub to_u8 : ℕ → ℕ
to_u8 a = a % 2 ^ 8

abbrev pub to_u16 : ℕ → ℕ
to_u16 a = a % 2 ^ 16

abbrev pub to_u32 : ℕ → ℕ
to_u32 a = a % 2 ^ 32

abbrev pub to_u64 : ℕ → ℕ
to_u64 a = a % 2 ^ 64

abbrev pub add32 : ℕ → ℕ → ℕ
add32 a b = (a + b) % 2 ^ 32

abbrev pub sub32 : ℕ → ℕ → ℕ
sub32 a b = (a + 2 ^ 32 - b) % 2 ^ 32

abbrev pub add64 : ℕ → ℕ → ℕ
add64 a b = (a + b) % 2 ^ 64

abbrev pub sub64 : ℕ → ℕ → ℕ
sub64 a b = (a + 2 ^ 64 - b) % 2 ^ 64

abbrev pub sub16 : ℕ → ℕ → ℕ
sub16 a b = (a + 2 ^ 16 - b) % 2 ^ 16

-- The truth value of a C integer, and of a mask.
abbrev pub nonzero : ℕ → Bool
nonzero a = not (a == 0)

abbrev pub has_bits : ℕ → ℕ → Bool
has_bits a m = nonzero (bit_and a m)
