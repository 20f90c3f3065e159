-- ===== src/Serial.antt =====
-- `qfWrapCompare`, which src/qofrtt.c, src/qofack.c and src/qofseq.c each declare: the order of
-- 32-bit sequence numbers that go round.
pub mod Order
use qof.Base.{Bool, false, if◌then◌else◌, true, ℕ, ◌==◌}
use qof.Base.Word.{has_bits, sub32}

-- The results -1, 0 and 1.
pub data Comparison : Type 0 where
  below same above : Comparison

unfoldable pub wrap_compare : ℕ → ℕ → Comparison
wrap_compare a b =
    if a == b then same else if has_bits (sub32 a b) 0x8000_0000 then below else above

abbrev pub is_below : Comparison → Bool
is_below below = true
is_below same = false
is_below above = false

abbrev pub is_above : Comparison → Bool
is_above above = true
is_above same = false
is_above below = false
