-- ===== src/Serial/Order.antt =====
-- What the comparison of 32-bit sequence numbers decides.
use qof.Base.{arith, if◌then◌else◌, leb, ltb, not, ℕ, ◌%◌, ◌&&◌, ◌+◌, ◌<◌, ◌==◌, ◌^◌, ◌≡◌, ◌≢◌, ◌⊎◌}
use qof.Base.Bits.{bit_and-pow2}
use qof.Base.Word.{has_bits, sub32}
use qof.Serial.{Comparison, above, below, is_above, is_below, same, wrap_compare}

top_digit : (d : ℕ) → d < 2 ^ 32 → has_bits d 0x8000_0000 ≡ leb (2 ^ 31) d
top_digit d h = rw (bit_and-pow2 31 d) (ground arith)

-- The mask tests whether the difference is at least half way round.
pub wrap_compare_iff :
    (a b : ℕ)
    → a < 2 ^ 32
    → b < 2 ^ 32
    → (is_below (wrap_compare a b) ≡ leb (2 ^ 31) (sub32 a b))
      × (is_above (wrap_compare a b) ≡ (not (a == b) && not (leb (2 ^ 31) (sub32 a b))))
unfolding wrap_compare
wrap_compare_iff a b ha hb = ground (arith, top_digit (sub32 a b) (omega arith))

-- The order of positions in an unbounded stream.
unfoldable pub position_order : ℕ → ℕ → Comparison
position_order x y = if x == y then same else if ltb x y then below else above

-- Two stream positions less than 2^31 apart, known only by their low 32 bits, are compared as the
-- positions themselves are: the wrap-around of the sequence space does not show.
pub wrap_compare-position_order :
    (x y : ℕ)
    → x < y + 2 ^ 31
    → y < x + 2 ^ 31
    → wrap_compare (x % 2 ^ 32) (y % 2 ^ 32) ≡ position_order x y
unfolding wrap_compare position_order
wrap_compare-position_order x y h k =
    ground (arith, top_digit (sub32 (x % 2 ^ 32) (y % 2 ^ 32)) (omega arith))

abbrev pub converse : Comparison → Comparison
converse below = above
converse same = same
converse above = below

-- Exchanging the two numbers turns the result round, but at distance exactly 2^31, where each of the
-- two numbers is below the other.
pub wrap_compare-converse :
    (a b : ℕ)
    → a < 2 ^ 32
    → b < 2 ^ 32
    → ((sub32 a b ≢ 2 ^ 31) × (wrap_compare b a ≡ converse (wrap_compare a b)))
      ⊎ ((sub32 a b ≡ 2 ^ 31) × (wrap_compare a b ≡ below) × (wrap_compare b a ≡ below))
unfolding wrap_compare
wrap_compare-converse a b ha hb =
    ground (arith, top_digit (sub32 a b) (omega arith), top_digit (sub32 b a) (omega arith))
