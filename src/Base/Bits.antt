-- ===== src/Base/Bits.antt =====
-- Laws of `&` and `|` on machine words, digit by digit.
use Prim.Native.Nat.{digits, bit_and-bitwise, bit_or-bitwise}
use qof.Base.{
  ap, arith, bit_and, bit_or, max, min, refl, suc, zero, ℕ, ◌%◌, ◌*◌, ◌+◌, ◌-◌, ◌/◌, ◌≡◌, ◌≤◌,
}

-- More fuel than the number has digits changes nothing.
module _ (z : ℕ → ℕ) (f : ℕ → ℕ → ℕ) where
  enough_fuel : (n m a b : ℕ) → a ≤ n → a ≤ m → digits z f n a b ≡ digits z f m a b
  enough_fuel zero zero zero b p q = refl
  enough_fuel zero zero (suc a) b p q = refl
  enough_fuel zero (suc m) zero b p q = refl
  enough_fuel (suc n) zero zero b p q = refl
  enough_fuel (suc n) (suc m) zero b p q = refl
  enough_fuel zero (suc m) (suc a) b p q = absurd (omega arith)
  enough_fuel (suc n) zero (suc a) b p q = absurd (omega arith)
  enough_fuel (suc n) (suc m) (suc a) b p q =
      omega (arith, enough_fuel n m (suc a / 2) (b / 2) (omega arith) (omega arith))

-- The lowest digit of a conjunction, and the rest.
pub and_digit : (a b : ℕ) → bit_and a b ≡ bit_and (a / 2) (b / 2) * 2 + min (a % 2) (b % 2)
and_digit zero b = omega (arith, bit_and-bitwise 0 b, bit_and-bitwise 0 (b / 2))
and_digit (suc a) b = omega (
  arith,
  bit_and-bitwise (suc a) b,
  bit_and-bitwise (suc a / 2) (b / 2),
  enough_fuel (λ y. zero) min a (suc a / 2) (suc a / 2) (b / 2) (omega arith) (omega arith),
)

-- The lowest digit of a disjunction, and the rest.
pub or_digit : (a b : ℕ) → bit_or a b ≡ bit_or (a / 2) (b / 2) * 2 + max (a % 2) (b % 2)
or_digit zero b = omega (arith, bit_or-bitwise 0 b, bit_or-bitwise 0 (b / 2))
or_digit (suc a) b = omega (
  arith,
  bit_or-bitwise (suc a) b,
  bit_or-bitwise (suc a / 2) (b / 2),
  enough_fuel (λ y. y) max a (suc a / 2) (suc a / 2) (b / 2) (omega arith) (omega arith),
)

-- Digit `k` of a number.
abbrev pub bit_at : ℕ → ℕ → ℕ
bit_at zero a = a % 2
bit_at (suc k) a = bit_at k (a / 2)

pub bit_at-bit_and : (k a b : ℕ) → bit_at k (bit_and a b) ≡ min (bit_at k a) (bit_at k b)
bit_at-bit_and zero a b = omega (arith, and_digit a b)
bit_at-bit_and (suc k) a b =
    let half : bit_and a b / 2 ≡ bit_and (a / 2) (b / 2) = omega (arith, and_digit a b) in
    rw half (bit_at-bit_and k (a / 2) (b / 2))

pub bit_at-bit_or : (k a b : ℕ) → bit_at k (bit_or a b) ≡ max (bit_at k a) (bit_at k b)
bit_at-bit_or zero a b = omega (arith, or_digit a b)
bit_at-bit_or (suc k) a b =
    let half : bit_or a b / 2 ≡ bit_or (a / 2) (b / 2) = omega (arith, or_digit a b) in
    rw half (bit_at-bit_or k (a / 2) (b / 2))

-- `1 << k`, as a recursion that the proofs can follow.
abbrev pub pow2 : ℕ → ℕ
pow2 zero = 1
pow2 (suc k) = 2 * pow2 k

zero-and : (a : ℕ) (fuel : ℕ) → a ≤ fuel → bit_and a 0 ≡ 0
zero-and zero fuel h = bit_and-bitwise 0 0
zero-and (suc a) zero h = absurd (omega arith)
zero-and (suc a) (suc f) h =
    omega (arith, and_digit (suc a) 0, zero-and (suc a / 2) f (omega arith))

pub bit_and-zero : (a : ℕ) → bit_and a 0 ≡ 0
bit_and-zero a = zero-and a a (omega arith)

-- Masking with a single bit keeps that digit.
pub bit_and-pow2 : (k a : ℕ) → bit_and a (pow2 k) ≡ bit_at k a * pow2 k
bit_and-pow2 zero a = omega (arith, and_digit a 1, bit_and-zero (a / 2))
bit_and-pow2 (suc k) a =
    let half : 2 * pow2 k / 2 ≡ pow2 k = omega arith in
    omega (
      arith,
      and_digit a (2 * pow2 k),
      ap (λ (t : ℕ). bit_and (a / 2) t) half,
      bit_and-pow2 k (a / 2),
    )

-- The lowest `k` digits, which a mask of ones keeps.
abbrev pub low : ℕ → ℕ → ℕ
low zero a = 0
low (suc k) a = low k (a / 2) * 2 + a % 2

pub pow2_positive : (k : ℕ) → 1 ≤ pow2 k
pow2_positive zero = omega arith
pow2_positive (suc k) = omega (arith, pow2_positive k)

pub bit_and-low : (k a : ℕ) → bit_and a (pow2 k - 1) ≡ low k a
bit_and-low zero a = bit_and-zero a
bit_and-low (suc k) a =
    let half : (2 * pow2 k - 1) / 2 ≡ pow2 k - 1 = omega (arith, pow2_positive k) in
    omega (
      arith,
      and_digit a (2 * pow2 k - 1),
      ap (λ (t : ℕ). bit_and (a / 2) t) half,
      bit_and-low k (a / 2),
      pow2_positive k,
    )

and_le_fuel : (fuel a b : ℕ) → a ≤ fuel → bit_and a b ≤ a
and_le_fuel zero zero b h = omega (arith, bit_and-bitwise 0 b)
and_le_fuel zero (suc a) b h = absurd (omega arith)
and_le_fuel (suc fuel) zero b h = omega (arith, bit_and-bitwise 0 b)
and_le_fuel (suc fuel) (suc a) b h =
    omega (arith, and_digit (suc a) b, and_le_fuel fuel (suc a / 2) (b / 2) (omega arith))

or_ge_fuel : (fuel a b : ℕ) → a ≤ fuel → a ≤ bit_or a b
or_ge_fuel fuel zero b h = omega arith
or_ge_fuel zero (suc a) b h = absurd (omega arith)
or_ge_fuel (suc fuel) (suc a) b h =
    omega (arith, or_digit (suc a) b, or_ge_fuel fuel (suc a / 2) (b / 2) (omega arith))

-- Masking keeps no more, and filling keeps no less.
pub bit_and_le : (a b : ℕ) → bit_and a b ≤ a
bit_and_le a b = and_le_fuel a a b (omega arith)

pub bit_or_ge : (a b : ℕ) → a ≤ bit_or a b
bit_or_ge a b = or_ge_fuel a a b (omega arith)
