-- ===== src/Bitmap/Masks.antt =====
-- What the tables of src/bitmap.c hold, and what a range of bits in a word becomes.
use qof.Base.{
  List, [], ap, arith, bit_and, get_or, if◌then◌else◌, leb, ltb, refl, suc, zero, ℕ, ◌&&◌, ◌*◌, ◌+◌,
  ◌-◌, ◌/◌, ◌<◌, ◌∙◌, ◌∷◌, ◌≡◌, ◌≤◌,
}
use qof.Base.Bits.{bit_at, bit_at-bit_and, bit_at-bit_or, pow2}
use qof.Bitmap.Tables.{bit, bits, mask_a, mask_b, masks_a, masks_b}
use qof.Bitmap.Words.{test_and_set_inner}

-- A table of `n` values of a function, from `s` on.
values : (ℕ → ℕ) → (s n : ℕ) → List ℕ
values f s zero = []
values f s (suc n) = f s ∷ values f (suc s) n

get_or-values : (f : ℕ → ℕ) (s n i d : ℕ) → i < n → get_or (values f s n) i d ≡ f (s + i)
unfolding values
get_or-values f s zero i d h = absurd (omega arith)
get_or-values f s (suc n) zero d h = ap f (omega arith)
get_or-values f s (suc n) (suc i) d h =
    get_or-values f (suc s) n i d (omega arith) ∙ ap f (omega arith)

bits-values : bits ≡ values pow2 0 64
unfolding values
bits-values = refl

masks_a-values : masks_a ≡ values (λ a. pow2 64 - pow2 a) 0 64
unfolding values
masks_a-values = refl

masks_b-values : masks_b ≡ values (λ b. pow2 (suc b) - 1) 0 64
unfolding values
masks_b-values = refl

-- The tables hold what they are for: a single bit, the bits from it on, and the bits up to it.
pub bit-pow2 :
    (a : ℕ)
    → a < 64
    → (bit a ≡ pow2 a) × (mask_a a ≡ pow2 64 - pow2 a) × (mask_b a ≡ pow2 (suc a) - 1)
unfolding bit mask_a mask_b
bit-pow2 a h = (
  ap (λ l. get_or l a 0) bits-values ∙ get_or-values pow2 0 64 a 0 h ∙ ap pow2 (omega arith),
  ap (λ l. get_or l a 0) masks_a-values
      ∙ get_or-values (λ a. pow2 64 - pow2 a) 0 64 a 0 h
      ∙ ap (λ a. pow2 64 - pow2 a) (omega arith),
  ap (λ l. get_or l a 0) masks_b-values
      ∙ get_or-values (λ b. pow2 (suc b) - 1) 0 64 a 0 h
      ∙ ap (λ b. pow2 (suc b) - 1) (omega arith),
)

pow2_mono : (a n : ℕ) → a ≤ n → pow2 a ≤ pow2 n
pow2_mono zero zero h = omega arith
pow2_mono zero (suc n) h = omega (arith, pow2_mono zero n (omega arith))
pow2_mono (suc a) zero h = absurd (omega arith)
pow2_mono (suc a) (suc n) h = omega (arith, pow2_mono a n (omega arith))

bit_at_zero : (k : ℕ) → bit_at k 0 ≡ 0
bit_at_zero zero = omega arith
bit_at_zero (suc k) = bit_at_zero k

-- The digits of a block of ones.
bit_at_block :
    (k a n : ℕ) → a ≤ n → bit_at k (pow2 n - pow2 a) ≡ (if leb a k && ltb k n then 1 else 0)
bit_at_block zero zero zero h = refl
bit_at_block zero zero (suc n) h = ground (arith, pow2_mono 0 n (omega arith))
bit_at_block zero (suc a) zero h = absurd (omega arith)
bit_at_block zero (suc a) (suc n) h = ground (arith, pow2_mono a n (omega arith))
bit_at_block (suc k) zero zero h = ground (arith, bit_at_zero k)
bit_at_block (suc k) zero (suc n) h =
    let half : (2 * pow2 n - 1) / 2 ≡ pow2 n - 1 = omega (arith, pow2_mono 0 n (omega arith)) in
    ap (λ (t : ℕ). bit_at k t) half ∙ bit_at_block k 0 n (omega arith) ∙ ground arith
bit_at_block (suc k) (suc a) zero h = absurd (omega arith)
bit_at_block (suc k) (suc a) (suc n) h =
    let half : (2 * pow2 n - 2 * pow2 a) / 2 ≡ pow2 n - pow2 a =
      omega (arith, pow2_mono a n (omega arith)) in
    ap (λ (t : ℕ). bit_at k t) half ∙ bit_at_block k a n (omega arith) ∙ ground arith

bit_at_bound : (k a : ℕ) → bit_at k a ≤ 1
bit_at_bound zero a = omega arith
bit_at_bound (suc k) a = bit_at_bound k (a / 2)

module _ (v a b : ℕ) (in_a : a < 64) (in_b : b < 64) where
  -- The bits of the range that the function works on.
  range_digit :
      (k : ℕ)
      → bit_at k (bit_and (mask_a a) (mask_b b)) ≡ (if leb a k && leb k b && ltb k 64 then 1 else 0)
  range_digit k =
      let low_end : bit_at k (mask_a a) ≡ (if leb a k && ltb k 64 then 1 else 0) =
        ap (λ (t : ℕ). bit_at k t) (bit-pow2 a in_a).1 ∙ bit_at_block k a 64 (omega arith) in
      let high_end : bit_at k (mask_b b) ≡ (if leb 0 k && ltb k (suc b) then 1 else 0) =
        ap (λ (t : ℕ). bit_at k t) (bit-pow2 b in_b).2 ∙ bit_at_block k 0 (suc b) (omega arith) in
      bit_at-bit_and k (mask_a a) (mask_b b) ∙ rw (low_end, high_end) (ground arith)

  -- The word that `bimTestAndSetInner` leaves has the bits from the first to the last one of the range
  -- set, and each of its other bits as it was.
  pub bit_at-test_and_set_inner :
      (k : ℕ)
      → k < 64
      → bit_at k (test_and_set_inner v a b).1 ≡ (if leb a k && leb k b then 1 else bit_at k v)
  unfolding test_and_set_inner
  bit_at-test_and_set_inner k h =
      bit_at-bit_or k v (bit_and (mask_a a) (mask_b b))
      ∙ rw (range_digit k) (ground (arith, bit_at_bound k v))
