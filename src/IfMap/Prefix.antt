-- ===== src/IfMap/Prefix.antt =====
-- The prefix masks of version 4 in src/qofifmap.c, and the blocks they make.
use Prim.Native.Nat.{bit_or-bitwise}
use mathlib.Core.Path.{subst}
use native.Mathlib.Decide.{ℕ_discrete}
use qof.Base.{
  ==_iff, Bool, ap, arith, bit_and, bit_or, refl, suc, sym, true, zero, ℕ, ◌&&◌, ◌*◌, ◌+◌, ◌-◌, ◌/◌,
  ◌<◌, ◌==◌, ◌^◌, ◌↔◌, ◌∙◌, ◌≡◌, ◌≤◌,
}
use qof.Base.Bits.{and_digit, bit_and-low, low, or_digit, pow2, pow2_positive}
use qof.IfMap.{before4, block4, prefix_mask4}
use qof.IfMap.Order.{holds}

abbrev pub shift_right : ℕ → ℕ → ℕ
shift_right zero a = a
shift_right (suc k) a = shift_right k (a / 2)

abbrev every : ℕ → (ℕ → Bool) → Bool
every zero f = true
every (suc n) f = f n && every n f

every_lem : (n : ℕ) (f : ℕ → Bool) (i : ℕ) → every n f ≡ true → i < n → f i ≡ true
every_lem zero f i h lt = absurd (omega arith)
every_lem (suc n) f i h lt = elim (ℕ_discrete i n) [
  | yes e ↦ rw e (ground arith)
  | no other ↦ every_lem n f i (ground arith) (omega arith)
]

-- Ones in the first `p` of 32 digits, for each of the 33 lengths of a prefix.
prefix_mask4_lem : (p : ℕ) → p ≤ 32 → prefix_mask4 p ≡ (pow2 p - 1) * pow2 (32 - p)
unfolding prefix_mask4
prefix_mask4_lem p h =
    (==_iff (prefix_mask4 p) ((pow2 p - 1) * pow2 (32 - p))).0
      (every_lem 33 (λ q. prefix_mask4 q == (pow2 q - 1) * pow2 (32 - q)) p refl (omega arith))

host_mask4_lem : (p : ℕ) → p ≤ 32 → 2 ^ 32 - 1 - prefix_mask4 p ≡ pow2 (32 - p) - 1
unfolding prefix_mask4
host_mask4_lem p h =
    (==_iff (2 ^ 32 - 1 - prefix_mask4 p) (pow2 (32 - p) - 1)).0
      (every_lem 33 (λ q. 2 ^ 32 - 1 - prefix_mask4 q == pow2 (32 - q) - 1) p refl (omega arith))

mul_two : (a b : ℕ) → a * (2 * b) ≡ 2 * (a * b)
mul_two a b = omega arith

and_shifted : (n k a : ℕ) → bit_and a ((pow2 n - 1) * pow2 k) ≡ low n (shift_right k a) * pow2 k
and_shifted n zero a =
    let one : (pow2 n - 1) * pow2 0 ≡ pow2 n - 1 = omega arith in
    omega (arith, ap (λ (t : ℕ). bit_and a t) one, bit_and-low n a)
and_shifted n (suc k) a =
    let half : (pow2 n - 1) * (2 * pow2 k) / 2 ≡ (pow2 n - 1) * pow2 k =
      omega (arith, mul_two (pow2 n - 1) (pow2 k)) in
    omega (
      arith,
      mul_two (pow2 n - 1) (pow2 k),
      and_digit a ((pow2 n - 1) * (2 * pow2 k)),
      ap (λ (t : ℕ). bit_and (a / 2) t) half,
      and_shifted n k (a / 2),
      mul_two (low n (shift_right k (a / 2))) (pow2 k),
    )

or_zero : (fuel a : ℕ) → a ≤ fuel → bit_or a 0 ≡ a
or_zero fuel zero h = bit_or-bitwise 0 0
or_zero zero (suc a) h = absurd (omega arith)
or_zero (suc fuel) (suc a) h =
    omega (arith, or_digit (suc a) 0, or_zero fuel (suc a / 2) (omega arith))

or_ones : (k a : ℕ) → bit_or a (pow2 k - 1) ≡ shift_right k a * pow2 k + (pow2 k - 1)
or_ones zero a = omega (arith, or_zero a a (omega arith))
or_ones (suc k) a =
    let half : (2 * pow2 k - 1) / 2 ≡ pow2 k - 1 = omega (arith, pow2_positive k) in
    omega (
      arith,
      or_digit a (2 * pow2 k - 1),
      ap (λ (t : ℕ). bit_or (a / 2) t) half,
      or_ones k (a / 2),
      pow2_positive k,
      mul_two (shift_right k (a / 2)) (pow2 k),
    )

low_all : (n a : ℕ) → a < pow2 n → low n a ≡ a
low_all zero a h = omega arith
low_all (suc n) a h = omega (arith, low_all n (a / 2) (omega arith))

-- k + n, by the steps of `shift_right`.
abbrev raise : ℕ → ℕ → ℕ
raise zero n = n
raise (suc k) n = suc (raise k n)

raise_lem : (k n : ℕ) → raise k n ≡ k + n
raise_lem zero n = omega arith
raise_lem (suc k) n = omega (arith, raise_lem k n)

shift_right_lt : (n k a : ℕ) → a < pow2 (raise k n) → shift_right k a < pow2 n
shift_right_lt n zero a h = h
shift_right_lt n (suc k) a h = shift_right_lt n k (a / 2) (omega arith)

between : (k x q : ℕ) → ((q * pow2 k ≤ x) × (x ≤ q * pow2 k + (pow2 k - 1))) ↔ (shift_right k x ≡ q)
between zero x q = omega arith
between (suc k) x q = (
  λ h.
      (between k (x / 2) q).0
        (omega (arith, mul_two q (pow2 k)), omega (arith, mul_two q (pow2 k), pow2_positive k)),
  λ e. omega (arith, (between k (x / 2) q).1 e, mul_two q (pow2 k), pow2_positive k),
)

-- For a prefix of at most 32 digits an address of 32 bits lies in the block of another exactly when
-- the two have the same prefix.
pub holds-block4 :
    (addr pfx ifnum x : ℕ)
    → pfx ≤ 32
    → addr < 2 ^ 32
    → holds before4 x (block4 addr pfx ifnum)
      ≡ (shift_right (32 - pfx) x == shift_right (32 - pfx) addr)
holds-block4 addr pfx ifnum x h word =
    let k = 32 - pfx in
    let sum : raise k pfx ≡ 32 = omega (arith, raise_lem k pfx) in
    let narrow : shift_right k addr < pow2 pfx =
      shift_right_lt pfx k addr (subst (λ (t : ℕ). addr < pow2 t) (sym sum) word) in
    let start : bit_and addr (prefix_mask4 pfx) ≡ shift_right k addr * pow2 k =
      ap (λ (t : ℕ). bit_and addr t) (prefix_mask4_lem pfx h)
      ∙ and_shifted pfx k addr
      ∙ ap (λ (t : ℕ). t * pow2 k) (low_all pfx (shift_right k addr) narrow) in
    let end : bit_or addr (2 ^ 32 - 1 - prefix_mask4 pfx)
        ≡ shift_right k addr * pow2 k + (pow2 k - 1) =
      ap (λ (t : ℕ). bit_or addr t) (host_mask4_lem pfx h) ∙ or_ones k addr in
    ground (arith, start, end, between k x (shift_right k addr))
