-- ===== src/Decode/Safe.antt =====
-- Reads inside the captured bytes, and runs that stay inside them.
use qof.Base.{
  Bool, List, [], arith, false, get_elem?, if◌then◌else◌, length, ltb, refl, some, suc, true, zero,
  ℕ, ◌+◌, ◌<◌, ◌∷◌, ◌≡◌, ◌≤◌,
}
use qof.Decode.Run.{Decoding, Run, byte, bytes, null, ok, word16, word32, ◌>>=◌}

-- A step that yields a value.
pub Yields : {A : Type 0} → Run A → Type 0
Yields {A = A} r = (a : A) × (r ≡ ok a)

-- A run that neither reads outside the captured bytes nor runs out of fuel: it returns a null pointer,
-- or a value of which `P` holds.
pub data IsSafe {A : Type 0} (P : A → Type 0) : Run A → Type 0 where
  safe_null : (s : Decoding) → IsSafe P (null s)
  safe_ok : {a : A} → P a → IsSafe P (ok a)

module _ {B : Type 0} {P : B → Type 0} where
  pub either_way :
      (b : Bool) (x y : Run B)
      → (b ≡ true → IsSafe P x)
      → (b ≡ false → IsSafe P y)
      → IsSafe P (if b then x else y)
  either_way true x y h k = h refl
  either_way false x y h k = k refl

  pub long_enough :
      (n k : ℕ) (s : Decoding) (r : Run B)
      → (k ≤ n → IsSafe P r)
      → IsSafe P (if ltb n k then null s else r)
  long_enough n k s r h = either_way (ltb n k) (null s) r (λ e. safe_null s) (λ e. h (ground arith))

  module _ {A : Type 0} where
    pub after_read :
        (r : Run A) (f : A → Run B) → Yields r → ((a : A) → IsSafe P (f a)) → IsSafe P (r >>= f)
    unfolding Yields
    after_read r f (a, e) h = rw e (h a)

    pub after_run :
        {Q : A → Type 0} (r : Run A) (f : A → Run B)
        → IsSafe Q r
        → ((a : A) → Q a → IsSafe P (f a))
        → IsSafe P (r >>= f)
    after_run r f (safe_null s) h = safe_null s
    after_run r f (safe_ok {a} q) h = h a q

Yields-ok : {A : Type 0} (a : A) → Yields (ok a)
unfolding Yields
Yields-ok a = (a, refl)

get_elem?-inside : (mem : List ℕ) (i : ℕ) → i < length mem → (v : ℕ) × (get_elem? mem i ≡ some v)
get_elem?-inside [] i h = absurd (omega arith)
get_elem?-inside (x ∷ mem) zero h = (x, refl)
get_elem?-inside (x ∷ mem) (suc i) h = get_elem?-inside mem i (omega arith)

module _ {A B : Type 0} where
  Yields-bind : (r : Run A) (f : A → Run B) → Yields r → ((a : A) → Yields (f a)) → Yields (r >>= f)
  unfolding Yields
  Yields-bind r f (a, e) h = rw e (h a)

module _ (mem : List ℕ) where
  pub byte-Yields : (i : ℕ) → i < length mem → Yields (byte mem i)
  unfolding Yields byte
  byte-Yields i h = let (v, e) = get_elem?-inside mem i h in (v, rw (e, byte) refl)

  pub word16-Yields : (i : ℕ) → i + 2 ≤ length mem → Yields (word16 mem i)
  unfolding word16
  word16-Yields i h =
      Yields-bind _ _ (byte-Yields i (omega arith))
        (λ hi. Yields-bind _ _ (byte-Yields (i + 1) (omega arith)) (λ lo. Yields-ok _))

  pub word32-Yields : (i : ℕ) → i + 4 ≤ length mem → Yields (word32 mem i)
  unfolding word32
  word32-Yields i h =
      Yields-bind _ _ (word16-Yields i (omega arith))
        (λ hi. Yields-bind _ _ (word16-Yields (i + 2) (omega arith)) (λ lo. Yields-ok _))

  pub bytes-Yields : (i n : ℕ) → i + n ≤ length mem → Yields (bytes mem i n)
  unfolding bytes
  bytes-Yields i zero h = Yields-ok _
  bytes-Yields i (suc n) h =
      Yields-bind _ _ (byte-Yields i (omega arith))
        (λ b. Yields-bind _ _ (bytes-Yields (i + 1) n (omega arith)) (λ rest. Yields-ok _))
