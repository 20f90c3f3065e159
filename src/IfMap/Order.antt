-- ===== src/IfMap/Order.antt =====
-- The orders of addresses, and maps that are sorted by them.
use qof.Base.{Bool, List, [], arith, false, if◌then◌else◌, not, refl, true, ℕ, ◌&&◌, ◌∷◌, ◌≡◌}
use qof.IfMap.{Addr6, Entry, before4, before6}

-- What the search needs of an order.
pub record IsOrder {ℓ} {K : Type ℓ} (before : K → K → Bool) : Type ℓ where
  pub asym : (x y : K) → before x y ≡ true → before y x ≡ false
  pub cotrans : (x y z : K) → before x z ≡ true → before y z ≡ false → before x y ≡ true

pub before4-IsOrder : IsOrder before4
before4-IsOrder = record { asym = λ x y h. ground arith; cotrans = λ x y z h k. ground arith }

before6_asym : (x y : Addr6) → before6 x y ≡ true → before6 y x ≡ false
unfolding before6
before6_asym [] [] h = refl
before6_asym [] (y ∷ ys) h = refl
before6_asym (x ∷ xs) [] h = ground arith
before6_asym (x ∷ xs) (y ∷ ys) h = ground (arith, before6_asym xs ys)

before6_cotrans : (x y z : Addr6) → before6 x z ≡ true → before6 y z ≡ false → before6 x y ≡ true
unfolding before6
before6_cotrans [] [] [] h k = h
before6_cotrans [] [] (z ∷ zs) h k = ground arith
before6_cotrans [] (y ∷ ys) z h k = refl
before6_cotrans (x ∷ xs) y [] h k = ground arith
before6_cotrans (x ∷ xs) [] (z ∷ zs) h k = ground arith
before6_cotrans (x ∷ xs) (y ∷ ys) (z ∷ zs) h k = ground (arith, before6_cotrans xs ys zs)

pub before6-IsOrder : IsOrder before6
before6-IsOrder = record { asym = before6_asym; cotrans = before6_cotrans }

abbrev pub All {ℓ} : {K : Type ℓ} → (Entry K → Type 0) → List (Entry K) → Type 0
All P [] = Unit
All P (e ∷ m) = P e × All P m

module _ {ℓ} {K : Type ℓ} (before : K → K → Bool) where
  -- Each entry is an interval, and they stand in order without a common address.
  abbrev pub IsMap : List (Entry K) → Type 0
  IsMap [] = Unit
  IsMap (d ∷ m) = (before d.b d.a ≡ false) × All (λ e. before d.b e.a ≡ true) m × IsMap m

  -- The entry holds the address.
  abbrev pub holds : K → Entry K → Bool
  holds addr e = not (before addr e.a) && not (before e.b addr)

  -- The map read from its front: the number of the first entry that holds the address, or 0.
  abbrev pub lookup : List (Entry K) → K → ℕ
  lookup [] addr = 0
  lookup (e ∷ m) addr = if holds addr e then e.ifnum else lookup m addr
