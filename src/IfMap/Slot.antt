-- ===== src/IfMap/Slot.antt =====
-- The place of a new entry in a sorted map of src/qofifmap.c, and what the map holds afterwards.
use qof.Base.{
  Bool, Bool-cases, List, [], ap, arith, drop, false, if◌then◌else◌, inl, inr, leb, leb→le, length,
  none, refl, some, suc, take, true, ℕ, ◌++◌, ◌+◌, ◌-◌, ◌<◌, ◌∷◌, ◌≡◌, ◌≤◌, ◌⊎◌,
}
use qof.IfMap.{Entry, gap, insertion_point, last, put_at}
use qof.IfMap.Order.{All, IsMap, IsOrder, holds, lookup}

module _ {ℓ} {K : Type ℓ} (before : K → K → Bool) (order : IsOrder before) where
  slot_trans : (x y z : K) → before x y ≡ true → before y z ≡ true → before x z ≡ true
  slot_trans x y z p q = ground (arith, order.asym x y, order.cotrans y x z)

  -- No entry of the map has an address of the new one.
  abbrev pub IsApart : Entry K → List (Entry K) → Type 0
  IsApart n m = All (λ d. (before d.b n.a ≡ true) ⊎ (before n.b d.a ≡ true)) m

  abbrev pub Clear : K → List (Entry K) → Type 0
  Clear addr m = All (λ d. holds before addr d ≡ false) m

  -- The new entry stands behind those below the address.
  abbrev pub slot : K → Entry K → List (Entry K) → List (Entry K)
  slot addr n [] = n ∷ []
  slot addr n (d ∷ m) = if before d.b addr then d ∷ slot addr n m else n ∷ d ∷ m

  abbrev pub below_count : K → List (Entry K) → ℕ
  below_count addr [] = 0
  below_count addr (d ∷ m) = if before d.b addr then suc (below_count addr m) else 0

  pub slot_parts :
      (addr : K) (n : Entry K) (m : List (Entry K))
      → take (below_count addr m) m ++ (n ∷ drop (below_count addr m) m) ≡ slot addr n m
  slot_parts addr n [] = refl
  slot_parts addr n (d ∷ m) = elim (Bool-cases (before d.b addr)) [
    | inl e ↦ rw e (ap (λ l. d ∷ l) (slot_parts addr n m))
    | inr e ↦ rw e refl
  ]

  -- At most one entry behind the place is moved.
  pub put_at-some :
      (n : Entry K) (m : List (Entry K)) (i : ℕ)
      → length m ≤ i + 1
      → put_at i n m ≡ some (take i m ++ (n ∷ drop i m))
  unfolding put_at
  put_at-some n m i short = elim (Bool-cases (leb 2 (length m - i))) [
    | inl e ↦ absurd (omega (arith, leb→le 2 (length m - i) e, short))
    | inr e ↦ rw e refl
  ]

  -- More entries cannot be moved.
  pub put_at-none :
      (n : Entry K) (m : List (Entry K)) (i : ℕ) → i + 1 < length m → put_at i n m ≡ none
  unfolding put_at
  put_at-none n m i long = elim (Bool-cases (leb 2 (length m - i))) [
    | inl e ↦ rw e refl
    | inr e ↦ absurd (ground (arith, e, long))
  ]

  gap-below_count :
      (addr : K) (d : Entry K) (m : List (Entry K)) (i : ℕ)
      → before d.b addr ≡ true
      → IsMap before m
      → Clear addr m
      → gap before addr d m i ≡ i + below_count addr m
  unfolding gap
  gap-below_count addr d [] i low h clear = omega arith
  gap-below_count addr d (e ∷ m) i low h clear =
      ground (arith, gap-below_count addr e m (i + 1), slot_trans e.b addr e.a)

  last-below_count :
      (addr : K) (d : Entry K) (m : List (Entry K))
      → IsMap before (d ∷ m)
      → before (last d m).b addr ≡ true
      → below_count addr (d ∷ m) ≡ length (d ∷ m)
  last-below_count addr d [] h low = ground arith
  last-below_count addr d (e ∷ m) h low = ground (
    arith,
    last-below_count addr e m h.2 low,
    slot_trans d.b e.a addr,
    slot_trans e.b addr e.a,
    order.cotrans e.a addr e.b,
    order.cotrans e.b e.a addr,
    order.asym e.b addr,
    order.asym e.a addr,
  )

  pub insertion_point-below_count :
      (addr : K) (m : List (Entry K))
      → IsMap before m
      → Clear addr m
      → insertion_point before addr m ≡ below_count addr m
  unfolding insertion_point
  insertion_point-below_count addr [] h clear = refl
  insertion_point-below_count addr (d ∷ m) h clear =
      ground
        (arith, gap-below_count addr d m 1, last-below_count addr d m h, slot_trans d.b addr d.a)

  -- A new entry that holds the address, apart from the others.
  module _ (addr : K) (n : Entry K) (inside : holds before addr n ≡ true) where
    pub IsApart-Clear : (m : List (Entry K)) → IsMap before m → IsApart n m → Clear addr m
    IsApart-Clear [] h apart = tt
    IsApart-Clear (d ∷ m) h apart = (
      ground (arith, apart.0, order.cotrans d.b addr n.a, order.cotrans n.b addr d.a),
      IsApart-Clear m h.2 apart.1,
    )

    All-slot : (P : Entry K → Type 0) (m : List (Entry K)) → P n → All P m → All P (slot addr n m)
    All-slot P [] p all = (p, tt)
    All-slot P (d ∷ m) p all = elim (Bool-cases (before d.b addr)) [
      | inl e ↦ rw e (all.0, All-slot P m p all.1)
      | inr e ↦ rw e (p, all)
    ]

    lies_below :
        (d : Entry K)
        → before d.b addr ≡ true
        → before d.b d.a ≡ false
        → (before d.b n.a ≡ true) ⊎ (before n.b d.a ≡ true)
        → before d.b n.a ≡ true
    lies_below d low good apart = ground (
      arith,
      order.cotrans n.b addr d.a,
      slot_trans d.b addr d.a,
      order.cotrans addr d.b d.a,
      order.asym d.b addr,
    )

    lies_above :
        (d : Entry K)
        → before d.b addr ≡ false
        → (before d.b n.a ≡ true) ⊎ (before n.b d.a ≡ true)
        → before n.b d.a ≡ true
    lies_above d high apart = ground (arith, order.cotrans d.b addr n.a)

    above-All :
        (d : Entry K) (m : List (Entry K))
        → before n.b d.a ≡ true
        → before d.b d.a ≡ false
        → All (λ e. before d.b e.a ≡ true) m
        → All (λ e. before n.b e.a ≡ true) m
    above-All d [] above good all = tt
    above-All d (e ∷ m) above good all = (
      slot_trans n.b d.b e.a (order.cotrans n.b d.b d.a above good) all.0,
      above-All d m above good all.1,
    )

    pub slot-IsMap :
        (m : List (Entry K))
        → before n.b n.a ≡ false
        → IsMap before m
        → IsApart n m
        → IsMap before (slot addr n m)
    slot-IsMap [] good h apart = (good, tt, tt)
    slot-IsMap (d ∷ m) good h apart = elim (Bool-cases (before d.b addr)) [
      | inl low ↦ rw low (
        h.0,
        All-slot (λ e. before d.b e.a ≡ true) m (lies_below d low h.0 apart.0) h.1,
        slot-IsMap m good h.2 apart.1,
      )
      | inr high ↦
          let above : before n.b d.a ≡ true = lies_above d high apart.0 in
          rw high (good, (above, above-All d m above h.0 h.1), h)
    ]

    pub lookup-slot :
        (m : List (Entry K)) (x : K)
        → IsApart n m
        → lookup before (slot addr n m) x
          ≡ (if holds before x n then n.ifnum else lookup before m x)
    lookup-slot [] x apart = refl
    lookup-slot (d ∷ m) x apart =
        ground (
          arith,
          lookup-slot m x apart.1,
          order.cotrans d.b x n.a,
          order.cotrans n.b x d.a,
          apart.0,
        )
