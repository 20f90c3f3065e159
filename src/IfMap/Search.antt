-- ===== src/IfMap/Search.antt =====
-- The search of src/qofifmap.c in the middle of a sorted map, against a reading from its front.
use mathlib.Core.Path.{fun_ext, subst}
use native.Mathlib.Decide.{ℕ_discrete}
use qof.Base.{
  Bool, Bool-cases, List, Option, [], ap, arith, false, get_elem?, get_elem?-some, inl, inr, length,
  ltb, refl, some, some_inj, suc, sym, true, zero, ℕ, ◌+◌, ◌-◌, ◌/◌, ◌<◌, ◌∙◌, ◌∷◌, ◌≡◌, ◌≤◌, ◌⊎◌,
}
use qof.IfMap.{Addr6, Entry, before4, before6, converge, hit4, map_search4, map_search6}
use qof.IfMap.Order.{All, IsMap, IsOrder, before4-IsOrder, before6-IsOrder, holds, lookup}

All-at {ℓ} :
    {K : Type ℓ} (P : Entry K → Type 0) (m : List (Entry K)) (i : ℕ) (e : Entry K)
    → All P m
    → get_elem? m i ≡ some e
    → P e
All-at P [] i e h at = absurd (cc)
All-at P (d ∷ m) zero e h at = subst P (some_inj at) h.0
All-at P (d ∷ m) (suc i) e h at = All-at P m i e h.1 at

-- Where the search stands: a hit, and the number it has; or no entry hits, and the number is 0.
abbrev Outcome {ℓ} : {K : Type ℓ} → (Entry K → Bool) → List (Entry K) → Option ℕ → Type ℓ
Outcome {K = K} hit m r =
    ((i : ℕ) × (e : Entry K) × (get_elem? m i ≡ some e) × (hit e ≡ true) × (r ≡ some e.ifnum))
    ⊎ (((i : ℕ) (e : Entry K) → get_elem? m i ≡ some e → hit e ≡ false) × (r ≡ some 0))

get_elem?_inside {ℓ} :
    {A : Type ℓ} (xs : List A) (i : ℕ) (x : A) → get_elem? xs i ≡ some x → length xs ≤ i → ⊥
get_elem?_inside [] i x at h = cc
get_elem?_inside (y ∷ xs) zero x at h = omega (arith, h)
get_elem?_inside (y ∷ xs) (suc i) x at h = get_elem?_inside xs i x at (omega (arith, h))

module _ {ℓ} {K : Type ℓ} (before : K → K → Bool) (order : IsOrder before) where
  before_trans : (x y z : K) → before x y ≡ true → before y z ≡ true → before x z ≡ true
  before_trans x y z p q = ground (arith, order.asym x y, order.cotrans y x z)

  entry-at :
      (m : List (Entry K)) (i : ℕ) (e : Entry K)
      → IsMap before m
      → get_elem? m i ≡ some e
      → before e.b e.a ≡ false
  entry-at [] i e h at = absurd (cc)
  entry-at (d ∷ m) zero e h at = subst (λ e. before e.b e.a ≡ false) (some_inj at) h.0
  entry-at (d ∷ m) (suc i) e h at = entry-at m i e h.2 at

  entries-at :
      (m : List (Entry K)) (i j : ℕ) (d e : Entry K)
      → IsMap before m
      → i < j
      → get_elem? m i ≡ some d
      → get_elem? m j ≡ some e
      → before d.b e.a ≡ true
  entries-at [] i j d e h lt p q = absurd (cc)
  entries-at (c ∷ m) i zero d e h lt p q = absurd (omega arith)
  entries-at (c ∷ m) zero (suc j) d e h lt p q =
      All-at (λ e. before d.b e.a ≡ true) m j e
        (subst (λ d. All (λ e. before d.b e.a ≡ true) m) (some_inj p) h.1) q
  entries-at (c ∷ m) (suc i) (suc j) d e h lt p q = entries-at m i j d e h.2 (omega arith) p q

  module _ (addr : K) where
    -- What the test that moves to the right must tell of an entry that does not hold the address.
    abbrev Tells : (Entry K → Bool) → Type ℓ
    Tells right =
        (e : Entry K)
        → before e.b e.a ≡ false
        → ((right e ≡ true) → before e.a addr ≡ true)
          × (right e ≡ false → holds before addr e ≡ false → before addr e.a ≡ true)

    lookup-at :
        (m : List (Entry K)) (i : ℕ) (e : Entry K)
        → IsMap before m
        → get_elem? m i ≡ some e
        → holds before addr e ≡ true
        → lookup before m addr ≡ e.ifnum
    lookup-at [] i e h at hit = absurd (cc)
    lookup-at (d ∷ m) zero e h at hit = let same = some_inj at in ground arith
    lookup-at (d ∷ m) (suc i) e h at hit = ground (
      arith,
      lookup-at m i e h.2 at hit,
      All-at (λ e. before d.b e.a ≡ true) m i e h.1 at,
      order.cotrans d.b addr e.a,
    )

    lookup_none :
        (m : List (Entry K))
        → ((i : ℕ) (e : Entry K) → get_elem? m i ≡ some e → holds before addr e ≡ false)
        → lookup before m addr ≡ 0
    lookup_none [] none_holds = refl
    lookup_none (d ∷ m) none_holds =
        rw (none_holds 0 d refl) (lookup_none m (λ i e at. none_holds (suc i) e at))

    module _ (right : Entry K → Bool) (tells : Tells right) (m : List (Entry K))
        (h : IsMap before m) where
      -- Left of an entry that lies below the address no entry holds it.
      left_misses :
          (i j : ℕ) (d e : Entry K)
          → i ≤ j
          → get_elem? m i ≡ some d
          → get_elem? m j ≡ some e
          → holds before addr e ≡ false
          → right e ≡ true
          → holds before addr d ≡ false
      left_misses i j d e le p q miss r = elim (ℕ_discrete i j) [
        | yes same ↦ let one : d ≡ e = some_inj (sym p ∙ ap (get_elem? m) same ∙ q) in rw one miss
        | no other ↦ ground (
          arith,
          (tells e (entry-at m j e h q)).0 r,
          before_trans d.b e.a addr (entries-at m i j d e h (omega arith) p q),
        )
      ]

      right_misses :
          (i j : ℕ) (d e : Entry K)
          → i ≤ j
          → get_elem? m i ≡ some d
          → get_elem? m j ≡ some e
          → holds before addr d ≡ false
          → right d ≡ false
          → holds before addr e ≡ false
      right_misses i j d e le p q miss r = elim (ℕ_discrete i j) [
        | yes same ↦
            let one : d ≡ e = some_inj (sym p ∙ ap (get_elem? m) same ∙ q) in rw (sym one) miss
        | no other ↦
            let low : before addr d.a ≡ true = (tells d (entry-at m i d h p)).1 r miss in
            let apart : before d.b e.a ≡ true = entries-at m i j d e h (omega arith) p q in
            ground
              (arith, entry-at m i d h p, order.cotrans addr d.b d.a low, before_trans addr d.b e.a)
      ]

      converge-Outcome :
          (fuel x end : ℕ)
          → end - x ≤ fuel
          → end ≤ length m
          → ((i : ℕ) (e : Entry K)
              → get_elem? m i ≡ some e
              → (i < x) ⊎ (end ≤ i)
              → holds before addr e ≡ false)
          → Outcome (holds before addr) m (converge (holds before addr) right fuel x end m)
      unfolding converge
      converge-Outcome zero x end enough inside out =
          let shut : ltb x end ≡ false = ground arith in
          rw shut (inr ((λ i e at. out i e at (omega arith)), refl))
      converge-Outcome (suc fuel) x end enough inside out = elim (Bool-cases (ltb x end)) [
        | inr shut ↦ rw shut (inr ((λ i e at. out i e at (ground arith)), refl))
        | inl open_ ↦
            let i = (x + end - 1) / 2 in
            let (e, at) = get_elem?-some m i (ground arith) in
            elim (Bool-cases (holds before addr e)) [
              | inl hit ↦ rw (open_, at, hit) (inl (i, e, at, hit, refl))
              | inr miss ↦ elim (Bool-cases (right e)) [
                | inl r ↦
                    rw (open_, at, miss, r)
                      (converge-Outcome fuel (i + 1) end (ground arith) inside (λ j d p side.
                        elim side [
                          | inl lt ↦ left_misses j i d e (omega (arith, lt)) p at miss r
                          | inr ge ↦ out j d p (inr ge)
                        ]))
                | inr l ↦
                    rw (open_, at, miss, l)
                      (converge-Outcome fuel x i (ground arith) (ground arith) (λ j d p side.
                        elim side [
                          | inl lt ↦ out j d p (inl lt)
                          | inr ge ↦ right_misses i j e d ge at p miss l
                        ]))
              ]
            ]
      ]

      beyond : (i : ℕ) (e : Entry K) → get_elem? m i ≡ some e → (i < 0) ⊎ (length m ≤ i) → ⊥
      beyond i e at side =
          get_elem?_inside m i e at
            (elim side [ inl lt ↦ absurd (omega (arith, lt)) | inr ge ↦ ge ])

      converge-lookup :
          converge (holds before addr) right (length m) 0 (length m) m ≡ some (lookup before m addr)
      converge-lookup =
          elim (converge-Outcome (length m) 0 (length m) (omega arith) (omega arith)
            (λ i e at side. absurd (beyond i e at side))) [
              | inl (i, e, at, hit, r) ↦ r ∙ ap some (sym (lookup-at m i e h at hit))
              | inr (none_holds, r) ↦ r ∙ ap some (sym (lookup_none m none_holds))
            ]

tells4 : (addr : ℕ) → Tells before4 before4-IsOrder addr (λ e. ltb e.b addr)
tells4 addr e good = (λ r. ground arith, λ r miss. ground arith)

tells6 : (addr : Addr6) → Tells before6 before6-IsOrder addr (λ e. before6 e.a addr)
tells6 addr e good = (λ r. r, λ r miss. ground (arith, before6-IsOrder.cotrans e.b e.a addr))

hit4-holds : (addr : ℕ) → hit4 addr ≡ holds before4 addr
hit4-holds addr = fun_ext λ e. ground arith

-- On a sorted map of disjoint blocks, of any size, the search for a version 4 address ends within as
-- many rounds as there are entries, reads no entry outside the map, and finds the interface number of
-- the entry that holds the address, or 0 where none does, as reading the map from its front finds it.
pub map_search4-lookup :
    (m : List (Entry ℕ)) (addr : ℕ)
    → IsMap before4 m
    → map_search4 m addr ≡ some (lookup before4 m addr)
unfolding map_search4
map_search4-lookup m addr h =
    rw (hit4-holds addr)
      (converge-lookup before4 before4-IsOrder addr (λ e. ltb e.b addr) (tells4 addr) m h)

-- On a sorted map of disjoint blocks, of any size, the search for a version 6 address ends within as
-- many rounds as there are entries, reads no entry outside the map, and finds the interface number of
-- the entry that holds the address, or 0 where none does, as reading the map from its front finds it.
pub map_search6-lookup :
    (m : List (Entry Addr6)) (addr : Addr6)
    → IsMap before6 m
    → map_search6 m addr ≡ some (lookup before6 m addr)
unfolding map_search6
map_search6-lookup m addr h =
    converge-lookup before6 before6-IsOrder addr (λ e. before6 e.a addr) (tells6 addr) m h
