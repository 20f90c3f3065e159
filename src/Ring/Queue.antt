-- ===== src/Ring/Queue.antt =====
-- The ring of src/ring.c as a first-in first-out queue of slot numbers.
use native.Mathlib.Decide.{ℕ_discrete}
use qof.Base.{
  List, [], ap, arith, false, if◌then◌else◌, inl, inr, leb, ltb, lt→ltb, none, refl, some, suc, sym,
  true, zero, ℕ, ◌*◌, ◌++◌, ◌+◌, ◌-◌, ◌<◌, ◌^◌, ◌∙◌, ◌∷◌, ◌≡◌, ◌≢◌, ◌≤◌, ◌⊎◌,
}
use qof.Base.Word.{sub64}
use qof.Ring.{Ring, next_head, next_tail, wrap}

mul_gap : (e i j : ℕ) → suc i ≤ j → e * i + e ≤ e * j
mul_gap e i zero h = absurd (omega arith)
mul_gap e zero (suc j) h = omega arith
mul_gap e (suc i) (suc j) h = omega (arith, mul_gap e i j (omega arith))

-- The slot `n` places after slot `i` of `c`, going round.
abbrev pub place : (c i n : ℕ) → ℕ
place c i n = if ltb (i + n) c then i + n else i + n - c

-- The `n` slots from slot `i` on.
abbrev pub held : (c i n : ℕ) → List ℕ
held c i zero = []
held c i (suc n) = i ∷ held c (place c i 1) n

module _ {c : ℕ} where
  held-snoc : (i n : ℕ) → i < c → n < c → held c i (suc n) ≡ held c i n ++ (place c i n ∷ [])
  held-snoc i zero h k = ground arith
  held-snoc i (suc n) h k =
      let same : place c (place c i 1) n ≡ place c i (suc n) = ground arith in
      ap (λ l. i ∷ l)
        (held-snoc (place c i 1) n (ground arith) (omega arith)
          ∙ ap (λ s. held c (place c i 1) n ++ (s ∷ [])) same)

-- A slot that is none of those given out.
abbrev pub Fresh : ℕ → List ℕ → Type 0
Fresh s [] = Unit
Fresh s (x ∷ xs) = (s ≢ x) × Fresh s xs

module _ {c : ℕ} where
  held-Fresh : (i n m : ℕ) → i < c → n ≤ m → m < c → Fresh (place c i m) (held c i n)
  held-Fresh i zero m h k l = tt
  held-Fresh i (suc n) m h k l =
      let same : place c (place c i 1) (m - 1) ≡ place c i m = ground arith in
      let rest : Fresh (place c i m) (held c (place c i 1) n) =
        rw (sym same)
          (held-Fresh (place c i 1) n (m - 1) (ground arith) (omega arith) (omega arith)) in
      let other : place c i m ≢ i = λ e. ground arith in (other, rest)

-- A ring without reservations that has given out the `n` slots from `first` on.
pub record IsRing (r : Ring) (first n : ℕ) : Type 0 where
  pub nonempty : 0 < r.elt_sz
  pub no_hrsv : r.hrsv ≡ 0
  pub no_trsv : r.trsv ≡ 0
  pub in_ring : first < r.cap
  pub is_end : r.end + r.elt_sz ≡ r.elt_sz * r.cap
  pub fits : r.elt_sz * r.cap + r.cap < 2 ^ 64
  pub is_tail : r.tail ≡ r.elt_sz * first
  pub is_head : r.head ≡ r.elt_sz * place r.cap first n
  pub is_count : r.count ≡ n
  pub bounded : n ≤ r.cap

-- Moving a pointer on moves its slot on.
wrap-place :
    (r : Ring) (i : ℕ)
    → 0 < r.elt_sz
    → r.end + r.elt_sz ≡ r.elt_sz * r.cap
    → i < r.cap
    → wrap r (r.elt_sz * i) ≡ r.elt_sz * place r.cap i 1
unfolding wrap
wrap-place r i p e h = elim (ℕ_discrete (suc i) r.cap) [
  | yes last ↦
      let whole : r.elt_sz * r.cap ≡ r.elt_sz * i + r.elt_sz = rw (sym last) (omega arith) in
      let back : place r.cap i 1 ≡ 0 = ground arith in
      let over : ltb r.end (r.elt_sz * i + r.elt_sz) ≡ true = lt→ltb _ _ (omega arith) in
      rw (back, over) (omega arith)
  | no ne ↦
      let on : place r.cap i 1 ≡ suc i = ground arith in
      let gap = mul_gap r.elt_sz (suc i) r.cap (omega arith) in
      let inside : ltb r.end (r.elt_sz * i + r.elt_sz) ≡ false = ground (arith, gap) in
      rw (on, inside) (omega arith)
]

place_bound : (c i n : ℕ) → i < c → n ≤ c → place c i n < c
place_bound c i n h k = ground arith

module _ (r : Ring) {first n : ℕ} (ring : IsRing r first n) where
  head_moved : n < r.cap → wrap r r.head ≡ r.elt_sz * place r.cap first (suc n)
  head_moved h =
      let on : place r.cap (place r.cap first n) 1 ≡ place r.cap first (suc n) =
        ground (arith, ring.in_ring) in
      ap (λ p. wrap r p) ring.is_head
      ∙ wrap-place r (place r.cap first n) ring.nonempty ring.is_end
          (place_bound r.cap first n ring.in_ring (omega arith))
      ∙ ap (λ s. r.elt_sz * s) on

  tail_moved : wrap r r.tail ≡ r.elt_sz * place r.cap first 1
  tail_moved =
      ap (λ p. wrap r p) ring.is_tail ∙ wrap-place r first ring.nonempty ring.is_end ring.in_ring

  -- `rgaNextHead` on a ring with all slots given out returns a null pointer and changes nothing.
  -- Otherwise it gives out a slot that is none of those in use, behind them.
  pub next_head-IsRing :
      ((n ≡ r.cap) × (next_head r ≡ (none, r)))
      ⊎ ((s : ℕ) × ((next_head r).0 ≡ some (r.elt_sz * s))
          × Fresh s (held r.cap first n)
          × IsRing (next_head r).1 first (suc n)
          × (held r.cap first (suc n) ≡ held r.cap first n ++ (s ∷ [])))
  unfolding next_head
  next_head-IsRing = elim (ℕ_discrete n r.cap) [
    | yes e ↦
        let full : leb (sub64 r.cap r.trsv) r.count ≡ true =
          ground (arith, ring.no_trsv, ring.is_count, ring.fits) in
        inl (e, rw full refl)
    | no ne ↦
        let room : leb (sub64 r.cap r.trsv) r.count ≡ false =
          ground (arith, ring.no_trsv, ring.is_count, ring.fits, ring.bounded) in
        let more : suc n ≤ r.cap = omega (arith, ring.bounded) in
        rw room (
          inr (
            place r.cap first n,
            ap some ring.is_head,
            held-Fresh first n n ring.in_ring (omega arith) (omega arith),
            record {
              nonempty = ring.nonempty;
              no_hrsv = ring.no_hrsv;
              no_trsv = ring.no_trsv;
              in_ring = ring.in_ring;
              is_end = ring.is_end;
              fits = ring.fits;
              is_tail = ring.is_tail;
              is_head = head_moved more;
              is_count = omega (arith, ring.is_count, ring.fits);
              bounded = more;
            },
            held-snoc first n ring.in_ring more,
          ))
  ]

  -- `rgaNextTail` on a ring with no slot given out returns a null pointer and changes nothing.
  -- Otherwise it takes back the slot that was given out first.
  pub next_tail-IsRing :
      ((n ≡ 0) × (next_tail r ≡ (none, r)))
      ⊎ ((s : ℕ) × ((next_tail r).0 ≡ some (r.elt_sz * s))
          × IsRing (next_tail r).1 (place r.cap first 1) (n - 1)
          × (held r.cap first n ≡ s ∷ held r.cap (place r.cap first 1) (n - 1)))
  unfolding next_tail
  next_tail-IsRing = elim (ℕ_discrete n 0) [
    | yes e ↦
        let empty : leb r.count r.hrsv ≡ true = ground (arith, ring.is_count, ring.no_hrsv) in
        inl (e, rw empty refl)
    | no ne ↦
        let used : leb r.count r.hrsv ≡ false = ground (arith, ring.is_count, ring.no_hrsv) in
        let one_less : suc (n - 1) ≡ n = omega arith in
        let same : place r.cap (place r.cap first 1) (n - 1) ≡ place r.cap first n =
          ground (arith, ring.in_ring, ring.bounded) in
        rw used (
          inr (
            first,
            ap some ring.is_tail,
            record {
              nonempty = ring.nonempty;
              no_hrsv = ring.no_hrsv;
              no_trsv = ring.no_trsv;
              in_ring = place_bound r.cap first 1 ring.in_ring (omega (arith, ring.in_ring));
              is_end = ring.is_end;
              fits = ring.fits;
              is_tail = tail_moved;
              is_head = ring.is_head ∙ ap (λ s. r.elt_sz * s) (sym same);
              is_count = omega (arith, ring.is_count, ring.fits, ring.bounded);
              bounded = omega (arith, ring.bounded);
            },
            sym (ap (λ (m : ℕ). held r.cap first m) one_less),
          ))
  ]
