-- ===== src/IfMap/Block.antt =====
-- Address blocks and their insertion in src/qofifmap.c.
use qof.Base.{
  Bool, Bool-cases, List, [], ap, arith, drop, false, if◌then◌else◌, inl, inr, length,
  length-append, length-replicate, ltb, ltb→lt, none, refl, replicate, some, suc, take, true, ℕ,
  ◌%◌, ◌++◌, ◌+◌, ◌-◌, ◌/◌, ◌<◌, ◌^◌, ◌∙◌, ◌∷◌, ◌≡◌, ◌≤◌, ◌⊎◌,
}
use qof.Base.Bits.{bit_and_le, bit_or_ge}
use qof.IfMap.{
  Addr6, Entry, before4, before6, block4, block6, boundary, insertion_point, ip6_bit_and,
  ip6_bit_invert, ip6_bit_or, map_insert4, map_insert6, map_search4, map_search6, prefix_mask4,
  prefix_mask6, put_at,
}
use qof.IfMap.Order.{IsMap, IsOrder, before4-IsOrder, before6-IsOrder, holds, lookup}
use qof.IfMap.Slot.{
  IsApart, IsApart-Clear, insertion_point-below_count, lookup-slot, put_at-none, put_at-some, slot,
  slot-IsMap, slot_parts,
}
use qof.IfMap.Search.{map_search4-lookup, map_search6-lookup}

-- Each entry of a map after an insertion is found: in the new block its number, elsewhere the old one.
module _ {ℓ} {K : Type ℓ} (before : K → K → Bool) (order : IsOrder before) where
  put_at-lookup :
      (addr : K) (n : Entry K) (m : List (Entry K)) (x : K)
      → before n.b n.a ≡ false
      → holds before addr n ≡ true
      → IsMap before m
      → IsApart before order n m
      → length m ≤ insertion_point before addr m + 1
      → (m' : List (Entry K)) × (put_at (insertion_point before addr m) n m ≡ some m')
        × IsMap before m'
        × (lookup before m' x ≡ (if holds before x n then n.ifnum else lookup before m x))
  put_at-lookup addr n m x good inside h apart short =
      let clear = IsApart-Clear before order addr n inside m h apart in
      let place = insertion_point-below_count before order addr m h clear in
      (
        slot before order addr n m,
        put_at-some before order n m (insertion_point before addr m) short
            ∙ ap some (
                ap (λ (i : ℕ). take i m ++ (n ∷ drop i m)) place
                ∙ slot_parts before order addr n m),
        slot-IsMap before order addr n inside m good h apart,
        lookup-slot before order addr n inside m x apart,
      )

block4_good :
    (addr pfx ifnum : ℕ) → before4 (block4 addr pfx ifnum).b (block4 addr pfx ifnum).a ≡ false
block4_good addr pfx ifnum =
    ground
      (arith, bit_and_le addr (prefix_mask4 pfx), bit_or_ge addr (2 ^ 32 - 1 - prefix_mask4 pfx))

block4_inside : (addr pfx ifnum : ℕ) → holds before4 addr (block4 addr pfx ifnum) ≡ true
block4_inside addr pfx ifnum =
    ground
      (arith, bit_and_le addr (prefix_mask4 pfx), bit_or_ge addr (2 ^ 32 - 1 - prefix_mask4 pfx))

-- Inserting a version 4 block that has no address in common with the entries of a sorted map of
-- disjoint blocks, in both cases of the source. If at most one entry stands behind the place of the new
-- one, it gives such a map again, and afterwards the search for any address gives the block's interface
-- number inside the block and the number of before outside it. If more of them would have to be moved,
-- the source has no defined behaviour.
pub map_insert4-map_search4 :
    (m : List (Entry ℕ)) (addr pfx ifnum x : ℕ)
    → IsMap before4 m
    → IsApart before4 before4-IsOrder (block4 addr pfx ifnum) m
    → ((length m ≤ insertion_point before4 addr m + 1)
        × ((m' : List (Entry ℕ)) × (map_insert4 m addr pfx ifnum ≡ some m')
            × IsMap before4 m'
            × (map_search4 m' x ≡ (
                if holds before4 x (block4 addr pfx ifnum) then some ifnum else map_search4 m x))))
      ⊎ ((insertion_point before4 addr m + 1 < length m) × (map_insert4 m addr pfx ifnum ≡ none))
unfolding map_insert4
map_insert4-map_search4 m addr pfx ifnum x h apart =
    let place = insertion_point before4 addr m in
    elim (Bool-cases (ltb (place + 1) (length m))) [
      | inl e ↦
          let long = ltb→lt (place + 1) (length m) e in
          inr (long, put_at-none before4 before4-IsOrder (block4 addr pfx ifnum) m place long)
      | inr e ↦
          let short : length m ≤ place + 1 = ground (arith, e) in
          let both =
            put_at-lookup before4 before4-IsOrder addr (block4 addr pfx ifnum) m x
              (block4_good addr pfx ifnum) (block4_inside addr pfx ifnum) h apart short in
          inl (
            short,
            (
              both.0,
              both.1,
              both.2,
              map_search4-lookup _ x both.2
                  ∙ ap some both.3
                  ∙ ground (arith, map_search4-lookup m x h),
            ),
          )
    ]

bit_and-before6 : (addr mask : Addr6) → before6 addr (ip6_bit_and addr mask) ≡ false
unfolding before6 ip6_bit_and
bit_and-before6 [] mask = refl
bit_and-before6 (x ∷ xs) [] = refl
bit_and-before6 (x ∷ xs) (m ∷ ms) = ground (arith, bit_and_le x m, bit_and-before6 xs ms)

bit_or-before6 :
    (addr mask : Addr6) → length addr ≤ length mask → before6 (ip6_bit_or addr mask) addr ≡ false
unfolding before6 ip6_bit_or
bit_or-before6 [] mask h = refl
bit_or-before6 (x ∷ xs) [] h = absurd (omega arith)
bit_or-before6 (x ∷ xs) (m ∷ ms) h =
    ground (arith, bit_or_ge x m, bit_or-before6 xs ms (omega arith))

length-invert : (mask : Addr6) → length (ip6_bit_invert mask) ≡ length mask
unfolding ip6_bit_invert
length-invert [] = refl
length-invert (x ∷ xs) = ap suc (length-invert xs)

length-prefix_mask6 : (pfx : ℕ) → length (prefix_mask6 pfx) ≡ 16
unfolding prefix_mask6
length-prefix_mask6 pfx = elim (Bool-cases (ltb (pfx / 8) 16)) [
  | inl e ↦ rw e (
      omega (
        arith,
        ltb→lt (pfx / 8) 16 e,
        length-append {A = ℕ} (replicate (pfx / 8) 255)
            (boundary (pfx % 8) ∷ replicate (15 - pfx / 8) 0),
        length-replicate {A = ℕ} (pfx / 8) 255,
        length-replicate {A = ℕ} (15 - pfx / 8) 0,
      ))
  | inr e ↦ rw e refl
]

module _ (addr : Addr6) (pfx ifnum : ℕ) (whole : length addr ≡ 16) where
  above6 : before6 (block6 addr pfx ifnum).b addr ≡ false
  above6 =
      bit_or-before6 addr (ip6_bit_invert (prefix_mask6 pfx))
        (omega (arith, length-invert (prefix_mask6 pfx), length-prefix_mask6 pfx))

  block6_inside : holds before6 addr (block6 addr pfx ifnum) ≡ true
  block6_inside = rw (bit_and-before6 addr (prefix_mask6 pfx), above6) refl

  block6_good : before6 (block6 addr pfx ifnum).b (block6 addr pfx ifnum).a ≡ false
  block6_good = ground (
    arith,
    above6,
    bit_and-before6 addr (prefix_mask6 pfx),
    before6-IsOrder.cotrans (block6 addr pfx ifnum).b addr (block6 addr pfx ifnum).a,
  )

-- Inserting the block of a 16-byte address that has no address in common with the entries of a sorted
-- map of disjoint version 6 blocks gives such a map again, and afterwards the search for any address
-- gives the block's interface number inside the block and the number of before outside it. At most one
-- entry stands behind the place of the new one, since moving more of them is undefined in the source.
pub map_insert6-map_search6 :
    (m : List (Entry Addr6)) (addr : Addr6) (pfx ifnum : ℕ) (x : Addr6)
    → length addr ≡ 16
    → IsMap before6 m
    → IsApart before6 before6-IsOrder (block6 addr pfx ifnum) m
    → length m ≤ insertion_point before6 addr m + 1
    → (m' : List (Entry Addr6)) × (map_insert6 m addr pfx ifnum ≡ some m')
      × IsMap before6 m'
      × (map_search6 m' x
          ≡ (if holds before6 x (block6 addr pfx ifnum) then some ifnum else map_search6 m x))
unfolding map_insert6
map_insert6-map_search6 m addr pfx ifnum x whole h apart short =
    let both =
      put_at-lookup before6 before6-IsOrder addr (block6 addr pfx ifnum) m x
        (block6_good addr pfx ifnum whole) (block6_inside addr pfx ifnum whole) h apart short in
    (
      both.0,
      both.1,
      both.2,
      map_search6-lookup _ x both.2 ∙ ap some both.3 ∙ ground (arith, map_search6-lookup m x h),
    )
