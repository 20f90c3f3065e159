-- ===== src/Fragment/Covered.antt =====
-- What src/yafrag.c knows of a packet that it takes for complete.
use qof.Packet.Proto
use qof.Base.{
  Bool, Bool-cases, List, Option, Option-cases, [], arith, false, inl, inr, leb, leb→le, none, not,
  refl, some, some_inj, true, ℕ, ◌&&◌, ◌+◌, ◌<◌, ◌==◌, ◌||◌, ◌∷◌, ◌≡◌, ◌≤◌, ◌⊎◌,
}
use qof.Base.Word.{to_u16}
use qof.Packet.{IpFragInfo}
use qof.Decode.Run.{ok}
use qof.Fragment.{FragNode, FragRec, FragTab, Glib, frag_remove_node, frag_sort_by_offset}
use qof.Fragment.Assemble.{assemble, branch, frag_complete, sort_records, traverse}

abbrev pub Any : (FragRec → Type 0) → List FragRec → Type 0
Any P [] = ⊥
Any P (r ∷ records) = P r ⊎ Any P records

-- Sorting brings in no record.
pub record IsSort {T : Type 0} (g : Glib T) : Type 1 where
  pub members :
      (P : FragRec → Type 0) (records : List FragRec)
      → Any P (g.sort frag_sort_by_offset records)
      → Any P records

-- The record holds the octet at a position of the packet's data.
abbrev pub Holds : ℕ → FragRec → Type 0
Holds p r = (r.off ≤ p) × (p < r.off + r.len)

traverse-Holds :
    (records : List FragRec) (next_off end p : ℕ)
    → traverse next_off records ≡ some end
    → p < end
    → (p < next_off) ⊎ Any (Holds p) records
unfolding traverse
traverse-Holds [] next_off end p e h = inl (omega (arith, h, some_inj e))
traverse-Holds (r ∷ records) next_off end p e h = elim (Bool-cases (leb r.off next_off)) [
  | inr gap ↦ absurd (cc)
  | inl fits ↦ elim (traverse-Holds records (r.off + r.len) end p (rw fits at e) h) [
    | inr later ↦ inr (inr later)
    | inl below ↦ elim (Bool-cases (leb r.off p)) [
      | inl held ↦ inr (inl (leb→le r.off p held, below))
      | inr before ↦ inl (ground arith)
    ]
  ]
]

-- Each record starts at or before the end of the one before it, and the last one ends at `end`.
abbrev pub Fits : (next_off : ℕ) → List FragRec → (end : ℕ) → Type 0
Fits next_off [] end = next_off ≡ end
Fits next_off (r ∷ records) end = (r.off ≤ next_off) × Fits (r.off + r.len) records end

-- Some record starts behind the end of the one before it.
abbrev pub HasGap : (next_off : ℕ) → List FragRec → Type 0
HasGap next_off [] = ⊥
HasGap next_off (r ∷ records) = (next_off < r.off) ⊎ HasGap (r.off + r.len) records

traverse-Fits :
    (records : List FragRec) (next_off end : ℕ)
    → traverse next_off records ≡ some end
    → Fits next_off records end
unfolding traverse
traverse-Fits [] next_off end e = some_inj e
traverse-Fits (r ∷ records) next_off end e = elim (Bool-cases (leb r.off next_off)) [
  | inr gap ↦ absurd (cc)
  | inl fits ↦
      (leb→le r.off next_off fits, traverse-Fits records (r.off + r.len) end (rw fits at e))
]

traverse-HasGap :
    (records : List FragRec) (next_off : ℕ)
    → traverse next_off records ≡ none
    → HasGap next_off records
unfolding traverse
traverse-HasGap [] next_off e = absurd (ground (arith, e))
traverse-HasGap (r ∷ records) next_off e = elim (Bool-cases (leb r.off next_off)) [
  | inr gap ↦ inl (ground (arith, gap))
  | inl fits ↦ inr (traverse-HasGap records (r.off + r.len) (rw fits at e))
]

module _ {ℓ} {A : Type ℓ} (m : Bool) (fits : Option ℕ) (s : Bool) (x y : A) (f h : ℕ → A) where
  pub branch_missing : m ≡ true → branch m fits s x y f h ≡ x
  branch_missing p = rw p refl

  pub branch_gap : m ≡ false → fits ≡ none → branch m fits s x y f h ≡ y
  branch_gap p q = rw (p, q) refl

  pub branch_short :
      (end : ℕ) → m ≡ false → fits ≡ some end → s ≡ true → branch m fits s x y f h ≡ f end
  branch_short end p q r = rw (p, q, r) refl

  pub branch_whole :
      (end : ℕ) → m ≡ false → fits ≡ some end → s ≡ false → branch m fits s x y f h ≡ h end
  branch_whole end p q r = rw (p, q, r) refl

-- Neither the first nor the last fragment is missing, or one is.
pub none_missing : (a b : Bool) → a ≡ true → b ≡ true → (not a || not b) ≡ false
none_missing a b p q = rw (p, q) refl

first_missing : (a b : Bool) → a ≡ false → (not a || not b) ≡ true
first_missing a b p = rw p refl

last_missing : (a b : Bool) → b ≡ false → (not a || not b) ≡ true
last_missing true b q = rw q refl
last_missing false b q = refl

module _ {T : Type 0} (g : Glib T) (sorts : IsSort g) where
  -- What a complete packet is known to have.
  pub record Complete (fn : FragNode) (t' : FragTab T) (a iphlen end : ℕ) : Type 0 where
    pub fits : Fits 0 (g.sort frag_sort_by_offset fn.records) end
    pub first : fn.have_first ≡ true
    pub last : fn.have_last ≡ true
    pub taken : t'.assembled ≡ a
    pub length : (t'.node a).iplen ≡ to_u16 (end + iphlen)
    pub octets : (p : ℕ) → p < end → Any (Holds p) fn.records

  -- A node whose TCP header came with its first fragment, or that is not TCP, is complete or not. If it
  -- is, it has the first and the last fragment; its records, sorted, start at 0 and each at or before
  -- the end of the one before it; it is taken for the assembled packet, with the length of the header
  -- and the end of the last record, in 16 bits; and each octet below that end lies in a fragment that
  -- came in. If it is not, nothing is assembled, and the first or the last fragment is missing or some
  -- record starts behind the end of the one before it.
  pub frag_complete-Complete :
      (a : ℕ) (fraginfo : IpFragInfo) (t : FragTab T)
      → (not (t.node a).have_l4hdr && ((t.node a).key.f.proto == Proto.tcp)) ≡ false
      → ((end : ℕ) × (t' : FragTab T) × (frag_complete g a fraginfo t ≡ ok (true, fraginfo, t'))
          × Complete (t.node a) t' a fraginfo.iphlen end)
        ⊎ ((t' : FragTab T) × (frag_complete g a fraginfo t ≡ ok (false, fraginfo, t'))
            × (t'.assembled ≡ t.assembled)
            × (((t.node a).have_first ≡ false)
                ⊎ ((t.node a).have_last ≡ false)
                ⊎ HasGap 0 (g.sort frag_sort_by_offset (t.node a).records)))
  unfolding frag_complete frag_remove_node
  frag_complete-Complete a fraginfo t whole =
      let sorted = g.sort frag_sort_by_offset (t.node a).records in
      elim (Bool-cases (t.node a).have_first) [
        | inr no_first ↦
            inr (t, branch_missing _ _ _ _ _ _ _ (first_missing _ _ no_first), refl, inl no_first)
        | inl first ↦ elim (Bool-cases (t.node a).have_last) [
          | inr no_last ↦
              inr (
                t,
                branch_missing _ _ _ _ _ _ _ (last_missing _ _ no_last),
                refl,
                inr (inl no_last),
              )
          | inl last ↦ elim (Option-cases (traverse 0 sorted)) [
            | inl gap ↦ inr (
              sort_records g a t,
              branch_gap _ _ _ _ _ _ _ (none_missing _ _ first last) gap,
              refl,
              inr (inr (traverse-HasGap sorted 0 gap)),
            )
            | inr (end, e) ↦ inl (
              end,
              assemble g a end fraginfo (sort_records g a t),
              branch_whole _ _ _ _ _ _ _ end (none_missing _ _ first last) e whole,
              record {
                fits = traverse-Fits sorted 0 end e;
                first = first;
                last = last;
                taken = refl;
                length = ground arith;
                octets = λ p below. elim (traverse-Holds sorted 0 end p e below) [
                  | inl none_below ↦ absurd (omega (arith, none_below))
                  | inr held ↦ sorts.members (Holds p) (t.node a).records held
                ];
              },
            )
          ]
        ]
      ]
