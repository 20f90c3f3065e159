-- ===== src/Examples/Fragments.antt =====
-- Fragments on concrete inputs.
use qof.Base.{
  Bool, Bool-cases, List, Option, [], false, if◌then◌else◌, inl, inr, none, refl, some, true, ℕ,
  ◌∷◌, ◌≡◌, ◌⊎◌,
}
use qof.Base.Int.{ltb_ℤ, pos, ℤ}
use qof.Packet.{IpFragInfo, PBuf}
use qof.Decode.Run.{ok}
use qof.Fragment.{
  FragKey, FragNode, FragRec, FragTab, Glib, frag_key_equal, frag_sort_by_offset, new_frag,
  no_stats,
}
use qof.Fragment.Assemble.{defrag_pbuf, frag_complete}
use qof.Fragment.Covered.{Any, Complete, HasGap, IsSort, frag_complete-Complete}
use qof.Fragment.Outcome.{IsIdle, defrag_pbuf-IsIdle}
use qof.Examples.Values.{key_a, packet}

-- The table as a function of the key, and a sort by insertion.
abbrev pub FunIndex : Type 0
FunIndex = FragKey → Option ℕ

abbrev put_rec : (FragRec → FragRec → ℤ) → FragRec → List FragRec → List FragRec
put_rec c r [] = r ∷ []
put_rec c r (s ∷ rs) = if ltb_ℤ (pos 0) (c r s) then s ∷ put_rec c r rs else r ∷ s ∷ rs

abbrev insertion_sort : (FragRec → FragRec → ℤ) → List FragRec → List FragRec
insertion_sort c [] = []
insertion_sort c (r ∷ rs) = put_rec c r (insertion_sort c rs)

abbrev pub fun_glib : Glib FunIndex
fun_glib = record {
  empty = λ k. none;
  find = λ k t. t k;
  insert = λ j v t. λ k. if frag_key_equal j k then some v else t k;
  remove = λ j t. λ k. if frag_key_equal j k then none else t k;
  sort = insertion_sort;
}

put_rec-Any :
    (P : FragRec → Type 0) (c : FragRec → FragRec → ℤ) (r : FragRec) (rs : List FragRec)
    → Any P (put_rec c r rs)
    → P r ⊎ Any P rs
put_rec-Any P c r [] h = h
put_rec-Any P c r (s ∷ rs) h = elim (Bool-cases (ltb_ℤ (pos 0) (c r s))) [
  | inl e ↦ elim (rw e at h) [
    | inl at_s ↦ inr (inl at_s)
    | inr later ↦ elim (put_rec-Any P c r rs later) [
      | inl at_r ↦ inl at_r
      | inr rest ↦ inr (inr rest)
    ]
  ]
  | inr e ↦ rw e at h
]

insertion_sort-Any :
    (P : FragRec → Type 0) (c : FragRec → FragRec → ℤ) (rs : List FragRec)
    → Any P (insertion_sort c rs)
    → Any P rs
insertion_sort-Any P c [] h = h
insertion_sort-Any P c (r ∷ rs) h = elim (put_rec-Any P c r (insertion_sort c rs) h) [
  | inl at_r ↦ inl at_r
  | inr later ↦ inr (insertion_sort-Any P c rs later)
]

fun_glib-IsSort : IsSort fun_glib
fun_glib-IsSort = record { members = λ P rs h. insertion_sort-Any P frag_sort_by_offset rs h }

abbrev rec_at : ℕ → ℕ → FragRec
rec_at off len = record { off = off; len = len }

abbrev key_f : FragKey
key_f = record { ipid = 77; f = key_a }

-- The three fragments of a packet of 24 octets, of which the last came first.
abbrev whole_node : FragNode
whole_node = record (new_frag key_f 1000) {
  have_first = true;
  have_last = true;
  have_l4hdr = true;
  records = rec_at 16 8 ∷ rec_at 0 8 ∷ rec_at 8 8 ∷ [];
}

abbrev frags : FragNode → FragTab FunIndex
frags fn = record {
  ctime = 1000;
  prunetime = 0;
  table = λ k. some 1;
  fraq = 1 ∷ [];
  count = 1;
  assembled = 0;
  idle_ms = 30000;
  max_frags = 100;
  stats = no_stats;
  node = λ a. fn;
  next_node = 2;
}

abbrev info_f : IpFragInfo
info_f = record { ipid = 77; offset = 16; iphlen = 20; l4hlen = 0; frag = 1; more = 0 }

frag_complete-Complete_example :
    ((end : ℕ) × (t' : FragTab FunIndex) × (frag_complete fun_glib 1 info_f (frags whole_node)
        ≡ ok (true, info_f, t'))
      × Complete fun_glib fun_glib-IsSort whole_node t' 1 20 end)
    ⊎ ((t' : FragTab FunIndex) × (frag_complete fun_glib 1 info_f (frags whole_node)
          ≡ ok (false, info_f, t'))
        × (t'.assembled ≡ 0)
        × ((true ≡ false)
            ⊎ (true ≡ false)
            ⊎ HasGap 0 (insertion_sort frag_sort_by_offset whole_node.records)))
frag_complete-Complete_example =
    frag_complete-Complete fun_glib fun_glib-IsSort 1 info_f (frags whole_node) refl

-- The same, without a TCP header in the first fragment.
abbrev bare_node : FragNode
bare_node = record whole_node { have_l4hdr = false }

defrag_pbuf-IsIdle_example :
    (done : Bool) × (pbuf' : PBuf) × (t' : FragTab FunIndex) × (defrag_pbuf fun_glib
        (some info_f)
        (packet 2000)
        (frags bare_node)
      ≡ ok (done, pbuf', t'))
    × IsIdle t'
    × (pbuf'.ptime ≡ (if done then 2000 else 0))
defrag_pbuf-IsIdle_example =
    defrag_pbuf-IsIdle fun_glib (some info_f) (packet 2000) (frags bare_node)
      record { empty = λ a. refl; free = refl }
