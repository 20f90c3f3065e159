-- ===== src/Examples/Buffers.antt =====
-- The queues and buffers on small contents.
use qof.PickQueue.Spec
use qof.Base.{[], arith, if◌then◌else◌, none, refl, some, ℕ, ◌*◌, ◌++◌, ◌-◌, ◌==◌, ◌∷◌, ◌≡◌, ◌⊎◌}
use qof.PickQueue.Heap.{Node, Store, en_q, pick}
use qof.PickQueue.Refine.{IsQueue, pick-IsQueue}
use qof.PickQueue.Enter.{en_q-IsQueue}
use qof.Ring.{next_head, next_tail}
use qof.Ring.Queue.{Fresh, IsRing, held, next_head-IsRing, next_tail-IsRing, place}
use qof.Examples.Values.{ring_a}

-- Slots 2 and 0 of three are given out.
ring_a-IsRing : IsRing ring_a 2 2
ring_a-IsRing = record {
  nonempty = omega arith;
  no_hrsv = refl;
  no_trsv = refl;
  in_ring = omega arith;
  is_end = omega arith;
  fits = omega arith;
  is_tail = omega arith;
  is_head = refl;
  is_count = refl;
  bounded = omega arith;
}

abbrev used : ℕ
used = 2

next_head-IsRing_example :
    ((used ≡ 3) × (next_head ring_a ≡ (none, ring_a)))
    ⊎ ((s : ℕ) × ((next_head ring_a).0 ≡ some (24 * s))
        × Fresh s (held 3 2 2)
        × IsRing (next_head ring_a).1 2 3
        × (held 3 2 3 ≡ held 3 2 2 ++ (s ∷ [])))
next_head-IsRing_example = next_head-IsRing ring_a ring_a-IsRing

next_tail-IsRing_example :
    ((used ≡ 0) × (next_tail ring_a ≡ (none, ring_a)))
    ⊎ ((s : ℕ) × ((next_tail ring_a).0 ≡ some (24 * s))
        × IsRing (next_tail ring_a).1 (place 3 2 1) (2 - 1)
        × (held 3 2 2 ≡ s ∷ held 3 (place 3 2 1) (2 - 1)))
next_tail-IsRing_example = next_tail-IsRing ring_a ring_a-IsRing

-- Nodes 1, 2 and 3, the tail first.
abbrev heap_a : ℕ → Node
heap_a a =
    if a == 1
    then record { p = 0; n = 2 }
    else if a == 2
    then record { p = 1; n = 3 }
    else if a == 3
    then record { p = 2; n = 0 }
    else record { p = 0; n = 0 }

abbrev store_a : Store
store_a = record { node = heap_a; queue = record { tail = 1; head = 3 } }

store_a-IsQueue : IsQueue store_a (1 ∷ 2 ∷ 3 ∷ [])
store_a-IsQueue = record {
  links = (
    (λ e. ground arith),
    refl,
    refl,
    ((λ e. ground arith), refl, refl, ((λ e. ground arith), refl, refl, tt)),
  );
  distinct =
      (((λ e. ground arith), ((λ e. ground arith), tt)), (((λ e. ground arith), tt), (tt, tt)));
  is_tail = refl;
  is_head = refl;
}

pick-IsQueue_example :
    (Spec.pick (1 ∷ 2 ∷ 3 ∷ []) 2 ≡ 1 ∷ 3 ∷ []) × IsQueue (pick 2 store_a) (1 ∷ 3 ∷ [])
pick-IsQueue_example = pick-IsQueue store_a (1 ∷ []) 2 (3 ∷ []) store_a-IsQueue

en_q-IsQueue_example :
    (t : Store) × (en_q 4 store_a ≡ some t) × IsQueue t (Spec.enq (1 ∷ 2 ∷ 3 ∷ []) 4)
en_q-IsQueue_example =
    en_q-IsQueue store_a 4 (1 ∷ 2 ∷ 3 ∷ []) store_a-IsQueue (λ e. ground arith)
      ((λ e. ground arith), ((λ e. ground arith), ((λ e. ground arith), tt))) refl refl
