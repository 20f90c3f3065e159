-- ===== src/Process/Flush/Order.antt =====
-- `yfProcessPBufRing` of src/yaflush.c enters the packets of the ring in the order in which they came.
use mathlib.Core.Path.{subst}
use qof.Base.{
  Bool-cases, List, [], ap, arith, if◌then◌else◌, inl, inr, none, refl, some, suc, zero, ℕ, ◌*◌,
  ◌-◌, ◌==◌, ◌∙◌, ◌∷◌, ◌≡◌, ◌≤◌,
}
use qof.Packet.{PBuf}
use qof.Stats.{Double}
use qof.Ring.{Ring, next_tail}
use qof.Ring.Queue.{IsRing, held, next_tail-IsRing, place}
use qof.Flow.Table.{FlowTab, HashTable}
use qof.Process.Output.{Library}
use qof.Flow.Update.{flow_pbuf}
use qof.Process.Flush.{drain_ring, enter_slot}

module _ {R T B W : Type 0} (double : Double R) (h : HashTable T) (lib : Library R B W) where
  -- Packets that enter the flow table one after the other, with `yfFlowPBuf`, but for those with time
  -- zero.
  abbrev pub enter_all : List PBuf → FlowTab R T → FlowTab R T
  enter_all [] t = t
  enter_all (p ∷ ps) t = enter_all ps (if p.ptime == 0 then t else flow_pbuf double h p t)

  -- The packet buffers of the slots.
  abbrev pub contents : (size : ℕ) → (ℕ → PBuf) → List ℕ → List PBuf
  contents size slots [] = []
  contents size slots (s ∷ ss) = slots (size * s) ∷ contents size slots ss

  enter_slot_lem :
      (p : PBuf) (t : FlowTab R T)
      → enter_slot double h lib p t ≡ (if p.ptime == 0 then t else flow_pbuf double h p t)
  unfolding enter_slot
  enter_slot_lem p t = elim (Bool-cases (p.ptime == 0)) [ inl e ↦ rw e refl | inr e ↦ rw e refl ]

  same_size : (r : Ring) → ((next_tail r).1.elt_sz ≡ r.elt_sz) × ((next_tail r).1.cap ≡ r.cap)
  unfolding next_tail
  same_size r = ground arith

  pub drain_ring_empty :
      (fuel : ℕ) (slots : ℕ → PBuf) (r : Ring) (t : FlowTab R T)
      → (next_tail r).0 ≡ none
      → drain_ring double h lib (suc fuel) slots r t ≡ (r, t)
  unfolding drain_ring
  drain_ring_empty fuel slots r t e = rw (e, drain_ring) refl

  pub drain_ring_one :
      (fuel : ℕ) (slots : ℕ → PBuf) (r : Ring) (t : FlowTab R T) (a : ℕ)
      → (next_tail r).0 ≡ some a
      → drain_ring double h lib (suc fuel) slots r t
        ≡ drain_ring double h lib fuel slots (next_tail r).1 (enter_slot double h lib (slots a) t)
  unfolding drain_ring
  drain_ring_one fuel slots r t a e = rw (e, drain_ring) refl

  pub drain_ring-enter_all :
      (fuel : ℕ) (slots : ℕ → PBuf) (r : Ring) (t : FlowTab R T) {first n : ℕ}
      → IsRing r first n
      → n ≤ fuel
      → let u = drain_ring double h lib fuel slots r t in
        (u.1 ≡ enter_all (contents r.elt_sz slots (held r.cap first n)) t)
        × ((i : ℕ) × IsRing u.0 i 0 × (u.0.cap ≡ r.cap))
  unfolding drain_ring
  drain_ring-enter_all zero slots r t {first} {n} ring le =
      let none_left : n ≡ 0 = omega arith in
      (rw none_left refl, (first, subst (λ (m : ℕ). IsRing r first m) none_left ring, refl))
  drain_ring-enter_all (suc fuel) slots r t {first} {n} ring le = elim (next_tail-IsRing r ring) [
    | inl (e, f) ↦
        rw (drain_ring_empty fuel slots r t (ap (λ p. p.0) f), e)
          (refl, (first, subst (λ (m : ℕ). IsRing r first m) e ring, refl))
    | inr (s, e, again, f) ↦
        let p = slots (r.elt_sz * s) in
        let entered = if p.ptime == 0 then t else flow_pbuf double h p t in
        let ih = drain_ring-enter_all fuel slots (next_tail r).1 entered again (omega arith) in
        rw (drain_ring_one fuel slots r t (r.elt_sz * s) e, enter_slot_lem p t, f)
          (
            subst
                (λ (z : ℕ).
                  (drain_ring double h lib fuel slots (next_tail r).1 entered).1
                  ≡ enter_all (contents z slots (held r.cap (place r.cap first 1) (n - 1))) entered)
                (same_size r).0
                (subst
                  (λ (c : ℕ).
                    (drain_ring double h lib fuel slots (next_tail r).1 entered).1
                    ≡ enter_all
                        (contents (next_tail r).1.elt_sz slots
                          (held c (place r.cap first 1) (n - 1)))
                        entered)
                  (same_size r).1 ih.0),
            (ih.1.0, ih.1.1, ih.1.2 ∙ (same_size r).1),
          )
  ]
