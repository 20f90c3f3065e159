-- ===== src/Process/Flush/Processed.antt =====
-- `yfProcessPBufRing` of src/yaflush.c as a whole.
use mathlib.Core.Path.{subst}
use qof.Base.{
  Bool, Bool-cases, Option-cases, ap, arith, false, if◌then◌else◌, inl, inr, none, refl, some, true,
  ℕ, ◌∙◌, ◌≡◌, ◌⊎◌,
}
use qof.Base.Word.{nonzero}
use qof.Stats.{Double}
use qof.Ring.Queue.{IsRing, held}
use qof.Flow.Table.{FlowTab, HashTable}
use qof.Flow.Flush.{tab_flush}
use qof.Process.Output.{Library}
use qof.Process.Flush.{
  Process, drain, ensure_output, flush_rotate, flush_tab, process_pbuf_ring, process_with, rotate,
  rotate_close, rotation_due,
}
use qof.Process.Flush.Order.{contents, drain_ring-enter_all, enter_all}
use qof.Ring.{Ring}
use qof.Packet.{PBuf}

module _ {R T B W : Type 0} (double : Double R) (h : HashTable T) (lib : Library R B W) where
  -- The output changes, but neither the flow table nor the ring and what it holds.
  abbrev pub OnlyOutput : Process R T B → Process R T B → Type 0
  OnlyOutput p q = (q.flowtab ≡ p.flowtab) × (q.pbufring ≡ p.pbufring) × (q.slots ≡ p.slots)

  pub ensure_output-OnlyOutput :
      (p : Process R T B) (w : W) → OnlyOutput p (ensure_output double h lib p w).1
  unfolding ensure_output
  ensure_output-OnlyOutput p w = elim (Option-cases (p.octx.fbuf)) [
    | inl e ↦ rw (e, ensure_output) (refl, refl, refl)
    | inr (b, e) ↦ rw (e, ensure_output) (refl, refl, refl)
  ]

  if_output :
      (t : Bool) (p : Process R T B) (q r : Process R T B × W)
      → OnlyOutput p q.0
      → OnlyOutput p r.0
      → OnlyOutput p (if t then q else r).0
  if_output true p q r a b = a
  if_output false p q r a b = b

  rotate_close-OnlyOutput :
      (b : B) (p : Process R T B) (w : W) → OnlyOutput p (rotate_close double h lib b p w).0
  unfolding rotate_close
  rotate_close-OnlyOutput b p w =
      if_output (nonzero p.octx.rotate_period) p _ _
        (if_output (nonzero p.octx.rotate_last) p _ _
          (if_output (rotation_due double h lib p) p _ _ (refl, refl, refl) (refl, refl, refl))
          (refl, refl, refl))
        (refl, refl, refl)

  pub rotate-OnlyOutput :
      (b : B) (p : Process R T B) (w : W) → OnlyOutput p (rotate double h lib b p w).1
  unfolding rotate
  rotate-OnlyOutput b p w =
      let closed = rotate_close double h lib b p w in
      let first = rotate_close-OnlyOutput b p w in
      let second = ensure_output-OnlyOutput (closed.0) (closed.1) in
      (second.0 ∙ first.0, second.1 ∙ first.1, second.2 ∙ first.2)

  -- A flush of the table `t`, with the ring left as it is.
  abbrev Flushed : B → FlowTab R T → Ring → W → Bool × Process R T B × W → Type 0
  Flushed b t ring w u =
      let flushed = tab_flush h (lib.write_flow b) false t w in
      (u.1.flowtab ≡ flushed.1)
      × (flushed.0 ≡ false → (u.0 ≡ false) × (u.2 ≡ flushed.2))
      × (u.1.pbufring ≡ ring)

  flush_rotate-Flushed :
      (b : B) (p : Process R T B) (w : W)
      → Flushed b p.flowtab p.pbufring w (flush_rotate double h lib b p w)
  unfolding flush_rotate flush_tab
  flush_rotate-Flushed b p w =
      let flushed = tab_flush h (lib.write_flow b) false p.flowtab w in
      let p1 = record p { flowtab = flushed.1 } in
      let kept = rotate-OnlyOutput b p1 flushed.2 in
      elim (Bool-cases (flushed.0)) [
        | inl e ↦ rw e (kept.0, λ f. absurd (ground (arith, f)), kept.1)
        | inr e ↦ rw e (refl, λ f. (refl, refl), refl)
      ]

  drain-enter_all :
      (p : Process R T B) {first n : ℕ}
      → IsRing p.pbufring first n
      → ((drain double h lib p).flowtab
          ≡ enter_all double h lib
              (contents double h lib p.pbufring.elt_sz p.slots (held p.pbufring.cap first n))
              p.flowtab)
        × ((i : ℕ) × IsRing (drain double h lib p).pbufring i 0
            × ((drain double h lib p).pbufring.cap ≡ p.pbufring.cap))
  unfolding drain
  drain-enter_all p ring =
      drain_ring-enter_all double h lib p.pbufring.count p.slots p.pbufring p.flowtab ring
        (omega (arith, ring.is_count))

  -- All packets of the ring enter the table `t` in their order, and the table is flushed; the ring is
  -- empty afterwards.
  abbrev pub Entered :
      (first n : ℕ) → B → Ring → (ℕ → PBuf) → FlowTab R T → W → Bool × Process R T B × W → Type 0
  Entered first n b ring slots t w u =
      let entered =
        enter_all double h lib (contents double h lib ring.elt_sz slots (held ring.cap first n))
          t in
      let flushed = tab_flush h (lib.write_flow b) false entered w in
      (u.1.flowtab ≡ flushed.1)
      × (flushed.0 ≡ false → (u.0 ≡ false) × (u.2 ≡ flushed.2))
      × ((i : ℕ) × IsRing u.1.pbufring i 0 × (u.1.pbufring.cap ≡ ring.cap))

  process_with-Entered :
      (b : B) (p : Process R T B) (w : W) {first n : ℕ}
      → IsRing p.pbufring first n
      → Entered first n b p.pbufring p.slots p.flowtab w (process_with double h lib (some b) p w)
  process_with-Entered b p w {first} {n} ring =
      let drained = drain-enter_all p ring in
      let q = drain double h lib p in
      let u = flush_rotate double h lib b q w in
      let flushed = flush_rotate-Flushed b q w in
      let on_table =
        subst
          (λ (t : FlowTab R T).
            let f = tab_flush h (lib.write_flow b) false t w in
            (u.1.flowtab ≡ f.1) × (f.0 ≡ false → (u.0 ≡ false) × (u.2 ≡ f.2)))
          (drained.0) (flushed.0, flushed.1) in
      (
        on_table.0,
        on_table.1,
        (drained.1.0, rw (flushed.2) (drained.1.1), rw (flushed.2) (drained.1.2)),
      )

  pub ready_none :
      (p : Process R T B) (w : W)
      → (ensure_output double h lib p w).0 ≡ none
      → (process_pbuf_ring double h lib p w).0 ≡ false
        × ((process_pbuf_ring double h lib p w).1 ≡ (ensure_output double h lib p w).1)
  unfolding process_pbuf_ring
  ready_none p w e = rw (e, process_pbuf_ring) (refl, refl)

  pub ready_some :
      (p : Process R T B) (w : W) (b : B)
      → (ensure_output double h lib p w).0 ≡ some b
      → process_pbuf_ring double h lib p w
        ≡ process_with double h lib
            (some b)
            (ensure_output double h lib p w).1
            (ensure_output double h lib p w).2
  unfolding process_pbuf_ring
  ready_some p w b e = rw (e, process_pbuf_ring) refl

  moved :
      (first n : ℕ) (u : Bool × Process R T B × W) (b : B) (q : Process R T B) (w : W)
      (p : Process R T B)
      → OnlyOutput p q
      → Entered first n b q.pbufring q.slots q.flowtab w u
      → Entered first n b p.pbufring p.slots p.flowtab w u
  moved first n u b q w p (t, r, s) e =
      subst (λ (x : FlowTab R T). Entered first n b p.pbufring p.slots x w u) t
        (subst (λ (x : ℕ → PBuf). Entered first n b p.pbufring x q.flowtab w u) s
          (subst (λ (x : Ring). Entered first n b x q.slots q.flowtab w u) r e))

  -- On a ring that holds `n` packets: if no output can be opened, this is reported and nothing is taken
  -- from the ring. Otherwise all packets of the ring enter the flow table in their order, but for those
  -- with time zero, and the table is flushed to the output; the ring is empty afterwards, also if the
  -- flush fails, which is reported, or the next output cannot be opened.
  pub process_pbuf_ring-enter_all :
      (p : Process R T B) (w : W) {first n : ℕ}
      → IsRing p.pbufring first n
      → let ready = ensure_output double h lib p w in
        let u = process_pbuf_ring double h lib p w in
        ((ready.0 ≡ none) × (u.0 ≡ false) × (u.1.flowtab ≡ p.flowtab) × (u.1.pbufring ≡ p.pbufring))
        ⊎ ((b : B) × (ready.0 ≡ some b) × Entered first n b p.pbufring p.slots p.flowtab ready.2 u)
  process_pbuf_ring-enter_all p w {first} {n} ring =
      let ready = ensure_output double h lib p w in
      let kept = ensure_output-OnlyOutput p w in
      elim (Option-cases (ready.0)) [
        | inl e ↦
            let none_left = ready_none p w e in
            inl (
              e,
              none_left.0,
              ap (λ (q : Process R T B). q.flowtab) none_left.1 ∙ kept.0,
              ap (λ (q : Process R T B). q.pbufring) none_left.1 ∙ kept.1,
            )
        | inr (b, e) ↦
            let same : IsRing ready.1.pbufring first n = rw kept.1 ring in
            let all = process_with-Entered b ready.1 ready.2 same in
            inr (
              b,
              e,
              rw (ready_some p w b e) (
                  moved first n (process_with double h lib (some b) ready.1 ready.2) b ready.1
                    ready.2 p kept all),
            )
      ]
