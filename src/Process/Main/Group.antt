-- ===== src/Process/Main/Group.antt =====
-- A group of packets of a trace in src/qofltrace.c.
use qof.Base.{
  Bool, Bool-cases, List, [], arith, inl, inr, length, refl, some, suc, zero, ℕ, ◌*◌, ◌+◌, ◌<◌, ◌∙◌,
  ◌∷◌, ◌≡◌, ◌≤◌,
}
use qof.Packet.{PBuf}
use qof.Stats.{Double}
use qof.Decode.Run.{Run, ok}
use qof.Flow.Table.{HashTable}
use qof.Process.Output.{Library}
use qof.Process.Main.{
  Left, Loop, Read, broken, captured, end_of_trace, fill_group, fill_slot, go_on, no_packet,
  set_slot, whole,
}
use qof.Ring.Queue.{IsRing, next_head-IsRing}
use qof.Ring.{Ring, next_head}

module _ {P : Type 0} where
  -- Packets only.
  abbrev pub AllCaptured : List (Read P) → Type 0
  AllCaptured [] = Unit
  AllCaptured (captured raw ∷ inputs) = AllCaptured inputs
  AllCaptured (no_packet is_err ∷ inputs) = ⊥

  -- How many calls are left behind a packet, or `n` packets, that was looked for among `inputs`.
  abbrev pub Behind : ℕ → Left → (inputs rest : List (Read P)) → Type 0
  Behind n whole inputs rest = n + length rest ≤ length inputs
  Behind n end_of_trace inputs rest = Unit
  Behind n (broken is_err) inputs rest = length rest < length inputs

  -- Where there are packets only, they are too few or there are packets only behind those taken.
  abbrev pub Ahead : Left → (inputs rest : List (Read P)) → Type 0
  Ahead whole inputs rest = AllCaptured inputs → AllCaptured rest
  Ahead end_of_trace inputs rest = Unit
  Ahead (broken is_err) inputs rest = AllCaptured inputs → ⊥

  Behind-more :
      (left : Left) (i : Read P) (inputs rest : List (Read P))
      → Behind 1 left inputs rest
      → Behind 1 left (i ∷ inputs) rest
  Behind-more whole i inputs rest b = omega (arith, b)
  Behind-more end_of_trace i inputs rest b = tt
  Behind-more (broken is_err) i inputs rest b = omega (arith, b)

  Ahead-more :
      (left : Left) (raw : P) (inputs rest : List (Read P))
      → Ahead left inputs rest
      → Ahead left (captured raw ∷ inputs) rest
  Ahead-more whole raw inputs rest a = a
  Ahead-more end_of_trace raw inputs rest a = tt
  Ahead-more (broken is_err) raw inputs rest a = a

  further :
      (n : ℕ) (left : Left) (inputs middle rest : List (Read P))
      → Behind 1 whole inputs middle
      → Behind n left middle rest
      → Behind (suc n) left inputs rest
  further n whole inputs middle rest b c = omega (arith, b, c)
  further n end_of_trace inputs middle rest b c = tt
  further n (broken is_err) inputs middle rest b c = omega (arith, b, c)

  further-Ahead :
      (left : Left) (inputs middle rest : List (Read P))
      → Ahead whole inputs middle
      → Ahead left middle rest
      → Ahead left inputs rest
  further-Ahead whole inputs middle rest a c = λ all. c (a all)
  further-Ahead end_of_trace inputs middle rest a c = tt
  further-Ahead (broken is_err) inputs middle rest a c = λ all. c (a all)

head_cap : (r : Ring) → (next_head r).1.cap ≡ r.cap
unfolding next_head
head_cap r = ground arith

module _ {R T B W P S : Type 0} (double : Double R) (h : HashTable T) (lib : Library R B W)
    (handle : P → PBuf → S → Run (Bool × PBuf × S)) where
  -- In a good state the handler returns for every packet, and leaves a good state.
  abbrev pub Returns : (Good : S → Type 0) → Type 0
  Returns Good =
      (raw : P) (pbuf : PBuf) (s : S)
      → Good s
      → (r : Bool × PBuf × S) × (handle raw pbuf s ≡ ok r) × Good r.2

  module _ (Good : S → Type 0) (returns : Returns Good) where
    fill_slot-total :
        (inputs : List (Read P)) (pbuf : PBuf) (s : S)
        → Good s
        → (r : Left × PBuf × S × List (Read P)) × (fill_slot double h lib handle inputs pbuf s
            ≡ ok r)
          × Behind 1 r.0 inputs r.3
          × Ahead r.0 inputs r.3
          × Good r.2
    unfolding fill_slot
    fill_slot-total [] pbuf s good = ((end_of_trace, pbuf, s, []), refl, tt, tt, good)
    fill_slot-total (no_packet is_err ∷ inputs) pbuf s good =
        ((broken is_err, pbuf, s, inputs), refl, omega arith, λ a. a, good)
    fill_slot-total (captured raw ∷ inputs) pbuf s good =
        let (r, e, kept) = returns raw pbuf s good in
        let rest = fill_slot-total inputs r.1 r.2 kept in
        elim (Bool-cases (r.0)) [
          | inl t ↦ ((whole, r.1, r.2, inputs), rw (e, t) refl, omega arith, λ a. a, kept)
          | inr t ↦ (
            rest.0,
            rw (e, t) rest.1,
            Behind-more (rest.0.0) (captured raw) inputs (rest.0.3) rest.2,
            Ahead-more (rest.0.0) raw inputs (rest.0.3) rest.3,
            rest.4,
          )
        ]

    -- The state of the loop with a slot filled.
    abbrev with_slot :
        ℕ → Ring → PBuf × S × List (Read P) → Loop double h lib handle → Loop double h lib handle
    with_slot a ring (pbuf, s, inputs) l = record l {
      process = set_slot double h lib handle a pbuf (record (l.process) { pbufring = ring });
      handler = s;
      inputs = inputs;
    }

    start_group :
        (l : Loop double h lib handle) → fill_group double h lib handle zero l ≡ ok (whole, l)
    unfolding fill_group
    start_group l = refl

    fill_group_one :
        (n a : ℕ) (l : Loop double h lib handle) (left : Left) (r : PBuf × S × List (Read P))
        → (next_head l.process.pbufring).0 ≡ some a
        → fill_slot double h lib handle l.inputs (l.process.slots a) l.handler
          ≡ ok (left, r.0, r.1, r.2)
        → let filled = with_slot a (next_head l.process.pbufring).1 r l in
          fill_group double h lib handle (suc n) l
          ≡ go_on double h lib handle left filled (fill_group double h lib handle n filled)
    unfolding fill_group
    fill_group_one n a l left r e f = rw (e, fill_group) (rw f refl)

    -- What a group leaves: `n` packets less to come if it is whole, and the table, the output and the
    -- world as they were.
    pub record Filled (n : ℕ) (l : Loop double h lib handle) (r : Left × Loop double h lib handle)
        : Type 0 where
      pub table : r.1.process.flowtab ≡ l.process.flowtab
      pub output : r.1.process.octx ≡ l.process.octx
      pub outside : r.1.world ≡ l.world
      pub room : r.1.process.pbufring.cap ≡ l.process.pbufring.cap
      pub behind : Behind n r.0 l.inputs r.1.inputs
      pub ahead : Ahead r.0 l.inputs r.1.inputs
      pub ring : (i k : ℕ) × IsRing r.1.process.pbufring i k
      pub good : Good r.1.handler

    onwards :
        (n : ℕ) (l m : Loop double h lib handle) (left : Left) (i k : ℕ)
        → m.process.flowtab ≡ l.process.flowtab
        → m.process.octx ≡ l.process.octx
        → m.world ≡ l.world
        → m.process.pbufring.cap ≡ l.process.pbufring.cap
        → IsRing m.process.pbufring i k
        → Good m.handler
        → Behind 1 left l.inputs m.inputs
        → Ahead left l.inputs m.inputs
        → (r : Left × Loop double h lib handle) × (fill_group double h lib handle n m ≡ ok r)
          × Filled n m r
        → (r : Left × Loop double h lib handle) × (go_on double h lib handle left m
              (fill_group double h lib handle n m)
            ≡ ok r)
          × Filled (suc n) l r
    onwards n l m whole i k t o w c ring good b a (r, e, f) = (
      r,
      e,
      record {
        table = f.table ∙ t;
        output = f.output ∙ o;
        outside = f.outside ∙ w;
        room = f.room ∙ c;
        behind = further n r.0 l.inputs m.inputs r.1.inputs b f.behind;
        ahead = further-Ahead r.0 l.inputs m.inputs r.1.inputs a f.ahead;
        ring = f.ring;
        good = f.good;
      },
    )
    onwards n l m end_of_trace i k t o w c ring good b a ih = (
      (end_of_trace, m),
      refl,
      record {
        table = t;
        output = o;
        outside = w;
        room = c;
        behind = tt;
        ahead = tt;
        ring = (i, k, ring);
        good = good;
      },
    )
    onwards n l m (broken is_err) i k t o w c ring good b a ih = (
      (broken is_err, m),
      refl,
      record {
        table = t;
        output = o;
        outside = w;
        room = c;
        behind = b;
        ahead = a;
        ring = (i, k, ring);
        good = good;
      },
    )

    pub fill_group-total :
        (n : ℕ) (l : Loop double h lib handle) (first k : ℕ)
        → IsRing l.process.pbufring first k
        → k + n ≤ l.process.pbufring.cap
        → Good l.handler
        → (r : Left × Loop double h lib handle) × (fill_group double h lib handle n l ≡ ok r)
          × Filled n l r
    fill_group-total zero l first k ring le good = (
      (whole, l),
      start_group l,
      record {
        table = refl;
        output = refl;
        outside = refl;
        room = refl;
        behind = omega arith;
        ahead = λ a. a;
        ring = (first, k, ring);
        good = good;
      },
    )
    fill_group-total (suc n) l first k ring le good =
        elim (next_head-IsRing l.process.pbufring ring) [
          | inl (full, e) ↦ absurd (omega arith)
          | inr (s, e, fresh, ring', more) ↦
              let a = l.process.pbufring.elt_sz * s in
              let slot = fill_slot-total l.inputs (l.process.slots a) l.handler good in
              let r = slot.0 in
              let m = with_slot a (next_head l.process.pbufring).1 (r.1, r.2, r.3) l in
              let same = head_cap l.process.pbufring in
              rw (fill_group_one n a l r.0 (r.1, r.2, r.3) e slot.1) (
                onwards n l m r.0 first (suc k) refl refl refl same ring' slot.4 slot.2 slot.3
                  (fill_group-total n m first (suc k) ring' (omega (arith, same, le)) slot.4))
        ]
