-- ===== src/PickQueue/Enter.antt =====
-- `piqEnQ` of src/picq.c against the list.
use qof.PickQueue.Spec
use mathlib.Core.Path.{subst}
use qof.Base.{
  List, [], ap, arith, false, if◌then◌else◌, refl, some, sym, true, ℕ, ◌&&◌, ◌++◌, ◌∙◌, ◌∷◌, ◌≡◌,
  ◌≢◌,
}
use qof.PickQueue.Heap.{Node, Store, en_q, is_null, set_head, set_n, set_p, set_tail, update}
use qof.PickQueue.Links.{
  Absent, Absent-last, Distinct, Linked-append, Linked-set_n, Linked-update, append-Absent, last,
  last-append, update_other, update_self,
}
use qof.PickQueue.Refine.{IsQueue, last_nonnull, not_null, null}

Absent-Distinct : (q : List ℕ) (a : ℕ) → Distinct q → Absent a q → Distinct (q ++ a ∷ [])
Absent-Distinct [] a d h = (tt, tt)
Absent-Distinct (x ∷ q) a d h =
    (append-Absent x q (a ∷ []) d.0 ((λ e. h.0 (sym e)), tt), Absent-Distinct q a d.1 h.1)

-- The store that `piqEnQ` leaves.
pub queued : ℕ → Store → Store
queued a s =
    let linked = if is_null s.queue.head then set_tail a s else set_n s.queue.head a s in
    set_head a (set_p a s.queue.head linked)

queued_null :
    (a : ℕ) (s : Store)
    → is_null s.queue.head ≡ true
    → queued a s ≡ set_head a (set_p a s.queue.head (set_tail a s))
unfolding queued
queued_null a s h = rw (h, queued) refl

queued_node :
    (a : ℕ) (s : Store)
    → is_null s.queue.head ≡ false
    → queued a s ≡ set_head a (set_p a s.queue.head (set_n s.queue.head a s))
unfolding queued
queued_node a s h = rw (h, queued) refl

queued-IsQueue :
    (s : Store) (a : ℕ) (q : List ℕ)
    → IsQueue s q
    → a ≢ 0
    → Absent a q
    → (s.node a).n ≡ 0
    → IsQueue (queued a s) (q ++ a ∷ [])
queued-IsQueue s a [] k nonnull absent free =
    let v : Node = record { p = 0; n = (s.node a).n } in
    let self = update_self s.node a v in
    let alone : IsQueue (set_head a (set_p a 0 (set_tail a s))) (a ∷ []) = record {
      links = (nonnull, ap (λ (m : Node). m.p) self, ap (λ (m : Node). m.n) self ∙ free, tt);
      distinct = (tt, tt);
      is_tail = refl;
      is_head = refl;
    } in
    subst (λ t. IsQueue t (a ∷ [])) (sym (queued_null a s (null _ _ k.is_head refl)))
      (subst (λ m. IsQueue (set_head a (set_p a m (set_tail a s))) (a ∷ [])) (sym k.is_head) alone)
queued-IsQueue s a (x ∷ xs) k nonnull absent free =
    let z = last x xs in
    let v : Node = record { p = (s.node z).p; n = a } in
    let f = update s.node z v in
    let w : Node = record { p = z; n = (f a).n } in
    let self = update_self f a w in
    let same = update_other s.node z a v (λ e. Absent-last a x xs absent (sym e)) in
    let behind : IsQueue (set_head a (set_p a z (set_n z a s))) (x ∷ xs ++ a ∷ []) = record {
      links =
          Linked-append (update f a w) 0 (x ∷ xs) (a ∷ []) 0
            (Linked-update f a w 0 (x ∷ xs) a absent
              (Linked-set_n s.node 0 x xs 0 a k.distinct k.links))
            (
              nonnull,
              ap (λ (m : Node). m.p) self,
              ap (λ (m : Node). m.n) self ∙ ap (λ (m : Node). m.n) same ∙ free,
              tt,
            );
      distinct = Absent-Distinct (x ∷ xs) a k.distinct absent;
      is_tail = k.is_tail;
      is_head = sym (last-append x xs (a ∷ []));
    } in
    let used = not_null s.queue.head z k.is_head (last_nonnull s.node 0 x xs 0 k.links) in
    subst (λ t. IsQueue t (x ∷ xs ++ a ∷ [])) (sym (queued_node a s used))
      (subst (λ m. IsQueue (set_head a (set_p a m (set_n m a s))) (x ∷ xs ++ a ∷ []))
        (sym k.is_head) behind)

-- A node that is not null, has no links and is not in the queue is taken into the queue on the heap as
-- the list takes it, at its head.
pub en_q-IsQueue :
    (s : Store) (a : ℕ) (q : List ℕ)
    → IsQueue s q
    → a ≢ 0
    → Absent a q
    → (s.node a).p ≡ 0
    → (s.node a).n ≡ 0
    → (t : Store) × (en_q a s ≡ some t) × IsQueue t (Spec.enq q a)
unfolding en_q queued
en_q-IsQueue s a q k nonnull absent no_p no_n =
    let free : (is_null (s.node a).n && is_null (s.node a).p) ≡ true = ground (arith, no_p, no_n) in
    (queued a s, rw (free, en_q) refl, queued-IsQueue s a q k nonnull absent no_n)
