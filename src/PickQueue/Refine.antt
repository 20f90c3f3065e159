-- ===== src/PickQueue/Refine.antt =====
-- The functions of src/picq.c on nodes do what PickQueue/Spec says of lists.
use qof.PickQueue.Spec
use mathlib.Core.Path.{subst}
use qof.Base.{
  Bool, List, [], ap, arith, false, not, refl, sym, true, ℕ, ◌&&◌, ◌++◌, ◌==◌, ◌∙◌, ◌∷◌, ◌≡◌, ◌≢◌,
}
use qof.PickQueue.Heap.{
  Node, Store, connect_next, connect_previous, de_q, is_null, pick, set_head, set_n, set_p,
  set_tail, update,
}
use qof.PickQueue.Links.{
  Absent, Absent-last, Apart, Distinct, Distinct-Apart, Linked, Linked-append, Linked-set_n,
  Linked-set_p, Linked-take, Linked-update, first, first-Absent, last, last-Absent, last-append,
  update_other,
}

-- The store holds the queue `q`, the tail first.
pub record IsQueue (s : Store) (q : List ℕ) : Type 0 where
  pub links : Linked s.node 0 q 0
  pub distinct : Distinct q
  pub is_tail : s.queue.tail ≡ first q 0
  pub is_head : s.queue.head ≡ last 0 q

pub last_nonnull :
    (f : ℕ → Node) (p x : ℕ) (xs : List ℕ) (n : ℕ) → Linked f p (x ∷ xs) n → last x xs ≢ 0
last_nonnull f p x [] n l = l.0
last_nonnull f p x (y ∷ xs) n l = last_nonnull f x y xs n l.3

-- A node `a` between the segments `xs` and `ys`.
record Between (s : Store) (xs : List ℕ) (a : ℕ) (ys : List ℕ) : Type 0 where
  nonnull : a ≢ 0
  back : (s.node a).p ≡ last 0 xs
  on : (s.node a).n ≡ first ys 0

-- After the first step the nodes before are linked on past `a`.
record Skipped (s : Store) (xs : List ℕ) (a : ℕ) (ys : List ℕ) (t : Store) : Type 0 where
  before : Linked t.node 0 xs (first ys 0)
  behind : Linked t.node a ys 0
  kept : t.node a ≡ s.node a
  is_tail : t.queue.tail ≡ first (xs ++ ys) 0
  is_head : t.queue.head ≡ s.queue.head

module _ (a : ℕ) (s : Store) where
  previous_null : is_null (s.node a).p ≡ true → connect_previous a s ≡ set_tail (s.node a).n s
  unfolding connect_previous
  previous_null h = rw (h, connect_previous) refl

  previous_node :
      is_null (s.node a).p ≡ false → connect_previous a s ≡ set_n (s.node a).p (s.node a).n s
  unfolding connect_previous
  previous_node h = rw (h, connect_previous) refl

  next_null : is_null (s.node a).n ≡ true → connect_next a s ≡ set_head (s.node a).p s
  unfolding connect_next
  next_null h = rw (h, connect_next) refl

  next_node : is_null (s.node a).n ≡ false → connect_next a s ≡ set_p (s.node a).n (s.node a).p s
  unfolding connect_next
  next_node h = rw (h, connect_next) refl

pub null : (a b : ℕ) → a ≡ b → b ≡ 0 → is_null a ≡ true
null a b e h = ground arith

pub not_null : (a b : ℕ) → a ≡ b → b ≢ 0 → is_null a ≡ false
not_null a b e h = ground arith

connect_previous-Skipped :
    (s : Store) (xs : List ℕ) (a : ℕ) (ys : List ℕ)
    → Between s xs a ys
    → Apart xs a ys
    → Linked s.node 0 xs a
    → Linked s.node a ys 0
    → s.queue.tail ≡ first (xs ++ a ∷ ys) 0
    → Skipped s xs a ys (connect_previous a s)
connect_previous-Skipped s [] a ys b apart l r e =
    subst (Skipped s [] a ys) (sym (previous_null a s (null _ _ b.back refl)))
      (record { before = tt; behind = r; kept = refl; is_tail = b.on; is_head = refl })
connect_previous-Skipped s (x ∷ xs) a ys b apart l r e =
    let z = last x xs in
    let v : Node = record { p = (s.node z).p; n = first ys 0 } in
    let linked : Skipped s (x ∷ xs) a ys (set_n z (first ys 0) s) = record {
      before = Linked-set_n s.node 0 x xs a (first ys 0) apart.left l;
      behind = Linked-update s.node z v a ys 0 (last-Absent x xs ys apart.rest) r;
      kept = update_other s.node z a v (λ eq. Absent-last a x xs apart.a_left (sym eq));
      is_tail = e;
      is_head = refl;
    } in
    subst (Skipped s (x ∷ xs) a ys)
      (sym (previous_node a s (not_null _ _ b.back (last_nonnull _ _ _ _ _ l))))
      (subst (λ m. Skipped s (x ∷ xs) a ys (set_n (s.node a).p m s)) (sym b.on)
        (subst (λ m. Skipped s (x ∷ xs) a ys (set_n m (first ys 0) s)) (sym b.back) linked))

-- After the second step the two segments are joined, and `a` is still linked to them.
record Bypassed (xs : List ℕ) (ys : List ℕ) (u : Store) : Type 0 where
  before : Linked u.node 0 xs (first ys 0)
  behind : Linked u.node (last 0 xs) ys 0
  is_tail : u.queue.tail ≡ first (xs ++ ys) 0
  is_head : u.queue.head ≡ last 0 (xs ++ ys)

connect_next-Bypassed :
    (s t : Store) (xs : List ℕ) (a : ℕ) (ys : List ℕ)
    → Between s xs a ys
    → Apart xs a ys
    → s.queue.head ≡ last 0 (xs ++ a ∷ ys)
    → Skipped s xs a ys t
    → Bypassed xs ys (connect_next a t)
connect_next-Bypassed s t xs a [] b apart e k =
    let back : (t.node a).p ≡ last 0 xs = ap (λ (v : Node). v.p) k.kept ∙ b.back in
    let on : (t.node a).n ≡ 0 = ap (λ (v : Node). v.n) k.kept ∙ b.on in
    subst (Bypassed xs []) (sym (next_null a t (null _ _ on refl))) (record {
      before = k.before;
      behind = tt;
      is_tail = k.is_tail;
      is_head = back ∙ sym (last-append 0 xs []);
    })
connect_next-Bypassed s t xs a (y ∷ ys) b apart e k =
    let back : (t.node a).p ≡ last 0 xs = ap (λ (v : Node). v.p) k.kept ∙ b.back in
    let on : (t.node a).n ≡ y = ap (λ (v : Node). v.n) k.kept ∙ b.on in
    let v : Node = record { p = last 0 xs; n = (t.node y).n } in
    let joined : Bypassed xs (y ∷ ys) (set_p y (last 0 xs) t) = record {
      before = Linked-update t.node y v 0 xs y (first-Absent xs y ys apart.rest) k.before;
      behind = Linked-set_p t.node a (last 0 xs) y ys 0 apart.right k.behind;
      is_tail = k.is_tail;
      is_head = k.is_head ∙ e ∙ last-append 0 xs (a ∷ y ∷ ys) ∙ sym (last-append 0 xs (y ∷ ys));
    } in
    subst (Bypassed xs (y ∷ ys)) (sym (next_node a t (not_null _ _ on (k.behind.0)))) (
      subst (λ m. Bypassed xs (y ∷ ys) (set_p (t.node a).n m t)) (sym back)
        (subst (λ m. Bypassed xs (y ∷ ys) (set_p m (last 0 xs) t)) (sym on) joined))

-- The early return of `piqPick`.
unlinked : ℕ → Store → Bool
unlinked a s =
    is_null (s.node a).n && is_null (s.node a).p && not ((a == s.queue.head) && (a == s.queue.tail))

pick_taken :
    (a : ℕ) (s : Store)
    → unlinked a s ≡ false
    → pick a s ≡ set_p a 0 (set_n a 0 (connect_next a (connect_previous a s)))
unfolding pick unlinked
pick_taken a s h = rw (h, pick) refl

-- A node of the queue is linked, or is all of it.
unlinked-false :
    (s : Store) (xs : List ℕ) (a : ℕ) (ys : List ℕ)
    → Between s xs a ys
    → Linked s.node 0 xs a
    → Linked s.node a ys 0
    → s.queue.tail ≡ first (xs ++ a ∷ ys) 0
    → s.queue.head ≡ last 0 (xs ++ a ∷ ys)
    → unlinked a s ≡ false
unfolding unlinked
unlinked-false s [] a [] b l r e f = ground (arith, e, f)
unlinked-false s [] a (y ∷ ys) b l r e f = rw (not_null (s.node a).n y b.on r.0) refl
unlinked-false s (x ∷ xs) a ys b l r e f =
    ground (arith, not_null (s.node a).p (last x xs) b.back (last_nonnull s.node 0 x xs a l))

cleared :
    (xs : List ℕ) (a : ℕ) (ys : List ℕ) (u : Store)
    → Apart xs a ys
    → Bypassed xs ys u
    → IsQueue (set_p a 0 (set_n a 0 u)) (xs ++ ys)
cleared xs a ys u apart k =
    let f = u.node in
    let v : Node = record { p = (f a).p; n = 0 } in
    let w : Node = record { p = 0; n = (update f a v a).n } in
    let left =
      Linked-update (update f a v) a w 0 xs (first ys 0) apart.a_left
        (Linked-update f a v 0 xs (first ys 0) apart.a_left k.before) in
    let right =
      Linked-update (update f a v) a w (last 0 xs) ys 0 apart.a_right
        (Linked-update f a v (last 0 xs) ys 0 apart.a_right k.behind) in
    record {
      links = Linked-append (update (update f a v) a w) 0 xs ys 0 left right;
      distinct = apart.rest;
      is_tail = k.is_tail;
      is_head = k.is_head;
    }

spec_pick :
    (xs : List ℕ) (a : ℕ) (ys : List ℕ) → Absent a xs → Spec.pick (xs ++ a ∷ ys) a ≡ xs ++ ys
spec_pick [] a ys h = ground arith
spec_pick (x ∷ xs) a ys h = ground (arith, spec_pick xs a ys h.1, h.0)

-- Picking a node out of a queue on the heap, wherever it stands, leaves the queue that picking it out
-- of the list gives: the nodes before and behind it.
pub pick-IsQueue :
    (s : Store) (xs : List ℕ) (a : ℕ) (ys : List ℕ)
    → IsQueue s (xs ++ a ∷ ys)
    → (Spec.pick (xs ++ a ∷ ys) a ≡ xs ++ ys) × IsQueue (pick a s) (xs ++ ys)
pick-IsQueue s xs a ys q =
    let parts = Linked-take s.node 0 xs (a ∷ ys) 0 q.links in
    let apart = Distinct-Apart xs a ys q.distinct in
    let b : Between s xs a ys = record { nonnull = parts.1.0; back = parts.1.1; on = parts.1.2 } in
    let skipped = connect_previous-Skipped s xs a ys b apart parts.0 parts.1.3 q.is_tail in
    let bypassed = connect_next-Bypassed s _ xs a ys b apart q.is_head skipped in
    let taken = pick_taken a s (unlinked-false s xs a ys b parts.0 parts.1.3 q.is_tail q.is_head) in
    (
      spec_pick xs a ys apart.a_left,
      subst (λ t. IsQueue t (xs ++ ys)) (sym taken) (cleared xs a ys _ apart bypassed),
    )

-- Taking the tail off a queue on the heap returns the first node of the list and leaves the rest.
pub de_q-IsQueue :
    (s : Store) (a : ℕ) (q : List ℕ)
    → IsQueue s (a ∷ q)
    → ((de_q s).0 ≡ Spec.tail (a ∷ q)) × IsQueue (de_q s).1 q
unfolding de_q
de_q-IsQueue s a q k =
    let some_tail : is_null s.queue.tail ≡ false = not_null _ _ k.is_tail (k.links.0) in
    let picked = subst (λ m. IsQueue (pick m s) q) (sym k.is_tail) (pick-IsQueue s [] a q k).1 in
    rw (some_tail, de_q) (k.is_tail, picked)
