-- ===== src/PickQueue/Members.antt =====
-- Which nodes a queue of src/picq.c holds after an operation.
use mathlib.Core.Path.{subst}
use qof.PickQueue.Spec
use qof.Base.{
  ==_iff, Bool, Bool-cases, List, [], arith, false, inl, inr, length, length-append, not, refl, suc,
  true, ℕ, ◌&&◌, ◌<◌, ◌==◌, ◌||◌, ◌∷◌, ◌≡◌, ◌⊎◌,
}

abbrev pub has : List ℕ → ℕ → Bool
has [] n = false
has (m ∷ q) n = (m == n) || has q n

-- No node is in the queue twice.
abbrev pub IsDistinct : List ℕ → Type 0
IsDistinct [] = Unit
IsDistinct (m ∷ q) = (has q m ≡ false) × IsDistinct q

pub has-enq : (q : List ℕ) (n m : ℕ) → has (Spec.enq q n) m ≡ (has q m || (n == m))
has-enq [] n m = ground arith
has-enq (k ∷ q) n m = ground (arith, has-enq q n m)

pub IsDistinct-enq :
    (q : List ℕ) (n : ℕ) → has q n ≡ false → IsDistinct q → IsDistinct (Spec.enq q n)
IsDistinct-enq [] n h d = (refl, tt)
IsDistinct-enq (k ∷ q) n h d = ground (arith, has-enq q n k, IsDistinct-enq q n (ground arith) d.1)

pub pick-absent : (q : List ℕ) (n : ℕ) → has q n ≡ false → Spec.pick q n ≡ q
pick-absent [] n h = refl
pick-absent (k ∷ q) n h = ground (arith, pick-absent q n)

pub has-pick :
    (q : List ℕ) (n m : ℕ) → IsDistinct q → has (Spec.pick q n) m ≡ (has q m && not (n == m))
has-pick [] n m d = refl
has-pick (k ∷ q) n m d = ground (arith, has-pick q n m d.1)

pub IsDistinct-pick : (q : List ℕ) (n : ℕ) → IsDistinct q → IsDistinct (Spec.pick q n)
IsDistinct-pick [] n d = tt
IsDistinct-pick (k ∷ q) n d = ground (arith, IsDistinct-pick q n d.1, has-pick q n k d.1)

pub length-pick : (q : List ℕ) (n : ℕ) → has q n ≡ true → length q ≡ suc (length (Spec.pick q n))
length-pick [] n h = ground arith
length-pick (k ∷ q) n h = ground (arith, length-pick q n)

-- The head of a queue is in it, and is no node if the queue is empty.
pub has-head : (q : List ℕ) (n : ℕ) → 0 < n → Spec.head q ≡ n → has q n ≡ true
has-head [] n p h = ground arith
has-head (k ∷ []) n p h = ground arith
has-head (k ∷ j ∷ q) n p h = ground (arith, has-head (j ∷ q) n p h)

eq_self : (n : ℕ) → (n == n) ≡ true
eq_self n = ground arith

-- Taking a node out of the queue, or out of the queue with it in front.
pub pick_place :
    (n : ℕ) (q p : List ℕ) → IsDistinct q → (q ≡ p) ⊎ (q ≡ n ∷ p) → Spec.pick q n ≡ Spec.pick p n
pick_place n q p d (inl e) = rw e refl
pick_place n q p d (inr e) =
    let own : IsDistinct (n ∷ p) = subst IsDistinct e d in
    rw (e, pick-absent p n own.0, eq_self n) refl

-- A node that moves to the head of its queue.
pub length-moved :
    (q : List ℕ) (n : ℕ) → has q n ≡ true → length (Spec.enq (Spec.pick q n) n) ≡ length q
length-moved q n e = omega (arith, length-pick q n e, length-append (Spec.pick q n) (n ∷ []))

pub has-moved :
    (q : List ℕ) (n m : ℕ)
    → IsDistinct q
    → has q n ≡ true
    → has (Spec.enq (Spec.pick q n) n) m ≡ has q m
has-moved q n m d e = elim (Bool-cases (n == m)) [
  | inl same ↦
      let one : has q m ≡ true = subst (λ k. has q k ≡ true) ((==_iff n m).0 same) e in
      ground (arith, has-enq (Spec.pick q n) n m, one, same)
  | inr other ↦ ground (arith, has-enq (Spec.pick q n) n m, has-pick q n m d, other)
]

pub moved-IsDistinct : (q : List ℕ) (n : ℕ) → IsDistinct q → IsDistinct (Spec.enq (Spec.pick q n) n)
moved-IsDistinct q n d =
    IsDistinct-enq (Spec.pick q n) n (ground (arith, has-pick q n n d, eq_self n))
      (IsDistinct-pick q n d)
