-- ===== src/PickQueue/Links.antt =====
-- Doubly linked segments in the heap of src/picq.c.
use qof.Base.{List, [], ap, arith, refl, sym, ℕ, ◌++◌, ◌∙◌, ◌∷◌, ◌≡◌, ◌≢◌}
use qof.PickQueue.Heap.{Node, update}

-- The first and the last node of a segment, or what stands there if it is empty.
abbrev pub first : List ℕ → ℕ → ℕ
first [] n = n
first (m ∷ q) n = m

abbrev pub last : ℕ → List ℕ → ℕ
last p [] = p
last p (m ∷ q) = last m q

-- The nodes of `q` are linked, the first one back to `p` and the last one on to `n`.
abbrev pub Linked : (ℕ → Node) → ℕ → List ℕ → ℕ → Type 0
Linked f p [] n = Unit
Linked f p (m ∷ q) n = (m ≢ 0) × ((f m).p ≡ p) × ((f m).n ≡ first q n) × Linked f m q n

abbrev pub Absent : ℕ → List ℕ → Type 0
Absent a [] = Unit
Absent a (m ∷ q) = (a ≢ m) × Absent a q

abbrev pub Distinct : List ℕ → Type 0
Distinct [] = Unit
Distinct (m ∷ q) = Absent m q × Distinct q

pub update_self : (f : ℕ → Node) (a : ℕ) (v : Node) → update f a v a ≡ v
update_self f a v = ground arith

pub update_other : (f : ℕ → Node) (a b : ℕ) (v : Node) → a ≢ b → update f a v b ≡ f b
update_other f a b v h = ground arith

-- A write to a node that is not in a segment leaves the segment alone.
pub Linked-update :
    (f : ℕ → Node) (a : ℕ) (v : Node) (p : ℕ) (q : List ℕ) (n : ℕ)
    → Absent a q
    → Linked f p q n
    → Linked (update f a v) p q n
Linked-update f a v p [] n h l = tt
Linked-update f a v p (m ∷ q) n h l =
    let same = update_other f a m v h.0 in
    (
      l.0,
      ap (λ (x : Node). x.p) same ∙ l.1,
      ap (λ (x : Node). x.n) same ∙ l.2,
      Linked-update f a v m q n h.1 l.3,
    )

first-append : (xs ys : List ℕ) (n : ℕ) → first (xs ++ ys) n ≡ first xs (first ys n)
first-append [] ys n = refl
first-append (x ∷ xs) ys n = refl

pub last-append : (p : ℕ) (xs ys : List ℕ) → last p (xs ++ ys) ≡ last (last p xs) ys
last-append p [] ys = refl
last-append p (x ∷ xs) ys = last-append x xs ys

-- Cutting a segment in two, and joining two.
pub Linked-take :
    (f : ℕ → Node) (p : ℕ) (xs ys : List ℕ) (n : ℕ)
    → Linked f p (xs ++ ys) n
    → Linked f p xs (first ys n) × Linked f (last p xs) ys n
Linked-take f p [] ys n l = (tt, l)
Linked-take f p (m ∷ xs) ys n l =
    let rest = Linked-take f m xs ys n l.3 in
    ((l.0, l.1, l.2 ∙ first-append xs ys n, rest.0), rest.1)

pub Linked-append :
    (f : ℕ → Node) (p : ℕ) (xs ys : List ℕ) (n : ℕ)
    → Linked f p xs (first ys n)
    → Linked f (last p xs) ys n
    → Linked f p (xs ++ ys) n
Linked-append f p [] ys n l k = k
Linked-append f p (m ∷ xs) ys n l k =
    (l.0, l.1, l.2 ∙ sym (first-append xs ys n), Linked-append f m xs ys n l.3 k)

pub Absent-last : (a y : ℕ) (xs : List ℕ) → Absent a (y ∷ xs) → a ≢ last y xs
Absent-last a y [] h = h.0
Absent-last a y (x ∷ xs) h = Absent-last a x xs h.1

-- The last node of a segment is linked on to another node.
pub Linked-set_n :
    (f : ℕ → Node) (p x : ℕ) (xs : List ℕ) (n n' : ℕ)
    → Distinct (x ∷ xs)
    → Linked f p (x ∷ xs) n
    → Linked (update f (last x xs) (record { p = (f (last x xs)).p; n = n' })) p (x ∷ xs) n'
Linked-set_n f p x [] n n' d l =
    let self = update_self f x (record { p = (f x).p; n = n' }) in
    (l.0, ap (λ (v : Node). v.p) self ∙ l.1, ap (λ (v : Node). v.n) self, tt)
Linked-set_n f p x (y ∷ xs) n n' d l =
    let z = last y xs in
    let same =
      update_other f z x (record { p = (f z).p; n = n' }) (λ e. Absent-last x y xs d.0 (sym e)) in
    (
      l.0,
      ap (λ (v : Node). v.p) same ∙ l.1,
      ap (λ (v : Node). v.n) same ∙ l.2,
      Linked-set_n f x y xs n n' d.1 l.3,
    )

-- The first node of a segment is linked back to another node.
pub Linked-set_p :
    (f : ℕ → Node) (p p' x : ℕ) (xs : List ℕ) (n : ℕ)
    → Distinct (x ∷ xs)
    → Linked f p (x ∷ xs) n
    → Linked (update f x (record { p = p'; n = (f x).n })) p' (x ∷ xs) n
Linked-set_p f p p' x xs n d l =
    let v : Node = record { p = p'; n = (f x).n } in
    let self = update_self f x v in
    (
      l.0,
      ap (λ (w : Node). w.p) self,
      ap (λ (w : Node). w.n) self ∙ l.2,
      Linked-update f x v x xs n d.0 l.3,
    )

-- What distinctness says of the parts.
pub Absent-append : (a : ℕ) (xs ys : List ℕ) → Absent a (xs ++ ys) → Absent a xs × Absent a ys
Absent-append a [] ys h = (tt, h)
Absent-append a (x ∷ xs) ys h = let r = Absent-append a xs ys h.1 in ((h.0, r.0), r.1)

pub append-Absent : (a : ℕ) (xs ys : List ℕ) → Absent a xs → Absent a ys → Absent a (xs ++ ys)
append-Absent a [] ys h k = k
append-Absent a (x ∷ xs) ys h k = (h.0, append-Absent a xs ys h.1 k)

-- A queue with a node `a` in the middle, and the queue without it.
pub record Apart (xs : List ℕ) (a : ℕ) (ys : List ℕ) : Type 0 where
  pub left : Distinct xs
  pub right : Distinct ys
  pub a_left : Absent a xs
  pub a_right : Absent a ys
  pub rest : Distinct (xs ++ ys)

pub Distinct-Apart : (xs : List ℕ) (a : ℕ) (ys : List ℕ) → Distinct (xs ++ a ∷ ys) → Apart xs a ys
Distinct-Apart [] a ys d = record { left = tt; right = d.1; a_left = tt; a_right = d.0; rest = d.1 }
Distinct-Apart (x ∷ xs) a ys d =
    let r = Distinct-Apart xs a ys d.1 in
    let h = Absent-append x xs (a ∷ ys) d.0 in
    record {
      left = (h.0, r.left);
      right = r.right;
      a_left = ((λ e. h.1.0 (sym e)), r.a_left);
      a_right = r.a_right;
      rest = (append-Absent x xs ys h.0 h.1.1, r.rest);
    }

pub last-Absent : (x : ℕ) (xs ys : List ℕ) → Distinct (x ∷ xs ++ ys) → Absent (last x xs) ys
last-Absent x [] ys d = d.0
last-Absent x (y ∷ xs) ys d = last-Absent y xs ys d.1

pub first-Absent : (xs : List ℕ) (y : ℕ) (ys : List ℕ) → Distinct (xs ++ y ∷ ys) → Absent y xs
first-Absent xs y ys d = (Distinct-Apart xs y ys d).a_left
