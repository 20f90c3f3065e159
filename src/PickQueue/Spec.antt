-- ===== src/PickQueue/Spec.antt =====
-- The queue of src/picq.c as the list of its nodes, the tail first and the head last.
use qof.Base.{List, [], if◌then◌else◌, ℕ, ◌++◌, ◌==◌, ◌∷◌}

abbrev pub Queue : Type 0
Queue = List ℕ

abbrev pub enq : Queue → ℕ → Queue
enq q n = q ++ (n ∷ [])

abbrev pub unshift : Queue → ℕ → Queue
unshift q n = n ∷ q

-- A node that is not in the queue is left alone.
abbrev pub pick : Queue → ℕ → Queue
pick [] n = []
pick (m ∷ q) n = if m == n then q else m ∷ pick q n

abbrev pub tail : Queue → ℕ
tail [] = 0
tail (m ∷ q) = m

abbrev pub head : Queue → ℕ
head [] = 0
head (m ∷ []) = m
head (m ∷ k ∷ q) = head (k ∷ q)
