-- ===== src/PickQueue/Heap.antt =====
-- The functions of src/picq.c on a heap.
use qof.Base.{Bool, Option, if◌then◌else◌, none, not, some, ℕ, ◌&&◌, ◌==◌}

-- `PicQNode` and `PicQ`
pub record Node : Type 0 where
  pub p : ℕ
  pub n : ℕ

pub record PicQ : Type 0 where
  pub tail : ℕ
  pub head : ℕ

-- The nodes by address, and the queue that is worked on.
pub record Store : Type 0 where
  pub node : ℕ → Node
  pub queue : PicQ

abbrev pub is_null : ℕ → Bool
is_null a = a == 0

abbrev pub update : (ℕ → Node) → ℕ → Node → ℕ → Node
update f a v b = if a == b then v else f b

abbrev pub set_p : ℕ → ℕ → Store → Store
set_p a v s = record s { node = update s.node a (record { p = v; n = (s.node a).n }) }

abbrev pub set_n : ℕ → ℕ → Store → Store
set_n a v s = record s { node = update s.node a (record { p = (s.node a).p; n = v }) }

abbrev pub set_tail : ℕ → Store → Store
set_tail v s = record s { queue = record (s.queue) { tail = v } }

abbrev pub set_head : ℕ → Store → Store
set_head v s = record s { queue = record (s.queue) { head = v } }

-- "connect previous to next", "connect next to previous", "mark node picked"
unfoldable pub connect_previous : ℕ → Store → Store
connect_previous a s =
    let link = s.node a in if is_null link.p then set_tail link.n s else set_n link.p link.n s

unfoldable pub connect_next : ℕ → Store → Store
connect_next a s =
    let link = s.node a in if is_null link.n then set_head link.p s else set_p link.n link.p s

unfoldable pub pick : ℕ → Store → Store
pick a s =
    let link = s.node a in
    let alone = (a == s.queue.head) && (a == s.queue.tail) in
    let picked = connect_next a (connect_previous a s) in
    if is_null link.n && is_null link.p && not alone then s else set_p a 0 (set_n a 0 picked)

-- The assertion that the node has no links is `none` where it fails.
unfoldable pub en_q : ℕ → Store → Option Store
en_q a s =
    let linked = if is_null s.queue.head then set_tail a s else set_n s.queue.head a s in
    if is_null (s.node a).n && is_null (s.node a).p
    then some (set_head a (set_p a s.queue.head linked))
    else none

unfoldable pub unshift : ℕ → Store → Option Store
unshift a s =
    let linked = if is_null s.queue.tail then set_head a s else set_p s.queue.tail a s in
    if is_null (s.node a).n && is_null (s.node a).p
    then some (set_tail a (set_n a s.queue.tail linked))
    else none

-- The node returned, null for an empty queue, and the store.
unfoldable pub shift : Store → ℕ × Store
shift s = if is_null s.queue.head then (0, s) else (s.queue.head, pick s.queue.head s)

unfoldable pub de_q : Store → ℕ × Store
de_q s = if is_null s.queue.tail then (0, s) else (s.queue.tail, pick s.queue.tail s)
