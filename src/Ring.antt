-- ===== src/Ring.antt =====
-- src/ring.c: a ring of elements of one size, whose slots are given out at the head and taken back at
-- the tail. Pointers are offsets from the base of the buffer. The functions that wait are compiled
-- only with YAF_RING_THREAD, and are not modelled; those that release and interrupt are.
pub mod Queue
use qof.Base.{Bool, Option, if◌then◌else◌, leb, ltb, none, some, ℕ, ◌%◌, ◌*◌, ◌+◌, ◌-◌, ◌==◌}
use qof.Base.Word.{add32, add64, sub32, sub64, to_u64}

-- `rgaRing_t`, less the lock and the conditions.
pub record Ring : Type 0 where
  pub elt_sz : ℕ
  pub cap : ℕ
  pub count : ℕ
  pub peak : ℕ
  pub hrsv : ℕ
  pub trsv : ℕ
  pub end : ℕ
  pub head : ℕ
  pub tail : ℕ
  pub interrupt : ℕ

-- `aligned` is HAVE_ALIGNED_ACCESS_REQUIRED.
unfoldable pub alloc : Bool → (elt_sz cap : ℕ) → Ring
alloc aligned elt_sz cap =
    let size = if aligned then add64 elt_sz (elt_sz % 8) else elt_sz in
    record {
      elt_sz = size;
      cap = cap;
      count = 0;
      peak = 0;
      hrsv = 0;
      trsv = 0;
      end = to_u64 (size * sub64 cap 1);
      head = 0;
      tail = 0;
      interrupt = 0;
    }

-- "advance … pointer and wrap"
unfoldable pub wrap : Ring → ℕ → ℕ
wrap r p = let next = p + r.elt_sz in if ltb r.end next then 0 else next

unfoldable pub max_peak : Ring → ℕ → ℕ
max_peak r count = if ltb r.peak count then count else r.peak

-- The slot, `none` for a null pointer, and the ring.
unfoldable pub next_head : Ring → Option ℕ × Ring
next_head r =
    let count' = add64 r.count 1 in
    let taken = record r { head = wrap r r.head; count = count'; peak = max_peak r count' } in
    if leb (sub64 r.cap r.trsv) r.count then (none, r) else (some r.head, taken)

unfoldable pub force_head : Ring → ℕ × Ring
force_head r =
    let moved = record r { head = wrap r r.head; count = add64 r.count 1 } in
    let dropped = record moved { tail = wrap r r.tail; count = sub64 moved.count 1 } in
    let kept = if leb (sub64 r.cap r.trsv) moved.count then dropped else moved in
    (r.head, record kept { peak = max_peak r kept.count })

unfoldable pub peek_head : Ring → Option ℕ
peek_head r = if r.count == 0 then none else some r.head

unfoldable pub next_tail : Ring → Option ℕ × Ring
next_tail r =
    let taken = record r { tail = wrap r r.tail; count = sub64 r.count 1 } in
    if leb r.count r.hrsv then (none, r) else (some r.tail, taken)

unfoldable pub peek_tail : Ring → Option ℕ
peek_tail r = if r.count == 0 then none else some r.tail

unfoldable pub release_head : ℕ → Ring → Ring
release_head rsv r = record r { hrsv = r.hrsv - (if ltb r.hrsv rsv then r.hrsv else rsv) }

unfoldable pub release_tail : ℕ → Ring → Ring
release_tail rsv r = record r { trsv = r.trsv - (if ltb r.trsv rsv then r.trsv else rsv) }

unfoldable pub set_interrupt : Ring → Ring
set_interrupt r = record r { interrupt = add32 r.interrupt 1 }

unfoldable pub clear_interrupt : Ring → Ring
clear_interrupt r = record r { interrupt = sub32 r.interrupt 1 }
