-- ===== src/Fragment/Keys.antt =====
-- The packets that src/yafrag.c assembles have a proper flow key.
use qof.Packet.Proto
use qof.Base.{
  Bool, Bool-cases, Option, Option-cases, arith, false, if◌then◌else◌, inl, inr, ltb, none, not,
  some, true, ℕ, ◌&&◌, ◌+◌, ◌==◌, ◌||◌,
}
use qof.Base.Word.{nonzero, sub64, to_u16}
use qof.Packet.{FlowKey, IpFragInfo, PBuf}
use qof.Flow.Key.Contract.{IsKey}
use qof.Decode.Run.{Run, ok}
use qof.Decode.Keys.{Gives, Gives-bind, Gives-if}
use qof.Decode.Keyed.{IsPacket}
use qof.Fragment.{
  FragKey, FragNode, FragTab, Glib, frag_get_node, frag_remove_node, frag_sort_by_offset, new_frag,
  node_write,
}
use qof.Fragment.Assemble.{
  add_header, assemble, branch, defrag_pbuf, enter_fragment, frag_add, frag_complete,
  frag_queue_prune, set_l2hlen, short_first, stash_first, take_assembled, traverse,
}
use qof.Fragment.Short.{NoPayload, node_write-NoPayload, short_first_drops}
use qof.Fragment.Outcome.{IsIdle, enter_fragment-IsIdle, frag_queue_prune-node}

-- Every node's key is of version 4 or 6 and has addresses of that version.
abbrev pub HasKeys : {T : Type 0} → FragTab T → Type 0
HasKeys t = (a : ℕ) → IsKey (t.node a).key.f

abbrev NodeHasKey : FragNode → Type 0
NodeHasKey fn = IsKey fn.key.f

if-NodeHasKey :
    (b : Bool) (x y : FragNode) → NodeHasKey x → NodeHasKey y → NodeHasKey (if b then x else y)
if-NodeHasKey true x y h k = h
if-NodeHasKey false x y h k = k

stash_first-NodeHasKey :
    (f : IpFragInfo) (pbuf : PBuf) (fn : FragNode)
    → NodeHasKey fn
    → NodeHasKey (stash_first f pbuf fn)
unfolding stash_first
stash_first-NodeHasKey f pbuf fn h =
    if-NodeHasKey (f.offset == 0) _ _ (if-NodeHasKey (nonzero f.l4hlen) _ _ h h) h

branch-Gives :
    {A : Type 0} (P : A → Type 0) (missing : Bool) (fits : Option ℕ) (short : Bool) (x y : Run A)
    (f k : ℕ → Run A)
    → Gives P x
    → Gives P y
    → ((end : ℕ) → Gives P (f end))
    → ((end : ℕ) → Gives P (k end))
    → Gives P (branch missing fits short x y f k)
branch-Gives P true fits short x y f k p q r s = p
branch-Gives P false none short x y f k p q r s = q
branch-Gives P false (some end) true x y f k p q r s = r end
branch-Gives P false (some end) false x y f k p q r s = s end

module _ {T : Type 0} (g : Glib T) where
  node_write-HasKeys :
      (a : ℕ) (fn : FragNode) (t : FragTab T)
      → HasKeys t
      → NodeHasKey fn
      → HasKeys (node_write g a fn t)
  node_write-HasKeys a fn t h k b = elim (Bool-cases (a == b)) [
    | inl same ↦ rw same k
    | inr other ↦ rw other (h b)
  ]

  frag_get_node-HasKeys :
      (key : FlowKey) (f : IpFragInfo) (t : FragTab T)
      → IsKey key
      → HasKeys t
      → HasKeys (frag_get_node g key f t).1
  unfolding frag_get_node
  frag_get_node-HasKeys key f t is_key h =
      let k : FragKey = record { ipid = f.ipid; f = key } in
      elim (Option-cases (g.find k t.table)) [
        | inl fresh ↦
            rw (frag_get_node, fresh)
              (node_write-HasKeys t.next_node (new_frag k t.ctime) t h is_key)
        | inr (fn, known) ↦
            rw (frag_get_node, known)
              (node_write-HasKeys fn (record (t.node fn) { last_ctime = t.ctime }) t h (h fn))
      ]

  enter_fragment-HasKeys :
      (f : IpFragInfo) (pbuf : PBuf) (t : FragTab T)
      → IsKey pbuf.key
      → HasKeys t
      → HasKeys (enter_fragment g f pbuf t).1
  unfolding enter_fragment frag_add
  enter_fragment-HasKeys f pbuf t is_key h =
      let timed : FragTab T = record t { ctime = pbuf.ptime } in
      let got = frag_get_node g pbuf.key f timed in
      let held = frag_get_node-HasKeys pbuf.key f timed is_key h in
      node_write-HasKeys got.0
        (frag_add f pbuf.iplen (set_l2hlen pbuf (stash_first f pbuf (got.1.node got.0)))) got.1 held
        (stash_first-NodeHasKey f pbuf (got.1.node got.0) (held got.0))

  abbrev Completed : Bool × IpFragInfo × FragTab T → Type 0
  Completed (done, f, t) = HasKeys t

  frag_complete-Completed :
      (a : ℕ) (f : IpFragInfo) (t : FragTab T)
      → NoPayload t
      → HasKeys t
      → Gives Completed (frag_complete g a f t)
  unfolding frag_complete frag_remove_node
  frag_complete-Completed a f t quiet h =
      let fn = record (t.node a) { records = g.sort frag_sort_by_offset (t.node a).records } in
      let sorted = node_write g a fn t in
      let kept = node_write-HasKeys a fn t h (h a) in
      let empty = node_write-NoPayload g a fn t quiet (quiet a) in
      branch-Gives Completed (not (t.node a).have_first || not (t.node a).have_last)
        (traverse 0 fn.records) (not (t.node a).have_l4hdr && ((t.node a).key.f.proto == Proto.tcp))
        (ok (false, f, t)) (ok (false, f, sorted)) (λ end. short_first g a end f sorted)
        (λ end. ok (true, f, assemble g a end f sorted)) h kept
        (λ end. rw (short_first_drops g a end f sorted (empty a)) kept)
        (λ end.
          node_write-HasKeys a (record (sorted.node a) { iplen = to_u16 (end + f.iphlen) }) sorted
            kept (kept a))

  -- What is left of a packet and the table.
  abbrev pub Defragged : Bool × PBuf × FragTab T → Type 0
  Defragged (done, pbuf, t) = IsPacket pbuf × HasKeys t

  invalid-IsPacket : (pbuf : PBuf) → IsPacket (record pbuf { ptime = 0 })
  invalid-IsPacket pbuf e = absurd (ground (arith, e))

  take_assembled-Defragged :
      (t : FragTab T) (pbuf : PBuf) → HasKeys t → Defragged (take_assembled g t pbuf)
  unfolding take_assembled
  take_assembled-Defragged t pbuf h = elim (Bool-cases (nonzero t.assembled)) [
    | inl e ↦ rw e (λ v. h t.assembled, h)
    | inr e ↦ rw e (invalid-IsPacket pbuf, h)
  ]

  add_header-HasKeys :
      (calc_l4 a : ℕ) (r : Bool × IpFragInfo × FragTab T) (pbuf : PBuf)
      → HasKeys r.2
      → HasKeys (add_header g calc_l4 a r pbuf).1
  add_header-HasKeys calc_l4 a (done, f, t) pbuf h =
      elim (Bool-cases (done && not (calc_l4 == (t.node a).payoff))) [
        | inl e ↦ rw e (
            node_write-HasKeys a (record (t.node a) { payoff = sub64 (t.node a).payoff f.l4hlen }) t
              h (h a))
        | inr e ↦ rw e h
      ]

  prune_take-Defragged :
      (t : FragTab T) (pbuf : PBuf)
      → HasKeys t
      → Defragged (take_assembled g (frag_queue_prune g false t) pbuf)
  prune_take-Defragged t pbuf h =
      take_assembled-Defragged (frag_queue_prune g false t) pbuf
        (λ a. rw (frag_queue_prune-node g false t) (h a))

  -- A packet with a proper key, fragmented or not, in sequence or not, is left with a proper key if it
  -- is left valid, the assembled packet included, and so are all nodes.
  pub defrag_pbuf-Defragged :
      (f : Option IpFragInfo) (pbuf : PBuf) (t : FragTab T)
      → IsKey pbuf.key
      → HasKeys t
      → IsIdle t
      → Gives Defragged (defrag_pbuf g f pbuf t)
  unfolding defrag_pbuf
  defrag_pbuf-Defragged none pbuf t is_key h idle = (λ v. is_key, h)
  defrag_pbuf-Defragged (some f) pbuf t is_key h idle =
      let entered = enter_fragment g f pbuf t in
      let a = entered.0 in
      let calc_l4 = (entered.1.node a).payoff in
      Gives-if Defragged (not (nonzero f.frag)) _ _ (λ v. is_key, h)
        (Gives-if Defragged (ltb pbuf.ptime t.ctime) _ _ (invalid-IsPacket pbuf, h)
          (Gives-bind Defragged Completed (frag_complete g a f entered.1) _
            (frag_complete-Completed a f entered.1 (enter_fragment-IsIdle g f pbuf t idle).empty
              (enter_fragment-HasKeys f pbuf t is_key h))
            (λ r k.
              prune_take-Defragged (add_header g calc_l4 a r pbuf).1
                (add_header g calc_l4 a r pbuf).0 (add_header-HasKeys calc_l4 a r pbuf k))))
