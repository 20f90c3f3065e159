-- ===== src/Fragment/Outcome.antt =====
-- `yfDefragPBuf` of src/yafrag.c, on every path.
use qof.Packet.Proto
use qof.PickQueue.Spec
use qof.Base.{
  Bool, Bool-cases, Option, Option-cases, ap, arith, false, if◌then◌else◌, inl, inr, length, ltb,
  none, not, refl, some, suc, true, zero, ℕ, ◌&&◌, ◌+◌, ◌==◌, ◌||◌, ◌∙◌, ◌≡◌,
}
use qof.Base.Word.{add32, add64, nonzero, sub64, to_u16}
use qof.Packet.{FlowKey, IpFragInfo, PBuf}
use qof.Fragment.{
  FragKey, FragNode, FragTab, Glib, frag_get_node, frag_prune_delay, frag_remove_node,
  frag_sort_by_offset, new_frag,
}
use qof.Fragment.Assemble.{
  add_header, assemble, defrag_pbuf, enter_fragment, expired, frag_add, frag_complete,
  frag_queue_prune, over_limit, prune_while, set_l2hlen, sort_records, stash_first, take_assembled,
  traverse,
}
use qof.Fragment.Covered.{branch_gap, branch_missing, branch_short, branch_whole}
use qof.Fragment.Short.{NoPayload, node_write-NoPayload, short_first_drops}
use qof.Decode.Run.{ok}

-- Between two packets there is no assembled node, and no node has payload.
pub record IsIdle {T : Type 0} (t : FragTab T) : Type 0 where
  pub empty : NoPayload t
  pub free : t.assembled ≡ 0

module _ {T : Type 0} (g : Glib T) where
  frag_get_node-IsIdle :
      (key : FlowKey) (f : IpFragInfo) (t : FragTab T)
      → IsIdle t
      → IsIdle (frag_get_node g key f t).1
  unfolding frag_get_node
  frag_get_node-IsIdle key f t h =
      let k : FragKey = record { ipid = f.ipid; f = key } in
      elim (Option-cases (g.find k t.table)) [
        | inl fresh ↦
            rw (frag_get_node, fresh)
              record {
                empty = node_write-NoPayload g t.next_node (new_frag k t.ctime) t h.empty refl;
                free = h.free;
              }
        | inr (fn, known) ↦
            rw (frag_get_node, known)
              record {
                empty =
                    node_write-NoPayload g fn (record (t.node fn) { last_ctime = t.ctime }) t
                      h.empty (h.empty fn);
                free = h.free;
              }
      ]

  stash_first-paylen :
      (f : IpFragInfo) (pbuf : PBuf) (fn : FragNode) → (stash_first f pbuf fn).paylen ≡ fn.paylen
  unfolding stash_first
  stash_first-paylen f pbuf fn = ground arith

  pub enter_fragment-IsIdle :
      (f : IpFragInfo) (pbuf : PBuf) (t : FragTab T)
      → IsIdle t
      → IsIdle (enter_fragment g f pbuf t).1
  unfolding enter_fragment frag_add
  enter_fragment-IsIdle f pbuf t h =
      let timed : FragTab T = record t { ctime = pbuf.ptime } in
      let got = frag_get_node g pbuf.key f timed in
      let held = frag_get_node-IsIdle pbuf.key f timed record { empty = h.empty; free = h.free } in
      let fn = frag_add f pbuf.iplen (set_l2hlen pbuf (stash_first f pbuf (got.1.node got.0))) in
      record {
        empty =
            node_write-NoPayload g got.0 fn got.1 held.empty
              (stash_first-paylen f pbuf (got.1.node got.0) ∙ held.empty got.0);
        free = held.free;
      }

  prune_while-same :
      (fuel : ℕ) (test : FragTab T → Bool) (t : FragTab T)
      → ((prune_while g fuel test t).node ≡ t.node)
        × ((prune_while g fuel test t).assembled ≡ t.assembled)
  unfolding prune_while frag_remove_node
  prune_while-same zero test t = (refl, refl)
  prune_while-same (suc fuel) test t = elim (Bool-cases (nonzero (Spec.tail t.fraq) && test t)) [
    | inl e ↦ rw e (prune_while-same fuel test (frag_remove_node g (Spec.tail t.fraq) true t))
    | inr e ↦ rw e (refl, refl)
  ]

  -- What the test for a complete packet leaves.
  frag_complete-NoPayload :
      (a : ℕ) (f : IpFragInfo) (t : FragTab T)
      → NoPayload t
      → (done : Bool) × (t' : FragTab T) × (frag_complete g a f t ≡ ok (done, f, t')) × NoPayload t'
  unfolding frag_complete frag_remove_node
  frag_complete-NoPayload a f t h =
      let fn = t.node a in
      let sorted = sort_records g a t in
      let fit = traverse 0 (g.sort frag_sort_by_offset fn.records) in
      let quiet =
        node_write-NoPayload g a (record fn { records = g.sort frag_sort_by_offset fn.records }) t h
          (h a) in
      elim (Bool-cases (not fn.have_first || not fn.have_last)) [
        | inl missing ↦ (false, t, branch_missing _ _ _ _ _ _ _ missing, h)
        | inr there ↦ elim (Option-cases fit) [
          | inl gap ↦ (false, sorted, branch_gap _ _ _ _ _ _ _ there gap, quiet)
          | inr (end, fits) ↦
              elim (Bool-cases (not fn.have_l4hdr && (fn.key.f.proto == Proto.tcp))) [
                | inl short ↦ (
                  false,
                  frag_remove_node g a true sorted,
                  branch_short _ _ _ _ _ _ _ end there fits short
                      ∙ short_first_drops g a end f sorted (quiet a),
                  quiet,
                )
                | inr whole ↦ (
                  true,
                  assemble g a end f sorted,
                  branch_whole _ _ _ _ _ _ _ end there fits whole,
                  node_write-NoPayload g a
                      (record (sorted.node a) { iplen = to_u16 (end + f.iphlen) }) sorted quiet
                      (quiet a),
                )
              ]
        ]
      ]

  pub frag_queue_prune-node :
      (all : Bool) (t : FragTab T) → (frag_queue_prune g all t).node ≡ t.node
  unfolding frag_queue_prune
  frag_queue_prune-node all t =
      let started : FragTab T = record t { prunetime = t.ctime } in
      let limited = prune_while g (length t.fraq) (over_limit g) started in
      let fresh = prune_while g (length limited.fraq) (expired g) limited in
      let one = prune_while-same (length t.fraq) (over_limit g) started in
      let two = prune_while-same (length limited.fraq) (expired g) limited in
      let three = prune_while-same (length fresh.fraq) (λ _. all) fresh in
      elim (Bool-cases (nonzero t.prunetime && ltb t.ctime (add64 t.prunetime frag_prune_delay))) [
        | inl soon ↦ rw (frag_queue_prune, soon) refl
        | inr due ↦ rw (frag_queue_prune, due) (three.0 ∙ two.0 ∙ one.0)
      ]

  frag_queue_prune-NoPayload :
      (all : Bool) (t : FragTab T) → NoPayload t → NoPayload (frag_queue_prune g all t)
  frag_queue_prune-NoPayload all t h a = ap (λ n. (n a).paylen) (frag_queue_prune-node all t) ∙ h a

  add_header-NoPayload :
      (calc_l4 a : ℕ) (done : Bool) (f : IpFragInfo) (t : FragTab T) (pbuf : PBuf)
      → NoPayload t
      → NoPayload (add_header g calc_l4 a (done, f, t) pbuf).1
        × ((add_header g calc_l4 a (done, f, t) pbuf).0.ptime ≡ pbuf.ptime)
  add_header-NoPayload calc_l4 a done f t pbuf h =
      elim (Bool-cases (done && not (calc_l4 == (t.node a).payoff))) [
        | inl e ↦ rw e (
          node_write-NoPayload g a (record (t.node a) { payoff = sub64 (t.node a).payoff f.l4hlen })
              t h (h a),
          refl,
        )
        | inr e ↦ rw e (h, refl)
      ]

  take_assembled-IsIdle :
      (t : FragTab T) (pbuf : PBuf)
      → NoPayload t
      → IsIdle (take_assembled g t pbuf).2
        × ((take_assembled g t pbuf).1.ptime
            ≡ (if (take_assembled g t pbuf).0 then pbuf.ptime else 0))
  unfolding take_assembled
  take_assembled-IsIdle t pbuf h = elim (Bool-cases (nonzero t.assembled)) [
    | inl e ↦ rw e (record { empty = h; free = refl }, refl)
    | inr e ↦ rw e (record { empty = h; free = ground arith }, refl)
  ]

  -- Between packets no node is assembled and none has payload: this holds after each packet if it did
  -- before. The assembly returns for each packet, fragmented or not, in sequence or not, and reads
  -- nothing outside the payload buffer; the packet keeps its time where it is reported valid, and has
  -- its time set to 0 where it is not.
  pub defrag_pbuf-IsIdle :
      (f : Option IpFragInfo) (pbuf : PBuf) (t : FragTab T)
      → IsIdle t
      → (done : Bool) × (pbuf' : PBuf) × (t' : FragTab T) × (defrag_pbuf g f pbuf t
          ≡ ok (done, pbuf', t'))
        × IsIdle t'
        × (pbuf'.ptime ≡ (if done then pbuf.ptime else 0))
  unfolding defrag_pbuf
  defrag_pbuf-IsIdle none pbuf t h = (true, pbuf, t, refl, h, refl)
  defrag_pbuf-IsIdle (some f) pbuf t h = elim (Bool-cases (not (nonzero f.frag))) [
    | inl e ↦ (true, pbuf, t, rw e refl, h, refl)
    | inr e ↦ elim (Bool-cases (ltb pbuf.ptime t.ctime)) [
      | inl late ↦ (
        false,
        record pbuf { ptime = 0 },
        record t { stats = record (t.stats) { stat_seqrej = add32 t.stats.stat_seqrej 1 } },
        rw (e, late) refl,
        record { empty = h.empty; free = h.free },
        refl,
      )
      | inr now ↦
          let entered = enter_fragment g f pbuf t in
          let a = entered.0 in
          let calc_l4 = (entered.1.node a).payoff in
          let (done, t', returns, quiet) =
            frag_complete-NoPayload a f entered.1 (enter_fragment-IsIdle f pbuf t h).empty in
          let headed = add_header g calc_l4 a (done, f, t') pbuf in
          let kept = add_header-NoPayload calc_l4 a done f t' pbuf quiet in
          let pruned = frag_queue_prune g false headed.1 in
          let taken =
            take_assembled-IsIdle pruned headed.0
              (frag_queue_prune-NoPayload false headed.1 kept.0) in
          (
            (take_assembled g pruned headed.0).0,
            (take_assembled g pruned headed.0).1,
            (take_assembled g pruned headed.0).2,
            rw (e, now, returns) refl,
            taken.0,
            taken.1 ∙ ap (λ (n : ℕ). if (take_assembled g pruned headed.0).0 then n else 0) kept.1,
          )
    ]
  ]
