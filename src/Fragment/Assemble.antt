-- ===== src/Fragment/Assemble.antt =====
-- src/yafrag.c: a fragment comes in, and what is complete, expired or too much goes.
use qof.Packet.Proto
use qof.PickQueue.Spec
use qof.Base.{
  Bool, List, Option, [], drop, false, if◌then◌else◌, leb, length, ltb, none, not, some, suc, true,
  zero, ℕ, ◌&&◌, ◌++◌, ◌+◌, ◌==◌, ◌||◌, ◌∷◌,
}
use qof.Base.Word.{add32, add64, nonzero, sub64, to_u16}
use qof.Packet.{IpFragInfo, PBuf}
use qof.Decode.Run.{Run, ok, ◌>>=◌}
use qof.Decode.Transport.{defrag_tcp}
use qof.Fragment.{
  FragNode, FragRec, FragTab, Glib, frag_get_node, frag_prune_delay, frag_remove_node,
  frag_sort_by_offset, frag_timeout, node_write,
}

-- The record of a fragment.
abbrev pub frag_rec : IpFragInfo → (iplen : ℕ) → FragRec
frag_rec fraginfo iplen = record {
  off = fraginfo.offset;
  len = to_u16 (sub64 iplen fraginfo.iphlen);
}

-- No byte of the packet is copied into the payload buffer.
unfoldable pub frag_add : IpFragInfo → (iplen : ℕ) → FragNode → FragNode
frag_add fraginfo iplen fn = record fn {
  records = fn.records ++ (frag_rec fraginfo iplen ∷ []);
  have_first = (fraginfo.offset == 0) || fn.have_first;
  have_last = (fraginfo.more == 0) || fn.have_last;
}

-- The traversal of the sorted records: where the fragments end, or `none` at a gap.
unfoldable pub traverse : ℕ → List FragRec → Option ℕ
traverse next_off [] = some next_off
traverse next_off (frag ∷ records) =
    let rest = traverse (frag.off + frag.len) records in
    if leb frag.off next_off then rest else none

-- The ways through `yfFragComplete`, by its tests: a fragment is missing; the records have a gap; they
-- fit, and the first fragment is short; they fit.
abbrev pub branch {ℓ} :
    {A : Type ℓ}
    → (missing : Bool) → (fits : Option ℕ) → (short : Bool) → A
    → A
    → (ℕ → A)
    → (ℕ → A)
    → A
branch true fits short early gap by_decoding whole = early
branch false none short early gap by_decoding whole = gap
branch false (some next_off) short early gap by_decoding whole =
    if short then by_decoding next_off else whole next_off

-- What the first fragment tells of the packet.
unfoldable pub stash_first : IpFragInfo → PBuf → FragNode → FragNode
stash_first fraginfo pbuf fn =
    let headed = record fn {
      key = record (fn.key) { f = record (fn.key.f) { sp = pbuf.key.sp; dp = pbuf.key.dp } };
      payoff = fraginfo.l4hlen;
      tcpinfo = if fn.key.f.proto == Proto.tcp then pbuf.tcpinfo else fn.tcpinfo;
      have_l4hdr = true;
    } in
    if fraginfo.offset == 0
    then record (if nonzero fraginfo.l4hlen then headed else fn) { l2info = pbuf.l2info }
    else fn

abbrev pub set_l2hlen : PBuf → FragNode → FragNode
set_l2hlen pbuf fn = record fn { l2info = record (fn.l2info) { l2hlen = pbuf.l2info.l2hlen } }

module _ {T : Type 0} (g : Glib T) where
  -- The length of the packet is set, and the node is taken for the assembled one.
  abbrev pub assemble : ℕ → ℕ → IpFragInfo → FragTab T → FragTab T
  assemble a next_off fraginfo t =
      let fn = record (t.node a) { iplen = to_u16 (next_off + fraginfo.iphlen) } in
      frag_remove_node g a false (node_write g a fn t)

  -- A short first fragment: the TCP header is decoded from the payload buffer.
  unfoldable pub short_first : ℕ → ℕ → IpFragInfo → FragTab T → Run (Bool × IpFragInfo × FragTab T)
  short_first a next_off fraginfo t = do
    let fn = t.node a
    let mem = drop (fraginfo.iphlen + fn.l2info.l2hlen) fn.payload
    decoded ← defrag_tcp mem fn.paylen fn.key.f fraginfo fn.tcpinfo fn.payoff
    elim decoded [
      | none ↦ ok (false, fraginfo, frag_remove_node g a true t)
      | some (key, info, tcpinfo, payoff) ↦
          let v = record fn {
            key = record (fn.key) { f = key };
            tcpinfo = tcpinfo;
            payoff = payoff;
          } in
          ok (true, info, assemble a next_off info (node_write g a v t))
    ]

  abbrev pub sort_records : ℕ → FragTab T → FragTab T
  sort_records a t =
      let fn = t.node a in
      node_write g a (record fn { records = g.sort frag_sort_by_offset fn.records }) t

  unfoldable pub frag_complete : ℕ → IpFragInfo → FragTab T → Run (Bool × IpFragInfo × FragTab T)
  frag_complete a fraginfo t =
      let fn = t.node a in
      let sorted = sort_records a t in
      branch (not fn.have_first || not fn.have_last)
        (traverse 0 (g.sort frag_sort_by_offset fn.records))
        (not fn.have_l4hdr && (fn.key.f.proto == Proto.tcp)) (ok (false, fraginfo, t))
        (ok (false, fraginfo, sorted)) (λ next_off. short_first a next_off fraginfo sorted)
        (λ next_off. ok (true, fraginfo, assemble a next_off fraginfo sorted))

  -- A loop that removes the tail while there is one and the test holds.
  unfoldable pub prune_while : ℕ → (FragTab T → Bool) → FragTab T → FragTab T
  prune_while zero test t = t
  prune_while (suc fuel) test t =
      let rest = prune_while fuel test (frag_remove_node g (Spec.tail t.fraq) true t) in
      if nonzero (Spec.tail t.fraq) && test t then rest else t

  abbrev pub over_limit : FragTab T → Bool
  over_limit t = nonzero t.max_frags && leb t.max_frags t.count

  abbrev pub expired : FragTab T → Bool
  expired t = ltb frag_timeout (sub64 t.ctime (t.node (Spec.tail t.fraq)).last_ctime)

  -- Each loop removes at most as many nodes as the queue holds.
  abbrev pub prune_loops : Bool → FragTab T → FragTab T
  prune_loops prune_all t =
      let limited = prune_while (length t.fraq) over_limit t in
      let fresh = prune_while (length limited.fraq) expired limited in
      prune_while (length fresh.fraq) (λ _. prune_all) fresh

  unfoldable pub frag_queue_prune : Bool → FragTab T → FragTab T
  frag_queue_prune prune_all t =
      if nonzero t.prunetime && ltb t.ctime (add64 t.prunetime frag_prune_delay)
      then t
      else prune_loops prune_all (record t { prunetime = t.ctime })

  unfoldable pub frag_tab_free : FragTab T → FragTab T
  frag_tab_free t = prune_while (length t.fraq) (λ _. true) t

  -- Up to the count of the fragment: the node's address, and the table.
  unfoldable pub enter_fragment : IpFragInfo → PBuf → FragTab T → ℕ × FragTab T
  enter_fragment fraginfo pbuf t =
      let (a, t') = frag_get_node g pbuf.key fraginfo (record t { ctime = pbuf.ptime }) in
      let fn = set_l2hlen pbuf (stash_first fraginfo pbuf (t'.node a)) in
      let added = node_write g a (frag_add fraginfo pbuf.iplen fn) t' in
      (
        a,
        record added {
          stats = record (added.stats) { stat_frags = add32 added.stats.stat_frags 1 };
        },
      )

  -- The assembled packet, copied into the packet buffer.
  unfoldable pub take_assembled : FragTab T → PBuf → Bool × PBuf × FragTab T
  take_assembled t pbuf =
      let fn = t.node t.assembled in
      if nonzero t.assembled
      then (
        true,
        record pbuf { key = fn.key.f; iplen = fn.iplen; tcpinfo = fn.tcpinfo; l2info = fn.l2info },
        record t { assembled = 0 },
      )
      else (false, record pbuf { ptime = 0 }, t)

  -- Where the decoding of a short first fragment has moved the payload offset.
  abbrev pub add_header : (calc_l4 a : ℕ) → Bool × IpFragInfo × FragTab T → PBuf → PBuf × FragTab T
  add_header calc_l4 a (done, info, t) pbuf =
      let fn = t.node a in
      if done && not (calc_l4 == fn.payoff)
      then (
        record pbuf { all_header_len = add64 pbuf.all_header_len info.l4hlen },
        node_write g a (record fn { payoff = sub64 fn.payoff info.l4hlen }) t,
      )
      else (pbuf, t)

  unfoldable pub defrag_pbuf : Option IpFragInfo → PBuf → FragTab T → Run (Bool × PBuf × FragTab T)
  defrag_pbuf none pbuf t = ok (true, pbuf, t)
  defrag_pbuf (some fraginfo) pbuf t =
      let (a, entered) = enter_fragment fraginfo pbuf t in
      let calc_l4 = (entered.node a).payoff in
      let fragment = do
        done ← frag_complete a fraginfo entered
        let (pbuf', t') = add_header calc_l4 a done pbuf
        ok (take_assembled (frag_queue_prune false t') pbuf')
      in if not (nonzero fraginfo.frag)
        then ok (true, pbuf, t)
        else (if ltb pbuf.ptime t.ctime
            then ok (
              false,
              record pbuf { ptime = 0 },
              record t { stats = record (t.stats) { stat_seqrej = add32 t.stats.stat_seqrej 1 } },
            )
            else fragment)
