-- ===== src/Process/Whole.antt =====
-- The whole way of a packet in src/qofltrace.c, from the trace to the flow table.
use mathlib.Core.Path.{subst}
use qof.Base.{
  Bool, Option, Option-cases, arith, false, if◌then◌else◌, inl, inr, length, none, refl, some, true,
  ℕ, ◌<◌, ◌≡◌,
}
use qof.Base.Word.{nonzero}
use qof.Packet.{IpFragInfo, PBuf}
use qof.Stats.{Double}
use qof.Decode.Run.{Config, Decoding, Run, Stats, ok, ◌>>=◌}
use qof.Detune.{Tests}
use qof.Fragment.{FragTab, Glib}
use qof.Flow.Record.{FlowNode}
use qof.Flow.Table.{HashTable, IsHashTable, tab_alloc}
use qof.Flow.Update.Counts.{IsCounted}
use qof.Flow.Index.{IsTable, tab_alloc-IsTable}
use qof.Decode.Tunnel.{decode_timeval, decode_to_pbuf}
use qof.Process.Output.{Library}
use qof.Process.Input.{Handler, Raw, detune_stage, frag_buffer, frag_stage, handle_packet}
use qof.Process.Input.Sound.{IsCalmHandler, detune_stage-key, handle_packet-Handled}
use qof.Process.Main.{Loop, trace_main}
use qof.Decode.Keys.{Gives}
use qof.Fragment.Keys.{HasKeys}
use qof.Fragment.Outcome.{IsIdle, defrag_pbuf-IsIdle}
use qof.Process.Main.Total.{IsReady}
use qof.Process.Main.Sound.{Handled, trace_main-Keeps-IsTable}

module _ {R T B W D F : Type 0} (double : Double R) (h : HashTable T) (lib : Library R B W)
    (delay_double : Double D) (tests : Tests D) (glib : Glib F) (config : Config) (depth : ℕ) where
  -- A captured packet on which the decoder returns, fragment or not: it reads nothing outside the captured
  -- bytes and does not run out of its fuel `depth`, whatever the slot, the counters and the fragment
  -- information hold before.
  abbrev pub Decodable : Type 0
  Decodable =
      (raw : Raw) × ((stats : Stats) (pbuf : PBuf) (frag : Option IpFragInfo)
        → (u : Bool × Decoding × PBuf) × (decode_to_pbuf raw.pkt config raw.linktype
              (decode_timeval raw.tv_sec raw.tv_usec) raw.capture_length depth stats pbuf frag
            ≡ ok u))

  -- `qfTraceHandlePacket` on such a packet.
  abbrev pub handle_decodable : Decodable → PBuf → Handler D F → Run (Bool × PBuf × Handler D F)
  handle_decodable (raw, decodes) pbuf s =
      handle_packet delay_double tests glib config depth raw pbuf s

  abbrev Yields : {A : Type 0} → Run A → Type 0
  Yields {A} r = (a : A) × (r ≡ ok a)

  if-Yields :
      {A : Type 0} (b : Bool) (x y : Run A) → Yields x → Yields y → Yields (if b then x else y)
  if-Yields true x y p q = p
  if-Yields false x y p q = q

  bind-Yields :
      {A B : Type 0} (r : Run A) (f : A → Run B)
      → Yields r
      → ((a : A) → Yields (f a))
      → Yields (r >>= f)
  bind-Yields r f (a, e) g = rw e (g a)

  -- A fragment goes into its table, which returns on every fragment.
  table_stage-Yields :
      (t : FragTab F) (frag : Option IpFragInfo) (pbuf : PBuf) (s : Handler D F)
      → s.fragtab ≡ some t
      → IsIdle t
      → Yields (frag_stage delay_double tests glib config depth frag pbuf s)
  unfolding frag_stage
  table_stage-Yields t none pbuf s e idle = rw (e, frag_stage) (_, refl)
  table_stage-Yields t (some f) pbuf s e idle =
      let (done, pbuf', t', returns, idle', timed) = defrag_pbuf-IsIdle glib (some f) pbuf t idle in
      rw (e, frag_stage, returns) (if-Yields (nonzero f.frag) _ _ (_, refl) (_, refl))

  frag_stage-Yields :
      (frag : Option IpFragInfo) (pbuf : PBuf) (s : Handler D F)
      → IsCalmHandler s
      → Yields (frag_stage delay_double tests glib config depth frag pbuf s)
  unfolding frag_stage
  frag_stage-Yields frag pbuf s calm = elim (Option-cases (s.fragtab)) [
    | inl e ↦ rw (e, frag_stage) (_, refl)
    | inr (t, e) ↦
        let c : IsIdle t × HasKeys t = rw e at calm in table_stage-Yields t frag pbuf s e c.0
  ]

  handle_packet-Yields :
      (p : Decodable) (pbuf : PBuf) (s : Handler D F)
      → IsCalmHandler s
      → Yields (handle_decodable p pbuf s)
  unfolding handle_packet
  handle_packet-Yields (raw, decodes) pbuf s calm =
      let (u, e) = decodes s.dectx pbuf (frag_buffer delay_double tests glib config depth raw s) in
      let s1 = record s { dectx = u.1.stats } in
      let d = detune_stage delay_double tests glib config depth raw u.2 s1 in
      let kept = detune_stage-key delay_double tests glib config depth raw u.2 s1 in
      rw e (
        if-Yields u.0 _ _
          (if-Yields d.0 _ _
            (bind-Yields _ _ (frag_stage-Yields u.1.frag d.1 d.2 (rw kept.1 calm))
              (λ (pbuf3, s3). (_, refl)))
            (_, refl))
          (_, refl))

  -- Where the fragment table is well formed `qfTraceHandlePacket` returns for each such packet, and
  -- leaves the table well formed.
  pub handle_decodable-Returns :
      (p : Decodable) (pbuf : PBuf) (s : Handler D F)
      → IsCalmHandler s
      → (r : Bool × PBuf × Handler D F) × (handle_decodable p pbuf s ≡ ok r) × IsCalmHandler r.2
  handle_decodable-Returns (raw, decodes) pbuf s calm =
      let (r, e) = handle_packet-Yields (raw, decodes) pbuf s calm in
      let left =
        subst (λ (x : Run (Bool × PBuf × Handler D F)). Gives (Handled IsCalmHandler) x) e
          (handle_packet-Handled delay_double tests glib config depth raw pbuf s calm) in
      (r, e, left.1)

  -- On a trace of packets on which the decoder returns, fragments among them, and of failures: with a
  -- flow table as it is allocated, packet slots with time zero, an empty ring that can take a group, and
  -- no fragment table or one with no assembled node, no payload and nodes with proper keys, the main
  -- loop returns, whatever fails in the output. The flow table that it leaves, after all groups, the
  -- packets put together from fragments, delayed or rejected, all flushes and the final one, is well
  -- formed: the key index finds exactly the open flows, each under the keys that equal its own, and the
  -- counts are the lengths of the queues modulo 2^32. The fuel is more than the calls for a packet that
  -- the trace answers.
  pub trace_main-IsTable :
      (table : IsHashTable h) (fuel : ℕ) (l : Loop double h lib handle_decodable)
      (c : qof.Flow.Record.Config) (unused : ℕ → FlowNode R)
      → l.process.flowtab ≡ tab_alloc h c unused
      → ((a : ℕ) → (l.process.slots a).ptime ≡ 0)
      → IsCalmHandler l.handler
      → IsReady double h lib handle_decodable l
      → length l.inputs < fuel
      → (u : Bool × Loop double h lib handle_decodable) × (trace_main double h lib handle_decodable
            fuel l
          ≡ ok u)
        × IsTable h u.1.process.flowtab
        × IsCounted u.1.process.flowtab
  unfolding tab_alloc
  trace_main-IsTable table fuel l c unused fresh zeroed calm ready more =
      trace_main-Keeps-IsTable double h lib handle_decodable IsCalmHandler
        (λ (raw, decodes) pbuf s valid good.
          handle_packet-Handled delay_double tests glib config depth raw pbuf s good)
        table fuel l handle_decodable-Returns ready more
        (record {
          process = record {
            indexed = rw fresh (tab_alloc-IsTable h table c unused);
            counted = rw fresh refl;
            slots = λ a v. absurd (ground (arith, v, zeroed a));
          };
          handler = calm;
        })
