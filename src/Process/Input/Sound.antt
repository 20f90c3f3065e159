-- ===== src/Process/Input/Sound.antt =====
-- What `qfTraceHandlePacket` of src/qofltrace.c leaves in a packet slot.
use mathlib.Core.Path.{subst}
use qof.Base.{
  Bool, Option, Option-cases, arith, false, if◌then◌else◌, inl, inr, none, refl, some, true, ℕ, ◌≡◌,
}
use qof.Base.Word.{nonzero}
use qof.Packet.{IpFragInfo, PBuf}
use qof.Stats.{Double}
use qof.Flow.Key.Contract.{IsKey}
use qof.Decode.Run.{Config, Decoding, Run, ok, ◌>>=◌}
use qof.Decode.Keys.{Gives, Gives-bind, Gives-if}
use qof.Decode.Keyed.{Decoded, IsPacket, decode_to_pbuf-Decoded}
use qof.Detune.{Tests}
use qof.Fragment.{FragTab, Glib}
use qof.Fragment.Outcome.{IsIdle, defrag_pbuf-IsIdle}
use qof.Fragment.Keys.{Defragged, HasKeys, defrag_pbuf-Defragged}
use qof.Process.Input.{Handler, Raw, detune_stage, frag_buffer, frag_stage, handle_packet}
use qof.Decode.Tunnel.{decode_timeval}
use qof.Process.Main.Sound.{Handled}

-- Between two packets: no node of the fragment table is assembled or has payload, and each has a
-- proper key.
abbrev pub IsCalm : {F : Type 0} → Option (FragTab F) → Type 0
IsCalm none = Unit
IsCalm (some t) = IsIdle t × HasKeys t

abbrev pub IsCalmHandler : {D F : Type 0} → Handler D F → Type 0
IsCalmHandler s = IsCalm s.fragtab

module _ {D F : Type 0} (double : Double D) (tests : Tests D) (glib : Glib F) (config : Config)
    (fuel : ℕ) where
  -- What the delay simulation leaves alone.
  pub detune_stage-key :
      (raw : Raw) (pbuf : PBuf) (s : Handler D F)
      → let u = detune_stage double tests glib config fuel raw pbuf s in
        (u.1.key ≡ pbuf.key) × (u.2.fragtab ≡ s.fragtab)
  unfolding detune_stage
  detune_stage-key raw pbuf s = elim (Option-cases (s.detune)) [
    | inl e ↦ rw (e, detune_stage) (refl, refl)
    | inr (d, e) ↦ rw (e, detune_stage) (refl, refl)
  ]

  abbrev Staged : PBuf × Handler D F → Type 0
  Staged (pbuf, s) = IsPacket pbuf × IsCalmHandler s

  frag_stage_table :
      (t : FragTab F) (frag : Option IpFragInfo) (pbuf : PBuf) (s : Handler D F)
      → s.fragtab ≡ some t
      → IsKey pbuf.key
      → IsIdle t
      → HasKeys t
      → Gives Staged (frag_stage double tests glib config fuel frag pbuf s)
  unfolding frag_stage
  frag_stage_table t none pbuf s e is_key idle h = rw (e, frag_stage) (λ v. is_key, rw e (idle, h))
  frag_stage_table t (some f) pbuf s e is_key idle h =
      let (done, pbuf', t', returns, idle', timed) = defrag_pbuf-IsIdle glib (some f) pbuf t idle in
      let left =
        subst (λ (r : Run (Bool × PBuf × FragTab F)). Gives (Defragged glib) r) returns
          (defrag_pbuf-Defragged glib (some f) pbuf t is_key h idle) in
      rw (e, frag_stage, returns)
        (Gives-if Staged (nonzero f.frag) _ _ (left.0, (idle', left.1))
          (λ v. is_key, rw e (idle, h)))

  frag_stage-Staged :
      (frag : Option IpFragInfo) (pbuf : PBuf) (s : Handler D F)
      → IsKey pbuf.key
      → IsCalmHandler s
      → Gives Staged (frag_stage double tests glib config fuel frag pbuf s)
  unfolding frag_stage
  frag_stage-Staged frag pbuf s is_key calm = elim (Option-cases (s.fragtab)) [
    | inl e ↦ rw (e, frag_stage) (λ v. is_key, rw e tt)
    | inr (t, e) ↦
        let c : IsIdle t × HasKeys t = rw e at calm in
        frag_stage_table t frag pbuf s e is_key c.0 c.1
  ]

  frag_stage-Handled :
      (pass : Bool) (frag : Option IpFragInfo) (pbuf : PBuf) (s : Handler D F)
      → IsKey pbuf.key
      → IsCalmHandler s
      → Gives (Handled IsCalmHandler) (
          let handled = do
            (pbuf3, s3) ← frag_stage double tests glib config fuel frag pbuf s
            ok (true, pbuf3, s3)
          in if pass then handled else ok (false, pbuf, s))
  frag_stage-Handled pass frag pbuf s is_key calm =
      Gives-if (Handled IsCalmHandler) pass _ _
        (Gives-bind (Handled IsCalmHandler) Staged _ _ (frag_stage-Staged frag pbuf s is_key calm)
          (λ (pbuf3, s3) k. k))
        (λ v. is_key, calm)

  detune_stage-Handled :
      (raw : Raw) (ptime : ℕ) (s : Handler D F) (u : Bool × Decoding × PBuf)
      → IsCalmHandler s
      → Decoded ptime u
      → Gives (Handled IsCalmHandler) (
          let s1 = record s { dectx = u.1.stats } in
          let (pass, pbuf2, s2) = detune_stage double tests glib config fuel raw u.2 s1 in
          let handled = do
            (pbuf3, s3) ← frag_stage double tests glib config fuel u.1.frag pbuf2 s2
            ok (true, pbuf3, s3)
          in if u.0 then (if pass then handled else ok (false, pbuf2, s2)) else ok (false, u.2, s1))
  detune_stage-Handled raw ptime s (true, d, pbuf) calm decoded =
      let s1 = record s { dectx = d.stats } in
      let u = detune_stage double tests glib config fuel raw pbuf s1 in
      let kept = detune_stage-key raw pbuf s1 in
      frag_stage-Handled u.0 d.frag u.1 u.2 (rw kept.0 decoded.1) (rw kept.1 calm)
  detune_stage-Handled raw ptime s (false, d, pbuf) calm decoded =
      (λ v. absurd (ground (arith, v, decoded)), calm)

  -- Whatever is captured, and whatever the decoder, the delay simulation and the fragment table do with
  -- it: where `qfTraceHandlePacket` ends, the slot is marked invalid by time zero or has a key of
  -- version 4 or 6 with addresses of that version, also for a packet put together from fragments and for
  -- a slot whose packet was rejected, and the fragment table has no assembled node left.
  pub handle_packet-Handled :
      (raw : Raw) (pbuf : PBuf) (s : Handler D F)
      → IsCalmHandler s
      → Gives (Handled IsCalmHandler) (handle_packet double tests glib config fuel raw pbuf s)
  unfolding handle_packet
  handle_packet-Handled raw pbuf s calm =
      let ptime = decode_timeval raw.tv_sec raw.tv_usec in
      Gives-bind (Handled IsCalmHandler) (Decoded ptime) _ _
        (decode_to_pbuf-Decoded raw.pkt config raw.linktype ptime raw.capture_length fuel s.dectx
          pbuf (frag_buffer double tests glib config fuel raw s))
        (λ u decoded. detune_stage-Handled raw ptime s u calm decoded)
