-- ===== src/Process/Input.antt =====
-- `qfTraceHandlePacket` of src/qofltrace.c: a captured packet into a packet buffer.
pub mod Sound
use qof.Base.{Bool, List, Option, false, if◌then◌else◌, none, some, true, ℕ}
use qof.Base.Word.{nonzero}
use qof.Packet.{IpFragInfo, PBuf}
use qof.Decode.Run.{Config, Run, Stats, ok, ◌>>=◌}
use qof.Decode.Link.{LinkType}
use qof.Decode.Tunnel.{decode_timeval, decode_to_pbuf}
use qof.Detune.{Detune, Tests, detune_packet}
use qof.Fragment.{FragTab, Glib}
use qof.Fragment.Assemble.{defrag_pbuf}
use qof.Stats.{Double}

-- What libtrace says of a packet, and the random numbers that are drawn for it. `on_stack` is what the
-- fragment information, which is not initialised, holds at the start.
pub record Raw : Type 0 where
  pub tv_sec : ℕ
  pub tv_usec : ℕ
  pub linktype : LinkType
  pub capture_length : ℕ
  pub pkt : List ℕ
  pub die : ℕ
  pub bits : ℕ
  pub on_stack : IpFragInfo

-- The decoder's counters, the fragment table and the delay simulation, `none` for null pointers.
pub record Handler (D F : Type 0) : Type 0 where
  pub dectx : Stats
  pub fragtab : Option (FragTab F)
  pub detune : Option (Detune D)

module _ {D F : Type 0} (double : Double D) (tests : Tests D) (glib : Glib F) (config : Config)
    (fuel : ℕ) where
  -- "Signal drop if detune says so"
  unfoldable pub detune_stage : Raw → PBuf → Handler D F → Bool × PBuf × Handler D F
  detune_stage raw pbuf s = elim (s.detune) [
    | none ↦ (true, pbuf, s)
    | some d ↦
        let (d', ms, pass) = detune_packet double tests d pbuf.ptime pbuf.iplen raw.die raw.bits in
        (pass, record pbuf { ptime = ms }, record s { detune = some d' })
  ]

  -- "Handle fragmentation if necessary", whatever `yfDefragPBuf` returns.
  unfoldable pub frag_stage : Option IpFragInfo → PBuf → Handler D F → Run (PBuf × Handler D F)
  frag_stage frag pbuf s = elim (s.fragtab) [
    | none ↦ ok (pbuf, s)
    | some t ↦ elim frag [
      | none ↦ ok (pbuf, s)
      | some f ↦
          let defragged = do
            (done, pbuf', t') ← defrag_pbuf glib (some f) pbuf t
            ok (pbuf', record s { fragtab = some t' })
          in if nonzero f.frag then defragged else ok (pbuf, s)
    ]
  ]

  -- Fragment information is kept only where there is a fragment table.
  abbrev pub frag_buffer : Raw → Handler D F → Option IpFragInfo
  frag_buffer raw s = elim (s.fragtab) [ none ↦ none | some t ↦ some (raw.on_stack) ]

  unfoldable pub handle_packet : Raw → PBuf → Handler D F → Run (Bool × PBuf × Handler D F)
  handle_packet raw pbuf s = do
    let ptime = decode_timeval raw.tv_sec raw.tv_usec
    (decoded, d, pbuf1) ←
        decode_to_pbuf raw.pkt config raw.linktype ptime raw.capture_length fuel s.dectx pbuf
          (frag_buffer raw s)
    let s1 = record s { dectx = d.stats }
    let (pass, pbuf2, s2) = detune_stage raw pbuf1 s1
    let handled = do (pbuf3, s3) ← frag_stage d.frag pbuf2 s2; ok (true, pbuf3, s3)
    if decoded then (if pass then handled else ok (false, pbuf2, s2)) else ok (false, pbuf1, s1)
