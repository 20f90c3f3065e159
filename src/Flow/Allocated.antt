-- ===== src/Flow/Allocated.antt =====
-- The TCP structure of a direction in src/yaftab.c is allocated before it is written.
use qof.Base.{
  Bool, Bool-cases, Option-cases, arith, bit_or, false, if◌then◌else◌, inl, inr, none, not, refl,
  some, true, ℕ, ◌==◌, ◌||◌, ◌≡◌,
}
use qof.Base.Int.{ℤ}
use qof.Base.Word.{nonzero, to_u32}
use qof.Stats.{Double}
use qof.Packet.{IpInfo, TcpInfo}
use qof.Flow.Record.{Config, FlowNode, FlowVal, TcpVal, allocates, no_tcp_val, on_tcp, side}
use qof.Flow.Tcp.{flow_pkt_tcp, tcp_first, tcp_later, track_ack, track_opt, track_rwin}

-- One of the trackers that write the TCP structure is on.
abbrev pub tracks : Config → Bool
tracks c = c.tcp_seq_enable || (c.tcp_ack_enable || (c.tcp_rwin_enable || c.tcp_opt_enable))

module _ {R : Type 0} where
  unfoldable pub has_tcp : FlowVal R → Bool
  has_tcp v = elim (v.tcp) [ none ↦ false | some t ↦ true ]

  -- No write has gone through a null pointer, and where a tracker is on the structure is there.
  abbrev pub Intact : Config → FlowVal R → Type 0
  Intact c v = (v.faulted ≡ false) × (tracks c ≡ true → has_tcp v ≡ true)

  -- Before a packet the structure is asked for only where there have been packets.
  abbrev pub Ready : Config → FlowVal R → Type 0
  Ready c v = (v.faulted ≡ false) × (tracks c ≡ true → (v.pkt == 0) ≡ false → has_tcp v ≡ true)

module _ {R : Type 0} (double : Double R) (c : Config) where
  on_tcp-Intact :
      (test : Bool) (f : TcpVal R → TcpVal R) (v : FlowVal R)
      → (test ≡ true → tracks c ≡ true)
      → Intact c v
      → Intact c (on_tcp test f v)
  unfolding has_tcp
  on_tcp-Intact true f v on (sound, there) = elim (Option-cases (v.tcp)) [
    | inl e ↦ absurd (ground (arith, rw e at there (on refl)))
    | inr (t, e) ↦ rw (e, sound) (refl, λ h. refl)
  ]
  on_tcp-Intact false f v on (sound, there) = elim (Option-cases (v.tcp)) [
    | inl e ↦ rw (e, sound) (refl, rw e at there)
    | inr (t, e) ↦ rw (e, sound) (refl, λ h. refl)
  ]

  module _ (tcpinfo : TcpInfo) (datalen lms : ℕ) where
    tcp_first-Intact :
        (v : FlowVal R) → v.faulted ≡ false → Intact c (tcp_first double c tcpinfo datalen lms v)
    unfolding has_tcp tcp_first
    tcp_first-Intact v sound =
        let fresh = if allocates c then some (no_tcp_val double) else v.tcp in
        on_tcp-Intact c.tcp_seq_enable _ (record v { tcp = fresh; iflags = tcpinfo.flags })
          (λ e. ground (arith, e))
          (
            sound,
            λ h. elim (Bool-cases (allocates c)) [
              | inl e ↦ rw e refl
              | inr e ↦ absurd (ground (arith, e, h))
            ],
          )

    tcp_later-Intact :
        (rtt_val : ℤ) (v : FlowVal R)
        → Intact c v
        → Intact c (tcp_later double c tcpinfo datalen lms rtt_val v)
    unfolding has_tcp tcp_later
    tcp_later-Intact rtt_val v i =
        on_tcp-Intact c.tcp_seq_enable _ (record v { uflags = bit_or v.uflags tcpinfo.flags })
          (λ e. ground (arith, e)) i

    track_ack-Intact :
        (v : FlowVal R) → Intact c v → Intact c (track_ack double c tcpinfo datalen lms v)
    unfolding track_ack
    track_ack-Intact v i = on_tcp-Intact _ _ v (λ e. ground (arith, e)) i

    track_rwin-Intact : (v : FlowVal R) → Intact c v → Intact c (track_rwin double c tcpinfo v)
    unfolding track_rwin
    track_rwin-Intact v i = on_tcp-Intact c.tcp_rwin_enable _ v (λ e. ground (arith, e)) i

    track_opt-Intact :
        (ipinfo : IpInfo) (v : FlowVal R)
        → Intact c v
        → Intact c (track_opt double c tcpinfo ipinfo datalen v)
    unfolding track_opt
    track_opt-Intact ipinfo v i = on_tcp-Intact c.tcp_opt_enable _ v (λ e. ground (arith, e)) i

    counted-Intact :
        (rtt_val : ℤ) (v : FlowVal R)
        → Ready c v
        → Intact c (
            if nonzero v.pkt
            then tcp_later double c tcpinfo datalen lms rtt_val v
            else tcp_first double c tcpinfo datalen lms v)
    counted-Intact rtt_val v (sound, there) = elim (Bool-cases (v.pkt == 0)) [
      | inl e ↦ rw e (tcp_first-Intact v sound)
      | inr e ↦ rw e (tcp_later-Intact rtt_val v (sound, λ h. there h e))
    ]

    tracked-Intact :
        (ipinfo : IpInfo) (rtt_val : ℤ) (v : FlowVal R)
        → Ready c v
        → Intact c (
            track_opt double c tcpinfo ipinfo datalen (
              track_rwin double c tcpinfo (
                track_ack double c tcpinfo datalen lms (
                  if nonzero v.pkt
                  then tcp_later double c tcpinfo datalen lms rtt_val v
                  else tcp_first double c tcpinfo datalen lms v))))
    tracked-Intact ipinfo rtt_val v i =
        track_opt-Intact ipinfo _
          (track_rwin-Intact _ (track_ack-Intact _ (counted-Intact rtt_val v i)))

module _ {R : Type 0} (double : Double R) (c : Config) (ctime : ℕ) (tcpinfo : TcpInfo)
    (ipinfo : IpInfo) (datalen : ℕ) (fn : FlowNode R) where
  -- For every configuration: on a side of a flow through whose null pointer nothing was written, and
  -- that has its TCP structure if it has packets and sequence numbers, acknowledgments, windows or
  -- options are tracked, a TCP packet of that side writes nothing through a null pointer, and leaves
  -- the side with its structure if one of these is tracked. The other side does not change.
  pub flow_pkt_tcp-has_tcp :
      (reverse : Bool)
      → (side reverse fn.f).faulted ≡ false
      → (tracks c ≡ true
          → ((side reverse fn.f).pkt == 0) ≡ false
          → has_tcp (side reverse fn.f) ≡ true)
      → let after = flow_pkt_tcp double c ctime reverse tcpinfo ipinfo datalen fn in
        ((side reverse after.f).faulted ≡ false)
        × (tracks c ≡ true → has_tcp (side reverse after.f) ≡ true)
        × (side (not reverse) after.f ≡ side (not reverse) fn.f)
  unfolding flow_pkt_tcp
  flow_pkt_tcp-has_tcp true sound there =
      let i =
        tracked-Intact double c tcpinfo datalen (to_u32 ctime) ipinfo _ fn.f.rval (sound, there) in
      (i.0, i.1, refl)
  flow_pkt_tcp-has_tcp false sound there =
      let i =
        tracked-Intact double c tcpinfo datalen (to_u32 ctime) ipinfo _ fn.f.val (sound, there) in
      (i.0, i.1, refl)
