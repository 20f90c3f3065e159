-- ===== src/Export/Spec.antt =====
-- The template of src/yafcore.c for the internal flow record, and the record's layout.
use Prim.Native.String.{String}
use qof.Base.{List, [], ℕ, ◌+◌, ◌^◌, ◌∷◌}

-- The flags `YTF_...`, which no combination in the template repeats, so that `|` is `+`.
abbrev pub bif : ℕ
bif = 0x0001

abbrev pub tcp : ℕ
tcp = 0x0002

abbrev pub rtt : ℕ
rtt = 0x0004

abbrev pub tsv : ℕ
tsv = 0x0008

abbrev pub ip4 : ℕ
ip4 = 0x0010

abbrev pub ip6 : ℕ
ip6 = 0x0020

abbrev pub fle : ℕ
fle = 0x0040

abbrev pub rle : ℕ
rle = 0x0080

abbrev pub flow_base_tid : ℕ
flow_base_tid = 0xB000

abbrev pub flow_full_tid : ℕ
flow_full_tid = 0xB800

abbrev pub rle_max : ℕ
rle_max = 2 ^ 31

abbrev pub min_rtt_count : ℕ
min_rtt_count = 1

-- `fbInfoElementSpec_t`
pub record Spec : Type 0 where
  pub name : String
  pub len_override : ℕ
  pub flags : ℕ

infix 40 ◌of◌for◌
abbrev pub ◌of◌for◌ : String → ℕ → ℕ → Spec
name of len for flags = record { name = name; len_override = len; flags = flags }

-- `qof_internal_spec`, without the null entry behind it.
unfoldable pub internal_spec : List Spec
internal_spec =
    ("flowId" of 8 for 0)
    ∷ ("flowStartMilliseconds" of 8 for 0)
    ∷ ("flowEndMilliseconds" of 8 for 0)
    ∷ ("octetDeltaCount" of 8 for fle)
    ∷ ("reverseOctetDeltaCount" of 8 for (fle + bif))
    ∷ ("packetDeltaCount" of 8 for fle)
    ∷ ("reversePacketDeltaCount" of 8 for (fle + bif))
    ∷ ("transportOctetDeltaCount" of 8 for fle)
    ∷ ("reverseTransportOctetDeltaCount" of 8 for (fle + bif))
    ∷ ("transportPacketDeltaCount" of 8 for fle)
    ∷ ("reverseTransportPacketDeltaCount" of 8 for (fle + bif))
    ∷ ("octetDeltaCount" of 4 for rle)
    ∷ ("reverseOctetDeltaCount" of 4 for (rle + bif))
    ∷ ("packetDeltaCount" of 4 for rle)
    ∷ ("reversePacketDeltaCount" of 4 for (rle + bif))
    ∷ ("transportOctetDeltaCount" of 4 for rle)
    ∷ ("reverseTransportOctetDeltaCount" of 4 for (rle + bif))
    ∷ ("transportPacketDeltaCount" of 4 for rle)
    ∷ ("reverseTransportPacketDeltaCount" of 4 for (rle + bif))
    ∷ ("sourceIPv4Address" of 4 for ip4)
    ∷ ("destinationIPv4Address" of 4 for ip4)
    ∷ ("sourceIPv6Address" of 16 for ip6)
    ∷ ("destinationIPv6Address" of 16 for ip6)
    ∷ ("tcpSequenceCount" of 8 for (tcp + fle))
    ∷ ("reverseTcpSequenceCount" of 8 for (tcp + fle + bif))
    ∷ ("tcpSequenceLossCount" of 8 for (tcp + fle))
    ∷ ("reverseTcpSequenceLossCount" of 8 for (tcp + fle + bif))
    ∷ ("tcpRetransmitCount" of 8 for (tcp + fle))
    ∷ ("reverseTcpRetransmitCount" of 8 for (tcp + fle + bif))
    ∷ ("tcpLossEventCount" of 8 for (tcp + fle))
    ∷ ("reverseTcpLossEventCount" of 8 for (tcp + fle + bif))
    ∷ ("tcpSequenceJumpCount" of 8 for (tcp + fle))
    ∷ ("reverseTcpSequenceJumpCount" of 8 for (tcp + fle + bif))
    ∷ ("tcpDupAckCount" of 8 for (tcp + fle + bif))
    ∷ ("reverseTcpDupAckCount" of 8 for (tcp + fle + bif))
    ∷ ("tcpSelAckCount" of 8 for (tcp + fle + bif))
    ∷ ("reverseTcpSelAckCount" of 8 for (tcp + fle + bif))
    ∷ ("tcpSequenceCount" of 4 for (tcp + rle))
    ∷ ("reverseTcpSequenceCount" of 4 for (tcp + rle + bif))
    ∷ ("tcpSequenceLossCount" of 4 for (tcp + rle))
    ∷ ("reverseTcpSequenceLossCount" of 4 for (tcp + rle + bif))
    ∷ ("tcpRetransmitCount" of 4 for (tcp + rle))
    ∷ ("reverseTcpRetransmitCount" of 4 for (tcp + rle + bif))
    ∷ ("tcpLossEventCount" of 4 for (tcp + rle))
    ∷ ("reverseTcpLossEventCount" of 4 for (tcp + rle + bif))
    ∷ ("tcpSequenceJumpCount" of 4 for (tcp + rle))
    ∷ ("reverseTcpSequenceJumpCount" of 4 for (tcp + rle + bif))
    ∷ ("tcpDupAckCount" of 4 for (tcp + rle + bif))
    ∷ ("reverseTcpDupAckCount" of 4 for (tcp + rle + bif))
    ∷ ("tcpSelAckCount" of 4 for (tcp + rle + bif))
    ∷ ("reverseTcpSelAckCount" of 4 for (tcp + rle + bif))
    ∷ ("tcpSequenceNumber" of 4 for tcp)
    ∷ ("reverseTcpSequenceNumber" of 4 for (tcp + bif))
    ∷ ("maxTcpSequenceJump" of 4 for tcp)
    ∷ ("reverseMaxTcpSequenceJump" of 4 for (tcp + bif))
    ∷ ("qofTcpCharacteristics" of 4 for tcp)
    ∷ ("reverseQofTcpCharacteristics" of 4 for (tcp + bif))
    ∷ ("minTcpRwin" of 4 for tcp)
    ∷ ("reverseMinTcpRwin" of 4 for (tcp + bif))
    ∷ ("meanTcpRwin" of 4 for tcp)
    ∷ ("reverseMeanTcpRwin" of 4 for (tcp + bif))
    ∷ ("maxTcpRwin" of 4 for tcp)
    ∷ ("reverseMaxTcpRwin" of 4 for (tcp + bif))
    ∷ ("tcpReceiverStallCount" of 4 for tcp)
    ∷ ("reverseTcpReceiverStallCount" of 4 for (tcp + bif))
    ∷ ("tcpTimestampFrequency" of 4 for (tcp + tsv))
    ∷ ("reverseTcpTimestampFrequency" of 4 for (tcp + tsv + bif))
    ∷ ("tcpRttSampleCount" of 4 for rtt)
    ∷ ("lastTcpRttMilliseconds" of 2 for rtt)
    ∷ ("minTcpRttMilliseconds" of 2 for rtt)
    ∷ ("declaredTcpMss" of 2 for tcp)
    ∷ ("reverseDeclaredTcpMss" of 2 for (tcp + bif))
    ∷ ("observedTcpMss" of 2 for tcp)
    ∷ ("reverseObservedTcpMss" of 2 for (tcp + bif))
    ∷ ("minTcpIOTMilliseconds" of 4 for tcp)
    ∷ ("reverseMinTcpIOTMilliseconds" of 4 for (tcp + bif))
    ∷ ("maxTcpIOTMilliseconds" of 4 for tcp)
    ∷ ("reverseMaxTcpIOTMilliseconds" of 4 for (tcp + bif))
    ∷ ("minTcpChirpMilliseconds" of 2 for (tcp + tsv))
    ∷ ("reverseMinTcpChirpMilliseconds" of 2 for (tcp + tsv + bif))
    ∷ ("maxTcpChirpMilliseconds" of 2 for (tcp + tsv))
    ∷ ("reverseMaxTcpChirpMilliseconds" of 2 for (tcp + tsv + bif))
    ∷ ("meanTcpChirpMilliseconds" of 2 for (tcp + tsv))
    ∷ ("reverseMeanTcpChirpMilliseconds" of 2 for (tcp + tsv + bif))
    ∷ ("reverseFlowDeltaMilliseconds" of 4 for bif)
    ∷ ("sourceTransportPort" of 2 for 0)
    ∷ ("destinationTransportPort" of 2 for 0)
    ∷ ("protocolIdentifier" of 1 for 0)
    ∷ ("flowEndReason" of 1 for 0)
    ∷ ("ingressInterface" of 1 for 0)
    ∷ ("egressInterface" of 1 for 0)
    ∷ ("sourceMacAddress" of 6 for 0)
    ∷ ("destinationMacAddress" of 6 for 0)
    ∷ ("vlanId" of 2 for 0)
    ∷ ("minimumTTL" of 1 for 0)
    ∷ ("maximumTTL" of 1 for 0)
    ∷ ("reverseMinimumTTL" of 1 for bif)
    ∷ ("reverseMaximumTTL" of 1 for bif)
    ∷ ("initialTCPFlags" of 1 for tcp)
    ∷ ("reverseInitialTCPFlags" of 1 for (tcp + bif))
    ∷ ("unionTCPFlags" of 1 for tcp)
    ∷ ("reverseUnionTCPFlags" of 1 for (tcp + bif))
    ∷ ("tcpControlBits" of 1 for tcp)
    ∷ ("reverseTcpControlBits" of 1 for (tcp + bif))
    ∷ []
