-- ===== src/Export/Layout.antt =====
-- The layout of the flow record of src/yafcore.c, and the check of the template against it.
use Prim.Native.String.{String}
use qof.Base.{
  Bool, List, [], arith, false, get_elem?, if◌then◌else◌, refl, some, suc, true, zero, ℕ, ◌&&◌, ◌*◌,
  ◌+◌, ◌-◌, ◌/◌, ◌==◌, ◌∷◌, ◌≡◌,
}
use qof.Base.Word.{has_bits}
use qof.Export.Spec.{Spec, internal_spec, rle}

-- A member of a structure: `count` elements of `size` bytes, aligned to the size.
pub record Field : Type 0 where
  pub member : String
  pub size : ℕ
  pub count : ℕ

infix 40 ◌has◌times◌
abbrev pub ◌has◌times◌ : String → ℕ → ℕ → Field
member has size times count = record { member = member; size = size; count = count }

-- `yfIpfixFlow_t`
unfoldable pub ipfix_flow : List Field
ipfix_flow =
    ("flowId" has 8 times 1)
    ∷ ("flowStartMilliseconds" has 8 times 1)
    ∷ ("flowEndMilliseconds" has 8 times 1)
    ∷ ("octetCount" has 8 times 1)
    ∷ ("reverseOctetCount" has 8 times 1)
    ∷ ("packetCount" has 8 times 1)
    ∷ ("reversePacketCount" has 8 times 1)
    ∷ ("transportOctetDeltaCount" has 8 times 1)
    ∷ ("reverseTransportOctetDeltaCount" has 8 times 1)
    ∷ ("transportPacketDeltaCount" has 8 times 1)
    ∷ ("reverseTransportPacketDeltaCount" has 8 times 1)
    ∷ ("sourceIPv4Address" has 4 times 1)
    ∷ ("destinationIPv4Address" has 4 times 1)
    ∷ ("sourceIPv6Address" has 1 times 16)
    ∷ ("destinationIPv6Address" has 1 times 16)
    ∷ ("tcpSequenceCount" has 8 times 1)
    ∷ ("reverseTcpSequenceCount" has 8 times 1)
    ∷ ("tcpSequenceLossCount" has 8 times 1)
    ∷ ("reverseTcpSequenceLossCount" has 8 times 1)
    ∷ ("tcpRetransmitCount" has 8 times 1)
    ∷ ("reverseTcpRetransmitCount" has 8 times 1)
    ∷ ("tcpLossEventCount" has 8 times 1)
    ∷ ("reverseTcpLossEventCount" has 8 times 1)
    ∷ ("tcpSequenceJumpCount" has 8 times 1)
    ∷ ("reverseTcpSequenceJumpCount" has 8 times 1)
    ∷ ("tcpDupAckCount" has 8 times 1)
    ∷ ("reverseTcpDupAckCount" has 8 times 1)
    ∷ ("tcpSelAckCount" has 8 times 1)
    ∷ ("reverseTcpSelAckCount" has 8 times 1)
    ∷ ("tcpSequenceNumber" has 4 times 1)
    ∷ ("reverseTcpSequenceNumber" has 4 times 1)
    ∷ ("maxTcpSequenceJump" has 4 times 1)
    ∷ ("reverseMaxTcpSequenceJump" has 4 times 1)
    ∷ ("qofTcpCharacteristics" has 4 times 1)
    ∷ ("reverseQofTcpCharacteristics" has 4 times 1)
    ∷ ("minTcpRwin" has 4 times 1)
    ∷ ("reverseMinTcpRwin" has 4 times 1)
    ∷ ("meanTcpRwin" has 4 times 1)
    ∷ ("reverseMeanTcpRwin" has 4 times 1)
    ∷ ("maxTcpRwin" has 4 times 1)
    ∷ ("reverseMaxTcpRwin" has 4 times 1)
    ∷ ("tcpReceiverStallCount" has 4 times 1)
    ∷ ("reverseTcpReceiverStallCount" has 4 times 1)
    ∷ ("tcpTimestampFrequency" has 4 times 1)
    ∷ ("reverseTcpTimestampFrequency" has 4 times 1)
    ∷ ("tcpRttSampleCount" has 4 times 1)
    ∷ ("lastTcpRttMilliseconds" has 2 times 1)
    ∷ ("minTcpRttMilliseconds" has 2 times 1)
    ∷ ("declaredTcpMss" has 2 times 1)
    ∷ ("reverseDeclaredTcpMss" has 2 times 1)
    ∷ ("observedTcpMss" has 2 times 1)
    ∷ ("reverseObservedTcpMss" has 2 times 1)
    ∷ ("minTcpIOTMilliseconds" has 4 times 1)
    ∷ ("reverseMinTcpIOTMilliseconds" has 4 times 1)
    ∷ ("maxTcpIOTMilliseconds" has 4 times 1)
    ∷ ("reverseMaxTcpIOTMilliseconds" has 4 times 1)
    ∷ ("minTcpChirpMilliseconds" has 2 times 1)
    ∷ ("reverseMinTcpChirpMilliseconds" has 2 times 1)
    ∷ ("maxTcpChirpMilliseconds" has 2 times 1)
    ∷ ("reverseMaxTcpChirpMilliseconds" has 2 times 1)
    ∷ ("meanTcpChirpMilliseconds" has 2 times 1)
    ∷ ("reverseMeanTcpChirpMilliseconds" has 2 times 1)
    ∷ ("reverseFlowDeltaMilliseconds" has 4 times 1)
    ∷ ("sourceTransportPort" has 2 times 1)
    ∷ ("destinationTransportPort" has 2 times 1)
    ∷ ("protocolIdentifier" has 1 times 1)
    ∷ ("flowEndReason" has 1 times 1)
    ∷ ("ingressInterface" has 1 times 1)
    ∷ ("egressInterface" has 1 times 1)
    ∷ ("sourceMacAddress" has 1 times 6)
    ∷ ("destinationMacAddress" has 1 times 6)
    ∷ ("vlanId" has 2 times 1)
    ∷ ("minimumTTL" has 1 times 1)
    ∷ ("maximumTTL" has 1 times 1)
    ∷ ("reverseMinimumTTL" has 1 times 1)
    ∷ ("reverseMaximumTTL" has 1 times 1)
    ∷ ("initialTCPFlags" has 1 times 1)
    ∷ ("reverseInitialTCPFlags" has 1 times 1)
    ∷ ("unionTCPFlags" has 1 times 1)
    ∷ ("reverseUnionTCPFlags" has 1 times 1)
    ∷ ("tcpControlBits" has 1 times 1)
    ∷ ("reverseTcpControlBits" has 1 times 1)
    ∷ []

abbrev pub align : ℕ → ℕ → ℕ
align at size = (at + size - 1) / size * size

-- The offsets of the members, from the one given on.
abbrev pub struct_offsets : ℕ → List Field → List ℕ
struct_offsets at [] = []
struct_offsets at (f ∷ fs) =
    let start = align at f.size in start ∷ struct_offsets (start + f.size * f.count) fs

-- `internal_offsets`: the running sum of the lengths, without the entries of reduced length.
abbrev pub template_offsets : ℕ → List Spec → List ℕ
template_offsets next [] = []
template_offsets next (s ∷ ss) =
    let reduced = has_bits s.flags rle in
    let rest = template_offsets (if reduced then next else next + s.len_override) ss in
    if reduced then rest else next ∷ rest

every_pair : List ℕ → List ℕ → Bool
every_pair [] ys = true
every_pair (x ∷ xs) [] = false
every_pair (x ∷ xs) (y ∷ ys) = (x == y) && every_pair xs ys

every_pair_lem :
    (xs ys : List ℕ) (i x : ℕ)
    → every_pair xs ys ≡ true
    → get_elem? xs i ≡ some x
    → get_elem? ys i ≡ some x
unfolding every_pair
every_pair_lem [] ys i x h at = absurd (cc)
every_pair_lem (a ∷ xs) [] i x h at = absurd (cc)
every_pair_lem (a ∷ xs) (b ∷ ys) zero x h at = ground arith
every_pair_lem (a ∷ xs) (b ∷ ys) (suc i) x h at = every_pair_lem xs ys i x (ground arith) at

-- `qfInternalTemplateCheck`: each offset of the structure is the one of the template.
unfoldable pub template_check : List Field → List Spec → Bool
unfolding every_pair
template_check fields specs = every_pair (struct_offsets 0 fields) (template_offsets 0 specs)

-- The check passes on the flow record and the internal template, so that it does not end the program.
template_check_passes : template_check ipfix_flow internal_spec ≡ true
unfolding template_check ipfix_flow internal_spec every_pair
template_check_passes = refl

-- Where the check passes, the member at any position of the structure starts, with the padding of its
-- type, at the very byte at which the entry at that position of the full-length template starts.
pub template_check-offsets :
    (fields : List Field) (specs : List Spec)
    → template_check fields specs ≡ true
    → (i start : ℕ) → get_elem? (struct_offsets 0 fields) i ≡ some start
    → get_elem? (template_offsets 0 specs) i ≡ some start
unfolding template_check
template_check-offsets fields specs h i start at =
    every_pair_lem (struct_offsets 0 fields) (template_offsets 0 specs) i start h at
