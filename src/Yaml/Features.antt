-- ===== src/Yaml/Features.antt =====
-- The settings of src/qofconfig.c and the features that its elements enable.
use text.Mathlib.Text.{◌==◌ as same_text, starts_with}
use Prim.Native.String.{String}
use qof.Base.{Bool, List, Option, [], if◌then◌else◌, none, some, true, ℕ, ◌*◌, ◌==◌, ◌∷◌}
use qof.Base.Word.{nonzero}
use qof.IfMap.{IfMap, NetList}
use qof.MacList.{MacList}
use qof.Export.Elements.{ExportSpec, export_ie, export_ie_count}

-- The switches of `qfConfig_t` but `enable_iface`, which nothing sets or reads.
pub data Feature : Type 0 where
  enable_biflow enable_gre enable_silk enable_biforce enable_ipv4 enable_ipv6 enable_mac : Feature
  enable_ack enable_seq enable_rtt enable_rwin enable_ts enable_iat enable_tcpopt : Feature

abbrev pub number : Feature → ℕ
number enable_biflow = 0
number enable_gre = 1
number enable_silk = 2
number enable_biforce = 3
number enable_ipv4 = 4
number enable_ipv6 = 5
number enable_mac = 6
number enable_ack = 7
number enable_seq = 8
number enable_rtt = 9
number enable_rwin = 10
number enable_ts = 11
number enable_iat = 12
number enable_tcpopt = 13

-- `qfConfig_t`, with the chosen export template.
pub record Settings : Type 0 where
  pub enabled : Feature → Bool
  pub ato_s : ℕ
  pub ito_s : ℕ
  pub max_flowtab : ℕ
  pub max_fragtab : ℕ
  pub max_flow_oct : ℕ
  pub max_flow_pkt : ℕ
  pub ato_rtts : ℕ
  pub ifmap : IfMap
  pub srcnets : NetList
  pub srcmacs : MacList
  pub chosen : ExportSpec

abbrev pub enable : Feature → Bool → Settings → Settings
enable f b c = record c { enabled = λ g. if number f == number g then b else c.enabled g }

unfoldable pub config_defaults : Settings → Settings
config_defaults c = record c {
  ato_s = 300;
  ito_s = 30;
  max_flowtab = 1024 * 1024;
  max_fragtab = 256 * 1024;
  max_flow_pkt = 0;
  max_flow_oct = 0;
  ato_rtts = 0;
}

-- `cfg_ie_features`
unfoldable pub ie_features : List (String × Feature)
ie_features =
    ("sourceIPv4Address", enable_ipv4)
    ∷ ("destinationIPv4Address", enable_ipv4)
    ∷ ("sourceIPv6Address", enable_ipv6)
    ∷ ("destinationIPv6Address", enable_ipv6)
    ∷ ("sourceMacAddress", enable_mac)
    ∷ ("destinationMacAddress", enable_mac)
    ∷ ("vlanId", enable_mac)
    ∷ ("tcpSequenceCount", enable_seq)
    ∷ ("maxTcpSequenceJump", enable_seq)
    ∷ ("tcpSequenceLossCount", enable_seq)
    ∷ ("tcpRetransmitCount", enable_seq)
    ∷ ("tcpSequenceJumpCount", enable_seq)
    ∷ ("tcpLossEventCount", enable_seq)
    ∷ ("tcpDupAckCount", enable_ack)
    ∷ ("tcpSelAckCount", enable_ack)
    ∷ ("minTcpRttMilliseconds", enable_rtt)
    ∷ ("tcpRttMilliseconds", enable_rtt)
    ∷ ("tcpLossEventCount", enable_rtt)
    ∷ ("minTcpRwin", enable_rwin)
    ∷ ("meanTcpRwin", enable_rwin)
    ∷ ("maxTcpRwin", enable_rwin)
    ∷ ("tcpTimestampFrequency", enable_ts)
    ∷ ("minTcpChirpMilliseconds", enable_ts)
    ∷ ("maxTcpChirpMilliseconds", enable_ts)
    ∷ ("minTcpIOTMilliseconds", enable_iat)
    ∷ ("maxTcpIOTMilliseconds", enable_iat)
    ∷ ("minTcpChirpMilliseconds", enable_iat)
    ∷ ("maxTcpChirpMilliseconds", enable_iat)
    ∷ ("meanTcpChirpMilliseconds", enable_iat)
    ∷ ("minTcpRttMilliseconds", enable_tcpopt)
    ∷ ("tcpRttMilliseconds", enable_tcpopt)
    ∷ ("qofTcpCharacteristics", enable_tcpopt)
    ∷ ("declaredTcpMss", enable_tcpopt)
    ∷ ("minTcpRwin", enable_tcpopt)
    ∷ ("meanTcpRwin", enable_tcpopt)
    ∷ ("maxTcpRwin", enable_tcpopt)
    ∷ ("tcpSelAckCount", enable_tcpopt)
    ∷ ("tcpTimestampFrequency", enable_tcpopt)
    ∷ ("minTcpChirpMilliseconds", enable_tcpopt)
    ∷ ("maxTcpChirpMilliseconds", enable_tcpopt)
    ∷ ("meanTcpChirpMilliseconds", enable_tcpopt)
    ∷ []

-- `cfg_default_ies`
unfoldable pub default_ies : List String
default_ies =
    "flowStartMilliseconds" ∷ "flowEndMilliseconds" ∷ "octetDeltaCount" ∷ "reverseOctetDeltaCount"
    ∷ "packetDeltaCount" ∷ "reversePacketDeltaCount" ∷ "sourceIPv4Address"
    ∷ "destinationIPv4Address" ∷ "sourceIPv6Address" ∷ "destinationIPv6Address"
    ∷ "sourceTransportPort" ∷ "destinationTransportPort" ∷ "protocolIdentifier" ∷ "flowEndReason"
    ∷ []

abbrev pub enable_for : String → List (String × Feature) → Settings → Settings
enable_for ie [] c = c
enable_for ie ((key, f) ∷ table) c =
    enable_for ie table (if same_text key ie then enable f true c else c)

-- `qfConfigIE`; `none` is an error.
unfoldable pub config_ie : Settings → String → Option Settings
config_ie c ie =
    let (chosen, found) = export_ie c.chosen ie in
    let added = record c { chosen = chosen } in
    let biflow = if starts_with ie "reverse" then enable enable_biflow true added else added in
    if found then some (enable_for ie ie_features biflow) else none

abbrev pub config_ies : Settings → List String → Option Settings
config_ies c [] = some c
config_ies c (ie ∷ ies) = elim (config_ie c ie) [ none ↦ none | some c' ↦ config_ies c' ies ]

-- `none` is the end of the program.
unfoldable pub config_default_template : Settings → Option Settings
config_default_template c =
    if nonzero (export_ie_count c.chosen) then some c else config_ies c default_ies
