-- ===== src/Decode/Link.antt =====
-- Layer 2 of src/decode.c: link headers and the shims between them and IP.
pub mod Inside
pub mod Whole
use qof.Packet.Ether
use qof.Base.{
  List, Option, [], if◌then◌else◌, length, ltb, none, some, suc, zero, ℕ, ◌%◌, ◌&&◌, ◌++◌, ◌+◌, ◌/◌,
  ◌==◌, ◌^◌, ◌||◌, ◌∷◌,
}
use qof.Base.Word.{add32, nonzero}
use qof.Decode.Run.{
  Decoding, Run, advance, byte, bytes, null, ok, out_of_fuel, word16, word32, ◌>>=◌,
}
use qof.Packet.{no_l2_info}

abbrev pub fail_l2hdr : Decoding → Decoding
fail_l2hdr s = record s { stats = record (s.stats) { fail_l2hdr = add32 s.stats.fail_l2hdr 1 } }

abbrev pub fail_l2shim : Decoding → Decoding
fail_l2shim s = record s { stats = record (s.stats) { fail_l2shim = add32 s.stats.fail_l2shim 1 } }

abbrev pub fail_l2loop : Decoding → Decoding
fail_l2loop s = record s { stats = record (s.stats) { fail_l2loop = add32 s.stats.fail_l2loop 1 } }

-- `PF_INET` and `PF_INET6` are the system's.
unfoldable pub decode_l2_loop : (pf_inet pf_inet6 : ℕ) → ℕ → Decoding → Run Decoding
decode_l2_loop pf_inet pf_inet6 pf s =
    if pf == pf_inet
    then ok (record s { type = Ether.ipv4 })
    else if (pf == pf_inet6) || (pf == 24) || (pf == 28) || (pf == 30) || (pf == 10) || (pf == 23)
    then ok (record s { type = Ether.ipv6 })
    else null (fail_l2loop s)

-- The `switch` on the PPP type.
unfoldable pub ppp_ether : ℕ → Option ℕ
ppp_ether t =
    if t == 0x0021
    then some Ether.ipv4
    else if t == 0x0057
    then some Ether.ipv6
    else if t == 0x0281
    then some Ether.mpls
    else if t == 0x0283
    then some Ether.mplsm
    else none

module _ (mem : List ℕ) where
  -- `YF_IP_VERSION_TO_TYPE`
  unfoldable pub ip_version_to_type : Decoding → Run Decoding
  ip_version_to_type s = if ltb s.caplen 1 then null s else do
    b ← byte mem s.pkt
    if b / 16 == 4
        then ok (record s { type = Ether.ipv4 })
        else if b / 16 == 6
        then ok (record s { type = Ether.ipv6 })
        else null s

  unfoldable pub decode_l2_ppp : Decoding → Run Decoding
  decode_l2_ppp s = if ltb s.caplen 2 then null (fail_l2hdr s) else do
    t ← word16 mem s.pkt
    elim (ppp_ether t) [ none ↦ null s | some type' ↦ ok (record (advance 2 s) { type = type' }) ]

  -- One shim of each kind; the type says which.
  unfoldable pub shim_vlan : Decoding → Run Decoding
  shim_vlan s = if ltb s.caplen 4 then null (fail_l2shim s) else do
    type' ← word16 mem (s.pkt + 2)
    tag ← word16 mem s.pkt
    ok (
        advance 4
          (record s { type = type'; l2info = record (s.l2info) { vlan_tag = tag % 2 ^ 12 } }))

  unfoldable pub shim_mpls : Decoding → Run Decoding
  shim_mpls s = if ltb s.caplen 4 then null (fail_l2shim s) else do
    entry ← word32 mem s.pkt
    let labels = s.l2info.mpls_label
    let labels' = if ltb (length labels) 10 then labels ++ (entry / 2 ^ 12 ∷ []) else labels
    let s' = advance 4 (record s { l2info = record (s.l2info) { mpls_label = labels' } })
    if nonzero (entry / 2 ^ 8 % 2) then ip_version_to_type s' else ok s'

  unfoldable pub shim_pppoe : Decoding → Run Decoding
  shim_pppoe s = if ltb s.caplen 6 then null (fail_l2shim s) else decode_l2_ppp (advance 6 s)

  -- `while (1)`: each round but the last takes a shim off.
  unfoldable pub decode_l2_shim : ℕ → Decoding → Run Decoding
  decode_l2_shim zero s = out_of_fuel
  decode_l2_shim (suc fuel) s =
      let vlan = shim_vlan s >>= decode_l2_shim fuel in
      let mpls = shim_mpls s >>= decode_l2_shim fuel in
      let pppoe = shim_pppoe s >>= decode_l2_shim fuel in
      if s.type == Ether.vlan
      then vlan
      else if (s.type == Ether.mpls) || (s.type == Ether.mplsm)
      then mpls
      else if s.type == Ether.pppoe
      then pppoe
      else ok s

-- Link types of libtrace that the decoder knows, the others as one.
pub data LinkType : Type 0 where
  eth none_link linux_sll ppp hdlc_pos metadata unsupported : LinkType

module _ (mem : List ℕ) where
  abbrev pub ether_shim : (fuel type_at header : ℕ) → Decoding → Run Decoding
  ether_shim fuel type_at header s = if ltb s.caplen header then null (fail_l2hdr s) else do
    type' ← word16 mem (s.pkt + type_at)
    decode_l2_shim mem fuel (advance header (record s { type = type' }))

  unfoldable pub decode_eth : ℕ → Decoding → Run Decoding
  decode_eth fuel s = if ltb s.caplen 14 then null (fail_l2hdr s) else do
    type' ← word16 mem (s.pkt + 12)
    smac' ← bytes mem (s.pkt + 6) 6
    dmac' ← bytes mem s.pkt 6
    decode_l2_shim mem fuel (
        advance 14
          (record s { type = type'; l2info = record (s.l2info) { smac = smac'; dmac = dmac' } }))

  unfoldable pub decode_ppp : ℕ → Decoding → Run Decoding
  decode_ppp fuel s = if ltb s.caplen 2 then null (fail_l2hdr s) else do
    b0 ← byte mem s.pkt
    b1 ← byte mem (s.pkt + 1)
    let framed = (b0 == 0xff) && (b1 == 0x03)
    s1 ← decode_l2_ppp mem (if framed then advance 2 s else s)
    decode_l2_shim mem fuel s1

  -- The `switch` on the link type.
  unfoldable pub decode_link : LinkType → ℕ → Decoding → Run Decoding
  decode_link eth fuel t = decode_eth fuel t
  decode_link none_link fuel t = ip_version_to_type mem t
  decode_link linux_sll fuel t = ether_shim fuel 14 16 t
  decode_link ppp fuel t = decode_ppp fuel t
  decode_link hdlc_pos fuel t = ether_shim fuel 2 4 t
  decode_link metadata fuel t = null t
  decode_link unsupported fuel t = null t

  unfoldable pub decode_l2 : LinkType → ℕ → Decoding → Run Decoding
  decode_l2 link fuel s = decode_link link fuel (record s { l2info = no_l2_info })
