-- ===== src/Packet/Ether.antt =====
-- `YF_TYPE_` of include/qof/decode.h and src/decode.c: types of what an Ethernet frame carries.
use qof.Base.{ℕ}

abbrev pub ipv4 : ℕ
ipv4 = 0x0800

abbrev pub ipv6 : ℕ
ipv6 = 0x86dd

abbrev pub vlan : ℕ
vlan = 0x8100

abbrev pub mpls : ℕ
mpls = 0x8847

abbrev pub mplsm : ℕ
mplsm = 0x8848

abbrev pub pppoe : ℕ
pppoe = 0x8864

abbrev pub arp : ℕ
arp = 0x0806
