-- ===== src/Flow/Key.antt =====
-- Flow keys in src/yaftab.c: hash, equality and reversal.
pub mod Contract
use qof.Packet.Proto
use qof.Base.{
  Bool, List, [], bit_xor, false, if◌then◌else◌, true, ℕ, ◌%◌, ◌&&◌, ◌*◌, ◌==◌, ◌^◌, ◌||◌, ◌∷◌,
}
use qof.Base.Word.{to_u32}
use qof.Packet.{Addr, FlowKey, unwritten, v4, v6}

abbrev pub lists_equal : List ℕ → List ℕ → Bool
lists_equal [] [] = true
lists_equal [] (y ∷ ys) = false
lists_equal (x ∷ xs) [] = false
lists_equal (x ∷ xs) (y ∷ ys) = (x == y) && lists_equal xs ys

-- The comparison of the addresses in each version. Keys of version 4 hold version 4 addresses and
-- those of version 6 version 6 ones; no key that mixes them is made.
abbrev pub addr_equal4 : Addr → Addr → Bool
addr_equal4 (v4 s d) (v4 s' d') = (s == s') && (d == d')
addr_equal4 (v4 s d) (v6 s' d') = false
addr_equal4 (v4 s d) unwritten = false
addr_equal4 (v6 s d) b = false
addr_equal4 unwritten b = false

abbrev pub addr_equal6 : Addr → Addr → Bool
addr_equal6 (v6 s d) (v6 s' d') = lists_equal s s' && lists_equal d d'
addr_equal6 (v6 s d) (v4 s' d') = false
addr_equal6 (v6 s d) unwritten = false
addr_equal6 (v4 s d) b = false
addr_equal6 unwritten b = false

-- `0x0FFF & vlanId`
abbrev pub vlan_mask : FlowKey → ℕ
vlan_mask k = k.vlan_id % 2 ^ 12

unfoldable pub key_equal : FlowKey → FlowKey → Bool
key_equal a b =
    if (a.sp == b.sp)
      && (a.dp == b.dp)
      && (a.proto == b.proto)
      && (a.version == b.version)
      && (vlan_mask a == vlan_mask b)
    then ((a.version == 4) && addr_equal4 a.addr b.addr)
      || ((a.version == 6) && addr_equal6 a.addr b.addr)
    else false

-- The `uint32_t` that the machine reads at an offset of an address, by its four bytes.
abbrev pub Load : Type 0
Load = (b0 b1 b2 b3 : ℕ) → ℕ

unfoldable pub hash_words : Load → List ℕ → ℕ
hash_words load [] = 0
hash_words load (b0 ∷ []) = 0
hash_words load (b0 ∷ b1 ∷ []) = 0
hash_words load (b0 ∷ b1 ∷ b2 ∷ []) = 0
hash_words load (b0 ∷ b1 ∷ b2 ∷ b3 ∷ rest) = bit_xor (load b0 b1 b2 b3) (hash_words load rest)

-- `stack` is what the words of an address that was not written give.
unfoldable pub hash_addr : Load → (stack : ℕ) → Addr → ℕ
hash_addr load stack (v4 s d) = bit_xor s d
hash_addr load stack (v6 s d) = bit_xor (hash_words load s) (hash_words load d)
hash_addr load stack unwritten = stack

unfoldable pub key_hash : Load → (stack : ℕ) → FlowKey → ℕ
key_hash load stack k = bit_xor (to_u32 (k.sp * 2 ^ 16)) (
    bit_xor k.dp (
      bit_xor (k.proto * 2 ^ 12) (
        bit_xor (k.version * 2 ^ 4)
          (bit_xor (vlan_mask k * 2 ^ 20) (hash_addr load stack k.addr)))))

unfoldable pub reverse_addr : Addr → Addr
reverse_addr (v4 s d) = v4 d s
reverse_addr (v6 s d) = v6 d s
reverse_addr unwritten = unwritten

-- The ports of ICMP hold its type and code, and stay. The address of a key of any other version than
-- 4 and 6 is not written.
unfoldable pub key_reverse : FlowKey → FlowKey
key_reverse k =
    let icmp = (k.proto == Proto.icmp) || (k.proto == Proto.icmp6) in
    record k {
      sp = if icmp then k.sp else k.dp;
      dp = if icmp then k.dp else k.sp;
      addr = if (k.version == 4) || (k.version == 6) then reverse_addr k.addr else unwritten;
    }
