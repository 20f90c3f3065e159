-- ===== src/IfMap.antt =====
-- src/qofifmap.c: maps from address blocks to interface numbers. An array and its size are one list.
pub mod Order
pub mod Slot
pub mod Search
pub mod Block
pub mod Prefix
pub mod Reverse
use qof.Base.{
  Bool, List, Option, [], bit_and, bit_or, drop, false, get_elem?, if◌then◌else◌, leb, length, ltb,
  none, not, replicate, some, suc, take, true, zero, ℕ, ◌%◌, ◌&&◌, ◌++◌, ◌+◌, ◌-◌, ◌/◌, ◌==◌, ◌^◌,
  ◌||◌, ◌∷◌,
}
use qof.Base.Word.{nonzero}
use qof.Packet.{FlowKey, unwritten, v4, v6}

-- `qfIfMapEntry4_t` and `qfIfMapEntry6_t`, by the type of an address.
pub record Entry {ℓ} (K : Type ℓ) : Type ℓ where
  pub a : K
  pub b : K
  pub ifnum : ℕ

abbrev pub Addr6 : Type 0
Addr6 = List ℕ

-- An address of version 4 is smaller than another.
abbrev pub before4 : ℕ → ℕ → Bool
before4 x y = ltb x y

-- `memcmp` on addresses of 16 bytes gives a negative number.
unfoldable pub before6 : Addr6 → Addr6 → Bool
before6 [] [] = false
before6 [] (y ∷ ys) = true
before6 (x ∷ xs) [] = false
before6 (x ∷ xs) (y ∷ ys) = ltb x y || ((x == y) && before6 xs ys)

-- The element-wise `&`, `|` and `~` on bytes.
unfoldable pub ip6_bit_and : Addr6 → Addr6 → Addr6
ip6_bit_and (x ∷ xs) (m ∷ ms) = bit_and x m ∷ ip6_bit_and xs ms
ip6_bit_and _ _ = []

unfoldable pub ip6_bit_or : Addr6 → Addr6 → Addr6
ip6_bit_or (x ∷ xs) (m ∷ ms) = bit_or x m ∷ ip6_bit_or xs ms
ip6_bit_or _ _ = []

unfoldable pub ip6_bit_invert : Addr6 → Addr6
ip6_bit_invert [] = []
ip6_bit_invert (x ∷ xs) = (255 - x) ∷ ip6_bit_invert xs

-- The loops shift a one in from the left, `p` times.
unfoldable pub prefix_mask4 : ℕ → ℕ
prefix_mask4 zero = 0
prefix_mask4 (suc p) = bit_or (prefix_mask4 p / 2) (2 ^ 31)

unfoldable pub boundary : ℕ → ℕ
boundary zero = 0
boundary (suc j) = bit_or (boundary j / 2) (2 ^ 7)

-- Full bytes, the byte at the boundary, and zeros behind it. For a prefix beyond 128 the source
-- writes behind the mask, which is not modelled.
unfoldable pub prefix_mask6 : ℕ → Addr6
prefix_mask6 p =
    if ltb (p / 8) 16
    then replicate (p / 8) 255 ++ (boundary (p % 8) ∷ replicate (15 - p / 8) 0)
    else replicate 16 255

module _ {ℓ} {K : Type ℓ} where
  -- `while (x <= y)`, with `end` for y + 1: y goes down to -1. A step looks at the middle, which is a
  -- hit, or lies below the address, or not. `none` is a read outside the map, or no fuel.
  unfoldable pub converge : (hit right : Entry K → Bool) → ℕ → ℕ → ℕ → List (Entry K) → Option ℕ
  converge hit right zero x end m = if ltb x end then none else some 0
  converge hit right (suc fuel) x end m =
      let i = (x + end - 1) / 2 in
      if ltb x end
      then elim (get_elem? m i) [
        | none ↦ none
        | some e ↦
            let rest =
              converge hit right fuel (if right e then i + 1 else x) (if right e then end else i)
                m in
            if hit e then some e.ifnum else rest
      ]
      else some 0

  abbrev pub last : Entry K → List (Entry K) → Entry K
  last d [] = d
  last d (e ∷ m) = last e m

  module _ (before : K → K → Bool) where
    -- The loop from 1, which stops at the first gap that holds the address, or behind the map.
    unfoldable pub gap : K → Entry K → List (Entry K) → ℕ → ℕ
    gap addr d [] i = i
    gap addr d (e ∷ m) i = if before d.b addr && before addr e.a then i else gap addr e m (i + 1)

    unfoldable pub insertion_point : K → List (Entry K) → ℕ
    insertion_point addr [] = 0
    insertion_point addr (d ∷ m) =
        if before addr d.a
        then 0
        else (if before (last d m).b addr then length (d ∷ m) else gap addr d m 1)

  -- The entries from `i` on are shifted by one, and the new one is written there. The shift is a
  -- `memcpy`; with two or more entries its source and its destination overlap, which is undefined:
  -- `none`.
  unfoldable pub put_at : ℕ → Entry K → List (Entry K) → Option (List (Entry K))
  put_at i e m = if leb 2 (length m - i) then none else some (take i m ++ (e ∷ drop i m))

abbrev pub hit4 : ℕ → Entry ℕ → Bool
hit4 addr e = leb e.a addr && leb addr e.b

unfoldable pub map_search4 : List (Entry ℕ) → ℕ → Option ℕ
map_search4 m addr = converge (hit4 addr) (λ e. ltb e.b addr) (length m) 0 (length m) m

abbrev pub hit6 : Addr6 → Entry Addr6 → Bool
hit6 addr e = not (before6 addr e.a) && not (before6 e.b addr)

unfoldable pub map_search6 : List (Entry Addr6) → Addr6 → Option ℕ
map_search6 m addr = converge (hit6 addr) (λ e. before6 e.a addr) (length m) 0 (length m) m

abbrev pub block4 : ℕ → ℕ → ℕ → Entry ℕ
block4 addr pfx ifnum = record {
  a = bit_and addr (prefix_mask4 pfx);
  b = bit_or addr (2 ^ 32 - 1 - prefix_mask4 pfx);
  ifnum = ifnum;
}

unfoldable pub map_insert4 : List (Entry ℕ) → ℕ → ℕ → ℕ → Option (List (Entry ℕ))
map_insert4 m addr pfx ifnum = put_at (insertion_point before4 addr m) (block4 addr pfx ifnum) m

abbrev pub block6 : Addr6 → ℕ → ℕ → Entry Addr6
block6 addr pfx ifnum = record {
  a = ip6_bit_and addr (prefix_mask6 pfx);
  b = ip6_bit_or addr (ip6_bit_invert (prefix_mask6 pfx));
  ifnum = ifnum;
}

unfoldable pub map_insert6 : List (Entry Addr6) → Addr6 → ℕ → ℕ → Option (List (Entry Addr6))
map_insert6 m addr pfx ifnum = put_at (insertion_point before6 addr m) (block6 addr pfx ifnum) m

-- `qfIfMap_t`
pub record IfMap : Type 0 where
  pub src4map : List (Entry ℕ)
  pub dst4map : List (Entry ℕ)
  pub src6map : List (Entry Addr6)
  pub dst6map : List (Entry Addr6)

abbrev pub if_map_init : IfMap
if_map_init = record { src4map = []; dst4map = []; src6map = []; dst6map = [] }

-- One step after the other, up to an undefined one.
abbrev pub into : {A B : Type 0} → Option A → (A → Option B) → Option B
into none next = none
into (some a) next = next a

unfoldable pub add_ipv4_mapping : IfMap → (addr pfx ingress egress : ℕ) → Option IfMap
add_ipv4_mapping m addr pfx ingress egress =
    into (if nonzero ingress then map_insert4 m.src4map addr pfx ingress else some m.src4map)
      (λ src.
        into (if nonzero egress then map_insert4 m.dst4map addr pfx egress else some m.dst4map)
          (λ dst. some record m { src4map = src; dst4map = dst }))

unfoldable pub add_ipv6_mapping : IfMap → Addr6 → (pfx ingress egress : ℕ) → Option IfMap
add_ipv6_mapping m addr pfx ingress egress =
    into (if nonzero ingress then map_insert6 m.src6map addr pfx ingress else some m.src6map)
      (λ src.
        into (if nonzero egress then map_insert6 m.dst6map addr pfx egress else some m.dst6map)
          (λ dst. some record m { src6map = src; dst6map = dst }))

-- A key whose address is not of its version is not made; for it the result is the one of an alien
-- version.
abbrev pub by_version : (ℕ → ℕ → Option ℕ) → (Addr6 → Addr6 → Option ℕ) → FlowKey → Option ℕ
by_version four six k = elim k.addr [
  | v4 s d ↦ if k.version == 4 then four s d else some 0
  | v6 s d ↦ if k.version == 6 then six s d else some 0
  | unwritten ↦ some 0
]

-- The ingress and the egress interface of a key.
unfoldable pub ingress : IfMap → FlowKey → Option ℕ
ingress m k = by_version (λ s d. map_search4 m.src4map s) (λ s d. map_search6 m.src6map s) k

unfoldable pub egress : IfMap → FlowKey → Option ℕ
egress m k = by_version (λ s d. map_search4 m.dst4map d) (λ s d. map_search6 m.dst6map d) k

-- `qfNetList_t`
pub record NetList : Type 0 where
  pub ip4map : List (Entry ℕ)
  pub ip6map : List (Entry Addr6)

unfoldable pub net_list_add_ipv4 : NetList → (addr pfx : ℕ) → Option NetList
net_list_add_ipv4 l addr pfx =
    into (map_insert4 l.ip4map addr pfx 1) (λ m. some record l { ip4map = m })

unfoldable pub net_list_add_ipv6 : NetList → Addr6 → (pfx : ℕ) → Option NetList
net_list_add_ipv6 l addr pfx =
    into (map_insert6 l.ip6map addr pfx 1) (λ m. some record l { ip6map = m })

pub data Direction : Type 0 where
  dir_in dir_out dir_ext dir_int : Direction

abbrev pub direction : ℕ → ℕ → Direction
direction ss ds =
    if nonzero ss
    then (if nonzero ds then dir_int else dir_in)
    else (if nonzero ds then dir_out else dir_ext)

unfoldable pub flow_direction : NetList → FlowKey → Option Direction
flow_direction l k =
    elim (by_version (λ s d. map_search4 l.ip4map s) (λ s d. map_search6 l.ip6map s) k) [
      | none ↦ none
      | some ss ↦
          elim (by_version (λ s d. map_search4 l.ip4map d) (λ s d. map_search6 l.ip6map d) k) [
            | none ↦ none
            | some ds ↦ some (direction ss ds)
          ]
    ]
