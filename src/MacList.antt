-- ===== src/MacList.antt =====
-- src/qofmaclist.c: a list of MAC addresses of six bytes.
pub mod Search
use qof.Base.{
  Bool, List, Option, [], if◌then◌else◌, length, ltb, map, none, some, ℕ, ◌&&◌, ◌++◌, ◌+◌, ◌||◌,
  ◌∷◌,
}
use qof.IfMap.{Entry, before6, converge, hit6}

abbrev pub Mac : Type 0
Mac = List ℕ

-- `qfMacList_t`: the array and its size.
abbrev pub MacList : Type 0
MacList = List Mac

abbrev pub mac_list_init : MacList
mac_list_init = []

-- `memcmp` on six bytes, by its sign, as for addresses.
abbrev pub mac_before : Mac → Mac → Bool
mac_before a b = before6 a b

abbrev pub last_mac : Mac → MacList → Mac
last_mac d [] = d
last_mac d (e ∷ m) = last_mac e m

unfoldable pub mac_gap : Mac → Mac → MacList → ℕ → ℕ
mac_gap mac d [] i = i
mac_gap mac d (e ∷ m) i =
    if mac_before mac d && mac_before e mac then i else mac_gap mac e m (i + 1)

-- The first test asks whether the comparison is not 0, where `< 0` is meant.
unfoldable pub mac_point : Mac → MacList → ℕ
mac_point mac [] = 0
mac_point mac (d ∷ m) =
    if mac_before mac d || mac_before d mac
    then 0
    else (if mac_before (last_mac d m) mac then length (d ∷ m) else mac_gap mac d m 1)

-- The shift gives two bytes of the array to `memcpy` as pointers: `none`.
unfoldable pub mac_list_add : MacList → Mac → Option MacList
mac_list_add m mac = if ltb (mac_point mac m) (length m) then none else some (m ++ (mac ∷ []))

abbrev pub mac_entry : Mac → Entry Mac
mac_entry mac = record { a = mac; b = mac; ifnum = 1 }

-- The loop is that of the interface map, on entries of one address: a hit is a comparison of 0.
unfoldable pub mac_list_contains : MacList → Mac → Option ℕ
mac_list_contains m mac =
    converge (hit6 mac) (λ e. before6 e.a mac) (length m) 0 (length m) (map mac_entry m)
