-- ===== src/MacList/Search.antt =====
-- What src/qofmaclist.c finds, and what it can add.
use qof.Base.{
  Bool, [], ap, arith, false, if◌then◌else◌, length-map, map, none, not, refl, some, sym, true,
  ◌&&◌, ◌||◌, ◌∙◌, ◌∷◌, ◌≡◌,
}
use qof.IfMap.{before6, map_search6}
use qof.IfMap.Order.{IsMap, lookup}
use qof.IfMap.Search.{map_search6-lookup}
use qof.MacList.{
  Mac, MacList, mac_before, mac_entry, mac_list_add, mac_list_contains, mac_list_init, mac_point,
}

-- The list read from its front.
abbrev pub is_member : Mac → MacList → Bool
is_member mac [] = false
is_member mac (d ∷ m) = (not (mac_before mac d) && not (mac_before d mac)) || is_member mac m

abbrev pub IsSortedMacs : MacList → Type 0
IsSortedMacs m = IsMap before6 (map mac_entry m)

lookup-is_member :
    (m : MacList) (mac : Mac)
    → lookup before6 (map mac_entry m) mac ≡ (if is_member mac m then 1 else 0)
lookup-is_member [] mac = refl
lookup-is_member (d ∷ m) mac = ground (arith, lookup-is_member m mac)

-- In a sorted list of distinct addresses, of any length, the search ends within as many rounds as there
-- are addresses, reads nothing outside the list, and gives 1 where the address is in it and 0 elsewhere.
pub mac_list_contains-is_member :
    (m : MacList) (mac : Mac)
    → IsSortedMacs m
    → mac_list_contains m mac ≡ some (if is_member mac m then 1 else 0)
unfolding mac_list_contains map_search6
mac_list_contains-is_member m mac h =
    rw (sym (length-map m mac_entry))
      (map_search6-lookup (map mac_entry m) mac h ∙ ap some (lookup-is_member m mac))

-- An address that differs from the first one of a list cannot be added: the shift is undefined. The
-- first address of an empty list can, and is found afterwards.
pub mac_list_add_fault :
    (d mac : Mac) (m : MacList)
    → mac_before mac d || mac_before d mac ≡ true
    → (mac_list_add (d ∷ m) mac ≡ none) × (mac_list_add mac_list_init mac ≡ some (mac ∷ []))
unfolding mac_list_add mac_point
mac_list_add_fault d mac m h = rw h (ground arith, refl)
