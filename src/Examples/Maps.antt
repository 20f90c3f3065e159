-- ===== src/Examples/Maps.antt =====
-- Interface maps, MAC lists and delays on concrete inputs.
use qof.Base.{
  List, Option, [], false, inl, inr, none, not, refl, some, ℕ, ◌+◌, ◌<◌, ◌∷◌, ◌≡◌, ◌≤◌, ◌⊎◌,
}
use qof.Base.Int.{ltb_ℤ, pos, ℤ, ◌+ℤ◌, ◌-ℤ◌}
use qof.Stats.{is_zero, lin_smooth_init, mean_init}
use qof.Packet.{FlowKey, v4}
use qof.Flow.Key.{key_reverse}
use qof.IfMap.{
  Addr6, Entry, NetList, before4, before6, boundary, converge, dir_in, dir_out, flow_direction, gap,
  insertion_point, ip6_bit_and, ip6_bit_invert, ip6_bit_or, map_insert4, map_insert6, map_search4,
  map_search6, prefix_mask4, prefix_mask6, put_at,
}
use qof.IfMap.Order.{IsMap}
use qof.IfMap.Search.{map_search4-lookup}
use qof.IfMap.Block.{map_insert4-map_search4}
use qof.IfMap.Reverse.{flow_direction-key_reverse}
use qof.MacList.{Mac, mac_list_contains}
use qof.MacList.Search.{mac_list_contains-is_member}
use qof.Detune.{Detune, Tests, detune_packet, drain, fill}
use qof.Detune.Outcome.{Settles, detune_packet-Settles}
use qof.Examples.Values.{int_double, key_a}

-- 10.0.0.0/8 and 192.168.0.0/16.
abbrev map_a : List (Entry ℕ)
map_a =
    record { a = 167772160; b = 184549375; ifnum = 1 }
    ∷ record { a = 3232235520; b = 3232301055; ifnum = 2 }
    ∷ []

map_a-IsMap : IsMap before4 map_a
map_a-IsMap = (refl, (refl, tt), (refl, tt, tt))

map_search4-lookup_example : map_search4 map_a 3232235777 ≡ some 2
map_search4-lookup_example = map_search4-lookup map_a 3232235777 map_a-IsMap

-- 172.16.0.0/12 goes between the two, and 172.17.0.1 is found in it.
map_insert4-map_search4_example :
    ((2 ≤ insertion_point before4 2886730500 map_a + 1)
      × ((m' : List (Entry ℕ)) × (map_insert4 map_a 2886730500 12 3 ≡ some m')
          × IsMap before4 m'
          × (map_search4 m' 2886795265 ≡ some 3)))
    ⊎ ((insertion_point before4 2886730500 map_a + 1 < 2)
        × (map_insert4 map_a 2886730500 12 3 ≡ none))
unfolding prefix_mask4
map_insert4-map_search4_example =
    map_insert4-map_search4 map_a 2886730500 12 3 2886795265 map_a-IsMap (inl refl, (inr refl, tt))

-- The block is entered, with one entry behind it.
map_a_place : insertion_point before4 2886730500 map_a ≡ 1
unfolding insertion_point gap
map_a_place = refl

abbrev addr6 : ℕ → ℕ → Addr6
addr6 x y = x ∷ y ∷ 0 ∷ 0 ∷ 0 ∷ 0 ∷ 0 ∷ 0 ∷ 0 ∷ 0 ∷ 0 ∷ 0 ∷ 0 ∷ 0 ∷ 0 ∷ 1 ∷ []

abbrev map6_a : List (Entry Addr6)
map6_a = record { a = addr6 0x10 0; b = addr6 0x10 9; ifnum = 1 } ∷ []

-- A block of 2000::/16 is inserted behind it, and both are found; with two entries behind the place the
-- insertion is undefined.
abbrev search_both : Option (List (Entry Addr6)) → Option ℕ × Option ℕ
search_both none = (none, none)
search_both (some m) = (map_search6 m (addr6 0x10 5), map_search6 m (addr6 0x20 0))

map6_a_found : search_both (map_insert6 map6_a (addr6 0x20 0) 16 7) ≡ (some 1, some 7)
unfolding map_search6 map_insert6 insertion_point boundary converge put_at prefix_mask6 ip6_bit_and
    ip6_bit_or ip6_bit_invert before6
map6_a_found = refl

map_a_undefined : map_insert4 map_a 16909060 8 3 ≡ none
unfolding map_insert4 insertion_point put_at
map_a_undefined = refl

abbrev nets : NetList
nets = record { ip4map = map_a; ip6map = [] }

abbrev key_out : FlowKey
key_out = record key_a { addr = v4 1 167772161 }

flow_direction-key_reverse_example :
    (flow_direction nets key_out ≡ some dir_out)
    × (flow_direction nets (key_reverse key_out) ≡ some dir_in)
flow_direction-key_reverse_example = flow_direction-key_reverse nets key_out map_a-IsMap tt

abbrev mac : ℕ → Mac
mac x = 2 ∷ 0 ∷ 0 ∷ 0 ∷ 0 ∷ x ∷ []

mac_list_contains-is_member_example :
    mac_list_contains (mac 1 ∷ mac 5 ∷ mac 9 ∷ []) (mac 5) ≡ some 1
unfolding before6
mac_list_contains-is_member_example =
    mac_list_contains-is_member (mac 1 ∷ mac 5 ∷ mac 9 ∷ []) (mac 5)
      (refl, (refl, (refl, tt)), (refl, (refl, tt), (refl, tt, tt)))

abbrev pub int_tests : Tests ℤ
int_tests = record { is_nonzero = λ z. not (is_zero z); below = ltb_ℤ }

-- A bucket of 1000 octets that drains 100 in a second and delays up to 10 milliseconds.
abbrev pub detune_a : Detune ℤ
detune_a = record {
  bucket_cur = pos 700;
  bucket_max = 1000;
  bucket_rate = 100;
  bucket_delay = 10;
  drop_die = lin_smooth_init;
  drop_p = pos 0;
  delay = lin_smooth_init;
  delay_max = 0;
  last_real_ms = 5000;
  last_delayed_ms = 5007;
  stat_bucket_drop = 0;
  stat_random_drop = 0;
  stat_highwater = 700;
  stat_delay = mean_init int_double;
}

detune_packet-Settles_example :
    Settles int_double int_tests detune_a 6000
      (detune_packet int_double int_tests detune_a 6000 500 1 1)
detune_packet-Settles_example = detune_packet-Settles int_double int_tests detune_a 6000 500 1 1

-- The bucket has drained to 600, the packet makes it overflow, and the count of such drops is 1.
detune_a_drop : (detune_packet int_double int_tests detune_a 6000 500 1 1).2 ≡ false
unfolding detune_packet fill drain ◌-ℤ◌ ◌+ℤ◌
detune_a_drop = refl
