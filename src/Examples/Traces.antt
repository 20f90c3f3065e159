-- ===== src/Examples/Traces.antt =====
-- A whole trace on a concrete input.
use qof.Base.{Bool, List, Option, [], arith, false, inl, none, refl, replicate, some, ℕ, ◌∷◌, ◌≡◌}
use qof.Base.Int.{ℤ}
use qof.Packet.{IpFragInfo, PBuf}
use qof.Decode.Run.{Config, Decoding, Stats, byte, bytes, ok, word16, word32}
use qof.Decode.Link.{decode_eth, decode_l2, decode_l2_shim, decode_link, eth}
use qof.Decode.Network.{decode_ipv4, ip4_frag_info, ipv4_fragment, ipv4_header}
use qof.Decode.Transport.{decode_udp}
use qof.Decode.Tunnel.{
  decode_ip, decode_l3, decode_l4, decode_layers, decode_timeval, decode_to_pbuf, start, written,
}
use qof.Fragment.{FragNode, frag_tab_alloc, new_frag}
use qof.Flow.Table.{tab_alloc}
use qof.Flow.Update.Counts.{IsCounted}
use qof.Flow.Index.{IsTable}
use qof.Process.Main.{Loop, captured, no_packet, trace_main}
use qof.Process.Input.{Handler, Raw}
use qof.Process.Input.Sound.{IsCalmHandler}
use qof.Process.Main.Total.{trace_main-Ends}
use qof.Process.Whole.{Decodable, handle_decodable, handle_decodable-Returns, trace_main-IsTable}
use qof.Examples.Values.{
  config_a, fun_table, fun_table-IsHashTable, int_double, key_a, no_node, packet,
}
use qof.Examples.Fragments.{FunIndex, fun_glib}
use qof.Examples.Maps.{detune_a, int_tests}
use qof.Examples.Capture.{empty-IsRing, library, output_a, ring_of}
use qof.Examples.Packets.{zero_stats}

-- The start of a frame with Ethernet and IPv4, from 10.0.0.1 to 10.0.0.2 with protocol UDP, where
-- `flags` has the flags and the fragment offset; and 8 bytes behind it.
abbrev ip_frame : (flags0 flags1 : ℕ) → List ℕ
ip_frame flags0 flags1 =
    1 ∷ 2 ∷ 3 ∷ 4 ∷ 5 ∷ 6 ∷ 7 ∷ 8 ∷ 9 ∷ 10 ∷ 11 ∷ 12 ∷ 8 ∷ 0 ∷ 0x45 ∷ 0 ∷ 0 ∷ 28 ∷ 0 ∷ 1 ∷ flags0
    ∷ flags1 ∷ 64 ∷ 17 ∷ 0 ∷ 0 ∷ 10 ∷ 0 ∷ 0 ∷ 1 ∷ 10 ∷ 0 ∷ 0 ∷ 2 ∷ 0 ∷ 53 ∷ 0 ∷ 54 ∷ 0 ∷ 8 ∷ 0 ∷ 0
    ∷ []

abbrev info_a : IpFragInfo
info_a = record { ipid = 0; offset = 0; iphlen = 0; l4hlen = 0; frag = 0; more = 0 }

abbrev raw_of : List ℕ → Raw
raw_of pkt = record {
  tv_sec = 7;
  tv_usec = 5000;
  linktype = eth;
  capture_length = 42;
  pkt = pkt;
  die = 1;
  bits = 1;
  on_stack = info_a;
}

abbrev dec_config : Config
dec_config = record { reqtype = 0; gremode = false; tomode = false }

abbrev Decodes : List ℕ → Type 0
Decodes pkt =
    (stats : Stats) (pbuf : PBuf) (frag : Option IpFragInfo)
    → (u : Bool × Decoding × PBuf) × (decode_to_pbuf pkt dec_config eth (decode_timeval 7 5000) 42
          20 stats pbuf frag
        ≡ ok u)

-- A whole datagram, and the first and the last fragment of one.
whole-Decodes : Decodes (ip_frame 0 0)
unfolding decode_to_pbuf written decode_layers start decode_l2 decode_link decode_eth decode_l2_shim
    decode_ip decode_l3 decode_l4 decode_ipv4 ipv4_header ipv4_fragment decode_udp byte bytes word16
    word32 ip4_frag_info
whole-Decodes stats pbuf none = (_, refl)
whole-Decodes stats pbuf (some f) = (_, refl)

first-Decodes : Decodes (ip_frame 0x20 0)
unfolding decode_to_pbuf written decode_layers start decode_l2 decode_link decode_eth decode_l2_shim
    decode_ip decode_l3 decode_l4 decode_ipv4 ipv4_header ipv4_fragment decode_udp byte bytes word16
    word32 ip4_frag_info
first-Decodes stats pbuf none = (_, refl)
first-Decodes stats pbuf (some f) = (_, refl)

last-Decodes : Decodes (ip_frame 0 1)
unfolding decode_to_pbuf written decode_layers start decode_l2 decode_link decode_eth decode_l2_shim
    decode_ip decode_l3 decode_l4 decode_ipv4 ipv4_header ipv4_fragment decode_udp byte bytes word16
    word32 ip4_frag_info
last-Decodes stats pbuf none = (_, refl)
last-Decodes stats pbuf (some f) = (_, refl)

abbrev DecodableFrame : Type 0
DecodableFrame = Decodable int_double fun_table library int_double int_tests fun_glib dec_config 20

abbrev TraceHandler : Type 0
TraceHandler = Handler ℤ FunIndex

abbrev whole_frame : DecodableFrame
whole_frame = (raw_of (ip_frame 0 0), whole-Decodes)

abbrev first_frame : DecodableFrame
first_frame = (raw_of (ip_frame 0x20 0), first-Decodes)

abbrev last_frame : DecodableFrame
last_frame = (raw_of (ip_frame 0 1), last-Decodes)

abbrev unused_frag : ℕ → FragNode
unused_frag a = new_frag (record { ipid = 0; f = key_a }) 0

abbrev handler_a : TraceHandler
handler_a = record {
  dectx = zero_stats;
  fragtab = some (frag_tab_alloc fun_glib 30000 0 unused_frag);
  detune = some detune_a;
}

abbrev TraceLoop : Type 0
TraceLoop =
    Loop int_double fun_table library
      (handle_decodable int_double fun_table library int_double int_tests fun_glib dec_config 20)

-- Two fragments of a datagram, in between a failure of the trace, and more datagrams than a group has.
abbrev trace_a : TraceLoop
trace_a = record {
  process = record {
    pbufring = ring_of 0;
    slots = λ a. packet 0;
    flowtab = tab_alloc fun_table config_a no_node;
    octx = output_a;
  };
  handler = handler_a;
  inputs =
      captured first_frame
      ∷ no_packet false
      ∷ captured last_frame
      ∷ replicate 33 (captured whole_frame);
  world = 0;
}

handler_a-IsCalmHandler : IsCalmHandler handler_a
unfolding frag_tab_alloc
handler_a-IsCalmHandler = (record { empty = λ a. refl; free = refl }, λ a. inl (refl, (_, _, refl)))

trace_main-IsTable_example :
    (u : Bool × TraceLoop) × (trace_main int_double fun_table library
        (handle_decodable int_double fun_table library int_double int_tests fun_glib dec_config 20)
        37
        trace_a
      ≡ ok u)
    × IsTable fun_table u.1.process.flowtab
    × IsCounted u.1.process.flowtab
trace_main-IsTable_example =
    trace_main-IsTable int_double fun_table library int_double int_tests fun_glib dec_config 20
      fun_table-IsHashTable 37 trace_a config_a no_node refl (λ a. refl) handler_a-IsCalmHandler
      (omega arith, (0, empty-IsRing)) (omega arith)

trace_main-Ends_example :
    (u : Bool × TraceLoop) × (trace_main int_double fun_table library
        (handle_decodable int_double fun_table library int_double int_tests fun_glib dec_config 20)
        37
        trace_a
      ≡ ok u)
trace_main-Ends_example =
    trace_main-Ends int_double fun_table library
      (handle_decodable int_double fun_table library int_double int_tests fun_glib dec_config 20)
      IsCalmHandler
      (handle_decodable-Returns int_double fun_table library int_double int_tests fun_glib
        dec_config 20)
      37 trace_a (omega arith, (0, empty-IsRing)) handler_a-IsCalmHandler (omega arith)
