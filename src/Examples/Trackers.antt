-- ===== src/Examples/Trackers.antt =====
-- The trackers of TCP dynamics on small numbers.
use qof.Base.{
  arith, false, if◌then◌else◌, leb, max, min, refl, replicate, some, true, ℕ, ◌%◌, ◌&&◌, ◌*◌, ◌+◌,
  ◌/◌, ◌^◌, ◌∷◌, ◌≡◌, ◌≢◌, ◌⊎◌,
}
use qof.Base.Int.{pos, ℤ}
use qof.Base.Word.{nonzero, sub32}
use qof.Stats.{LinSmooth, lin_smooth_add}
use qof.Stats.Bounds.{IsSmooth, lin_smooth_add-IsSmooth}
use qof.Serial.{is_above, wrap_compare}
use qof.Serial.Order.{position_order, wrap_compare-position_order}
use qof.Ack.{Ack, ack_segment}
use qof.Ack.Laws.{ack_segment-max}
use qof.Rtt.{dir, rtt_segment, tf_ack}
use qof.Rtt.Inv.{IsRtt, acked, echoed, obs_ms-rtt_segment, rtt_segment-IsRtt}
use qof.Seq.Gap.{gap, no_gap}
use qof.Seq.State.{Seq}
use qof.Seq.Fill.{fill_loop, fill_round}
use qof.Seq.Advance.{Segment, seq_segment}
use qof.Seq.Next.{nsn-seq_segment}
use qof.Seq.Once.{fill_loop_once, round_result}
use qof.Flow.Record.{no_seq}
use qof.Flow.Tcp.{tcp_state}
use qof.Flow.Tcp.Closing.{digit, digit-tcp_state}
use qof.Examples.Values.{int_double, rtt_a}

wrap_compare-position_order_example :
    wrap_compare (4294967300 % 2 ^ 32) (4294967290 % 2 ^ 32) ≡ position_order 4294967300 4294967290
wrap_compare-position_order_example =
    wrap_compare-position_order 4294967300 4294967290 (omega arith) (omega arith)

abbrev smooth_a : LinSmooth
smooth_a = record {
  alpha = pos 8;
  n = pos 1;
  mm = record { min = pos 40; max = pos 40 };
  val = pos 40;
}

smooth_a-IsSmooth : IsSmooth smooth_a 40 40 40
smooth_a-IsSmooth = record {
  alpha = refl;
  is_lo = refl;
  is_hi = refl;
  is_val = refl;
  above = omega arith;
  below = omega arith;
  small = omega arith;
}

abbrev forty : ℕ
forty = 40

lin_smooth_add-IsSmooth_example :
    ((forty ≡ 0) × IsSmooth (lin_smooth_add smooth_a (pos 120)) 120 120 120)
    ⊎ ((forty ≢ 0)
        × IsSmooth
            (lin_smooth_add smooth_a (pos 120))
            (min 40 120)
            ((40 * 7 + 120) / 8)
            (max 40 120))
lin_smooth_add-IsSmooth_example =
    lin_smooth_add-IsSmooth smooth_a 120 smooth_a-IsSmooth (omega arith)

abbrev ack_a : Ack
ack_a = record { fan = 4294967290; fanlms = 5; dup_ct = 0; sel_ct = 0 }

ack_segment-max_example :
    let qa' = ack_segment ack_a 4 0 0 9 in (qa'.fan ≡ 4) × (qa'.fanlms ≡ 9) × (qa'.dup_ct ≡ 0)
ack_segment-max_example =
    ack_segment-max ack_a 4294967290 4294967300 0 0 9 refl (omega arith) (omega arith)

rtt_a-IsRtt : IsRtt rtt_a
rtt_a-IsRtt = record {
  fwd = record { one_wait = refl; fits = omega arith };
  rev = record { one_wait = refl; fits = omega arith };
}

rtt_segment-IsRtt_example : IsRtt (rtt_segment rtt_a 1 100 7 0 25 tf_ack false)
rtt_segment-IsRtt_example = rtt_segment-IsRtt rtt_a 1 100 7 0 25 tf_ack false rtt_a-IsRtt

obs_ms-rtt_segment_example :
    let rtt' = rtt_segment rtt_a 1 100 7 0 25 tf_ack false in
    ((dir false rtt').obs_ms ≡ (
      if acked rtt_a 100 tf_ack false
      then sub32 25 10
      else if echoed rtt_a 0 false
      then max 0 (sub32 25 10)
      else 0))
    × ((dir true rtt').obs_ms ≡ 0)
obs_ms-rtt_segment_example = obs_ms-rtt_segment rtt_a 1 100 7 0 25 tf_ack false (omega arith)

abbrev seq_a : Seq ℤ
seq_a = record (no_seq int_double) {
  gaps = gap 500 600 ∷ gap 200 300 ∷ replicate 6 no_gap;
  nsn = 700;
}

fill_loop_once_example :
    fill_loop 2 seq_a 520 540 0
    ≡ some (
        if is_above (wrap_compare 540 520)
        then round_result (fill_round seq_a 520 540 0)
        else (seq_a, 0))
fill_loop_once_example = fill_loop_once 0 seq_a 520 540 0

digit-tcp_state_example :
    let s = tcp_state false 0x11 0x20 in
    let r = tcp_state true 0x11 0x20 in
    (digit 0 s ≡ max (digit 0 0x20) (digit 2 0x11))
    × (digit 4 s ≡ max (digit 4 0x20) (digit 0 0x11))
    × (digit 5 s ≡ digit 5 0x20)
    × (digit 6 s ≡ max (digit 6 0x20) (min (digit 5 0x20) (digit 4 0x11)))
    × (digit 7 s ≡ digit 7 0x20)
    × (digit 0 r ≡ max (digit 0 0x20) (digit 2 0x11))
    × (digit 4 r ≡ digit 4 0x20)
    × (digit 5 r ≡ max (digit 5 0x20) (digit 0 0x11))
    × (digit 6 r ≡ digit 6 0x20)
    × (digit 7 r ≡ max (digit 7 0x20) (min (digit 4 0x20) (digit 4 0x11)))
digit-tcp_state_example = digit-tcp_state 0x11 0x20

-- A segment that starts 10 octets below the next one and ends 10 octets beyond it.
abbrev segment_a : Segment
segment_a = record {
  mss = 1460;
  seq = 690;
  oct = 20;
  ms = 50;
  tsval = 9;
  do_ts = true;
  do_iat = true;
  rtt_val = pos 0;
}

nsn-seq_segment_example :
    let advances = nonzero 20 && leb 700 690 in
    ((seq_segment int_double seq_a segment_a).0.nsn ≡ (if advances then 690 + 20 else 700) % 2 ^ 32)
    × ((seq_segment int_double seq_a segment_a).1 ≡ advances)
nsn-seq_segment_example =
    nsn-seq_segment int_double seq_a segment_a 700 690 refl refl (omega arith) (omega arith)
