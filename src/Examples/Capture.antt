-- ===== src/Examples/Capture.antt =====
-- A trace, the ring and the output on concrete inputs.
use qof.Base.{Bool, [], arith, false, none, refl, some, true, ℕ, ◌*◌, ◌+◌, ◌∷◌, ◌≡◌, ◌⊎◌}
use qof.Base.Int.{ℤ}
use qof.Packet.{PBuf}
use qof.Ring.{Ring}
use qof.Ring.Queue.{IsRing}
use qof.Decode.Run.{Run, ok}
use qof.Process.Output.{Library, Output}
use qof.Process.Flush.{Process, ensure_output, final_flush, process_pbuf_ring}
use qof.Process.Flush.Processed.{Entered, process_pbuf_ring-enter_all}
use qof.Process.Main.{Loop, captured, trace_main}
use qof.Process.Main.Total.{trace_main-lost}
use qof.Examples.Values.{FunTable, fun_table, int_double, packet, table_a}

-- Buffers are numbers, and the world counts the records.
abbrev pub library : Library ℤ ℕ ℕ
library = record {
  writer_for_spec = λ w. (some 7, w);
  writer_for_file = λ name w. (some 8, w);
  writer_close = λ b flush w. (true, w);
  write_flow = λ b w f. (true, w + 1);
  write_stats_rec = λ b w. (true, w);
  export_templates = λ b w. (true, w);
  emit = λ b w. (true, w);
  lock_acquire = λ name w. (true, w);
  lock_release = λ w. w;
  time_text = λ w. [];
  serial_text = λ n. [];
}

abbrev pub output_a : Output ℕ
output_a = record {
  transport = false;
  outspec = 102 ∷ [];
  enable_lock = true;
  rotate_period = 0;
  rotate_last = 0;
  stats_period = 0;
  stats_last = 0;
  template_rtx_period = 0;
  template_rtx_last = 0;
  fbuf = none;
  serial = 0;
}

abbrev pub ring_of : (count : ℕ) → Ring
ring_of count = record {
  elt_sz = 8;
  cap = 128;
  count = count;
  peak = 0;
  hrsv = 0;
  trsv = 0;
  end = 1016;
  head = 8 * count;
  tail = 0;
  interrupt = 0;
}

-- One packet in the ring, in the first slot.
abbrev process_of : (count : ℕ) → Process ℤ FunTable ℕ
process_of count = record {
  pbufring = ring_of count;
  slots = λ a. packet 2000;
  flowtab = table_a;
  octx = output_a;
}

single-IsRing : IsRing (ring_of 1) 0 1
single-IsRing = record {
  nonempty = omega arith;
  no_hrsv = refl;
  no_trsv = refl;
  in_ring = omega arith;
  is_end = refl;
  fits = omega arith;
  is_tail = refl;
  is_head = refl;
  is_count = refl;
  bounded = omega arith;
}

pub empty-IsRing : IsRing (ring_of 0) 0 0
empty-IsRing = record {
  nonempty = omega arith;
  no_hrsv = refl;
  no_trsv = refl;
  in_ring = omega arith;
  is_end = refl;
  fits = omega arith;
  is_tail = refl;
  is_head = refl;
  is_count = refl;
  bounded = omega arith;
}

process_pbuf_ring-enter_all_example :
    let ready = ensure_output int_double fun_table library (process_of 1) 0 in
    let u = process_pbuf_ring int_double fun_table library (process_of 1) 0 in
    ((ready.0 ≡ none) × (u.0 ≡ false) × (u.1.flowtab ≡ table_a) × (u.1.pbufring ≡ ring_of 1))
    ⊎ ((b : ℕ) × (ready.0 ≡ some b)
        × Entered int_double fun_table library 0 1 b
            (ring_of 1)
            (λ a. packet 2000)
            table_a
            ready.2
            u)
process_pbuf_ring-enter_all_example =
    process_pbuf_ring-enter_all int_double fun_table library (process_of 1) 0 single-IsRing

-- A handler that takes each packet as it is.
abbrev taken : PBuf → PBuf → ℕ → Run (Bool × PBuf × ℕ)
taken raw pbuf s = ok (true, raw, s + 1)

abbrev loop_a : Loop int_double fun_table library taken
loop_a = record {
  process = process_of 0;
  handler = 0;
  inputs = captured (packet 2000) ∷ captured (packet 2001) ∷ [];
  world = 0;
}

trace_main-lost_example :
    (m : Loop int_double fun_table library taken) × (trace_main int_double fun_table library taken 3
        loop_a
      ≡ (let f = final_flush int_double fun_table library true m.process m.world in
          ok (f.0, record m { process = f.1; world = f.2 })))
    × (m.process.flowtab ≡ table_a)
    × (m.process.octx ≡ output_a)
    × (m.world ≡ 0)
trace_main-lost_example =
    trace_main-lost int_double fun_table library taken (λ s. Unit)
      (λ raw pbuf s good. ((true, raw, s + 1), refl, tt)) 2 loop_a (omega arith, (0, empty-IsRing))
      tt tt (omega arith)
