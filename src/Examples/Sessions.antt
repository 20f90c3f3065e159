-- ===== src/Examples/Sessions.antt =====
-- Statistics and flow records on a concrete buffer.
use qof.Base.{Bool, List, [], false, if◌then◌else◌, refl, some, true, ℕ, ◌==◌, ◌||◌, ◌∷◌, ◌≡◌}
use qof.Export.Spec.{Spec, flow_full_tid}
use qof.Export.Record.{FlowRecord}
use qof.Export.Session.{
  Appended, Fixbuf, StatsRecord, add_stats, ensure_stats_template, flow_appended, load_template,
  no_template, options_tid, send_flow, set_export_template, stats_appended, was_set,
  write_stats_rec,
}
use qof.Export.Session.Placed.{AllPlaced, IsAt, IsFixbuf, Post, Same, View, write_stats_rec-Post}
use qof.Export.Session.Misplaced.{Misplaced, write_stats_rec-Misplaced}

-- A buffer in memory: the template in force, the records, the templates for export, and whether the next
-- statistics record is refused.
record Memory : Type 0 where
  internal : ℕ
  records : List (ℕ × Appended)
  known : ℕ → Bool
  refuses : Bool

abbrev put_record : Appended → Memory → Memory
put_record r b = record b { records = (b.internal, r) ∷ b.records }

abbrev take_record : Appended → Bool → Memory → Bool × Memory
take_record (flow_appended r) refuses b = (true, put_record (flow_appended r) b)
take_record (stats_appended r) true b = (false, b)
take_record (stats_appended r) false b = (true, put_record (stats_appended r) b)

abbrev add_known : Bool → ℕ → Memory → Memory
add_known true tid b = b
add_known false tid b = record b { known = λ n. (n == tid) || b.known n }

abbrev empty_memory : (refuses : Bool) → Memory
empty_memory refuses = record {
  internal = flow_full_tid;
  records = [];
  known = λ n. false;
  refuses = refuses;
}

abbrev memory_fixbuf : Fixbuf (List Spec) ℕ ℕ Memory
memory_fixbuf = record {
  template_of = λ specs flags. some specs;
  options_scope = λ n t. t;
  session_alloc = 0;
  set_domain = λ d s. d;
  session_add = λ i tid t s. (true, s);
  buf_alloc = λ s e. empty_memory false;
  buf_domain = λ d b. b;
  buf_add = λ i tid t b. (true, add_known i tid b);
  export_templates = λ b. (true, b);
  set_internal = λ tid b. (true, record b { internal = tid });
  set_export = λ tid b. (if b.known tid then was_set else no_template, b);
  append = λ r b. take_record r b.refuses b;
  emit = λ b. (true, b);
}

abbrev memory_view : View Memory
memory_view = record { internal_of = λ b. b.internal; sent = λ b. b.records }

add_known-Same :
    (i : Bool) (tid : ℕ) (b : Memory) → Same memory_fixbuf memory_view b (add_known i tid b)
add_known-Same true tid b = (refl, refl)
add_known-Same false tid b = (refl, refl)

take_record-Post :
    (r : Appended) (refuses : Bool) (b : Memory)
    → Post
        (λ c. (c.internal ≡ b.internal) × (c.records ≡ (b.internal, r) ∷ b.records))
        (Same memory_fixbuf memory_view b)
        (take_record r refuses b)
take_record-Post (flow_appended r) refuses b = (refl, refl)
take_record-Post (stats_appended r) true b = (refl, refl)
take_record-Post (stats_appended r) false b = (refl, refl)

memory_fixbuf-IsFixbuf : IsFixbuf memory_fixbuf memory_view
memory_fixbuf-IsFixbuf = record {
  add = λ i tid t b. add_known-Same i tid b;
  set_export = λ tid b. (refl, refl);
  set_internal = λ tid b. (refl, refl);
  append = λ r b. take_record-Post r b.refuses b;
}

abbrev stats_a : StatsRecord
stats_a = record {
  system_init_time = 0;
  exported_flow_total = 1;
  packet_total = 2;
  dropped_packet_total = 0;
  ignored_packet_total = 0;
  not_sent_packet_total = 0;
  expired_fragments = 0;
  assembled_fragments = 0;
  flush_events = 1;
  peak = 1;
  exporter_address = 0;
  exporting_process = 7;
}

write_stats_rec-Post_example :
    Post
      (IsAt memory_fixbuf memory_view flow_full_tid)
      (AllPlaced memory_fixbuf memory_view)
      (write_stats_rec memory_fixbuf false [] stats_a (empty_memory false))
write_stats_rec-Post_example =
    write_stats_rec-Post memory_fixbuf memory_view memory_fixbuf-IsFixbuf false [] stats_a
      (empty_memory false) (refl, tt)

write_stats_rec-Misplaced_example :
    let u = write_stats_rec memory_fixbuf false [] stats_a (empty_memory true) in
    (u.0 ≡ false)
    × (u.1.internal ≡ options_tid)
    × ((flow : FlowRecord) (tid : ℕ)
        → Post
            (Misplaced memory_fixbuf memory_view memory_fixbuf-IsFixbuf)
            (AllPlaced memory_fixbuf memory_view)
            (send_flow memory_fixbuf [] (flow, tid) u.1))
unfolding ensure_stats_template add_stats set_export_template load_template
write_stats_rec-Misplaced_example =
    write_stats_rec-Misplaced memory_fixbuf memory_view memory_fixbuf-IsFixbuf false [] stats_a
      (empty_memory true) (refl, tt) refl refl
