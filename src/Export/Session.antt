-- ===== src/Export/Session.antt =====
-- Sessions and templates of src/yafcore.c, and the statistics record.
pub mod Placed
pub mod Misplaced
use Prim.Native.String.{String}
use qof.Base.{Bool, List, Option, [], bit_and, false, if◌then◌else◌, none, some, true, ℕ, ◌||◌, ◌∷◌}
use qof.Flow.Table.{TabStats}
use qof.Fragment.{FragStats}
use qof.Decode.Run.{Stats}
use qof.Decode.Tunnel.{start, undecoded_count}
use qof.Export.Spec.{Spec, flow_full_tid, internal_spec, ◌of◌for◌}
use qof.Export.Elements.{ExportSpec, export_template}
use qof.Export.Record.{FlowRecord}

abbrev pub options_tid : ℕ
options_tid = 0xD000

-- `YTF_ALL`
abbrev pub all_lengths : ℕ
all_lengths = 0x007F

-- `yaf_stats_option_spec`
abbrev pub stats_option_spec : List Spec
stats_option_spec =
    ("systemInitTimeMilliseconds" of 0 for 0)
    ∷ ("exportedFlowRecordTotalCount" of 0 for 0)
    ∷ ("packetTotalCount" of 0 for 0)
    ∷ ("droppedPacketTotalCount" of 0 for 0)
    ∷ ("ignoredPacketTotalCount" of 0 for 0)
    ∷ ("notSentPacketTotalCount" of 0 for 0)
    ∷ ("expiredFragmentCount" of 0 for 0)
    ∷ ("assembledFragmentCount" of 0 for 0)
    ∷ ("flowTableFlushEventCount" of 0 for 0)
    ∷ ("flowTablePeakCount" of 0 for 0)
    ∷ ("exporterIPv4Address" of 0 for 0)
    ∷ ("exportingProcessId" of 0 for 0)
    ∷ []

-- `yfIpfixStats_t`
pub record StatsRecord : Type 0 where
  pub system_init_time : ℕ
  pub exported_flow_total : ℕ
  pub packet_total : ℕ
  pub dropped_packet_total : ℕ
  pub ignored_packet_total : ℕ
  pub not_sent_packet_total : ℕ
  pub expired_fragments : ℕ
  pub assembled_fragments : ℕ
  pub flush_events : ℕ
  pub peak : ℕ
  pub exporter_address : ℕ
  pub exporting_process : ℕ

-- A record that is appended to a buffer.
pub data Appended : Type 0 where
  flow_appended : FlowRecord → Appended
  stats_appended : StatsRecord → Appended

-- What `fBufSetExportTemplate` finds: the template, none of that number, or another error.
pub data Tried : Type 0 where
  was_set no_template other_error : Tried

-- The calls of libfixbuf, on templates `T`, sessions `S`, exporters `E` and buffers `B`; a buffer
-- stands for its session too.
pub record Fixbuf (T S E B : Type 0) : Type 0 where
  pub template_of : List Spec → ℕ → Option T
  pub options_scope : ℕ → T → T
  pub session_alloc : S
  pub set_domain : ℕ → S → S
  pub session_add : (internal : Bool) → ℕ → T → S → Bool × S
  pub buf_alloc : S → E → B
  pub buf_domain : ℕ → B → B
  pub buf_add : (internal : Bool) → ℕ → T → B → Bool × B
  pub export_templates : B → Bool × B
  pub set_internal : ℕ → B → Bool × B
  pub set_export : ℕ → B → Tried × B
  pub append : Appended → B → Bool × B
  pub emit : B → Bool × B

-- One call after the other, up to the first that fails.
abbrev pub after : {A : Type 0} → Bool × A → (A → Bool × A) → Bool × A
after (true, a) next = next a
after (false, a) next = (false, a)

-- What is left, if nothing has failed.
abbrev pub done : {A : Type 0} → Bool × A → Option A
done (true, a) = some a
done (false, a) = none

module _ {T S E B : Type 0} (fix : Fixbuf T S E B) where
  -- `yfAllocExportTemplate`
  unfoldable pub alloc_export_template : ExportSpec → ℕ → Option T
  alloc_export_template chosen flags = fix.template_of (export_template chosen) flags

  -- The template of the statistics record, added with an internal and an external use.
  unfoldable pub add_stats : {A : Type 0} → (Bool → ℕ → T → A → Bool × A) → A → Bool × A
  add_stats add a = elim (fix.template_of stats_option_spec 0) [
    | none ↦ (false, a)
    | some t ↦
        let scoped = fix.options_scope 2 t in
        after (add true options_tid scoped a) (add false options_tid scoped)
  ]

  -- `yfInitExporterSession`, but for the start time.
  unfoldable pub init_exporter_session : (domain : ℕ) → Option S
  init_exporter_session domain = elim (fix.template_of internal_spec all_lengths) [
    | none ↦ none
    | some t ↦
        let session = fix.set_domain domain fix.session_alloc in
        done (after (fix.session_add true flow_full_tid t session) (add_stats fix.session_add))
  ]

  -- "write YAF flow templates", "set internal template".
  abbrev pub ready : B → Option B
  ready b = done (after (fix.export_templates b) (fix.set_internal flow_full_tid))

  -- `yfWriterForFile` and `yfWriterForFP`, on the exporter.
  unfoldable pub writer_for_file : E → (domain : ℕ) → Option B
  writer_for_file exporter domain = elim (init_exporter_session domain) [
    | none ↦ none
    | some s ↦ ready (fix.buf_alloc s exporter)
  ]

  unfoldable pub writer_for_spec : E → (domain : ℕ) → Option B
  writer_for_spec exporter domain = elim (init_exporter_session domain) [
    | none ↦ none
    | some s ↦ ready (fix.buf_domain domain (fix.buf_alloc s exporter))
  ]

  abbrev pub is_set : Tried × B → Bool × B
  is_set (was_set, b) = (true, b)
  is_set (no_template, b) = (false, b)
  is_set (other_error, b) = (false, b)

  -- "We have a missing template."
  unfoldable pub load_template : ExportSpec → ℕ → B → Bool × B
  load_template chosen tid b = elim (alloc_export_template chosen (bit_and tid 0x4FFF)) [
    | none ↦ (false, b)
    | some t ↦ after (fix.buf_add false tid t b) (λ c. is_set (fix.set_export tid c))
  ]

  abbrev pub or_load : ExportSpec → ℕ → Tried × B → Bool × B
  or_load chosen tid (was_set, b) = (true, b)
  or_load chosen tid (no_template, b) = load_template chosen tid b
  or_load chosen tid (other_error, b) = (false, b)

  -- `yfSetExportTemplate`
  unfoldable pub set_export_template : ExportSpec → ℕ → B → Bool × B
  set_export_template chosen tid b = or_load chosen tid (fix.set_export tid b)

  -- "Set Internal Template for Buffer to Options TID", "Set Export Template".
  abbrev pub to_options : ExportSpec → B → Bool × B
  to_options chosen b =
      after (fix.set_internal options_tid b) (set_export_template chosen options_tid)

  -- `yfEnsureStatsTemplate`, where `initialized` is its static variable.
  unfoldable pub ensure_stats_template : (initialized : Bool) → ExportSpec → B → Bool × B
  ensure_stats_template true chosen b = to_options chosen b
  ensure_stats_template false chosen b = after (add_stats fix.buf_add b) (to_options chosen)

  -- The static variable behind `yfEnsureStatsTemplate`.
  unfoldable pub stats_initialized : (initialized : Bool) → B → Bool
  stats_initialized initialized b = initialized || (add_stats fix.buf_add b).0

  -- `yfWriteStatsRec` behind the filling of the record.
  unfoldable pub write_stats_rec : (initialized : Bool) → ExportSpec → StatsRecord → B → Bool × B
  write_stats_rec initialized chosen r b =
      after (ensure_stats_template initialized chosen b)
        (λ c. after (fix.append (stats_appended r) c) (fix.set_internal flow_full_tid))

  -- "Select template and export", "Now append the record to the buffer".
  unfoldable pub send_flow : ExportSpec → FlowRecord × ℕ → B → Bool × B
  send_flow chosen (r, tid) b =
      after (set_export_template chosen tid b) (fix.append (flow_appended r))

  -- `yfWriterClose`, up to the release of the buffer.
  unfoldable pub writer_close : (flush : Bool) → B → Bool × B
  writer_close flush b = if flush then fix.emit b else (true, b)

-- The record that `yfWriteStatsRec` fills, with `yfGetFlowTabStats` and `yfGetFragTabStats`; the other
-- parts' counts are arguments.
unfoldable pub stats_record :
    TabStats → Option FragStats → Stats → (start dropped host odid : ℕ) → StatsRecord
stats_record t f d start dropped host odid = record {
  system_init_time = start;
  exported_flow_total = t.stat_flows;
  packet_total = t.stat_packets;
  dropped_packet_total = dropped;
  ignored_packet_total = undecoded_count d;
  not_sent_packet_total = t.stat_seqrej;
  expired_fragments = elim f [ none ↦ 0 | some s ↦ s.stat_dropped ];
  assembled_fragments = elim f [ none ↦ 0 | some s ↦ s.stat_packets ];
  flush_events = t.stat_flush;
  peak = t.stat_peak;
  exporter_address = host;
  exporting_process = odid;
}
