-- ===== src/Export/Session/Misplaced.antt =====
-- A failure in the middle of `yfWriteStatsRec` of src/yafcore.c.
use qof.Base.{Bool, arith, false, refl, set, true, ℕ, ◌∷◌, ◌≡◌}
use qof.Export.Spec.{flow_full_tid}
use qof.Export.Elements.{ExportSpec}
use qof.Export.Record.{FlowRecord}
use qof.Export.Session.{
  Fixbuf, StatsRecord, after, ensure_stats_template, flow_appended, options_tid, send_flow,
  set_export_template, stats_appended, write_stats_rec,
}
use qof.Export.Session.Placed.{
  AllPlaced, IsAt, IsFixbuf, Placed, Post, Post-weaken, Same, Same-IsAt, View, after-Post,
  ensure_stats_template-Post, set_export_template-Post,
}

Post-true : {B : Type 0} (G F : B → Type 0) (r : Bool × B) → Post G F r → r.0 ≡ true → G r.1
Post-true G F (true, b) p e = p
Post-true G F (false, b) p e = absurd (ground (arith, e))

Post-false : {B : Type 0} (G F : B → Type 0) (r : Bool × B) → Post G F r → r.0 ≡ false → F r.1
Post-false G F (true, b) p e = absurd (ground (arith, e))
Post-false G F (false, b) p e = p

after_stops :
    {B : Type 0} (r : Bool × B) (k : B → Bool × B) → r.0 ≡ false → after r k ≡ (false, r.1)
after_stops (true, b) k e = absurd (ground (arith, e))
after_stops (false, b) k e = refl

after_goes : {B : Type 0} (r : Bool × B) (k : B → Bool × B) → r.0 ≡ true → after r k ≡ k r.1
after_goes (true, b) k e = refl
after_goes (false, b) k e = absurd (ground (arith, e))

module _ {T S E B : Type 0} (fix : Fixbuf T S E B) (view : View B)
    (documented : IsFixbuf fix view) where
  -- A record is appended that was read with another structure's template.
  abbrev pub Misplaced : B → Type 0
  Misplaced b = ¬ Placed (view.sent b)

  send_flow-Misplaced :
      (chosen : ExportSpec) (r : FlowRecord) (tid : ℕ) (b : B)
      → IsAt fix view options_tid b
      → Post Misplaced (AllPlaced fix view) (send_flow fix chosen (r, tid) b)
  unfolding send_flow
  send_flow-Misplaced chosen r tid b i =
      after-Post (IsAt fix view options_tid) Misplaced (AllPlaced fix view)
        (set_export_template fix chosen tid b) (fix.append (flow_appended r))
        (Post-weaken (IsAt fix view options_tid) (IsAt fix view options_tid)
          (IsAt fix view options_tid) (AllPlaced fix view) (set_export_template fix chosen tid b)
          (set_export_template-Post fix view documented chosen tid options_tid b i) (λ c j. j)
          (λ c j. j.1))
        (λ c j.
          Post-weaken _ Misplaced (Same fix view c) (AllPlaced fix view)
            (fix.append (flow_appended r) c) (documented.append (flow_appended r) c)
            (λ d (e, s) placed.
              let first : Placed ((view.internal_of c, flow_appended r) ∷ view.sent c) =
                rw s at placed in
              ground (arith, first.0, j.0))
            (λ d s. (Same-IsAt fix view options_tid c d s j).1))

  -- From a buffer whose internal template is that of flows: if the templates of the statistics record
  -- are set and the record cannot be appended, this is reported, but the internal template stays that of
  -- the statistics record. Each flow record that is then written with success is read with it, and so
  -- with another structure's template.
  pub write_stats_rec-Misplaced :
      (initialized : Bool) (chosen : ExportSpec) (r : StatsRecord) (b : B)
      → IsAt fix view flow_full_tid b
      → (ensure_stats_template fix initialized chosen b).0 ≡ true
      → (fix.append (stats_appended r) (ensure_stats_template fix initialized chosen b).1).0 ≡ false
      → let u = write_stats_rec fix initialized chosen r b in
        (u.0 ≡ false)
        × (view.internal_of u.1 ≡ options_tid)
        × ((flow : FlowRecord) (tid : ℕ)
            → Post Misplaced (AllPlaced fix view) (send_flow fix chosen (flow, tid) u.1))
  unfolding write_stats_rec
  write_stats_rec-Misplaced initialized chosen r b i set fails =
      let c = (ensure_stats_template fix initialized chosen b).1 in
      let d = (fix.append (stats_appended r) c).1 in
      let at_options =
        Post-true _ _ (ensure_stats_template fix initialized chosen b)
          (ensure_stats_template-Post fix view documented initialized chosen b i) set in
      let same =
        Post-false _ _ (fix.append (stats_appended r) c) (documented.append (stats_appended r) c)
          fails in
      let left = Same-IsAt fix view options_tid c d same at_options in
      rw (after_goes (ensure_stats_template fix initialized chosen b) _ set) (
        rw (after_stops (fix.append (stats_appended r) c) _ fails)
          (refl, left.0, λ flow tid. send_flow-Misplaced chosen flow tid d left))
