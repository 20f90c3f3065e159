-- ===== src/Export/Session/Placed.antt =====
-- Which template the records of src/yafcore.c are encoded with.
use qof.Base.{Bool, List, Option-cases, [], bit_and, false, inl, inr, true, ℕ, ◌∙◌, ◌∷◌, ◌≡◌}
use qof.Export.Spec.{flow_full_tid}
use qof.Export.Elements.{ExportSpec}
use qof.Export.Record.{FlowRecord}
use qof.Export.Session.{
  Appended, Fixbuf, StatsRecord, Tried, add_stats, after, alloc_export_template,
  ensure_stats_template, flow_appended, is_set, load_template, no_template, options_tid, or_load,
  other_error, send_flow, set_export_template, stats_appended, stats_option_spec, to_options,
  was_set, write_stats_rec,
}

-- What holds where a call succeeds, and what where it fails.
abbrev pub Post : {B : Type 0} → (B → Type 0) → (B → Type 0) → Bool × B → Type 0
Post Good Bad (true, b) = Good b
Post Good Bad (false, b) = Bad b

pub after-Post :
    {B : Type 0} (G H F : B → Type 0) (r : Bool × B) (next : B → Bool × B)
    → Post G F r
    → ((b : B) → G b → Post H F (next b))
    → Post H F (after r next)
after-Post G H F (true, b) next p k = k b p
after-Post G H F (false, b) next p k = p

pub Post-weaken :
    {B : Type 0} (G H F K : B → Type 0) (r : Bool × B)
    → Post G F r
    → ((b : B) → G b → H b)
    → ((b : B) → F b → K b)
    → Post H K r
Post-weaken G H F K (true, b) p h k = h b p
Post-weaken G H F K (false, b) p h k = k b p

-- What is seen of a buffer: the internal template in force, and the records that were appended, the last
-- first, each with the internal template that it was read with.
pub record View (B : Type 0) : Type 0 where
  pub internal_of : B → ℕ
  pub sent : B → List (ℕ × Appended)

-- Each record was read with the template of its own structure.
abbrev pub Placed : List (ℕ × Appended) → Type 0
Placed [] = Unit
Placed ((tid, flow_appended r) ∷ l) = (tid ≡ flow_full_tid) × Placed l
Placed ((tid, stats_appended r) ∷ l) = (tid ≡ options_tid) × Placed l

module _ {T S E B : Type 0} (fix : Fixbuf T S E B) (view : View B) where
  abbrev pub Same : B → B → Type 0
  Same b c = (view.internal_of c ≡ view.internal_of b) × (view.sent c ≡ view.sent b)

  -- What libfixbuf documents: only `fBufSetInternalTemplate` changes the internal template, and
  -- `fBufAppend` reads a record with the one in force.
  pub record IsFixbuf : Type 0 where
    pub add : (internal : Bool) (tid : ℕ) (t : T) (b : B) → Same b (fix.buf_add internal tid t b).1
    pub set_export : (tid : ℕ) (b : B) → Same b (fix.set_export tid b).1
    pub set_internal :
        (tid : ℕ) (b : B)
        → Post
            (λ c. (view.internal_of c ≡ tid) × (view.sent c ≡ view.sent b))
            (Same b)
            (fix.set_internal tid b)
    pub append :
        (r : Appended) (b : B)
        → Post
            (λ c.
              (view.internal_of c ≡ view.internal_of b)
              × (view.sent c ≡ (view.internal_of b, r) ∷ view.sent b))
            (Same b)
            (fix.append r b)

  -- The internal template is `tid`, and all records are placed.
  abbrev pub IsAt : ℕ → B → Type 0
  IsAt tid b = (view.internal_of b ≡ tid) × Placed (view.sent b)

  abbrev pub AllPlaced : B → Type 0
  AllPlaced b = Placed (view.sent b)

  pub Same-IsAt : (tid : ℕ) (b c : B) → Same b c → IsAt tid b → IsAt tid c
  Same-IsAt tid b c (i, s) (at_tid, placed) = (i ∙ at_tid, rw s placed)

  Same-Post :
      (tid : ℕ) (b : B) (r : Bool × B) → Same b r.1 → IsAt tid b → Post (IsAt tid) (IsAt tid) r
  Same-Post tid b (true, c) s i = Same-IsAt tid b c s i
  Same-Post tid b (false, c) s i = Same-IsAt tid b c s i

  module _ (documented : IsFixbuf) where
    is_set-Post :
        (tid : ℕ) (b : B) (r : Tried × B)
        → Same b r.1
        → IsAt tid b
        → Post (IsAt tid) (IsAt tid) (is_set fix r)
    is_set-Post tid b (was_set, c) s i = Same-IsAt tid b c s i
    is_set-Post tid b (no_template, c) s i = Same-IsAt tid b c s i
    is_set-Post tid b (other_error, c) s i = Same-IsAt tid b c s i

    load_template-Post :
        (chosen : ExportSpec) (tid at : ℕ) (b : B)
        → IsAt at b
        → Post (IsAt at) (IsAt at) (load_template fix chosen tid b)
    unfolding load_template
    load_template-Post chosen tid at b i =
        elim (Option-cases (alloc_export_template fix chosen (bit_and tid 0x4FFF))) [
          | inl e ↦ rw (e, load_template) i
          | inr (t, e) ↦
              rw (e, load_template)
                (after-Post (IsAt at) (IsAt at) (IsAt at) (fix.buf_add false tid t b) _
                  (Same-Post at b _ (documented.add false tid t b) i)
                  (λ c j. is_set-Post at c _ (documented.set_export tid c) j))
        ]

    or_load-Post :
        (chosen : ExportSpec) (tid at : ℕ) (r : Tried × B)
        → IsAt at r.1
        → Post (IsAt at) (IsAt at) (or_load fix chosen tid r)
    or_load-Post chosen tid at (was_set, b) i = i
    or_load-Post chosen tid at (no_template, b) i = load_template-Post chosen tid at b i
    or_load-Post chosen tid at (other_error, b) i = i

    pub set_export_template-Post :
        (chosen : ExportSpec) (tid at : ℕ) (b : B)
        → IsAt at b
        → Post (IsAt at) (IsAt at) (set_export_template fix chosen tid b)
    unfolding set_export_template
    set_export_template-Post chosen tid at b i =
        or_load-Post chosen tid at (fix.set_export tid b)
          (Same-IsAt at b _ (documented.set_export tid b) i)

    set_internal-Post :
        (tid at : ℕ) (b : B) → IsAt at b → Post (IsAt tid) (IsAt at) (fix.set_internal tid b)
    set_internal-Post tid at b i =
        Post-weaken _ (IsAt tid) (Same b) (IsAt at) (fix.set_internal tid b)
          (documented.set_internal tid b) (λ c (e, s). (e, rw s i.1)) (λ c s. Same-IsAt at b c s i)

    add_stats-Post :
        (at : ℕ) (b : B) → IsAt at b → Post (IsAt at) (IsAt at) (add_stats fix fix.buf_add b)
    unfolding add_stats
    add_stats-Post at b i = elim (Option-cases (fix.template_of stats_option_spec 0)) [
      | inl e ↦ rw (e, add_stats) i
      | inr (t, e) ↦
          let scoped = fix.options_scope 2 t in
          rw (e, add_stats)
            (after-Post (IsAt at) (IsAt at) (IsAt at) (fix.buf_add true options_tid scoped b)
              (fix.buf_add false options_tid scoped)
              (Same-Post at b (fix.buf_add true options_tid scoped b)
                (documented.add true options_tid scoped b) i)
              (λ c j.
                Same-Post at c (fix.buf_add false options_tid scoped c)
                  (documented.add false options_tid scoped c) j))
    ]

    to_options-Post :
        (chosen : ExportSpec) (b : B)
        → IsAt flow_full_tid b
        → Post (IsAt options_tid) AllPlaced (to_options fix chosen b)
    to_options-Post chosen b i =
        after-Post (IsAt options_tid) (IsAt options_tid) AllPlaced _ _
          (Post-weaken (IsAt options_tid) (IsAt options_tid) (IsAt flow_full_tid) AllPlaced _
            (set_internal-Post options_tid flow_full_tid b i) (λ c j. j) (λ c j. j.1))
          (λ c j.
            Post-weaken (IsAt options_tid) (IsAt options_tid) (IsAt options_tid) AllPlaced _
              (set_export_template-Post chosen options_tid options_tid c j) (λ d k. k) (λ d k. k.1))

    pub ensure_stats_template-Post :
        (initialized : Bool) (chosen : ExportSpec) (b : B)
        → IsAt flow_full_tid b
        → Post (IsAt options_tid) AllPlaced (ensure_stats_template fix initialized chosen b)
    unfolding ensure_stats_template
    ensure_stats_template-Post true chosen b i = to_options-Post chosen b i
    ensure_stats_template-Post false chosen b i =
        after-Post (IsAt flow_full_tid) (IsAt options_tid) AllPlaced _ _
          (Post-weaken (IsAt flow_full_tid) (IsAt flow_full_tid) (IsAt flow_full_tid) AllPlaced _
            (add_stats-Post flow_full_tid b i) (λ c j. j) (λ c j. j.1))
          (λ c j. to_options-Post chosen c j)

    append_stats-Post :
        (r : StatsRecord) (b : B)
        → IsAt options_tid b
        → Post (IsAt options_tid) AllPlaced (fix.append (stats_appended r) b)
    append_stats-Post r b i =
        Post-weaken _ (IsAt options_tid) (Same b) AllPlaced _
          (documented.append (stats_appended r) b) (λ c (e, s). (e ∙ i.0, rw s (i.0, i.1)))
          (λ c s. (Same-IsAt options_tid b c s i).1)

    -- On a buffer whose internal template is that of flows and whose records were all read with the
    -- template of their own structure, writing a statistics record, the first or a later one, keeps the
    -- latter at every failure; where it succeeds the internal template is again that of flows.
    pub write_stats_rec-Post :
        (initialized : Bool) (chosen : ExportSpec) (r : StatsRecord) (b : B)
        → IsAt flow_full_tid b
        → Post (IsAt flow_full_tid) AllPlaced (write_stats_rec fix initialized chosen r b)
    unfolding write_stats_rec
    write_stats_rec-Post initialized chosen r b i =
        after-Post (IsAt options_tid) (IsAt flow_full_tid) AllPlaced _ _
          (ensure_stats_template-Post initialized chosen b i)
          (λ c j.
            after-Post (IsAt options_tid) (IsAt flow_full_tid) AllPlaced _ _
              (append_stats-Post r c j)
              (λ d k.
                Post-weaken (IsAt flow_full_tid) (IsAt flow_full_tid) (IsAt options_tid) AllPlaced _
                  (set_internal-Post flow_full_tid options_tid d k) (λ e l. l) (λ e l. l.1)))

    -- From there a flow record keeps both, at every failure too.
    pub send_flow-Post :
        (chosen : ExportSpec) (r : FlowRecord) (tid : ℕ) (b : B)
        → IsAt flow_full_tid b
        → Post (IsAt flow_full_tid) (IsAt flow_full_tid) (send_flow fix chosen (r, tid) b)
    unfolding send_flow
    send_flow-Post chosen r tid b i =
        after-Post (IsAt flow_full_tid) (IsAt flow_full_tid) (IsAt flow_full_tid) _ _
          (set_export_template-Post chosen tid flow_full_tid b i)
          (λ c j.
            Post-weaken _ (IsAt flow_full_tid) (Same c) (IsAt flow_full_tid) _
              (documented.append (flow_appended r) c) (λ d (e, s). (e ∙ j.0, rw s (j.0, j.1)))
              (λ d s. Same-IsAt flow_full_tid c d s j))
