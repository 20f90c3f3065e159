-- ===== src/Process/Output.antt =====
-- src/yafout.c: opening and closing of the output.
use qof.Base.{
  Bool, List, Option, [], get_or, if◌then◌else◌, length, none, not, some, true, ℕ, ◌&&◌, ◌++◌, ◌==◌,
  ◌∷◌,
}
use qof.Base.Word.{add32, nonzero}
use qof.Flow.Flush.{Write}

-- `qfOutputContext_t`, with the file number that `yfOutputOpen` keeps. `transport` says whether there
-- is one, `fbuf` is `none` for a null pointer, and a text is a list of bytes.
pub record Output (B : Type 0) : Type 0 where
  pub transport : Bool
  pub outspec : List ℕ
  pub enable_lock : Bool
  pub rotate_period : ℕ
  pub rotate_last : ℕ
  pub stats_period : ℕ
  pub stats_last : ℕ
  pub template_rtx_period : ℕ
  pub template_rtx_last : ℕ
  pub fbuf : Option B
  pub serial : ℕ

-- The calls of libfixbuf, by way of `yfWriterForSpec`, `yfWriterForFile`, `yfWriterClose`,
-- `yfWriteStatsRec` and `yfWriteFlow` where these make them, and of libairframe, on buffers `B`, with
-- all that they change in `W`. A `false` or a `none` is a failure.
pub record Library (R B W : Type 0) : Type 0 where
  pub writer_for_spec : W → Option B × W
  pub writer_for_file : List ℕ → W → Option B × W
  pub writer_close : B → Bool → W → Bool × W
  pub write_flow : B → Write R W
  pub write_stats_rec : B → W → Bool × W
  pub export_templates : B → W → Bool × W
  pub emit : B → W → Bool × W
  pub lock_acquire : List ℕ → W → Bool × W
  pub lock_release : W → W
  pub time_text : W → List ℕ
  pub serial_text : ℕ → List ℕ

abbrev pub dash : ℕ
dash = 45

-- ".ipfix"
abbrev pub suffix : List ℕ
suffix = 46 ∷ 105 ∷ 112 ∷ 102 ∷ 105 ∷ 120 ∷ []

-- What the test before the lock, which is meant to leave out the standard output "-", does leave out: a
-- name of one byte that is no dash.
unfoldable pub skips_lock : List ℕ → Bool
skips_lock outspec = (length outspec == 1) && not (get_or outspec 0 0 == dash)

module _ {R B W : Type 0} (lib : Library R B W) where
  unfoldable pub output_name : Output B → W → List ℕ
  output_name o w =
      if nonzero o.rotate_period
      then o.outspec ++ (dash ∷ (lib.time_text w ++ (dash ∷ (lib.serial_text o.serial ++ suffix))))
      else o.outspec

  -- "lock, but not stdout", and "start a writer on the file".
  unfoldable pub open_file : Output B → List ℕ → W → Option B × W
  open_file o name w =
      let (locked, w1) =
        if o.enable_lock && not (skips_lock o.outspec)
        then lib.lock_acquire name w
        else (true, w) in
      let (fbuf, w2) = if locked then lib.writer_for_file name w1 else (none, w1) in
      elim fbuf [
        | some b ↦ (some b, w2)
        | none ↦ (none, if o.enable_lock then lib.lock_release w2 else w2)
      ]

  -- `yfOutputOpen`
  unfoldable pub output_open : Output B → W → Option B × Output B × W
  output_open o w =
      let (spec, w1) = lib.writer_for_spec w in
      let (file, w2) = open_file o (output_name o w) w in
      let o' = if nonzero o.rotate_period then record o { serial = add32 o.serial 1 } else o in
      if o.transport then (spec, o, w1) else (file, o', w2)

  -- `yfOutputClose`
  unfoldable pub output_close : Output B → B → (flush : Bool) → W → W
  output_close o b flush w =
      let w1 = (lib.writer_close b flush w).1 in if o.enable_lock then lib.lock_release w1 else w1
