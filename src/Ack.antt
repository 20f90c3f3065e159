-- ===== src/Ack.antt =====
-- src/qofack.c, src/qofrwin.c and src/qofopt.c: what a TCP direction keeps of acknowledgments, of the
-- receiver window and of options.
pub mod Laws
use qof.Base.{Bool, bit_and, bit_or, if◌then◌else◌, ltb, not, ℕ, ◌&&◌, ◌*◌, ◌==◌, ◌^◌, ◌||◌}
use qof.Base.Word.{add32, nonzero, to_u32}
use qof.Base.Int.{ltb_ℤ, pos}
use qof.Serial.{is_above, wrap_compare}
use qof.Stats.{Double, Mean, mean_add, of_pattern}

-- `qfAck_t`
pub record Ack : Type 0 where
  pub fan : ℕ
  pub fanlms : ℕ
  pub dup_ct : ℕ
  pub sel_ct : ℕ

-- The first test of `qfAckSegment`, and the second.
ack_advance : Ack → ℕ → ℕ → ℕ → Ack
ack_advance qa ack oct ms =
    if not (nonzero qa.fan) || is_above (wrap_compare ack qa.fan)
    then record qa { fan = ack; fanlms = ms }
    else if nonzero oct
    then qa
    else record qa { dup_ct = add32 qa.dup_ct 1 }

unfoldable pub ack_segment : Ack → ℕ → ℕ → ℕ → ℕ → Ack
unfolding ack_advance wrap_compare
ack_segment qa ack sack oct ms =
    let advanced = ack_advance qa ack oct ms in
    if nonzero sack && is_above (wrap_compare sack ack)
    then record advanced { sel_ct = add32 advanced.sel_ct 1 }
    else advanced

-- `qfRwin_t`
pub record Rwin (R : Type 0) : Type 0 where
  pub val : Mean R
  pub stall : ℕ
  pub scale : ℕ

module _ {R : Type 0} where
  unfoldable pub rwin_scale : Rwin R → ℕ → Rwin R
  rwin_scale qr wscale = record qr { scale = wscale }

  -- `unscaled << scale` is computed in 32 bits, and handed over as an `int`. A shift by 32 bits or
  -- more is undefined in C; here it gives 0.
  unfoldable pub rwin_segment : Double R → Rwin R → ℕ → Rwin R
  unfolding mean_add
  rwin_segment double qr unscaled =
      let stalled =
        if ltb_ℤ (pos 0) qr.val.last && not (nonzero unscaled)
        then add32 qr.stall 1
        else qr.stall in
      record qr {
        stall = stalled;
        val = mean_add double qr.val (of_pattern (to_u32 (unscaled * 2 ^ qr.scale)));
      }

-- `qfOpt_t`
pub record Opt : Type 0 where
  pub flags : ℕ
  pub mss_opt : ℕ
  pub mss : ℕ

abbrev pub opt_ect0 : ℕ
opt_ect0 = 0x01

abbrev pub opt_ect1 : ℕ
opt_ect1 = 0x02

abbrev pub opt_ce : ℕ
opt_ce = 0x04

abbrev pub opt_ts : ℕ
opt_ts = 0x10

abbrev pub opt_sack : ℕ
opt_sack = 0x20

abbrev pub opt_ws : ℕ
opt_ws = 0x40

-- `if (test) qo->flags |= mask`
set_flag : Bool → ℕ → ℕ → ℕ
set_flag test mask flags = if test then bit_or flags mask else flags

-- The six flags are set in the order of the source; `ecn` is `ipinfo->ecn`, and the next four
-- arguments are the fields of `tcpinfo`.
unfoldable pub opt_segment : Opt → (ecn tsval ws sack mss oct : ℕ) → Opt
unfolding set_flag
opt_segment qo ecn tsval ws sack mss oct =
    let codepoint = bit_and ecn 0x03 in
    let ect1 = set_flag (codepoint == 0x01) opt_ect1 qo.flags in
    let ect0 = set_flag (codepoint == 0x02) opt_ect0 ect1 in
    let ce = set_flag (codepoint == 0x03) opt_ce ect0 in
    let ts = set_flag (nonzero tsval) opt_ts ce in
    let scaled = set_flag (nonzero ws) opt_ws ts in
    record qo {
      flags = set_flag (nonzero sack) opt_sack scaled;
      mss_opt = if nonzero mss then mss else qo.mss_opt;
      mss = if ltb qo.mss oct then oct else qo.mss;
    }
