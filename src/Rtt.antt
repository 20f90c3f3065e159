-- ===== src/Rtt.antt =====
-- src/qofrtt.c and include/qof/qofrtt.h: the round-trip time of a TCP connection, sampled from
-- acknowledgments and from echoed timestamps in both directions.
pub mod Inv
use qof.Base.{Bool, false, if◌then◌else◌, ltb, not, true, ℕ, ◌%◌, ◌&&◌, ◌+◌, ◌^◌}
use qof.Base.Word.{has_bits, nonzero, sub32}
use qof.Base.Int.{pos}
use qof.Serial.{is_below, wrap_compare}
use qof.Stats.{LinSmooth, lin_smooth_add}

-- `YF_TF_ACK` and the other TCP flags of include/qof/decode.h that the trackers test.
abbrev pub tf_fin : ℕ
tf_fin = 0x01

abbrev pub tf_syn : ℕ
tf_syn = 0x02

abbrev pub tf_rst : ℕ
tf_rst = 0x04

abbrev pub tf_ack : ℕ
tf_ack = 0x10

-- `qfRttDir_t`; `obs_ms` is a bit field of 30 bits.
pub record Dir : Type 0 where
  pub tsack : ℕ
  pub lms : ℕ
  pub ackwait : Bool
  pub ecrwait : Bool
  pub obs_ms : ℕ

-- `qfRtt_t`
pub record Rtt : Type 0 where
  pub val : LinSmooth
  pub fwd : Dir
  pub rev : Dir

-- The side that `reverse` selects, and its replacement.
abbrev pub dir : Bool → Rtt → Dir
dir reverse rtt = if reverse then rtt.rev else rtt.fwd

abbrev pub set_dir : Bool → Dir → Rtt → Rtt
set_dir reverse d rtt = if reverse then record rtt { rev = d } else record rtt { fwd = d }

unfoldable pub set_ack_wait : Dir → ℕ → ℕ → Dir
set_ack_wait d seq ms = record d { ackwait = true; ecrwait = false; lms = ms; tsack = seq }

unfoldable pub set_ecr_wait : Dir → ℕ → ℕ → Dir
set_ecr_wait d tsval ms = record d { ackwait = false; ecrwait = true; lms = ms; tsack = tsval }

unfoldable pub sample : Rtt → Rtt
sample rtt =
    if nonzero rtt.fwd.obs_ms && nonzero rtt.rev.obs_ms
    then record rtt { val = lin_smooth_add rtt.val (pos (rtt.fwd.obs_ms + rtt.rev.obs_ms)) }
    else rtt

-- `fdir->obs_ms = ms - fdir->lms` and the sample that follows.
observe : Bool → ℕ → Rtt → Rtt
unfolding sample
observe reverse ms rtt =
    let d = dir reverse rtt in
    sample (set_dir reverse (record d { obs_ms = sub32 ms d.lms % 2 ^ 30 }) rtt)

-- "got an ACK we were waiting for"
got_ack : Bool → (tsval ms : ℕ) → Rtt → Rtt
unfolding observe set_ecr_wait
got_ack reverse tsval ms rtt =
    let seen = observe reverse ms rtt in
    let done = set_dir reverse (record (dir reverse seen) { ackwait = false }) seen in
    if nonzero tsval
    then set_dir (not reverse) (set_ecr_wait (dir (not reverse) done) tsval ms) done
    else done

-- "got a TSECR we were waiting for"
got_ecr : Bool → (seq ms : ℕ) → Rtt → Rtt
unfolding observe set_ack_wait
got_ecr reverse seq ms rtt =
    let d = dir reverse rtt in
    let seen = if ltb d.obs_ms (sub32 ms d.lms) then observe reverse ms rtt else rtt in
    let done = set_dir reverse (record (dir reverse seen) { ecrwait = false }) seen in
    set_dir (not reverse) (set_ack_wait (dir (not reverse) done) seq ms) done

pub rtt_segment : Rtt → (seq ack tsval tsecr ms flags : ℕ) → Bool → Rtt
rtt_segment rtt seq ack tsval tsecr ms flags reverse =
    let fdir = dir reverse rtt in
    let rdir = dir (not reverse) rtt in
    if fdir.ackwait && has_bits flags tf_ack && not (is_below (wrap_compare ack fdir.tsack))
    then got_ack reverse tsval ms rtt
    else if fdir.ecrwait && not (is_below (wrap_compare tsecr fdir.tsack))
    then got_ecr reverse seq ms rtt
    else if not rdir.ackwait && not rdir.ecrwait
    then set_dir (not reverse) (set_ack_wait rdir seq ms) rtt
    else rtt
