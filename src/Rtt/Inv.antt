-- ===== src/Rtt/Inv.antt =====
-- What src/qofrtt.c keeps true of its record, and what it takes for a sample.
use qof.Base.{
  Bool, Bool-cases, arith, false, if◌then◌else◌, inl, inr, ltb, max, not, refl, true, ℕ, ◌&&◌, ◌<◌,
  ◌^◌, ◌≡◌,
}
use qof.Base.Word.{has_bits, nonzero, sub32}
use qof.Serial.{is_below, wrap_compare}
use qof.Rtt.{
  Dir, Rtt, dir, got_ack, got_ecr, observe, rtt_segment, sample, set_ack_wait, set_dir,
  set_ecr_wait, tf_ack,
}

-- A direction waits for one thing at a time, and its observation fits the bit field.
pub record IsDir (d : Dir) : Type 0 where
  pub one_wait : (d.ackwait && d.ecrwait) ≡ false
  pub fits : d.obs_ms < 2 ^ 30

pub record IsRtt (r : Rtt) : Type 0 where
  pub fwd : IsDir r.fwd
  pub rev : IsDir r.rev

set_dir-IsRtt :
    (reverse : Bool) (d : Dir) (rtt : Rtt) → IsDir d → IsRtt rtt → IsRtt (set_dir reverse d rtt)
set_dir-IsRtt true d rtt v w = record { fwd = w.fwd; rev = v }
set_dir-IsRtt false d rtt v w = record { fwd = v; rev = w.rev }

dir-IsDir : (reverse : Bool) (rtt : Rtt) → IsRtt rtt → IsDir (dir reverse rtt)
dir-IsDir true rtt w = w.rev
dir-IsDir false rtt w = w.fwd

set_ack_wait-IsDir : (d : Dir) (seq ms : ℕ) → IsDir d → IsDir (set_ack_wait d seq ms)
unfolding set_ack_wait
set_ack_wait-IsDir d seq ms v = record { one_wait = refl; fits = v.fits }

set_ecr_wait-IsDir : (d : Dir) (tsval ms : ℕ) → IsDir d → IsDir (set_ecr_wait d tsval ms)
unfolding set_ecr_wait
set_ecr_wait-IsDir d tsval ms v = record { one_wait = refl; fits = v.fits }

sample-IsRtt : (rtt : Rtt) → IsRtt rtt → IsRtt (sample rtt)
unfolding sample
sample-IsRtt rtt w = elim (Bool-cases (nonzero rtt.fwd.obs_ms && nonzero rtt.rev.obs_ms)) [
  | inl e ↦ rw e (record { fwd = w.fwd; rev = w.rev })
  | inr e ↦ rw e w
]

observe-IsRtt : (reverse : Bool) (ms : ℕ) (rtt : Rtt) → IsRtt rtt → IsRtt (observe reverse ms rtt)
unfolding observe
observe-IsRtt reverse ms rtt w = sample-IsRtt _ (
    set_dir-IsRtt reverse _ rtt
      (record { one_wait = (dir-IsDir reverse rtt w).one_wait; fits = omega arith }) w)

-- The direction that a segment answers stops waiting.
ack_done : (d : Dir) → IsDir d → IsDir (record d { ackwait = false })
ack_done d v = record { one_wait = refl; fits = v.fits }

ecr_done : (d : Dir) → IsDir d → IsDir (record d { ecrwait = false })
ecr_done d v = record { one_wait = ground (arith, v.one_wait); fits = v.fits }

got_ack-IsRtt :
    (reverse : Bool) (tsval ms : ℕ) (rtt : Rtt) → IsRtt rtt → IsRtt (got_ack reverse tsval ms rtt)
unfolding got_ack
got_ack-IsRtt reverse tsval ms rtt w =
    let seen = observe reverse ms rtt in
    let done = set_dir reverse (record (dir reverse seen) { ackwait = false }) seen in
    let is_seen : IsRtt seen = observe-IsRtt reverse ms rtt w in
    let is_done : IsRtt done =
      set_dir-IsRtt reverse _ seen (ack_done _ (dir-IsDir reverse seen is_seen)) is_seen in
    elim (Bool-cases (nonzero tsval)) [
      | inl e ↦ rw e (
          set_dir-IsRtt (not reverse) _ done
            (set_ecr_wait-IsDir _ tsval ms (dir-IsDir (not reverse) done is_done)) is_done)
      | inr e ↦ rw e is_done
    ]

got_ecr-IsRtt :
    (reverse : Bool) (seq ms : ℕ) (rtt : Rtt) → IsRtt rtt → IsRtt (got_ecr reverse seq ms rtt)
unfolding got_ecr
got_ecr-IsRtt reverse seq ms rtt w = answered _ is_seen
  where
    seen : Rtt
    seen =
        if ltb (dir reverse rtt).obs_ms (sub32 ms (dir reverse rtt).lms)
        then observe reverse ms rtt
        else rtt

    is_seen : IsRtt seen
    is_seen = elim (Bool-cases (ltb (dir reverse rtt).obs_ms (sub32 ms (dir reverse rtt).lms))) [
      | inl e ↦ rw e (observe-IsRtt reverse ms rtt w)
      | inr e ↦ rw e w
    ]

    answered :
        (s : Rtt)
        → IsRtt s
        → IsRtt (
            let done = set_dir reverse (record (dir reverse s) { ecrwait = false }) s in
            set_dir (not reverse) (set_ack_wait (dir (not reverse) done) seq ms) done)
    answered s v =
        let done = set_dir reverse (record (dir reverse s) { ecrwait = false }) s in
        let is_done : IsRtt done =
          set_dir-IsRtt reverse _ s (ecr_done _ (dir-IsDir reverse s v)) v in
        set_dir-IsRtt (not reverse) _ done
          (set_ack_wait-IsDir _ seq ms (dir-IsDir (not reverse) done is_done)) is_done

-- A segment in either direction leaves each side waiting for at most one of an acknowledgment and an
-- echo, and each observation within its 30 bits.
pub rtt_segment-IsRtt :
    (rtt : Rtt) (seq ack tsval tsecr ms flags : ℕ) (reverse : Bool)
    → IsRtt rtt
    → IsRtt (rtt_segment rtt seq ack tsval tsecr ms flags reverse)
unfolding rtt_segment
rtt_segment-IsRtt rtt seq ack tsval tsecr ms flags reverse v = ground (
  arith,
  got_ack-IsRtt reverse tsval ms rtt v,
  got_ecr-IsRtt reverse seq ms rtt v,
  set_dir-IsRtt (not reverse) (set_ack_wait (dir (not reverse) rtt) seq ms) rtt,
  set_ack_wait-IsDir (dir (not reverse) rtt) seq ms,
  dir-IsDir (not reverse) rtt v,
)

-- A segment answers a wait of its own side: by an acknowledgment, or by an echo.
pub acked : Rtt → (ack flags : ℕ) → Bool → Bool
acked rtt ack flags reverse =
    (dir reverse rtt).ackwait
    && has_bits flags tf_ack
    && not (is_below (wrap_compare ack (dir reverse rtt).tsack))

pub echoed : Rtt → (tsecr : ℕ) → Bool → Bool
echoed rtt tsecr reverse =
    (dir reverse rtt).ecrwait && not (is_below (wrap_compare tsecr (dir reverse rtt).tsack))

-- What a segment leaves of the two observations, if less than 2^30 ms have passed since the wait of
-- its side began: its own side observes the time passed on an awaited acknowledgment, the greater of
-- that and the last observation on an awaited echo, and otherwise keeps its observation. The other
-- side always keeps its own.
pub obs_ms-rtt_segment :
    (rtt : Rtt) (seq ack tsval tsecr ms flags : ℕ) (reverse : Bool)
    → sub32 ms (dir reverse rtt).lms < 2 ^ 30
    → let rtt' = rtt_segment rtt seq ack tsval tsecr ms flags reverse in
      let d = dir reverse rtt in
      ((dir reverse rtt').obs_ms ≡ (
        if acked rtt ack flags reverse
        then sub32 ms d.lms
        else if echoed rtt tsecr reverse
        then max d.obs_ms (sub32 ms d.lms)
        else d.obs_ms))
      × ((dir (not reverse) rtt').obs_ms ≡ (dir (not reverse) rtt).obs_ms)
unfolding rtt_segment acked echoed got_ack got_ecr observe sample set_ack_wait set_ecr_wait
obs_ms-rtt_segment rtt seq ack tsval tsecr ms flags true h = ground arith
obs_ms-rtt_segment rtt seq ack tsval tsecr ms flags false h = ground arith
