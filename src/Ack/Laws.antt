-- ===== src/Ack/Laws.antt =====
-- What the counters of src/qofack.c and the flags of src/qofopt.c record.
use qof.Base.{
  arith, if◌then◌else◌, leb, ltb, max, not, ℕ, ◌%◌, ◌&&◌, ◌+◌, ◌<◌, ◌==◌, ◌^◌, ◌||◌, ◌≡◌,
}
use qof.Base.Word.{add32}
use qof.Serial.Order.{position_order, wrap_compare-position_order}
use qof.Ack.{Ack, ack_segment}

-- Acknowledgments of unbounded stream positions, less than 2^31 apart and given by their low 32 bits:
-- the final acknowledgment number becomes the greater of the two positions, unless the low 32 bits of
-- the old one are 0: these are taken for no acknowledgment, and the new one replaces them, greater or
-- not. The time is set exactly when the new one is taken, and an empty segment whose acknowledgment is
-- not taken is counted as a duplicate.
pub ack_segment-max :
    (qa : Ack) (old new sack oct ms : ℕ)
    → qa.fan ≡ old % 2 ^ 32
    → old < new + 2 ^ 31
    → new < old + 2 ^ 31
    → let qa' = ack_segment qa (new % 2 ^ 32) sack oct ms in
      (qa'.fan ≡ (if old % 2 ^ 32 == 0 then new else max old new) % 2 ^ 32)
      × (qa'.fanlms ≡ (if (old % 2 ^ 32 == 0) || ltb old new then ms else qa.fanlms))
      × (qa'.dup_ct ≡ (
          if not (old % 2 ^ 32 == 0) && leb new old && (oct == 0)
          then add32 qa.dup_ct 1
          else qa.dup_ct))
unfolding ack_segment position_order
ack_segment-max qa old new sack oct ms e h k =
    ground (arith, wrap_compare-position_order new old k h)
