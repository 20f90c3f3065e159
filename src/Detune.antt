-- ===== src/Detune.antt =====
-- src/qofdetune.c: a leaky bucket, a random drop and a random delay for packets. The random numbers
-- are arguments, and so are the comparisons of `double` values.
pub mod Outcome
use qof.Base.{Bool, false, if◌then◌else◌, leb, ltb, not, tests, true, ℕ, ◌&&◌, ◌*◌, ◌/◌, ◌||◌}
use qof.Base.Word.{add64, nonzero, sub64, to_u32, to_u64}
use qof.Base.Int.{ltb_ℤ, pos, ℤ, ◌+ℤ◌, ◌-ℤ◌}
use qof.Stats.{
  Double, LinSmooth, Mean, int32, is_zero, lin_smooth_add, lin_smooth_init, mean_add, mean_init,
  of_pattern, to_pattern,
}

-- `qofDetune_t`
pub record Detune (R : Type 0) : Type 0 where
  pub bucket_cur : ℤ
  pub bucket_max : ℕ
  pub bucket_rate : ℕ
  pub bucket_delay : ℕ
  pub drop_die : LinSmooth
  pub drop_p : R
  pub delay : LinSmooth
  pub delay_max : ℕ
  pub last_real_ms : ℕ
  pub last_delayed_ms : ℕ
  pub stat_bucket_drop : ℕ
  pub stat_random_drop : ℕ
  pub stat_highwater : ℕ
  pub stat_delay : Mean R

abbrev pub rand_max : ℕ
rand_max = 0x40000000

-- What the code does with `double` besides arithmetic: a test for 0, and `<`.
pub record Tests (R : Type 0) : Type 0 where
  pub is_nonzero : R → Bool
  pub below : R → R → Bool

module _ {R : Type 0} (double : Double R) where
  unfoldable pub detune_alloc :
      (bucket_max bucket_rate bucket_delay : ℕ) (drop_p : R) (delay_max alpha : ℕ) → Detune R
  detune_alloc bucket_max bucket_rate bucket_delay drop_p delay_max alpha = record {
    bucket_cur = pos 0;
    bucket_max = bucket_max;
    bucket_rate = bucket_rate;
    bucket_delay = bucket_delay;
    drop_die = record lin_smooth_init { alpha = of_pattern alpha };
    drop_p = drop_p;
    delay = record lin_smooth_init { alpha = of_pattern alpha };
    delay_max = delay_max;
    last_real_ms = 0;
    last_delayed_ms = 0;
    stat_bucket_drop = 0;
    stat_random_drop = 0;
    stat_highwater = 0;
    stat_delay = mean_init double;
  }

module _ {R : Type 0} where
  -- What drains from the bucket, in 64 bits.
  abbrev pub drained : Detune R → ℕ → ℕ
  drained t ms = to_u64 (sub64 ms t.last_real_ms * t.bucket_rate) / 1000

  -- The difference goes into an `int`.
  unfoldable pub drain : Detune R → ℕ → Detune R
  drain t ms =
      let left = int32 (t.bucket_cur -ℤ pos (drained t ms)) in
      if nonzero t.last_real_ms && not (is_zero t.bucket_cur) && ltb t.last_real_ms ms
      then record t { bucket_cur = if ltb_ℤ left (pos 0) then pos 0 else left }
      else t

  unfoldable pub fill : Detune R → ℕ → Detune R
  fill t oct =
      let cur = int32 (t.bucket_cur +ℤ pos oct) in
      record t {
        bucket_cur = cur;
        stat_highwater =
            if ltb t.stat_highwater (to_pattern cur) then to_pattern cur else t.stat_highwater;
      }

  abbrev pub overflows : Detune R → Bool
  overflows t = leb t.bucket_max (to_pattern t.bucket_cur)

  unfoldable pub tail_drop : Detune R → Detune R
  tail_drop t = record t {
    bucket_cur = of_pattern t.bucket_max;
    stat_bucket_drop = add64 t.stat_bucket_drop 1;
  }

  abbrev pub bucket_delay_ms : Detune R → ℕ
  bucket_delay_ms t =
      if nonzero t.bucket_max && nonzero t.bucket_delay
      then to_u32 (to_pattern t.bucket_cur * t.bucket_delay) / t.bucket_max
      else 0

  unfoldable pub roll_delay : Detune R → ℕ → Detune R
  roll_delay t bits =
      if nonzero t.delay_max
      then record t {
        delay = lin_smooth_add t.delay (int32 (pos (to_u64 (bits * t.delay_max) / rand_max)));
      }
      else t

  -- The value of the smoother is read only where there is a random delay.
  abbrev pub random_delay_ms : Detune R → ℕ
  random_delay_ms t = if nonzero t.delay_max then to_pattern t.delay.val else 0

module _ {R : Type 0} (double : Double R) (tests : Tests R) where
  abbrev pub dropped_by_die : Detune R → Bool
  dropped_by_die t =
      tests.below
        (double.div (double.of_int (pos (to_pattern t.drop_die.val)))
          (double.of_int (pos rand_max)))
        t.drop_p

  -- The delayed time, not before the last delayed one.
  abbrev pub delayed : Detune R → (ms bdelay rdelay : ℕ) → ℕ
  delayed t ms bdelay rdelay =
      let later = add64 ms (if ltb rdelay bdelay then bdelay else rdelay) in
      if ltb later t.last_delayed_ms then t.last_delayed_ms else later

  abbrev pub clocks : Detune R → (ms ms' : ℕ) → Detune R
  clocks t ms ms' = record t { last_real_ms = ms; last_delayed_ms = ms' }

  -- Behind the drops: the delay, and the time of the packet.
  unfoldable pub delay_packet : Detune R → (ms bits : ℕ) → Detune R × ℕ
  delay_packet t ms bits =
      let rolled = roll_delay t bits in
      let bdelay = bucket_delay_ms t in
      let rdelay = random_delay_ms rolled in
      let ms' = delayed rolled ms bdelay rdelay in
      if nonzero bdelay || nonzero rdelay
      then (
        clocks
            (record rolled {
              stat_delay = mean_add double rolled.stat_delay (int32 (pos (sub64 ms' ms)));
            })
            ms ms',
        ms',
      )
      else (clocks rolled ms ms, ms)

  unfoldable pub roll_die : Detune R → (ms die bits : ℕ) → Detune R × ℕ × Bool
  roll_die t ms die bits =
      let rolled = record t { drop_die = lin_smooth_add t.drop_die (pos die) } in
      let (kept, ms') = delay_packet (if tests.is_nonzero t.drop_p then rolled else t) ms bits in
      if tests.is_nonzero t.drop_p && dropped_by_die rolled
      then (record rolled { stat_random_drop = add64 t.stat_random_drop 1 }, ms, false)
      else (kept, ms', true)

  -- The packet at `ms` with `oct` octets; `die` and `bits` are the random numbers.
  unfoldable pub detune_packet : Detune R → (ms oct die bits : ℕ) → Detune R × ℕ × Bool
  detune_packet t ms oct die bits =
      let filled = fill (drain t ms) oct in
      if nonzero t.bucket_max
      then (if overflows filled then (tail_drop filled, ms, false) else roll_die filled ms die bits)
      else roll_die t ms die bits

  -- The count that `qfDetuneDumpStats` returns.
  unfoldable pub dump_stats : Detune R → ℕ → ℕ
  dump_stats t flow_packets = add64 flow_packets (add64 t.stat_bucket_drop t.stat_random_drop)
