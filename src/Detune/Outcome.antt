-- ===== src/Detune/Outcome.antt =====
-- What src/qofdetune.c does to a packet, on every path.
use mathlib.Core.Path.{subst}
use qof.Base.{
  Bool, Bool-cases, ap, arith, false, if◌then◌else◌, inl, inr, ltb, not, refl, sym, true, ℕ, ◌&&◌,
  ◌<◌, ◌||◌, ◌∙◌, ◌≡◌, ◌≢◌, ◌≤◌, ◌⊎◌,
}
use qof.Base.Word.{add64, nonzero}
use qof.Base.Int.{pos}
use qof.Stats.{Double, is_zero, lin_smooth_add, to_pattern}
use qof.Detune.{
  Detune, Tests, bucket_delay_ms, delay_packet, delayed, detune_packet, drain, dropped_by_die, fill,
  overflows, random_delay_ms, roll_delay, roll_die, tail_drop,
}

module _ {R : Type 0} (double : Double R) (tests : Tests R) where
  -- A packet that passes: the clocks, the time not before the last one where it changed, the counts of
  -- drops, and a bucket that is not full.
  pub record Passes (t : Detune R) (ms : ℕ) (t' : Detune R) (ms' : ℕ) : Type 0 where
    pub real_clock : t'.last_real_ms ≡ ms
    pub delayed_clock : t'.last_delayed_ms ≡ ms'
    pub order : (ms' ≡ ms) ⊎ (t.last_delayed_ms ≤ ms')
    pub drops :
        (t'.stat_bucket_drop ≡ t.stat_bucket_drop) × (t'.stat_random_drop ≡ t.stat_random_drop)
    pub room : t.bucket_max ≢ 0 → to_pattern t'.bucket_cur < t.bucket_max

  -- A packet that is dropped: time and clocks stay, and one of the drops is counted.
  pub record Drops (t : Detune R) (ms : ℕ) (t' : Detune R) (ms' : ℕ) : Type 0 where
    pub time : ms' ≡ ms
    pub stays : (t'.last_real_ms ≡ t.last_real_ms) × (t'.last_delayed_ms ≡ t.last_delayed_ms)
    pub counted :
        ((t'.stat_bucket_drop ≡ add64 t.stat_bucket_drop 1)
          × (t'.stat_random_drop ≡ t.stat_random_drop))
        ⊎ ((t'.stat_bucket_drop ≡ t.stat_bucket_drop)
            × (t'.stat_random_drop ≡ add64 t.stat_random_drop 1))

  abbrev pub Settles : Detune R → ℕ → Detune R × ℕ × Bool → Type 0
  Settles t ms r = if r.2 then Passes t ms r.0 r.1 else Drops t ms r.0 r.1

  -- The fields that the outcome is about.
  abbrev Agree : Detune R → Detune R → Type 0
  Agree s t =
      (s.last_delayed_ms ≡ t.last_delayed_ms)
      × (s.stat_bucket_drop ≡ t.stat_bucket_drop)
      × (s.stat_random_drop ≡ t.stat_random_drop)
      × (s.bucket_max ≡ t.bucket_max)

  Passes-transfer :
      (s t : Detune R) (ms : ℕ)
      → Agree s t
      → (t' : Detune R) (ms' : ℕ) → Passes s ms t' ms'
      → Passes t ms t' ms'
  Passes-transfer s t ms e t' ms' p = record {
    real_clock = p.real_clock;
    delayed_clock = p.delayed_clock;
    order = omega (arith, p.order, e.0);
    drops = (p.drops.0 ∙ e.1, p.drops.1 ∙ e.2);
    room = λ h. omega (arith, p.room (λ z. h (sym e.3 ∙ z)), e.3);
  }

  roll_delay_lem :
      (t : Detune R) (bits : ℕ)
      → ((roll_delay t bits).last_delayed_ms ≡ t.last_delayed_ms)
        × ((roll_delay t bits).stat_bucket_drop ≡ t.stat_bucket_drop)
        × ((roll_delay t bits).stat_random_drop ≡ t.stat_random_drop)
        × ((roll_delay t bits).bucket_cur ≡ t.bucket_cur)
  unfolding roll_delay
  roll_delay_lem t bits = elim (Bool-cases (nonzero t.delay_max)) [
    | inl e ↦ rw e (refl, refl, refl, refl)
    | inr e ↦ rw e (refl, refl, refl, refl)
  ]

  delayed_le : (t : Detune R) (ms b r : ℕ) → t.last_delayed_ms ≤ delayed double tests t ms b r
  delayed_le t ms b r =
      elim (Bool-cases (ltb (add64 ms (if ltb r b then b else r)) t.last_delayed_ms)) [
        | inl e ↦ rw e (omega arith)
        | inr e ↦ rw e (ground arith)
      ]

  delay_packet-Passes :
      (t : Detune R) (ms bits : ℕ)
      → (t.bucket_max ≢ 0 → to_pattern t.bucket_cur < t.bucket_max)
      → Passes t ms (delay_packet double tests t ms bits).0 (delay_packet double tests t ms bits).1
  unfolding delay_packet
  delay_packet-Passes t ms bits room =
      let rolled = roll_delay t bits in
      let same = roll_delay_lem t bits in
      let full : t.bucket_max ≢ 0 → to_pattern rolled.bucket_cur < t.bucket_max =
        λ h. subst (λ z. to_pattern z < t.bucket_max) (sym same.3) (room h) in
      elim (Bool-cases (nonzero (bucket_delay_ms t) || nonzero (random_delay_ms rolled))) [
        | inl e ↦ rw e record {
          real_clock = refl;
          delayed_clock = refl;
          order = inr (
              omega
                (arith, same.0, delayed_le rolled ms (bucket_delay_ms t) (random_delay_ms rolled)));
          drops = (same.1, same.2);
          room = full;
        }
        | inr e ↦ rw e record {
          real_clock = refl;
          delayed_clock = refl;
          order = inl refl;
          drops = (same.1, same.2);
          room = full;
        }
      ]

  roll_die-Settles :
      (t : Detune R) (ms die bits : ℕ)
      → (t.bucket_max ≢ 0 → to_pattern t.bucket_cur < t.bucket_max)
      → Settles t ms (roll_die double tests t ms die bits)
  unfolding roll_die
  roll_die-Settles t ms die bits room =
      let rolled = record t { drop_die = lin_smooth_add t.drop_die (pos die) } in
      elim (Bool-cases (tests.is_nonzero t.drop_p)) [
        | inr off ↦ rw off (delay_packet-Passes t ms bits room)
        | inl on ↦ elim (Bool-cases (dropped_by_die double tests rolled)) [
          | inl hit ↦
              rw (on, hit) record { time = refl; stays = (refl, refl); counted = inr (refl, refl) }
          | inr miss ↦
              rw (on, miss)
                (Passes-transfer rolled t ms (refl, refl, refl, refl) _ _
                  (delay_packet-Passes rolled ms bits room))
        ]
      ]

  drain_lem :
      (t : Detune R) (ms : ℕ) → Agree (drain t ms) t × ((drain t ms).last_real_ms ≡ t.last_real_ms)
  unfolding drain
  drain_lem t ms =
      elim (Bool-cases
        (nonzero t.last_real_ms && not (is_zero t.bucket_cur) && ltb t.last_real_ms ms)) [
          | inl e ↦ rw e ((refl, refl, refl, refl), refl)
          | inr e ↦ rw e ((refl, refl, refl, refl), refl)
        ]

  fill_lem :
      (t : Detune R) (ms oct : ℕ)
      → Agree (fill (drain t ms) oct) t × ((fill (drain t ms) oct).last_real_ms ≡ t.last_real_ms)
  unfolding fill
  fill_lem t ms oct = drain_lem t ms

  Settles-transfer :
      (s t : Detune R) (ms : ℕ)
      → Agree s t
      → s.last_real_ms ≡ t.last_real_ms
      → (r : Detune R × ℕ × Bool) → Settles s ms r
      → Settles t ms r
  Settles-transfer s t ms e c (t', ms', true) p = Passes-transfer s t ms e t' ms' p
  Settles-transfer s t ms e c (t', ms', false) p = record {
    time = p.time;
    stays = (p.stays.0 ∙ c, p.stays.1 ∙ e.0);
    counted = ground (arith, p.counted, e);
  }

  -- A packet either passes or is dropped. One that passes sets the clocks to its time before and after
  -- the delay, a time that was changed does not lie before the last delayed one, no drop is counted, and
  -- a bucket with a maximum is left below it. A dropped packet keeps its time, the clocks stay, and just
  -- one of the two kinds of drop is counted, in 64 bits.
  pub detune_packet-Settles :
      (t : Detune R) (ms oct die bits : ℕ)
      → Settles t ms (detune_packet double tests t ms oct die bits)
  unfolding detune_packet tail_drop
  detune_packet-Settles t ms oct die bits =
      let filled = fill (drain t ms) oct in
      let same = fill_lem t ms oct in
      elim (Bool-cases (nonzero t.bucket_max)) [
        | inr off ↦ rw off (roll_die-Settles t ms die bits (λ h. absurd (ground arith)))
        | inl on ↦ elim (Bool-cases (overflows filled)) [
          | inl full ↦
              rw (on, full)
                record {
                  time = refl;
                  stays = (same.1, same.0.0);
                  counted = inl (ap (λ (n : ℕ). add64 n 1) same.0.1, same.0.2);
                }
          | inr room ↦
              rw (on, room)
                (Settles-transfer filled t ms same.0 same.1 _
                  (roll_die-Settles filled ms die bits (λ h. ground arith)))
        ]
      ]
