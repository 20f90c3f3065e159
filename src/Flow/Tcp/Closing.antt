-- ===== src/Flow/Tcp/Closing.antt =====
-- The closing handshake in the flow state of src/yaftab.c, bit by bit.
use native.Mathlib.Decide.{ℕ_discrete}
use qof.Base.{
  Bool, arith, bit_or, false, if◌then◌else◌, max, min, refl, suc, true, zero, ℕ, ◌&&◌, ◌/◌, ◌<◌,
  ◌≡◌, ◌≤◌,
}
use qof.Base.Bits.{bit_and-pow2, bit_at, bit_at-bit_or, pow2}
use qof.Base.Word.{has_bits}
use qof.Flow.Tcp.{fin_state, tcp_state}
use qof.Rtt.{tf_ack, tf_fin, tf_rst}
use qof.Flow.Record.{state_rst}

bit_at_bound : (k a : ℕ) → bit_at k a ≤ 1
bit_at_bound zero a = omega arith
bit_at_bound (suc k) a = bit_at_bound k (a / 2)

pow2_positive : (k : ℕ) → 0 < pow2 k
pow2_positive zero = omega arith
pow2_positive (suc k) = omega (arith, pow2_positive k)

-- A bit as a number, shut, so that the proofs below take it for an atom.
pub digit : (k a : ℕ) → ℕ
digit k a = bit_at k a

truth : Bool → ℕ
truth b = if b then 1 else 0

-- A one-bit mask tests that bit.
truth-has_bits : (k a : ℕ) → truth (has_bits a (pow2 k)) ≡ digit k a
unfolding truth digit
truth-has_bits k a = elim (ℕ_discrete (bit_at k a) 0) [
  | yes e ↦ rw (bit_and-pow2 k a, e) (ground arith)
  | no ne ↦
      let one : bit_at k a ≡ 1 = omega (arith, bit_at_bound k a) in
      rw (bit_and-pow2 k a, one) (ground (arith, pow2_positive k))
]

truth-both : (a b : Bool) → truth (a && b) ≡ min (truth a) (truth b)
unfolding truth
truth-both a b = ground arith

-- A mask set under a test.
or_if : Bool → (m x : ℕ) → ℕ
or_if b m x = if b then bit_or x m else x

digit-or_if :
    (b : Bool) (k m x : ℕ) → digit k (or_if b m x) ≡ max (digit k x) (min (truth b) (bit_at k m))
unfolding or_if truth digit
digit-or_if true k m x = omega (arith, bit_at-bit_or k x m, bit_at_bound k m)
digit-or_if false k m x = omega arith

digit_bound : (k a : ℕ) → digit k a ≤ 1
unfolding digit
digit_bound k a = bit_at_bound k a

-- The three updates of the state, for the bits `f`, `o` and `a` of a side.
module _ (f o a flags state : ℕ) where
  closing : ℕ
  closing = or_if (has_bits flags tf_fin) (pow2 f) state

  answered : ℕ
  answered = or_if (has_bits closing (pow2 o) && has_bits flags tf_ack) (pow2 a) closing

  after : ℕ
  after = or_if (has_bits flags tf_rst) state_rst answered

  digit-closing :
      (k : ℕ) → digit k closing ≡ max (digit k state) (min (digit 0 flags) (bit_at k (pow2 f)))
  unfolding closing
  digit-closing k =
      rw (digit-or_if (has_bits flags tf_fin) k (pow2 f) state, truth-has_bits 0 flags) refl

  digit-answered :
      (k : ℕ)
      → digit k answered
        ≡ max (digit k closing) (min (min (digit o closing) (digit 4 flags)) (bit_at k (pow2 a)))
  unfolding answered
  digit-answered k =
      rw
        (
          digit-or_if (has_bits closing (pow2 o) && has_bits flags tf_ack) k (pow2 a) closing,
          truth-both (has_bits closing (pow2 o)) (has_bits flags tf_ack),
          truth-has_bits o closing,
          truth-has_bits 4 flags,
        )
        refl

  digit-after : (k : ℕ) → digit k after ≡ max (digit k answered) (min (digit 2 flags) (bit_at k 1))
  unfolding after
  digit-after k =
      rw (digit-or_if (has_bits flags tf_rst) k state_rst answered, truth-has_bits 2 flags) refl

  after_bit :
      (k : ℕ)
      → digit k after
        ≡ max
            (max (max (digit k state) (min (digit 0 flags) (bit_at k (pow2 f)))) (
              min
                (min
                  (max (digit o state) (min (digit 0 flags) (bit_at o (pow2 f))))
                  (digit 4 flags))
                (bit_at k (pow2 a))))
            (min (digit 2 flags) (bit_at k 1))
  after_bit k = rw (digit-after k, digit-answered k, digit-closing k, digit-closing o) refl

after-tcp_state :
    (flags state : ℕ)
    → (tcp_state false flags state ≡ after 4 5 6 flags state)
      × (tcp_state true flags state ≡ after 5 4 7 flags state)
unfolding after answered closing or_if tcp_state fin_state
after-tcp_state flags state = (refl, refl)

-- What `yfFlowPktTCP` makes of the bits of a flow's state: a packet sets the FIN bit of its side if it
-- has the flag FIN, the acknowledgment bit of its side if the other side's FIN bit is set and it has
-- the flag ACK, and the reset bit if it has the flag RST; no bit is ever cleared, and the bits of the
-- other side do not change.
pub digit-tcp_state :
    (flags state : ℕ)
    → let s = tcp_state false flags state in
      let r = tcp_state true flags state in
      (digit 0 s ≡ max (digit 0 state) (digit 2 flags))
      × (digit 4 s ≡ max (digit 4 state) (digit 0 flags))
      × (digit 5 s ≡ digit 5 state)
      × (digit 6 s ≡ max (digit 6 state) (min (digit 5 state) (digit 4 flags)))
      × (digit 7 s ≡ digit 7 state)
      × (digit 0 r ≡ max (digit 0 state) (digit 2 flags))
      × (digit 4 r ≡ digit 4 state)
      × (digit 5 r ≡ max (digit 5 state) (digit 0 flags))
      × (digit 6 r ≡ digit 6 state)
      × (digit 7 r ≡ max (digit 7 state) (min (digit 4 state) (digit 4 flags)))
digit-tcp_state flags state =
    let ff = digit_bound 0 flags in
    let fs = digit_bound 2 flags in
    let fa = digit_bound 4 flags in
    rw (after-tcp_state flags state).0 (
      rw (after-tcp_state flags state).1 (
        omega (arith, after_bit 4 5 6 flags state 0, ff, fs, fa),
        omega (arith, after_bit 4 5 6 flags state 4, ff, fs, fa),
        omega (arith, after_bit 4 5 6 flags state 5, ff, fs, fa),
        omega (arith, after_bit 4 5 6 flags state 6, ff, fs, fa),
        omega (arith, after_bit 4 5 6 flags state 7, ff, fs, fa),
        omega (arith, after_bit 5 4 7 flags state 0, ff, fs, fa),
        omega (arith, after_bit 5 4 7 flags state 4, ff, fs, fa),
        omega (arith, after_bit 5 4 7 flags state 5, ff, fs, fa),
        omega (arith, after_bit 5 4 7 flags state 6, ff, fs, fa),
        omega (arith, after_bit 5 4 7 flags state 7, ff, fs, fa),
      ))
