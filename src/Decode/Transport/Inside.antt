-- ===== src/Decode/Transport/Inside.antt =====
-- Layer 4 decoding in src/decode.c: what it reads, and that it ends.
use qof.Base.{
  List, arith, length, ltb, refl, suc, zero, ℕ, ◌&&◌, ◌+◌, ◌-◌, ◌<◌, ◌==◌, ◌||◌, ◌∙◌, ◌≡◌, ◌≤◌,
}
use qof.Packet.{TcpInfo}
use qof.Decode.Run.{Decoding, Run, ok}
use qof.Decode.Safe.{
  IsSafe, after_read, after_run, byte-Yields, either_way, long_enough, safe_null, safe_ok,
  word16-Yields, word32-Yields,
}
use qof.Decode.Transport.{tcp_option, tcp_options}

-- The state after the options: behind them, and with the same count of captured bytes.
pub record Skipped (n : ℕ) (s t : Decoding) : Type 0 where
  pub moved : t.pkt ≡ s.pkt + n
  pub same : t.caplen ≡ s.caplen

module _ (mem : List ℕ) where
  tcp_option-Skipped :
      (kind len left : ℕ) (s : Decoding)
      → 2 ≤ len
      → len ≤ left
      → s.pkt + left < length mem
      → IsSafe (Skipped 0 s) (tcp_option mem kind len left s)
  unfolding tcp_option
  tcp_option-Skipped kind len left s h k inside =
      either_way (kind == 2) _ _
        (λ e.
          either_way (ltb len 4 || ltb left len) _ _ (λ f. safe_null _)
            (λ f. after_read _ _ (word16-Yields mem (s.pkt + 2) (ground arith)) (λ v. stay)))
        (λ e2.
          either_way (kind == 3) _ _
            (λ e.
              either_way (ltb len 3 && ltb left len) _ _ (λ f. safe_null _)
                (λ f. after_read _ _ (byte-Yields mem (s.pkt + 2) (omega arith)) (λ v. stay)))
            (λ e3.
              either_way (kind == 8) _ _
                (λ e.
                  either_way (ltb len 10 || ltb left len) _ _ (λ f. safe_null _)
                    (λ f. after_read _ _ (word32-Yields mem (s.pkt + 2) (ground arith)) (λ v.
                      after_read _ _ (word32-Yields mem (s.pkt + 6) (ground arith)) (λ w. stay))))
                (λ e8.
                  either_way (kind == 5) _ _
                    (λ e.
                      either_way (ltb len 10 || ltb left len) _ _ (λ f. safe_null _)
                        (λ f.
                          after_read _ _ (word32-Yields mem (s.pkt + len - 4) (ground arith))
                            (λ v. stay)))
                    (λ e5. stay))))
    where
      stay : {i : TcpInfo} → IsSafe (Skipped 0 s) (ok (record s { tcpinfo = i }))
      stay = safe_ok (record { moved = omega arith; same = refl })

-- One position on, and the rest of the options.
Skipped-add :
    {n m k : ℕ} {s t u : Decoding} → n + m ≡ k → Skipped n s t → Skipped m t u → Skipped k s u
Skipped-add e v w = record { moved = omega (arith, v.moved, w.moved); same = w.same ∙ v.same }

then_Skipped :
    {n m k : ℕ} {s t : Decoding} (r : Run Decoding)
    → n + m ≡ k
    → Skipped n s t
    → IsSafe (Skipped m t) r
    → IsSafe (Skipped k s) r
then_Skipped r e v (safe_null u) = safe_null u
then_Skipped r e v (safe_ok w) = safe_ok (Skipped-add e v w)

module _ (mem : List ℕ) where
  pub tcp_options-Skipped :
      (fuel left : ℕ) (s : Decoding)
      → left < fuel
      → s.pkt + left < length mem
      → IsSafe (Skipped left s) (tcp_options mem fuel left s)
  unfolding tcp_options
  tcp_options-Skipped zero left s h inside = absurd (omega arith)
  tcp_options-Skipped (suc fuel) left s h inside =
      either_way (left == 0) _ _ (λ e. safe_ok (record { moved = ground arith; same = refl }))
        (λ e. after_read _ _ (byte-Yields mem s.pkt (omega arith)) (λ kind.
          either_way (kind == 0) _ _ (λ f. safe_ok (record { moved = refl; same = refl }))
            (λ f.
              either_way (kind == 1) _ _
                (λ g.
                  then_Skipped {n = 1} {m = left - 1} _ (ground arith)
                    (record { moved = refl; same = refl })
                    (tcp_options-Skipped fuel (left - 1) (record s { pkt = s.pkt + 1 })
                      (ground arith) (ground arith)))
                (λ g. long_enough left 2 _ _ (λ two.
                  after_read _ _ (byte-Yields mem (s.pkt + 1) (omega arith)) (λ len.
                    either_way (ltb len 2 || ltb left len) _ _ (λ e3. safe_null _)
                      (λ e3.
                        after_run _ _
                          (tcp_option-Skipped mem kind len left s (ground arith) (ground arith)
                            inside)
                          (λ t stayed.
                            then_Skipped {n = len} {m = left - len} _ (ground arith)
                              (record { moved = omega (arith, stayed.moved); same = stayed.same })
                              (tcp_options-Skipped fuel (left - len)
                                (record t { pkt = t.pkt + len }) (ground arith)
                                (ground (arith, stayed.moved)))))))))))
