-- ===== src/Decode/Link/Inside.antt =====
-- Layer 2 decoding in src/decode.c stays inside the captured bytes and ends.
use qof.Packet.Ether
use qof.Base.{
  List, Option, [], arith, if◌then◌else◌, length, ltb, none, refl, some, suc, zero, ℕ, ◌%◌, ◌++◌,
  ◌+◌, ◌/◌, ◌<◌, ◌==◌, ◌^◌, ◌||◌, ◌∷◌, ◌≡◌, ◌≤◌,
}
use qof.Base.Word.{nonzero}
use qof.Decode.Run.{Decoding, Run, advance, null, ok, ◌>>=◌}
use qof.Decode.Safe.{
  IsSafe, after_read, after_run, byte-Yields, either_way, long_enough, safe_null, safe_ok,
  word16-Yields, word32-Yields,
}
use qof.Decode.Link.{
  decode_l2_ppp, decode_l2_shim, ip_version_to_type, ppp_ether, shim_mpls, shim_pppoe, shim_vlan,
}

-- The bytes from the read position on are captured, and counted without wrap-around.
pub record Inside (mem : List ℕ) (s : Decoding) : Type 0 where
  pub captured : s.pkt + s.caplen ≤ length mem
  pub counted : s.caplen < 2 ^ 64

-- At least `k` bytes of `whole` are taken, and the end stays where it was.
pub record Taken (k whole stop : ℕ) (s : Decoding) : Type 0 where
  pub stop_kept : s.pkt + s.caplen ≡ stop
  pub left : s.caplen + k ≤ whole

pub advance-Taken :
    (k : ℕ) (s : Decoding)
    → s.caplen < 2 ^ 64
    → k ≤ s.caplen
    → Taken k s.caplen (s.pkt + s.caplen) (advance k s)
advance-Taken k s b h = record { stop_kept = omega arith; left = omega arith }

module _ (mem : List ℕ) (s : Decoding) (inside : Inside mem s) where
  pub ip_version_to_type-Inside :
      IsSafe (Taken 0 s.caplen (s.pkt + s.caplen)) (ip_version_to_type mem s)
  unfolding ip_version_to_type
  ip_version_to_type-Inside = long_enough s.caplen 1 s _ (λ e.
      after_read _ _ (byte-Yields mem s.pkt (omega (arith, inside.captured))) (λ b.
        either_way (b / 16 == 4) _ _
          (λ f. safe_ok (record { stop_kept = refl; left = omega arith }))
          (λ f.
            either_way (b / 16 == 6) _ _
              (λ g. safe_ok (record { stop_kept = refl; left = omega arith })) (λ g. safe_null _))))

  shim_vlan-Inside : IsSafe (Taken 4 s.caplen (s.pkt + s.caplen)) (shim_vlan mem s)
  unfolding shim_vlan
  shim_vlan-Inside = long_enough s.caplen 4 _ _ (λ e.
      after_read _ _ (word16-Yields mem (s.pkt + 2) (omega (arith, inside.captured))) (λ type'.
        after_read _ _ (word16-Yields mem s.pkt (omega (arith, inside.captured)))
          (λ tag. safe_ok (advance-Taken 4 _ inside.counted e))))

pub Taken-Inside :
    {mem : List ℕ} {s : Decoding} {k : ℕ} {t : Decoding}
    → Inside mem s
    → Taken k s.caplen (s.pkt + s.caplen) t
    → Inside mem t
Taken-Inside inside taken = record {
  captured = omega (arith, taken.stop_kept, inside.captured);
  counted = omega (arith, taken.left, inside.counted);
}

pub weaken :
    {k k' whole whole' stop stop' : ℕ} (r : Run Decoding)
    → k' + whole ≤ k + whole'
    → stop ≡ stop'
    → IsSafe (Taken k whole stop) r
    → IsSafe (Taken k' whole' stop') r
weaken r h e (safe_null s) = safe_null s
weaken r h e (safe_ok taken) =
    safe_ok
      (record { stop_kept = omega (arith, taken.stop_kept); left = omega (arith, taken.left) })

module _ (mem : List ℕ) (s : Decoding) (inside : Inside mem s) where
  pub decode_l2_ppp-Inside : IsSafe (Taken 2 s.caplen (s.pkt + s.caplen)) (decode_l2_ppp mem s)
  unfolding decode_l2_ppp
  decode_l2_ppp-Inside = long_enough s.caplen 2 _ _ (λ e.
      after_read _ _ (word16-Yields mem s.pkt (omega (arith, inside.captured)))
        (λ t. known e t (ppp_ether t)))
    where
      known :
          2 ≤ s.caplen
          → (t : ℕ) (o : Option ℕ)
          → IsSafe
              (Taken 2 s.caplen (s.pkt + s.caplen))
              (elim o [ none ↦ null s | some type' ↦ ok (record (advance 2 s) { type = type' }) ])
      known e t none = safe_null _
      known e t (some type') = safe_ok (record {
        stop_kept = omega (arith, inside.counted);
        left = omega (arith, inside.counted);
      })

  shim_mpls-Inside : IsSafe (Taken 4 s.caplen (s.pkt + s.caplen)) (shim_mpls mem s)
  unfolding shim_mpls
  shim_mpls-Inside = long_enough s.caplen 4 _ _ (λ e.
      after_read _ _ (word32-Yields mem s.pkt (omega (arith, inside.captured))) (λ entry.
        let labels = s.l2info.mpls_label in
        let labels' = if ltb (length labels) 10 then labels ++ (entry / 2 ^ 12 ∷ []) else labels in
        let s' = advance 4 (record s { l2info = record (s.l2info) { mpls_label = labels' } }) in
        let taken : Taken 4 s.caplen (s.pkt + s.caplen) s' = advance-Taken 4 _ inside.counted e in
        either_way (nonzero (entry / 2 ^ 8 % 2)) _ _
          (λ f.
            weaken _ (omega (arith, taken.left)) taken.stop_kept
              (ip_version_to_type-Inside mem s' (Taken-Inside inside taken)))
          (λ f. safe_ok taken)))

module _ (mem : List ℕ) (s : Decoding) (inside : Inside mem s) where
  shim_pppoe-Inside : IsSafe (Taken 6 s.caplen (s.pkt + s.caplen)) (shim_pppoe mem s)
  unfolding shim_pppoe
  shim_pppoe-Inside = long_enough s.caplen 6 _ _ (λ e.
      let taken : Taken 6 s.caplen (s.pkt + s.caplen) (advance 6 s) =
        advance-Taken 6 _ inside.counted e in
      weaken _ (omega (arith, taken.left)) taken.stop_kept
        (decode_l2_ppp-Inside mem (advance 6 s) (Taken-Inside inside taken)))

on :
    (k : ℕ) (mem : List ℕ) (fuel : ℕ) (s : Decoding)
    → Inside mem s
    → s.caplen ≤ fuel
    → ((t : Decoding)
        → t.caplen < fuel
        → Inside mem t
        → IsSafe (Taken 0 t.caplen (t.pkt + t.caplen)) (decode_l2_shim mem fuel t))
    → (r : Run Decoding) → IsSafe (Taken (suc k) s.caplen (s.pkt + s.caplen)) r
    → IsSafe (Taken 0 s.caplen (s.pkt + s.caplen)) (r >>= decode_l2_shim mem fuel)
on k mem fuel s inside h next r safe = after_run r (decode_l2_shim mem fuel) safe (λ t taken.
    weaken _ (omega (arith, taken.left)) taken.stop_kept
      (next t (omega (arith, taken.left)) (Taken-Inside inside taken)))

pub shims-Inside :
    (mem : List ℕ) (fuel : ℕ) (s : Decoding)
    → Inside mem s
    → s.caplen < fuel
    → IsSafe (Taken 0 s.caplen (s.pkt + s.caplen)) (decode_l2_shim mem fuel s)
unfolding decode_l2_shim
shims-Inside mem zero s inside h = absurd (omega arith)
shims-Inside mem (suc fuel) s inside h =
    either_way (s.type == Ether.vlan) _ _
      (λ e.
        on 3 mem fuel s inside (omega arith) (λ t h t_inside. shims-Inside mem fuel t t_inside h)
          (shim_vlan mem s) (shim_vlan-Inside mem s inside))
      (λ e.
        either_way ((s.type == Ether.mpls) || (s.type == Ether.mplsm)) _ _
          (λ f.
            on 3 mem fuel s inside (omega arith)
              (λ t h t_inside. shims-Inside mem fuel t t_inside h) (shim_mpls mem s)
              (shim_mpls-Inside mem s inside))
          (λ f.
            either_way (s.type == Ether.pppoe) _ _
              (λ g.
                on 5 mem fuel s inside (omega arith)
                  (λ t h t_inside. shims-Inside mem fuel t t_inside h) (shim_pppoe mem s)
                  (shim_pppoe-Inside mem s inside))
              (λ g. safe_ok (record { stop_kept = refl; left = omega arith }))))
