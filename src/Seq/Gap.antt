-- ===== src/Seq/Gap.antt =====
-- The gap stack of src/qofseq.c: an array of `QF_SEQGAP_CT` gaps, the highest first, of which the
-- first empty one ends those in use.
use qof.Base.{Bool, List, [], drop, get_or, not, take, ℕ, ◌++◌, ◌+◌, ◌-◌, ◌||◌, ◌∷◌}
use qof.Base.Word.{nonzero, sub32}

-- `qfSeqGap_t`
pub record Gap : Type 0 where
  pub a : ℕ
  pub b : ℕ

abbrev pub gap : ℕ → ℕ → Gap
gap x y = record { a = x; b = y }

abbrev pub no_gap : Gap
no_gap = gap 0 0

abbrev pub seqgap_ct : ℕ
seqgap_ct = 8

-- A read outside the array gives the empty gap; no function reads there.
abbrev pub gap_at : List Gap → ℕ → Gap
gap_at gaps i = get_or gaps i no_gap

unfoldable pub gap_empty : Gap → Bool
gap_empty g = not (nonzero g.a || nonzero g.b)

-- The `memmove` brings in one gap from behind the array, which the two writes then clear.
unfoldable pub gap_shift : List Gap → ℕ → List Gap
gap_shift gaps i = take i gaps ++ drop (i + 1) gaps ++ (no_gap ∷ [])

-- The octets of the gap that falls off the end, and the array with gap `i` doubled.
unfoldable pub gap_unshift : List Gap → ℕ → ℕ × List Gap
gap_unshift gaps i =
    let lost = sub32 (gap_at gaps (seqgap_ct - 1)).b (gap_at gaps (seqgap_ct - 1)).a in
    (lost, take (i + 1) gaps ++ take (seqgap_ct - i - 1) (drop i gaps))
