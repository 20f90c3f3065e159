-- ===== src/Export/Elements.antt =====
-- `yfWriterExportIE` of src/yafcore.c: the choice of the elements to export.
use text.Mathlib.Text.{◌==◌ as same_text}
use Prim.Native.String.{String}
use qof.Base.{
  Bool, Bool-cases, List, [], append_assoc, append_nil, arith, false, if◌then◌else◌, inl, inr, leb,
  length, length-append, length-take, ltb, refl, suc, take, take_nil, true, ℕ, ◌++◌, ◌-◌, ◌||◌, ◌∙◌,
  ◌∷◌, ◌≡◌, ◌≤◌,
}
use qof.Base.Word.{nonzero}
use qof.Export.Spec.{Spec, internal_spec}

abbrev pub export_spec_sz : ℕ
export_spec_sz = 96

-- The filled part of `qof_export_spec`; its length is `qof_export_spec_count`.
abbrev pub ExportSpec : Type 0
ExportSpec = List Spec

abbrev pub export_reset : ExportSpec
export_reset = []

-- The loop over the internal template, which ends where the export template is full.
unfoldable pub copy_matches : String → List Spec → ExportSpec → Bool → ExportSpec × Bool
copy_matches name [] chosen rv = (chosen, rv)
copy_matches name (s ∷ specs) chosen rv =
    let hit = same_text s.name name in
    let rest = copy_matches name specs (if hit then chosen ++ (s ∷ []) else chosen) (hit || rv) in
    if ltb (length chosen) (export_spec_sz - 1) then rest else (chosen, rv)

unfoldable pub export_ie : ExportSpec → String → ExportSpec × Bool
export_ie chosen name =
    if leb (export_spec_sz - 1) (length chosen)
    then (chosen, false)
    else copy_matches name internal_spec chosen false

unfoldable pub export_ie_count : ExportSpec → ℕ
export_ie_count chosen = length chosen

-- The template that a session is given where none was chosen, or the chosen one.
unfoldable pub export_template : ExportSpec → List Spec
export_template chosen = if nonzero (export_ie_count chosen) then chosen else internal_spec

abbrev pub matching : String → List Spec → List Spec
matching name [] = []
matching name (s ∷ specs) =
    if same_text s.name name then s ∷ matching name specs else matching name specs

-- What is left of the export template.
abbrev pub room : ExportSpec → ℕ
room chosen = 95 - length chosen

abbrev pub any_left : List Spec → Bool
any_left [] = false
any_left (s ∷ specs) = true

or_true : (b : Bool) → (b || true) ≡ true
or_true true = refl
or_true false = refl

or_false : (b : Bool) → (b || false) ≡ b
or_false true = refl
or_false false = refl

take_fits :
    (chosen specs : ExportSpec)
    → length chosen ≤ 95
    → length (chosen ++ take (room chosen) specs) ≤ 95
take_fits chosen specs h =
    omega (arith, length-append chosen (take (room chosen) specs), length-take (room chosen) specs)

copy_matches-matching :
    (name : String) (specs : List Spec) (chosen : ExportSpec) (rv : Bool)
    → copy_matches name specs chosen rv ≡ (
      chosen ++ take (room chosen) (matching name specs),
      any_left (take (room chosen) (matching name specs)) || rv,
    )
unfolding copy_matches
copy_matches-matching name [] chosen rv =
    rw (take_nil {A = Spec} (room chosen), append_nil chosen) refl
copy_matches-matching name (s ∷ specs) chosen rv = elim (Bool-cases (ltb (length chosen) 95)) [
  | inr full ↦
      let none_left : room chosen ≡ 0 = ground arith in rw (full, none_left, append_nil chosen) refl
  | inl free ↦ elim (Bool-cases (same_text s.name name)) [
    | inr other ↦ rw (free, other) (copy_matches-matching name specs chosen rv)
    | inl same ↦
        let one_less : room chosen ≡ suc (room (chosen ++ (s ∷ []))) =
          ground (arith, length-append chosen (s ∷ [])) in
        rw (free, same, one_less)
          (copy_matches-matching name specs (chosen ++ (s ∷ [])) true
            ∙ rw
                (
                  append_assoc chosen (s ∷ [])
                      (take (room (chosen ++ (s ∷ []))) (matching name specs)),
                  or_true (any_left (take (room (chosen ++ (s ∷ []))) (matching name specs))),
                )
                refl)
  ]
]

-- Asking for an element appends the entries of the internal template with its name, those that
-- there is room for: the chosen template never holds more than 95 entries, so that its last place
-- stays empty. It succeeds exactly when it appends an entry.
pub export_ie-matching :
    (chosen : ExportSpec) (name : String)
    → length chosen ≤ 95
    → (export_ie chosen name ≡ (
      chosen ++ take (room chosen) (matching name internal_spec),
      any_left (take (room chosen) (matching name internal_spec)),
    ))
      × (length (export_ie chosen name).0 ≤ 95)
unfolding export_ie
export_ie-matching chosen name h =
    let fits = take_fits chosen (matching name internal_spec) h in
    elim (Bool-cases (leb 95 (length chosen))) [
      | inl full ↦
          let none_left : room chosen ≡ 0 = ground arith in
          rw (full, none_left, append_nil chosen) (refl, h)
      | inr free ↦
          rw
            (
              free,
              copy_matches-matching name internal_spec chosen false,
              or_false (any_left (take (room chosen) (matching name internal_spec))),
            )
            (refl, fits)
    ]
