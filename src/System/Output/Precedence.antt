-- ===== src/System/Output/Precedence.antt =====
-- huginn/src/main.rs: who decides the output format.
use huginn_io.Core.Config.{LogFormat, pretty, json}
use huginn_io.Prelude.{
  ◌+◌, ◌≤◌, ◌≡◌, ◌↔◌, ◌⊎◌, inl, inr, refl, true, List, [], ◌∷◌, ◌++◌, map, Option, none, some,
  arith, All, Text, codes, Bool-cases, text_eq,
}
use huginn_io.System.Output.{
  to_ascii_lowercase, eq_ignore_ascii_case, is_json, resolve_output_format, unknown_format,
}

-- The text is this lower-case word, in letters of either case.
abbrev pub Spells : Text → Text → Type 0
Spells [] [] = Unit
Spells (c ∷ s) (w ∷ word) = ((c ≡ w) ⊎ (c + 32 ≡ w)) × Spells s word
Spells _ _ = ⊥

abbrev IsLower : Text → Type 0
IsLower = All (λ w. (b'a' ≤ w) × (w ≤ b'z'))

lowered_iff :
    (s word : Text)
    → IsLower word
    → (text_eq (map to_ascii_lowercase s) (map to_ascii_lowercase word) ≡ true) ↔ Spells s word
unfolding text_eq to_ascii_lowercase
lowered_iff [] [] h = ground arith
lowered_iff [] (w ∷ word) h = ground arith
lowered_iff (c ∷ s) [] h = ground arith
lowered_iff (c ∷ s) (w ∷ word) h = ground (arith, lowered_iff s word h.1)

eq_ignore_ascii_case_iff :
    (s word : Text) → IsLower word → (eq_ignore_ascii_case s word ≡ true) ↔ Spells s word
unfolding eq_ignore_ascii_case
eq_ignore_ascii_case_iff s word h = lowered_iff s word h

-- JSON is asked for: on the command line, or in the file if the command line does not say pretty.
abbrev pub AsksJson : Option Text → LogFormat → Type 0
AsksJson none cfg = cfg ≡ json
AsksJson (some s) cfg = Spells s (codes "json") ⊎ ((¬ Spells s (codes "pretty")) × (cfg ≡ json))

-- What the command line says is none of the formats.
abbrev pub IsUnknown : Option Text → Type 0
IsUnknown none = ⊥
IsUnknown (some s) = (¬ Spells s (codes "json")) × (¬ Spells s (codes "pretty"))

is_json_iff : (f : LogFormat) → (is_json f ≡ true) ↔ (f ≡ json)
unfolding is_json
is_json_iff pretty = ground arith
is_json_iff json = ground arith

-- The output is JSON exactly if the command line spells json, in whatever case, or the file says
-- json and the command line does not spell pretty; and one warning is added, behind those that were
-- there, exactly if the command line spells neither.
pub resolve_output_format_lem :
    (cli : Option Text) (cfg : LogFormat) (warnings : List Text)
    → let r = resolve_output_format cli cfg warnings in
      ((r.0 ≡ true) ↔ AsksJson cli cfg)
      × ((r.1 ≡ warnings × ¬ IsUnknown cli)
          ⊎ ((warning : Text) × (r.1 ≡ warnings ++ warning ∷ []) × IsUnknown cli))
unfolding resolve_output_format unknown_format
resolve_output_format_lem none cfg warnings = (is_json_iff cfg, inl (refl, λ h. absurd h))
resolve_output_format_lem (some s) cfg warnings =
    let j = eq_ignore_ascii_case_iff s (codes "json") (ground arith) in
    let q = eq_ignore_ascii_case_iff s (codes "pretty") (ground arith) in
    elim (Bool-cases (eq_ignore_ascii_case s (codes "json"))) [
      | inl hit ↦ rw hit ((λ h. inl (j.0 hit), λ h. refl), inl (refl, λ h. h.0 (j.0 hit)))
      | inr miss ↦
          let not_json : ¬ Spells s (codes "json") = λ x. ground (arith, miss, j.1 x) in
          elim (Bool-cases (eq_ignore_ascii_case s (codes "pretty"))) [
            | inl hit ↦
                rw (miss, hit)
                  (
                    (
                      λ h. absurd (ground (arith, h)),
                      λ h. elim h [ inl x ↦ absurd (not_json x) | inr y ↦ absurd (y.0 (q.0 hit)) ],
                    ),
                    inl (refl, λ u. u.1 (q.0 hit)),
                  )
            | inr other ↦
                let not_pretty : ¬ Spells s (codes "pretty") = λ x. ground (arith, other, q.1 x) in
                rw (miss, other)
                  (
                    (
                      λ h. inr (not_pretty, (is_json_iff cfg).0 h),
                      λ h. elim h [ inl x ↦ absurd (not_json x) | inr y ↦ (is_json_iff cfg).1 y.1 ],
                    ),
                    inr (unknown_format s, refl, (not_json, not_pretty)),
                  )
          ]
    ]
