-- ===== src/EnvDirective/Display.antt =====
-- tracing-subscriber/src/filter/env/directive.rs and field.rs: `Display` for `Directive` and `Match`.
use tracing.Prelude.{ℕ, List, [], ◌∷◌, ◌++◌, Option, none, some}
use tracing.Level.{display}
use tracing.FieldMatch.{Values, ValueMatch, Match}
use tracing.EnvDirective.{Directive}

-- `show` is `Display` for `ValueMatch`: that of the number, Boolean or text in it.
module _ {v : Values} (show : ValueMatch v → List ℕ) where
  -- `Display for Match`
  abbrev pub display_match : Match v → List ℕ
  display_match self = elim self.value [
    | none ↦ self.name
    | some value ↦ self.name ++ (b'=' ∷ show value)
  ]

  -- a field, and the others with a comma before each
  abbrev pub display_matches : Match v → List (Match v) → List ℕ
  display_matches f [] = display_match f
  display_matches f (g ∷ fs) = display_match f ++ (b',' ∷ display_matches g fs)

  abbrev pub display_fields : List (Match v) → List ℕ
  display_fields [] = []
  display_fields (f ∷ fs) = b'{' ∷ (display_matches f fs ++ (b'}' ∷ []))

  abbrev pub display_target : Option (List ℕ) → List ℕ
  display_target none = []
  display_target (some target) = target

  -- The span and the fields, in brackets.
  abbrev pub display_span : Option (List ℕ) → List (Match v) → List ℕ
  display_span none [] = []
  display_span none (f ∷ fs) = b'[' ∷ (display_fields (f ∷ fs) ++ (b']' ∷ []))
  display_span (some span) fields = b'[' ∷ (span ++ (display_fields fields ++ (b']' ∷ [])))

  -- The equals sign, if anything was written.
  abbrev pub display_equals : Option (List ℕ) → Option (List ℕ) → List (Match v) → List ℕ
  display_equals none none [] = []
  display_equals none none (f ∷ fs) = b'=' ∷ []
  display_equals none (some span) fields = b'=' ∷ []
  display_equals (some target) in_span fields = b'=' ∷ []

  -- `Display for Directive`
  unfoldable pub display_directive : Directive v → List ℕ
  unfolding display
  display_directive self =
      display_target self.target
      ++ (display_span self.in_span self.fields
          ++ (display_equals self.target self.in_span self.fields ++ display self.level))
