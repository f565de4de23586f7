-- ===== src/EnvDirective/Matcher.antt =====
-- Which spans get a matcher, and with what levels.
use tracing.Prelude.{
  ℕ, ◌≡◌, refl, ap, ◌⊎◌, inl, inr, true, false, List, [], ◌∷◌, map, filter, none, some,
  Option-cases, Bool-cases, arith, is_empty,
}
use tracing.Level.{off}
use tracing.Metadata.{Metadata, FieldSet, field}
use tracing.Directive.{DirectiveSet}
use tracing.FieldMatch.{Values, ValueMatch, Match}
use tracing.FieldMatch.Span.{CallsiteMatch, insert}
use tracing.EnvDirective.{
  Directive, CallsiteMatcher, cares_about, defines_fields, collect_fields, field_matcher,
  field_matchers, matcher, callsite_match, to_matcher,
}

module _ {v : Values} where
  -- The fields of a match are found where all are defined.
  collect_fields-defined :
      (fieldset : FieldSet) (ms : List (Match v)) (found : List (ℕ × ValueMatch v))
      → defines_fields fieldset ms ≡ true
      → (r : List (ℕ × ValueMatch v)) × (collect_fields fieldset ms found ≡ some r)
  unfolding collect_fields defines_fields
  collect_fields-defined fieldset [] found h = (found, refl)
  collect_fields-defined fieldset (m ∷ ms) found h = elim (Option-cases (field fieldset m.name)) [
    | inl e ↦ absurd (ground arith)
    | inr (i, e) ↦ elim (Option-cases m.value) [
      | inl n ↦
          let (r, k) = collect_fields-defined fieldset ms found (ground arith) in (r, ground arith)
      | inr (value, n) ↦
          let (r, k) = collect_fields-defined fieldset ms (insert i value found) (ground arith) in
          (r, ground arith)
    ]
  ]

  field_matcher-cares :
      (d : Directive v) (meta : Metadata)
      → cares_about d meta ≡ true
      → (f : CallsiteMatch v) × (field_matcher d meta ≡ some f) × (f.level ≡ d.level)
  unfolding field_matcher cares_about
  field_matcher-cares d meta h =
      let (r, e) = collect_fields-defined meta.fields d.fields [] (ground arith) in
      (record { fields = r; level = d.level }, ap (callsite_match d.level) e, refl)

  abbrev pub caring : Metadata → List (Directive v) → List (Directive v)
  caring meta ds = filter (λ d. cares_about d meta) ds

  field_matchers-caring :
      (meta : Metadata) (ds : List (Directive v))
      → (fs : List (CallsiteMatch v)) × (field_matchers meta (caring meta ds) none ≡ (fs, none))
        × (map (λ f. f.level) fs ≡ map (λ d. d.level) (caring meta ds))
  unfolding field_matchers
  field_matchers-caring meta [] = ([], refl, refl)
  field_matchers-caring meta (d ∷ ds) =
      let (fs, e, l) = field_matchers-caring meta ds in
      elim (Bool-cases (cares_about d meta)) [
        | inl c ↦
            let (f, g, k) = field_matcher-cares d meta c in
            (f ∷ fs, ground (arith, g, e), ground (arith, k, l))
        | inr c ↦ (fs, rw c e, rw c l)
      ]

  -- A span gets a matcher exactly if a dynamic directive cares about it; the matcher then has the
  -- levels of all that do, and its base level is `off`.
  pub matcher-caring :
      (self : DirectiveSet (Directive v)) (meta : Metadata)
      → ((matcher self meta ≡ none) × (caring meta self.directives ≡ []))
        ⊎ ((m : CallsiteMatcher v) × (matcher self meta ≡ some m)
            × (m.base_level ≡ off)
            × (is_empty (caring meta self.directives) ≡ false)
            × (map (λ f. f.level) m.field_matches
                ≡ map (λ d. d.level) (caring meta self.directives)))
  unfolding matcher
  matcher-caring self meta =
      let (fs, e, l) = field_matchers-caring meta self.directives in
      by_list fs (caring meta self.directives) l e
    where
      by_list :
          (fs : List (CallsiteMatch v)) (ds : List (Directive v))
          → map (λ f. f.level) fs ≡ map (λ d. d.level) ds
          → field_matchers meta ds none ≡ (fs, none)
          → ((to_matcher (field_matchers meta ds none).0 (field_matchers meta ds none).1 ≡ none)
              × (ds ≡ []))
            ⊎ ((m : CallsiteMatcher v) × (to_matcher
                    (field_matchers meta ds none).0
                    (field_matchers meta ds none).1
                  ≡ some m)
                × (m.base_level ≡ off)
                × (is_empty ds ≡ false)
                × (map (λ f. f.level) m.field_matches ≡ map (λ d. d.level) ds))
      by_list [] [] l e = inl (ap (λ r. to_matcher r.0 r.1) e, refl)
      by_list [] (d ∷ ds) l e = absurd (cc)
      by_list (f ∷ fs) [] l e = absurd (cc)
      by_list (f ∷ fs) (d ∷ ds) l e = inr (
        record { field_matches = f ∷ fs; base_level = off },
        ap (λ r. to_matcher r.0 r.1) e,
        refl,
        refl,
        l,
      )
