-- ===== src/EnvDirective.antt =====
-- tracing-subscriber/src/filter/env/directive.rs: the directives of an `EnvFilter`, and the matchers
-- that the dynamic ones make for spans.
pub mod Matcher
pub mod Display
pub mod Parse
mod Tests
use Prim.Native.Nat.Ordering.{lt, eq, gt}
use tracing.Prelude.{
  ℕ, Bool, true, false, not, ◌&&◌, ◌||◌, List, [], ◌∷◌, ◌++◌, map, Option, none, some, Ordering,
  compare, length, is_empty, any, filter, beq, if◌then◌else◌,
}
use tracing.Prelude.Order.{reverse, then_with, option_cmp, slice_cmp}
use tracing.Level.{LevelFilter, off}
use tracing.Level.Compare.LevelFilterPair
use tracing.Metadata.{Metadata, FieldSet, field}
use tracing.Directive.{Directives, DirectiveSet, from_iter}
use tracing.StaticDirective.{StaticDirective, statics, target_matches, target_len, str_cmp}
use tracing.Filter.{max_filter}
use tracing.FieldMatch.{Values, ValueMatch, debug, pat, Match, cmp_match, has_value}
use tracing.FieldMatch.Span.{
  CallsiteMatch, SpanMatch, Value, insert, to_span_match, record_values, filter_match,
}

-- `struct Directive`
pub record Directive (v : Values) : Type 0 where
  pub in_span : Option (List ℕ)
  pub fields : List (Match v)
  pub target : Option (List ℕ)
  pub level : LevelFilter

-- `MatchSet<CallsiteMatch>` and `MatchSet<SpanMatch>`
pub record CallsiteMatcher (v : Values) : Type 0 where
  pub field_matches : List (CallsiteMatch v)
  pub base_level : LevelFilter

pub record SpanMatcher (v : Values) : Type 0 where
  pub field_matches : List (SpanMatch v)
  pub base_level : LevelFilter

abbrev is_some {ℓ} : {A : Type ℓ} → Option A → Bool
is_some none = false
is_some (some a) = true

abbrev rank : Bool → ℕ
rank false = 0
rank true = 1

-- the closure of `matcher` for a directive without a match
unfoldable raise : Option LevelFilter → LevelFilter → Option LevelFilter
unfolding LevelFilterPair.gt
raise none level = some level
raise (some b) level = if LevelFilterPair.gt level b then some level else some b

-- `Iterator::max` on level filters
unfoldable pub max_levels : List LevelFilter → Option LevelFilter
max_levels [] = none
max_levels (l ∷ ls) = elim (max_levels ls) [ none ↦ some l | some m ↦ some (max_filter l m) ]

abbrev unwrap_or {ℓ} : {A : Type ℓ} → Option A → A → A
unwrap_or none a = a
unwrap_or (some b) a = b

-- The name filter of `cares_about`.
abbrev name_matches : Option (List ℕ) → List ℕ → Bool
name_matches none name = true
name_matches (some expected) name = beq expected name

module _ {v : Values} where
  -- `Directive::has_name`, `has_fields`, `is_static`, `is_dynamic`
  abbrev has_name : Directive v → Bool
  has_name self = is_some self.in_span

  abbrev has_fields : Directive v → Bool
  has_fields self = not (is_empty self.fields)

  unfoldable pub is_static : Directive v → Bool
  is_static self = not (has_name self) && not (any has_value self.fields)

  unfoldable pub is_dynamic : Directive v → Bool
  is_dynamic self = has_name self || has_fields self

  -- `Directive::to_static`
  unfoldable pub to_static : Directive v → Option StaticDirective
  unfolding is_static
  to_static self =
      if not (is_static self)
      then none
      else some (record {
        target = self.target;
        field_names = map (λ f. f.name) self.fields;
        level = self.level;
      })

  -- `filter_map(Directive::to_static)`
  unfoldable pub to_statics : List (Directive v) → List StaticDirective
  unfolding to_static
  to_statics [] = []
  to_statics (d ∷ ds) =
      let rest = to_statics ds in elim (to_static d) [ none ↦ rest | some s ↦ s ∷ rest ]

  -- `Ord for Directive`
  unfoldable pub cmp : Directive v → Directive v → Ordering
  unfolding cmp_match
  cmp self other = reverse (
      then_with
        (then_with
          (then_with (option_cmp compare (target_len self.target) (target_len other.target))
            (compare (rank (has_name self)) (rank (has_name other))))
          (compare (length self.fields) (length other.fields)))
        (then_with
          (then_with (option_cmp str_cmp self.target other.target)
            (option_cmp str_cmp self.in_span other.in_span))
          (slice_cmp cmp_match self.fields other.fields)))

  -- the loop over the fields
  unfoldable pub defines_fields : FieldSet → List (Match v) → Bool
  unfolding field
  defines_fields actual [] = true
  defines_fields actual (expected ∷ rest) =
      let others = defines_fields actual rest in
      if not (is_some (field actual expected.name)) then false else others

  -- `Match::cares_about`
  unfoldable pub cares_about : Directive v → Metadata → Bool
  unfolding defines_fields
  cares_about self meta =
      if not (target_matches self.target meta.target)
      then false
      else if not (name_matches self.in_span meta.name)
      then false
      else defines_fields meta.fields self.fields

  abbrev pub dynamics : Directives (Directive v)
  dynamics = record { cmp = cmp; level = λ d. d.level; cares_about = cares_about }

  -- `Directive::make_tables`
  unfoldable pub make_tables :
      List (Directive v) → DirectiveSet (Directive v) × DirectiveSet StaticDirective
  unfolding is_dynamic to_statics from_iter
  make_tables directives =
      let dyns = filter is_dynamic directives in
      let stats = filter (λ d. not (is_dynamic d)) directives in
      (from_iter dynamics dyns, from_iter statics (to_statics stats ++ to_statics dyns))

  -- `Directive::deregexify`
  abbrev deregexify_value : Option (ValueMatch v) → Option (ValueMatch v)
  deregexify_value (some (pat p)) = some (debug p.pattern)
  deregexify_value value = value

  unfoldable pub deregexify : Directive v → Directive v
  deregexify self = record self {
    fields = map {A = Match v} (λ f. record f { value = deregexify_value f.value }) self.fields;
  }

  -- the `collect` of `field_matcher`; `none` is the error of a field that is not there
  unfoldable pub collect_fields :
      FieldSet → List (Match v) → List (ℕ × ValueMatch v) → Option (List (ℕ × ValueMatch v))
  unfolding field
  collect_fields fieldset [] found = some found
  collect_fields fieldset (m ∷ ms) found = elim (field fieldset m.name) [
    | none ↦ none
    | some i ↦ elim m.value [
      | none ↦ collect_fields fieldset ms found
      | some value ↦ collect_fields fieldset ms (insert i value found)
    ]
  ]

  abbrev callsite_match : LevelFilter → Option (List (ℕ × ValueMatch v)) → Option (CallsiteMatch v)
  callsite_match level none = none
  callsite_match level (some fields) = some (record { fields = fields; level = level })

  -- `Directive::field_matcher`
  unfoldable pub field_matcher : Directive v → Metadata → Option (CallsiteMatch v)
  unfolding collect_fields
  field_matcher self meta = callsite_match self.level (collect_fields meta.fields self.fields [])

  -- The `filter_map` of `Dynamics::matcher`, with the `base_level` that its closure changes.
  unfoldable pub field_matchers :
      Metadata
      → List (Directive v)
      → Option LevelFilter
      → List (CallsiteMatch v) × Option LevelFilter
  unfolding field_matcher raise
  field_matchers meta [] base_level = ([], base_level)
  field_matchers meta (d ∷ ds) base_level = elim (field_matcher d meta) [
    | some f ↦ let rest = field_matchers meta ds base_level in (f ∷ rest.0, rest.1)
    | none ↦ field_matchers meta ds (raise base_level d.level)
  ]

  abbrev to_matcher : List (CallsiteMatch v) → Option LevelFilter → Option (CallsiteMatcher v)
  to_matcher field_matches (some base_level) =
      some (record { field_matches = field_matches; base_level = base_level })
  to_matcher field_matches none =
      if not (is_empty field_matches)
      then some (record { field_matches = field_matches; base_level = off })
      else none

  -- `Dynamics::matcher`
  unfoldable pub matcher : DirectiveSet (Directive v) → Metadata → Option (CallsiteMatcher v)
  unfolding field_matchers cares_about
  matcher self metadata =
      let r = field_matchers metadata (filter (λ d. cares_about d metadata) self.directives) none in
      to_matcher r.0 r.1

  -- `Dynamics::has_value_filters`
  unfoldable pub has_value_filters : DirectiveSet (Directive v) → Bool
  has_value_filters self = any (λ d. any has_value d.fields) self.directives

  -- `CallsiteMatcher::to_span_match`; `attrs` are the values that the span is made with.
  unfoldable pub to_span_matcher : CallsiteMatcher v → List (ℕ × Value v) → SpanMatcher v
  unfolding record_values
  to_span_matcher self attrs = record {
    field_matches = map (λ m. record_values attrs (to_span_match m)) self.field_matches;
    base_level = self.base_level;
  }

  -- `filter_map(SpanMatch::filter)`
  unfoldable pub filters : List (SpanMatch v) → List LevelFilter × List (SpanMatch v)
  unfolding filter_match
  filters [] = ([], [])
  filters (m ∷ ms) =
      let r = filter_match m in
      let rest = filters ms in (elim r.0 [ none ↦ rest.0 | some l ↦ l ∷ rest.0 ], r.1 ∷ rest.1)

  -- `SpanMatcher::level`
  unfoldable pub span_level : SpanMatcher v → LevelFilter × SpanMatcher v
  unfolding filters max_levels
  span_level self =
      let r = filters self.field_matches in
      (unwrap_or (max_levels r.0) self.base_level, record self { field_matches = r.1 })

  -- `SpanMatcher::record_update`
  unfoldable pub record_update : List (ℕ × Value v) → SpanMatcher v → SpanMatcher v
  unfolding record_values
  record_update values self = record self {
    field_matches = map (record_values values) self.field_matches;
  }
