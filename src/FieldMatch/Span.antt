-- ===== src/FieldMatch/Span.antt =====
-- tracing-subscriber/src/filter/env/field.rs: the matching of a span's fields with the values that
-- directives ask for. The state of an atomic flag is passed along.
pub mod Prefix
pub mod Matched
mod Tests
use tracing.Prelude.{
  ℕ, ◌^◌, Bool, true, false, ◌&&◌, List, [], ◌∷◌, map, Option, none, some, length, drop,
  starts_with, ltb, all, ◌==◌, if◌then◌else◌,
}
use tracing.Prelude.Integer.{ℤ, pos, int_eq}
use tracing.Level.{LevelFilter}
use tracing.FieldMatch.{Values, ValueMatch, bool, f64, u64, i64, nan, debug, pat, bool_eq}

-- A value that is recorded for a field: one for each method of `Visit` that the visitor has. A text
-- comes with the pieces that its `fmt::Debug` writes, and so does any other value.
pub data Value (v : Values) : Type 0 where
  f64_value : v.F64 → Value v
  i64_value : ℤ → Value v
  u64_value : ℕ → Value v
  bool_value : Bool → Value v
  str_value : List ℕ → List (List ℕ) → Value v
  debug_value : List (List ℕ) → Value v

-- `<Matcher as fmt::Write>::write_str`: what is left of the pattern
abbrev write_str : List ℕ → List ℕ → Option (List ℕ)
write_str pattern s =
    if ltb (length pattern) (length s)
    then none
    else if starts_with pattern s
    then some (drop (length s) pattern)
    else none

-- `MatchDebug::debug_matches`: the first piece that does not match ends it.
unfoldable pub debug_matches : List ℕ → List (List ℕ) → Bool
debug_matches pattern [] = true
debug_matches pattern (s ∷ ss) = elim (write_str pattern s) [
  | none ↦ false
  | some rest ↦ debug_matches rest ss
]

-- `HashMap::insert` of a field map, as an association list
abbrev pub insert {ℓ} : {A : Type ℓ} → ℕ → A → List (ℕ × A) → List (ℕ × A)
insert k x [] = (k, x) ∷ []
insert k x ((j, y) ∷ m) = if j == k then (j, x) ∷ m else (j, y) ∷ insert k x m

-- `struct CallsiteMatch`: the values that are asked for, by field
pub record CallsiteMatch (v : Values) : Type 0 where
  pub fields : List (ℕ × ValueMatch v)
  pub level : LevelFilter

-- `struct SpanMatch`: with a flag for each field that has had its value
pub record SpanMatch (v : Values) : Type 0 where
  pub fields : List (ℕ × (ValueMatch v × Bool))
  pub level : LevelFilter
  pub has_matched : Bool

module _ {v : Values} where
  -- `CallsiteMatch::to_span_match`
  abbrev pub to_span_match : CallsiteMatch v → SpanMatch v
  to_span_match self = record {
    fields = map (λ f. (f.0, (f.1, false))) self.fields;
    level = self.level;
    has_matched = false;
  }

  -- The guards of the `record_` methods of `MatchVisitor`.
  unfoldable pub matches : ValueMatch v → Value v → Bool
  unfolding debug_matches
  matches nan (f64_value x) = v.is_nan x
  matches (f64 e) (f64_value x) = v.is_near x e
  matches (i64 e) (i64_value z) = int_eq z e
  matches (u64 e) (i64_value z) = int_eq z (pos e) && ltb e (2 ^ 63)
  matches (u64 e) (u64_value n) = n == e
  matches (bool e) (bool_value b) = bool_eq b e
  matches (pat e) (str_value s pieces) = v.str_matches e.matcher s
  matches (debug e) (str_value s pieces) = debug_matches e pieces
  matches (pat e) (debug_value pieces) = v.pattern_debug_matches e.matcher pieces
  matches (debug e) (debug_value pieces) = debug_matches e pieces
  matches _ _ = false

  -- `matched.store(true)` for the field that is recorded
  abbrev pub store_matched :
      ℕ → Value v → List (ℕ × (ValueMatch v × Bool)) → List (ℕ × (ValueMatch v × Bool))
  unfolding matches
  store_matched i x [] = []
  store_matched i x ((j, (e, m)) ∷ fields) =
      if (j == i) && matches e x
      then (j, (e, true)) ∷ store_matched i x fields
      else (j, (e, m)) ∷ store_matched i x fields

  -- `MatchVisitor::record_*`
  unfoldable pub record_value : ℕ × Value v → SpanMatch v → SpanMatch v
  record_value x self = record self { fields = store_matched x.0 x.1 self.fields }

  -- `Record::record`: each of the values goes to the visitor.
  unfoldable pub record_values : List (ℕ × Value v) → SpanMatch v → SpanMatch v
  unfolding record_value
  record_values [] self = self
  record_values (x ∷ xs) self = record_values xs (record_value x self)

  -- `SpanMatch::is_matched_slow`
  abbrev pub is_matched_slow : SpanMatch v → Bool × SpanMatch v
  is_matched_slow self =
      let matched = all (λ f. f.1.1) self.fields in
      (matched, if matched then record self { has_matched = true } else self)

  -- `SpanMatch::is_matched`
  unfoldable pub is_matched : SpanMatch v → Bool × SpanMatch v
  is_matched self = if self.has_matched then (true, self) else is_matched_slow self

  -- `SpanMatch::filter`
  unfoldable pub filter_match : SpanMatch v → Option LevelFilter × SpanMatch v
  unfolding is_matched
  filter_match self = let r = is_matched self in (if r.0 then some self.level else none, r.1)
