-- ===== src/FieldMatch/Parse.antt =====
-- tracing-subscriber/src/filter/env/field.rs: the parsing of `Match` and `ValueMatch`.
use tracing.Prelude.{
  Bool, true, false, List, [], ◌∷◌, Option, none, some, ℕ, parse_usize, beq, codes, if◌then◌else◌,
}
use tracing.Prelude.Integer.{parse_i64}
use tracing.Prelude.Split.{split_on}
use tracing.FieldMatch.{
  Values, MatchPattern, ValueMatch, bool, f64, u64, i64, nan, debug, pat, Match,
}

abbrev or_else {ℓ} : {A : Type ℓ} → Option A → Option A → Option A
or_else none b = b
or_else (some a) b = some a

abbrev option_map {ℓ κ} : {A : Type ℓ} {B : Type κ} → (A → B) → Option A → Option B
option_map f none = none
option_map f (some a) = some (f a)

-- `bool::from_str`
abbrev parse_bool : List ℕ → Option Bool
parse_bool s =
    if beq s (codes "true") then some true else if beq s (codes "false") then some false else none

module _ {v : Values} where
  -- `value_match_f64`
  abbrev value_match_f64 : v.F64 → ValueMatch v
  value_match_f64 x = if v.is_nan x then nan else f64 x

  -- the literals that `parse_regex` and `parse_non_regex` both try first
  abbrev parse_literal : List ℕ → Option (ValueMatch v)
  unfolding parse_usize parse_i64
  parse_literal s = or_else (option_map bool (parse_bool s)) (
      or_else (option_map u64 (parse_usize s))
        (or_else (option_map i64 (parse_i64 s)) (option_map value_match_f64 (v.parse_f64 s))))

  -- `MatchPattern::from_str`
  abbrev parse_match_pattern : List ℕ → Option (MatchPattern v)
  parse_match_pattern s =
      option_map (λ matcher. record { matcher = matcher; pattern = s }) (v.parse_pattern s)

  -- `ValueMatch::parse_regex`
  unfoldable pub parse_regex : List ℕ → Option (ValueMatch v)
  unfolding parse_literal
  parse_regex s = or_else (parse_literal s) (option_map pat (parse_match_pattern s))

  -- `ValueMatch::parse_non_regex`
  unfoldable pub parse_non_regex : List ℕ → ValueMatch v
  unfolding parse_literal
  parse_non_regex s = elim (parse_literal s) [ none ↦ debug s | some value ↦ value ]

  abbrev parse_value : Bool → List ℕ → Option (ValueMatch v)
  unfolding parse_regex parse_non_regex
  parse_value regex part = if regex then parse_regex part else some (parse_non_regex part)

  abbrev with_value : List ℕ → Option (ValueMatch v) → Option (Match v)
  with_value name none = none
  with_value name (some value) = some (record { name = name; value = some value })

  -- `Match::parse`, on the pieces between the `=`; `none` is the error of a pattern.
  abbrev parse_pieces : Bool → List (List ℕ) → Option (Match v)
  unfolding parse_value
  parse_pieces regex [] = none
  parse_pieces regex (name ∷ []) = some (record { name = name; value = none })
  parse_pieces regex (name ∷ part ∷ rest) = with_value name (parse_value regex part)

  unfoldable pub parse_match : List ℕ → Bool → Option (Match v)
  unfolding split_on parse_pieces
  parse_match s regex = parse_pieces regex (split_on b'=' s)
