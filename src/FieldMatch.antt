-- ===== src/FieldMatch.antt =====
-- tracing-subscriber/src/filter/env/field.rs: the values that a directive asks for, with their
-- order.
pub mod Parse
pub mod Span
pub mod Samples
use Prim.Native.Nat.Ordering.{lt, eq, gt}
use tracing.Prelude.{
  ℕ, ◌^◌, Bool, true, false, not, ◌&&◌, ◌||◌, List, [], ◌∷◌, map, Option, none, some, Ordering,
  compare, length, drop, starts_with, parse_usize, beq, codes, ltb, all, ◌==◌, if◌then◌else◌,
}
use tracing.Prelude.Integer.{ℤ, pos, int_cmp, int_eq, parse_i64}
use tracing.Prelude.Order.{then_with, option_cmp, slice_cmp}
use tracing.Prelude.Result.{Result, ok, err, ◌>>=◌}
use tracing.Prelude.Split.{split_on}
use tracing.Level.{LevelFilter}

-- What the code uses of `f64`, and of the patterns of the crate `matchers`.
pub record Values : Type 1 where
  pub F64 : Type 0
  pub parse_f64 : List ℕ → Option F64
  pub is_nan : F64 → Bool
  -- `partial_cmp` of two numbers neither of which is NaN
  pub cmp_f64 : F64 → F64 → Ordering
  -- `(a - b).abs() < f64::EPSILON`
  pub is_near : F64 → F64 → Bool
  pub Pattern : Type 0
  pub parse_pattern : List ℕ → Option Pattern
  pub str_matches : Pattern → List ℕ → Bool
  -- on the pieces that `fmt::Debug` writes
  pub pattern_debug_matches : Pattern → List (List ℕ) → Bool

-- `struct MatchPattern`
pub record MatchPattern (v : Values) : Type 0 where
  pub matcher : v.Pattern
  pub pattern : List ℕ

-- `enum ValueMatch`; a `MatchDebug` is its text.
pub data ValueMatch (v : Values) : Type 0 where
  bool : Bool → ValueMatch v
  f64 : v.F64 → ValueMatch v
  u64 : ℕ → ValueMatch v
  i64 : ℤ → ValueMatch v
  nan : ValueMatch v
  debug : List ℕ → ValueMatch v
  pat : MatchPattern v → ValueMatch v

-- `struct Match`
pub record Match (v : Values) : Type 0 where
  pub name : List ℕ
  pub value : Option (ValueMatch v)

abbrev pub bool_cmp : Bool → Bool → Ordering
bool_cmp false false = eq
bool_cmp false true = lt
bool_cmp true false = gt
bool_cmp true true = eq

abbrev pub bool_eq : Bool → Bool → Bool
bool_eq a b = elim (bool_cmp a b) [ eq ↦ true | _ ↦ false ]

module _ {v : Values} where
  -- `PartialEq for ValueMatch`; two `Debug` matches are not equal.
  unfoldable pub eq_value : ValueMatch v → ValueMatch v → Bool
  eq_value (bool a) (bool b) = bool_eq a b
  eq_value (f64 a) (f64 b) = elim (v.cmp_f64 a b) [ eq ↦ true | _ ↦ false ]
  eq_value (u64 a) (u64 b) = a == b
  eq_value (i64 a) (i64 b) = int_eq a b
  eq_value nan nan = true
  eq_value (pat a) (pat b) = beq a.pattern b.pattern
  eq_value _ _ = false

  -- The kind of a match, in the order of the arms of `Ord for ValueMatch`; equal kinds compare
  -- their values.
  unfoldable pub cmp_value : ValueMatch v → ValueMatch v → Ordering
  cmp_value (bool this) (bool that) = bool_cmp this that
  cmp_value (bool this) _ = lt
  cmp_value (f64 this) (f64 that) = v.cmp_f64 this that
  cmp_value (f64 this) (bool that) = gt
  cmp_value (f64 this) _ = lt
  cmp_value nan nan = eq
  cmp_value nan (bool that) = gt
  cmp_value nan (f64 that) = gt
  cmp_value nan _ = lt
  cmp_value (u64 this) (u64 that) = compare this that
  cmp_value (u64 this) (bool that) = gt
  cmp_value (u64 this) (f64 that) = gt
  cmp_value (u64 this) nan = gt
  cmp_value (u64 this) _ = lt
  cmp_value (i64 this) (i64 that) = int_cmp this that
  cmp_value (i64 this) (bool that) = gt
  cmp_value (i64 this) (f64 that) = gt
  cmp_value (i64 this) nan = gt
  cmp_value (i64 this) (u64 that) = gt
  cmp_value (i64 this) _ = lt
  cmp_value (pat this) (pat that) = slice_cmp compare this.pattern that.pattern
  cmp_value (pat this) _ = gt
  cmp_value (debug this) (debug that) = slice_cmp compare this that
  cmp_value (debug this) _ = gt

  -- `Ord for Match`
  abbrev has_value_cmp : Option (ValueMatch v) → Option (ValueMatch v) → Ordering
  has_value_cmp (some a) none = gt
  has_value_cmp none (some b) = lt
  has_value_cmp none none = eq
  has_value_cmp (some a) (some b) = eq

  unfoldable pub cmp_match : Match v → Match v → Ordering
  unfolding cmp_value
  cmp_match self other =
      then_with
        (then_with (has_value_cmp self.value other.value) (slice_cmp compare self.name other.name))
        (option_cmp cmp_value self.value other.value)

  -- `Match::has_value`
  abbrev pub has_value : Match v → Bool
  has_value self = elim self.value [ none ↦ false | some value ↦ true ]
