-- ===== src/FieldMatch/Samples.antt =====
-- Values for the tests: a number of `f64` is a natural number here, and a pattern is the text that it
-- matches.
use tracing.Prelude.{ℕ, false, List, [], ◌∷◌, none, some, beq, compare, ◌==◌}
use tracing.FieldMatch.{Values}

abbrev joined : List (List ℕ) → List ℕ
joined [] = []
joined (s ∷ []) = s
joined (s ∷ t ∷ ss) = s

abbrev pub values : Values
values = record {
  F64 = ℕ;
  parse_f64 = λ s. none;
  is_nan = λ x. false;
  cmp_f64 = compare;
  is_near = λ x y. x == y;
  Pattern = List ℕ;
  parse_pattern = λ s. some s;
  str_matches = beq;
  pattern_debug_matches = λ p pieces. beq p (joined pieces);
}
