-- ===== src/Level/Parse/Laws.antt =====
-- What the two parsers accept.
use tracing.Prelude.{
  true, ◌∙◌, inl, inr, ℕ, ◌≤◌, ◌≡◌, refl, ◌⊎◌, List, [], ◌∷◌, codes, none, some, arith, lower,
  eq_of_eq_ignore_ascii_case, eq_ignore_ascii_case, parse_usize, parse_usize_of_letter,
  to_ascii_lowercase, ap, ◌≢◌, ◌↔◌, beq,
}
use tracing.Level.{Level, trace, debug, info, warn, error, LevelFilter, display}
use tracing.Level.Compare.Verbosity.{verbosity}
use tracing.Level.Parse.{level_from_str, filter_from_str, filter_of_name}

-- A number of 0 to 5, however it is written, is the filter of that verbosity.
filter_from_str_number :
    (s : List ℕ) (f : LevelFilter) → parse_usize s ≡ some (verbosity f) → filter_from_str s ≡ some f
unfolding filter_from_str
filter_from_str_number s none h = ground arith
filter_from_str_number s (some trace) h = ground arith
filter_from_str_number s (some debug) h = ground arith
filter_from_str_number s (some info) h = ground arith
filter_from_str_number s (some warn) h = ground arith
filter_from_str_number s (some error) h = ground arith

filter_from_str_empty : filter_from_str [] ≡ some (some error)
unfolding filter_from_str parse_usize
filter_from_str_empty = refl

-- A case-insensitive comparison of a text whose lower case is known.
eq_ignore_ascii_case-lower :
    (s t : List ℕ) → lower s ≡ t → (u : List ℕ) → eq_ignore_ascii_case s u ≡ beq t (lower u)
unfolding eq_ignore_ascii_case
eq_ignore_ascii_case-lower s t h u = ap (λ x. beq x (lower u)) h

display_is_letter :
    (c : ℕ) (cs : List ℕ) (f : LevelFilter)
    → lower (c ∷ cs) ≡ display f
    → b'a' ≤ to_ascii_lowercase c
unfolding display
display_is_letter c cs none h = ground arith
display_is_letter c cs (some trace) h = ground arith
display_is_letter c cs (some debug) h = ground arith
display_is_letter c cs (some info) h = ground arith
display_is_letter c cs (some warn) h = ground arith
display_is_letter c cs (some error) h = ground arith

-- The printed form of a filter, in any mixture of upper and lower case, is parsed to the filter.
pub filter_from_str-display :
    (s : List ℕ) (f : LevelFilter) → lower s ≡ display f → filter_from_str s ≡ some f
unfolding filter_from_str display to_ascii_lowercase
filter_from_str-display [] none h = ground arith
filter_from_str-display [] (some trace) h = ground arith
filter_from_str-display [] (some debug) h = ground arith
filter_from_str-display [] (some info) h = ground arith
filter_from_str-display [] (some warn) h = ground arith
filter_from_str-display [] (some error) h = ground arith
filter_from_str-display (c ∷ cs) f h =
    rw (parse_usize_of_letter c cs (display_is_letter c cs f h)) (named f h)
  where
    named : (f : LevelFilter) → lower (c ∷ cs) ≡ display f → filter_of_name (c ∷ cs) ≡ some f
    named none e = simp (eq_ignore_ascii_case-lower (c ∷ cs) _ e)
    named (some trace) e = simp (eq_ignore_ascii_case-lower (c ∷ cs) _ e)
    named (some debug) e = simp (eq_ignore_ascii_case-lower (c ∷ cs) _ e)
    named (some info) e = simp (eq_ignore_ascii_case-lower (c ∷ cs) _ e)
    named (some warn) e = simp (eq_ignore_ascii_case-lower (c ∷ cs) _ e)
    named (some error) e = simp (eq_ignore_ascii_case-lower (c ∷ cs) _ e)

pub lower-display : (f : LevelFilter) → lower (display f) ≡ display f
unfolding display to_ascii_lowercase
lower-display none = refl
lower-display (some trace) = refl
lower-display (some debug) = refl
lower-display (some info) = refl
lower-display (some warn) = refl
lower-display (some error) = refl

-- A name is not a number.
parse_usize_of_name :
    (c : ℕ) (cs : List ℕ) (f : LevelFilter)
    → eq_ignore_ascii_case (c ∷ cs) (display f) ≡ true
    → parse_usize (c ∷ cs) ≡ none
parse_usize_of_name c cs f h =
    parse_usize_of_letter c cs
      (display_is_letter c cs f (eq_of_eq_ignore_ascii_case _ _ h ∙ lower-display f))

-- The same on a text that is not empty.
nonempty :
    (c : ℕ) (cs : List ℕ) (l : Level)
    → (level_from_str (c ∷ cs) ≡ some l)
      ↔ ((filter_from_str (c ∷ cs) ≡ some (some l)) × ((c ∷ cs) ≢ []))
unfolding level_from_str filter_from_str display
nonempty c cs l = ground (
  arith,
  parse_usize_of_name c cs (some error),
  parse_usize_of_name c cs (some warn),
  parse_usize_of_name c cs (some info),
  parse_usize_of_name c cs (some debug),
  parse_usize_of_name c cs (some trace),
)

-- A level parses as a level exactly as it parses as a filter, but for the empty text, which is the
-- filter `error` and no level.
pub level_from_str_iff :
    (s : List ℕ) (l : Level)
    → (level_from_str s ≡ some l) ↔ ((filter_from_str s ≡ some (some l)) × (s ≢ []))
unfolding level_from_str filter_from_str parse_usize eq_ignore_ascii_case
level_from_str_iff [] l = ground arith
level_from_str_iff (c ∷ cs) l = nonempty c cs l

-- The texts that stand for a filter.
abbrev pub Names : List ℕ → LevelFilter → Type 0
Names s f =
    (parse_usize s ≡ some (verbosity f)) ⊎ (lower s ≡ display f) ⊎ ((s ≡ []) × (f ≡ some error))

Names-of_parse : (s : List ℕ) (f : LevelFilter) → filter_from_str s ≡ some f → Names s f
unfolding filter_from_str display to_ascii_lowercase parse_usize
Names-of_parse [] f h = inr (inr (refl, ground arith))
Names-of_parse (c ∷ cs) f h = ground (
  arith,
  eq_of_eq_ignore_ascii_case (c ∷ cs) (codes "error"),
  eq_of_eq_ignore_ascii_case (c ∷ cs) (codes "warn"),
  eq_of_eq_ignore_ascii_case (c ∷ cs) (codes "info"),
  eq_of_eq_ignore_ascii_case (c ∷ cs) (codes "debug"),
  eq_of_eq_ignore_ascii_case (c ∷ cs) (codes "trace"),
  eq_of_eq_ignore_ascii_case (c ∷ cs) (codes "off"),
)

-- A text parses to a filter exactly if it is a number whose value is the filter's verbosity, or
-- the filter's name in any mixture of cases, or is empty and the filter is `error`.
pub filter_from_str_iff : (s : List ℕ) (f : LevelFilter) → (filter_from_str s ≡ some f) ↔ Names s f
filter_from_str_iff s f = (Names-of_parse s f, accepted)
  where
    accepted : Names s f → filter_from_str s ≡ some f
    accepted (inl n) = filter_from_str_number s f n
    accepted (inr (inl n)) = filter_from_str-display s f n
    accepted (inr (inr (e, w))) = rw (e, w) filter_from_str_empty
