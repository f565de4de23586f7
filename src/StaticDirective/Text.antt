-- ===== src/StaticDirective/Text.antt =====
-- tracing-subscriber/src/filter/directive.rs: `Display` and `FromStr` for `StaticDirective`, and the
-- same for `Targets` of tracing-subscriber/src/filter/targets.rs. A text is its bytes; the separators
-- are ASCII, so that bytes and characters split it alike.
pub mod RoundTrip
pub mod SetRoundTrip
mod Tests
use tracing.Prelude.{
  ℕ, Bool, true, false, not, List, [], ◌∷◌, ◌++◌, Option, none, some, codes, is_empty,
  if◌then◌else◌,
}
use tracing.Prelude.Split.{split_on, split_on_pair, ends_with_pair, trim_end_pair, join}
use tracing.Prelude.Result.{Result, ok, err, ◌>>=◌, map_collect}
use tracing.Level.{LevelFilter, trace, display}
use tracing.Level.Parse.{filter_from_str}
use tracing.Directive.{DirectiveSet, from_iter}
use tracing.StaticDirective.{StaticDirective, statics}

-- The messages of `ParseError`, and the error of a level.
pub data ParseError : Type 0 where
  empty_string too_many_equals too_many_fields unterminated_fields bad_level : ParseError

-- the field names of `Display`: `[{a,b}]`
abbrev display_fields : List (List ℕ) → List ℕ
display_fields [] = []
display_fields (name ∷ names) = b'[' ∷ b'{' ∷ (join b',' name names ++ (b'}' ∷ b']' ∷ []))

abbrev display_target : Option (List ℕ) → List ℕ
display_target none = []
display_target (some target) = target

abbrev wrote_any : StaticDirective → Bool
wrote_any d = elim d.target [ none ↦ not (is_empty d.field_names) | some target ↦ true ]

-- `Display for StaticDirective`
unfoldable pub display_directive : StaticDirective → List ℕ
unfolding display
display_directive self =
    display_target self.target
    ++ (display_fields self.field_names
        ++ ((if wrote_any self then b'=' ∷ [] else []) ++ display self.level))

-- `filter_map` of the field names: an empty one is left out.
unfoldable pub nonempty : List (List ℕ) → List (List ℕ)
nonempty [] = []
nonempty ([] ∷ names) = nonempty names
nonempty ((c ∷ name) ∷ names) = (c ∷ name) ∷ nonempty names

-- `split("[{")`, and what is in the braces
abbrev parse_fields : List (List ℕ) → Result ParseError (List (List ℕ))
unfolding split_on ends_with_pair trim_end_pair nonempty
parse_fields [] = ok []
parse_fields (maybe_fields ∷ []) =
    if not (ends_with_pair b'}' b']' maybe_fields)
    then err unterminated_fields
    else ok (nonempty (split_on b',' (trim_end_pair b'}' b']' maybe_fields)))
parse_fields (maybe_fields ∷ another ∷ more) = err too_many_fields

abbrev level_or_error : Option LevelFilter → Result ParseError LevelFilter
level_or_error none = err bad_level
level_or_error (some level) = ok level

abbrev parse_level : List ℕ → Result ParseError LevelFilter
unfolding filter_from_str
parse_level s = level_or_error (filter_from_str s)

abbrev first_target : List (List ℕ) → Option (List ℕ)
first_target [] = none
first_target (piece ∷ pieces) = some piece

abbrev rest_of : List (List ℕ) → List (List ℕ)
rest_of [] = []
rest_of (piece ∷ pieces) = pieces

-- a directive that includes an `=`
abbrev parse_assignment : List ℕ → List ℕ → Result ParseError StaticDirective
unfolding split_on_pair parse_fields parse_level
parse_assignment part0 part1 = do
  let split = split_on_pair b'[' b'{' part0
  field_names ← parse_fields (rest_of split)
  level ← parse_level part1
  ok (record { target = first_target split; field_names = field_names; level = level })

-- a bare level or a bare target
abbrev level_or_target : List ℕ → Option LevelFilter → StaticDirective
level_or_target part0 (some level) = record { target = none; field_names = []; level = level }
level_or_target part0 none = record { target = some part0; field_names = []; level = some trace }

abbrev parse_bare : List ℕ → StaticDirective
unfolding filter_from_str
parse_bare part0 = level_or_target part0 (filter_from_str part0)

abbrev parse_parts : List (List ℕ) → Result ParseError StaticDirective
unfolding parse_assignment parse_bare
parse_parts [] = err empty_string
parse_parts (part0 ∷ []) = ok (parse_bare part0)
parse_parts (part0 ∷ part1 ∷ []) = parse_assignment part0 part1
parse_parts (part0 ∷ part1 ∷ another ∷ more) = err too_many_equals

-- `FromStr for StaticDirective`; `split` gives at least one piece, so the error for none is never met.
unfoldable pub directive_from_str : List ℕ → Result ParseError StaticDirective
unfolding split_on parse_parts
directive_from_str s = parse_parts (split_on b'=' s)

-- `Display for Targets`
abbrev display_list : List StaticDirective → List ℕ
display_list [] = []
display_list (d ∷ []) = display_directive d
display_list (d ∷ e ∷ ds) = display_directive d ++ (b',' ∷ display_list (e ∷ ds))

unfoldable pub display_targets : DirectiveSet StaticDirective → List ℕ
unfolding display_directive
display_targets self = display_list self.directives

-- `FromStr for Targets`
unfoldable pub targets_from_str : List ℕ → Result ParseError (DirectiveSet StaticDirective)
unfolding split_on directive_from_str from_iter
targets_from_str s = do
  directives ← map_collect directive_from_str (split_on b',' s)
  ok (from_iter statics directives)
