-- ===== src/EnvDirective/Parse.antt =====
-- tracing-subscriber/src/filter/env/directive.rs: `Directive::parse`, a state machine over the
-- characters of a text. Texts are ASCII, so that a character is one byte and an index counts
-- characters.
pub mod Trim
pub mod Segments
pub mod Fields
pub mod Parts
pub mod RoundTrip
mod Tests
use tracing.Prelude.{
  ℕ, suc, ◌+◌, ◌-◌, Bool, true, false, not, ◌&&◌, ◌||◌, List, [], ◌∷◌, ◌++◌, Option, none, some,
  drop, take, is_empty, leb, ◌==◌, if◌then◌else◌, filter,
}
use tracing.Prelude.Result.{Result, ok, err, ◌>>=◌, map_collect}
use tracing.Prelude.Split.{split_on}
use tracing.Level.{LevelFilter, trace, off}
use tracing.Level.Parse.{filter_from_str}
use tracing.FieldMatch.{Values, Match}
use tracing.FieldMatch.Parse.{parse_match}
use tracing.EnvDirective.{Directive}

-- `ParseError`: `ParseErrorKind::Other`, `Field` and `Level`.
pub data ParseError : Type 0 where
  other bad_field bad_level : ParseError

-- `enum ParseState`
pub data ParseState : Type 0 where
  start : ParseState
  level_or_target span field : ℕ → ParseState
  fields target : ParseState
  level : ℕ → ParseState
  complete : ParseState

-- `&from[from_index..to_index]`
abbrev pub slice : List ℕ → ℕ → ℕ → List ℕ
slice from a b = take (b - a) (drop a from)

-- `char::is_whitespace`, of an ASCII character
abbrev pub is_whitespace : ℕ → Bool
is_whitespace c = (c == 32) || (leb 9 c && leb c 13)

abbrev trim_start : List ℕ → List ℕ
trim_start [] = []
trim_start (c ∷ cs) = let rest = trim_start cs in if is_whitespace c then rest else c ∷ cs

-- What is left of a text before the white space at its end.
abbrev trim_end : List ℕ → List ℕ
trim_end [] = []
trim_end (c ∷ cs) =
    let rest = trim_end cs in if is_empty rest && is_whitespace c then [] else c ∷ rest

-- `str::trim`
unfoldable pub trim : List ℕ → List ℕ
trim s = trim_start (trim_end s)

-- `char::is_alphanumeric`, of an ASCII character
abbrev is_alphanumeric : ℕ → Bool
is_alphanumeric c =
    (leb b'0' c && leb c b'9') || ((leb b'A' c && leb c b'Z') || (leb b'a' c && leb c b'z'))

-- A character with which a target or a level may start.
unfoldable pub may_start : ℕ → Bool
may_start c = (c == b'-') || ((c == b':') || ((c == b'_') || is_alphanumeric c))

-- `LevelFilter::from_str` with `?`, where an empty text is `TRACE`
abbrev pub level_or_trace : List ℕ → Result ParseError LevelFilter
unfolding filter_from_str
level_or_trace [] = ok (some trace)
level_or_trace (c ∷ cs) = elim (filter_from_str (c ∷ cs)) [ none ↦ err bad_level | some l ↦ ok l ]

-- `in_span` before a list of fields: an empty name is none.
abbrev pub span_name : List ℕ → Option (List ℕ)
span_name [] = none
span_name (c ∷ cs) = some (c ∷ cs)

module _ {v : Values} where
  -- The directive that `parse` starts with.
  abbrev pub initial : Directive v
  initial = record { in_span = none; fields = []; target = none; level = some trace }

  -- A text that is a level or a target.
  unfoldable pub set_level_or_target : List ℕ → Directive v → Directive v
  unfolding filter_from_str
  set_level_or_target [] cur = record cur { level = some trace; target = none }
  set_level_or_target (c ∷ cs) cur = elim (filter_from_str (c ∷ cs)) [
    | none ↦ record cur { level = some trace; target = some (c ∷ cs) }
    | some l ↦ record cur { level = l; target = none }
  ]

  abbrev push : Directive v → Option (Match v) → Result ParseError (Directive v)
  push cur none = err bad_field
  push cur (some m) = ok (record cur { fields = cur.fields ++ (m ∷ []) })

  -- `cur.fields.push(..)`
  unfoldable pub push_field : Bool → List ℕ → Directive v → Result ParseError (Directive v)
  unfolding parse_match
  push_field regex [] cur = err other
  push_field regex (c ∷ cs) cur = push cur (parse_match (c ∷ cs) regex)

  -- One turn of the loop, at index `i` of `from` and the character `c`.
  unfoldable pub step :
      List ℕ
      → Bool
      → ℕ
      → ℕ
      → ParseState
      → Directive v
      → Result ParseError (ParseState × Directive v)
  unfolding may_start push_field level_or_trace set_level_or_target
  step from regex i c start cur =
      if c == b'['
      then ok (span (i + 1), cur)
      else if not (may_start c)
      then err other
      else ok (level_or_target i, cur)
  step from regex i c (level_or_target s) cur =
      if c == b'='
      then ok (level (i + 1), record cur { target = some (slice from s i) })
      else if c == b'['
      then ok (span (i + 1), record cur { target = some (slice from s i) })
      else if c == b','
      then ok (complete, set_level_or_target (drop s from) cur)
      else ok (level_or_target s, cur)
  step from regex i c target cur = if c == b'=' then ok (level (i + 1), cur) else err other
  step from regex i c (span s) cur =
      if c == b']'
      then ok (target, record cur { in_span = some (slice from s i) })
      else if c == b'{'
      then ok (field (i + 1), record cur { in_span = span_name (slice from s i) })
      else ok (span s, cur)
  step from regex i c (field s) cur =
      if c == b'}'
      then (push_field regex (slice from s i) cur >>= λ d. ok (fields, d))
      else if c == b','
      then (push_field regex (slice from s i) cur >>= λ d. ok (field (i + 1), d))
      else ok (field s, cur)
  step from regex i c fields cur = if c == b']' then ok (target, cur) else err other
  step from regex i c (level s) cur =
      if c == b','
      then (level_or_trace (slice from s i) >>= λ l. ok (complete, record cur { level = l }))
      else ok (level s, cur)
  step from regex i c complete cur = err other

  -- The loop over the characters of `from.trim()`, which are counted on from `i`.
  unfoldable pub loop :
      List ℕ
      → Bool
      → ℕ
      → List ℕ
      → ParseState
      → Directive v
      → Result ParseError (ParseState × Directive v)
  unfolding step
  loop from regex i [] state cur = ok (state, cur)
  loop from regex i (c ∷ cs) state cur =
      step from regex i c state cur >>= λ r. loop from regex (i + 1) cs r.0 r.1

  -- What the last state does.
  unfoldable pub finish : List ℕ → ParseState → Directive v → Result ParseError (Directive v)
  unfolding level_or_trace set_level_or_target
  finish from (level_or_target s) cur = ok (set_level_or_target (drop s from) cur)
  finish from (level s) cur = level_or_trace (drop s from) >>= λ l. ok (record cur { level = l })
  finish from target cur = ok cur
  finish from complete cur = ok cur
  finish from start cur = err other
  finish from (span s) cur = err other
  finish from (field s) cur = err other
  finish from fields cur = err other

  -- `Directive::parse`
  unfoldable pub parse : List ℕ → Bool → Result ParseError (Directive v)
  unfolding trim loop finish
  parse from regex = loop from regex 0 (trim from) start initial >>= λ r. finish from r.0 r.1

  -- `Builder::parse`, up to its directives; the pieces between commas that are not empty
  unfoldable pub parse_all : Bool → List ℕ → Result ParseError (List (Directive v))
  unfolding split_on parse
  parse_all regex dirs =
      map_collect (λ s. parse s regex) (filter (λ s. not (is_empty s)) (split_on b',' dirs))
