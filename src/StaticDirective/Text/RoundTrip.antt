-- ===== src/StaticDirective/Text/RoundTrip.antt =====
-- What is printed is parsed again to what it was.
use mathlib.Core.List.{append_assoc}
use tracing.Prelude.{
  ℕ, ◌≡◌, refl, sym, ap, ◌∙◌, Bool, true, not, ◌&&◌, List, [], ◌∷◌, ◌++◌, Option, none, some,
  is_empty, all, arith,
}
use tracing.Prelude.Split.{
  lacks, split_on-lacks, split_on-append, split_on_pair-lacks, split_on_pair-append,
  ends_with_pair-append, trim_end_pair-append, lacks-append, join, split_on-join, lacks-join,
}
use tracing.Prelude.Result.{ok}
use tracing.Level.{LevelFilter, display, trace, debug, info, warn, error}
use tracing.Level.Parse.{filter_from_str}
use tracing.Level.Parse.Laws.{filter_from_str-display, lower-display}
use tracing.StaticDirective.{StaticDirective}
use tracing.StaticDirective.Text.{
  display_directive, directive_from_str, parse_parts, parse_assignment, parse_bare, parse_fields,
  parse_level, nonempty, level_or_error, level_or_target,
}

-- The bytes that separate parts do not stand in a target or a field name, and no name is empty.
abbrev pub is_target : List ℕ → Bool
is_target t = lacks b'=' t && (lacks b',' t && lacks b'[' t)

abbrev pub is_field : List ℕ → Bool
is_field name =
    not (is_empty name)
    && (lacks b'=' name && (lacks b',' name && (lacks b'[' name && lacks b'}' name)))

-- A directive with field names has a target, as all that are parsed.
abbrev pub is_printable : StaticDirective → Bool
is_printable d = elim d.target [
  | none ↦ is_empty d.field_names
  | some target ↦ is_target target && all is_field d.field_names
]

pub lacks-display : (f : LevelFilter) → (lacks b'=' (display f) && lacks b',' (display f)) ≡ true
unfolding display
lacks-display none = refl
lacks-display (some trace) = refl
lacks-display (some debug) = refl
lacks-display (some info) = refl
lacks-display (some warn) = refl
lacks-display (some error) = refl

filter_from_str-displayed : (f : LevelFilter) → filter_from_str (display f) ≡ some f
filter_from_str-displayed f = filter_from_str-display (display f) f (lower-display f)

all-field :
    (p : List ℕ → Bool) (names : List (List ℕ))
    → ((name : List ℕ) → is_field name ≡ true → p name ≡ true)
    → all is_field names ≡ true
    → all p names ≡ true
all-field p [] f h = refl
all-field p (name ∷ names) f h = ground (arith, f name, all-field p names f)

nonempty-fields : (names : List (List ℕ)) → all is_field names ≡ true → nonempty names ≡ names
unfolding nonempty
nonempty-fields [] h = refl
nonempty-fields ([] ∷ names) h = ground arith
nonempty-fields ((c ∷ name) ∷ names) h =
    ap (λ rest. (c ∷ name) ∷ rest) (nonempty-fields names (ground arith))

-- The names of a directive, between the bytes that enclose them.
abbrev enclosed : List ℕ → List (List ℕ) → List ℕ
enclosed name names = join b',' name names ++ (b'}' ∷ b']' ∷ [])

lacks-enclosed :
    (c : ℕ) (name : List ℕ) (names : List (List ℕ))
    → lacks c (b',' ∷ b'}' ∷ b']' ∷ []) ≡ true
    → all (lacks c) (name ∷ names) ≡ true
    → lacks c (enclosed name names) ≡ true
lacks-enclosed c name names d h =
    lacks-append c (join b',' name names) (b'}' ∷ b']' ∷ [])
      (lacks-join c b',' name names (ground arith) h) (ground arith)

parse_fields-enclosed :
    (name : List ℕ) (names : List (List ℕ))
    → all is_field (name ∷ names) ≡ true
    → parse_fields (enclosed name names ∷ []) ≡ ok (name ∷ names)
unfolding parse_fields
parse_fields-enclosed name names h =
    rw
      (
        ends_with_pair-append b'}' b']' (join b',' name names),
        trim_end_pair-append b'}' b']' (join b',' name names) refl (
            lacks-join b'}' b',' name names refl
              (all-field (lacks b'}') (name ∷ names) (λ n k. ground arith) h)),
        split_on-join b',' name names
            (all-field (lacks b',') (name ∷ names) (λ n k. ground arith) h),
        nonempty-fields (name ∷ names) h,
      )
      refl

parse_level-displayed : (f : LevelFilter) → parse_level (display f) ≡ ok f
unfolding parse_level
parse_level-displayed f = ap level_or_error (filter_from_str-displayed f)

-- a text with one `=`, before a level
directive_from_str-assignment :
    (part0 : List ℕ) (level : LevelFilter)
    → lacks b'=' part0 ≡ true
    → directive_from_str (part0 ++ (b'=' ∷ display level)) ≡ parse_assignment part0 (display level)
unfolding directive_from_str
directive_from_str-assignment part0 level h = ap parse_parts (
    split_on-append b'=' part0 (display level) h
    ∙ ap (λ pieces. part0 ∷ pieces)
        (split_on-lacks b'=' (display level) (ground (arith, lacks-display level))))

parse_assignment-plain :
    (target : List ℕ) (level : LevelFilter)
    → lacks b'[' target ≡ true
    → parse_assignment target (display level)
      ≡ ok (record { target = some target; field_names = []; level = level })
unfolding parse_assignment
parse_assignment-plain target level h =
    rw (split_on_pair-lacks b'[' b'{' target h, parse_level-displayed level) refl

parse_assignment-fields :
    (target name : List ℕ) (names : List (List ℕ)) (level : LevelFilter)
    → lacks b'[' target ≡ true
    → all is_field (name ∷ names) ≡ true
    → parse_assignment (target ++ (b'[' ∷ b'{' ∷ enclosed name names)) (display level)
      ≡ ok (record { target = some target; field_names = name ∷ names; level = level })
unfolding parse_assignment
parse_assignment-fields target name names level h k =
    rw
      (
        split_on_pair-append b'[' b'{' target (enclosed name names) h,
        split_on_pair-lacks b'[' b'{' (enclosed name names) (
            lacks-enclosed b'[' name names refl
              (all-field (lacks b'[') (name ∷ names) (λ n e. ground arith) k)),
        parse_fields-enclosed name names k,
        parse_level-displayed level,
      )
      refl

directive_from_str-some :
    (target : List ℕ) (names : List (List ℕ)) (level : LevelFilter)
    → is_target target ≡ true
    → all is_field names ≡ true
    → directive_from_str
        (display_directive (record { target = some target; field_names = names; level = level }))
      ≡ ok (record { target = some target; field_names = names; level = level })
unfolding display_directive
directive_from_str-some target [] level h k =
    directive_from_str-assignment target level (ground arith)
    ∙ parse_assignment-plain target level (ground arith)
directive_from_str-some target (name ∷ names) level h k =
    ap directive_from_str
      (sym (append_assoc target (b'[' ∷ b'{' ∷ enclosed name names) (b'=' ∷ display level)))
    ∙ directive_from_str-assignment (target ++ (b'[' ∷ b'{' ∷ enclosed name names)) level (
        lacks-append b'=' target (b'[' ∷ b'{' ∷ enclosed name names) (ground arith) (
          ground (
            arith,
            lacks-enclosed b'=' name names refl
                (all-field (lacks b'=') (name ∷ names) (λ n e. ground arith) k),
          )))
    ∙ parse_assignment-fields target name names level (ground arith) k

directive_from_str-none :
    (level : LevelFilter)
    → directive_from_str
        (display_directive (record { target = none; field_names = []; level = level }))
      ≡ ok (record { target = none; field_names = []; level = level })
unfolding display_directive directive_from_str parse_bare
directive_from_str-none level =
    ap parse_parts (split_on-lacks b'=' (display level) (ground (arith, lacks-display level)))
    ∙ ap (λ l. ok (level_or_target (display level) l)) (filter_from_str-displayed level)

-- The printed form of a directive is parsed to the directive, if its target and field names do not
-- hold the bytes that separate them, no field name is empty, and it names fields only with a target.
pub directive_from_str-display_directive :
    (d : StaticDirective) → is_printable d ≡ true → directive_from_str (display_directive d) ≡ ok d
directive_from_str-display_directive d h = by_target d.target d.field_names h
  where
    by_target :
        (target : Option (List ℕ)) (names : List (List ℕ))
        → is_printable (record { target = target; field_names = names; level = d.level }) ≡ true
        → directive_from_str
            (display_directive (record { target = target; field_names = names; level = d.level }))
          ≡ ok (record { target = target; field_names = names; level = d.level })
    by_target none [] k = directive_from_str-none d.level
    by_target none (name ∷ names) k = ground arith
    by_target (some target) names k =
        directive_from_str-some target names d.level (ground arith) (ground arith)
