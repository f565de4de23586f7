-- ===== src/EnvDirective/Parse/RoundTrip.antt =====
-- The state machine on what `Display` writes.
use tracing.Prelude.{
  ℕ, ◌≡◌, refl, sym, ap, subst, ◌∙◌, Bool, true, false, not, ◌&&◌, List, [], ◌∷◌, ◌++◌, Option,
  none, some, all, length, ◌==◌, is_empty, arith,
}
use tracing.Prelude.Result.{ok, ◌>>=◌}
use tracing.Level.{LevelFilter, trace, debug, info, warn, error, display}
use tracing.FieldMatch.{Values, ValueMatch}
use tracing.EnvDirective.{Directive}
use tracing.EnvDirective.Display.{display_matches, display_fields, display_directive}
use tracing.EnvDirective.Parse.{start, parse, may_start, initial, trim, loop, finish, step}
use tracing.EnvDirective.Parse.Segments.{in_target, in_name, run}
use tracing.EnvDirective.Parse.Trim.{trimmed-start, may_start-visible, may_start-bracket}
use tracing.EnvDirective.Parse.Fields.{append_assoc, unvalued, joined, is_field}
use tracing.EnvDirective.Parse.Parts.{
  inner, read_span, bracket_run, target_run, target_equals, target_bracket,
}

-- A target that `parse` reads as one.
abbrev pub is_target : Option (List ℕ) → Bool
is_target none = true
is_target (some []) = false
is_target (some (c ∷ cs)) = may_start c && all in_target cs

abbrev pub is_span_name : Option (List ℕ) → Bool
is_span_name none = true
is_span_name (some name) = not (is_empty name) && all in_name name

read_span-named :
    (s : ℕ) (ss : List ℕ) (names : List (List ℕ)) → read_span (s ∷ ss) names ≡ some (s ∷ ss)
read_span-named s ss [] = refl
read_span-named s ss (n ∷ names) = refl

module _ {v : Values} (show : ValueMatch v → List ℕ) where
  -- A directive whose fields have no values.
  abbrev pub directive :
      Option (List ℕ) → List (List ℕ) → Option (List ℕ) → LevelFilter → Directive v
  directive in_span names target level = record {
    in_span = in_span;
    fields = unvalued names;
    target = target;
    level = level;
  }

  display_matches-joined :
      (name : List ℕ) (names : List (List ℕ))
      → display_matches show (record { name = name; value = none }) (unvalued names)
        ≡ joined name names
  display_matches-joined name [] = refl
  display_matches-joined name (n ∷ names) =
      ap (λ t. name ++ (b',' ∷ t)) (display_matches-joined n names)

  display_fields-inner :
      (names : List (List ℕ)) (rest : List ℕ)
      → display_fields show (unvalued names) ++ (b']' ∷ rest) ≡ inner names rest
  display_fields-inner [] rest = refl
  display_fields-inner (n ∷ names) rest =
      ap (λ t. b'{' ∷ t)
        (append_assoc _ (b'}' ∷ []) (b']' ∷ rest)
          ∙ ap (λ t. t ++ (b'}' ∷ (b']' ∷ rest))) (display_matches-joined n names))

  -- The brackets and what stands in them.
  brackets :
      (name : List ℕ) (names : List (List ℕ)) (rest : List ℕ)
      → (b'[' ∷ (name ++ (display_fields show (unvalued names) ++ (b']' ∷ [])))) ++ rest
        ≡ b'[' ∷ (name ++ inner names rest)
  brackets name names rest =
      ap (λ t. b'[' ∷ t)
        (append_assoc name (display_fields show (unvalued names) ++ (b']' ∷ [])) rest
          ∙ ap (λ t. name ++ t)
              (append_assoc (display_fields show (unvalued names)) (b']' ∷ []) rest
                ∙ display_fields-inner names rest))

  parse-trimmed :
      (s : List ℕ) (regex : Bool)
      → trim s ≡ s
      → parse s regex ≡ run {v = v} s regex 0 s start initial
  unfolding parse run
  parse-trimmed s regex h = ap (λ t. loop s regex 0 t start initial >>= λ r. finish s r.0 r.1) h

  parse-level :
      (l : LevelFilter) (regex : Bool) → parse (display l) regex ≡ ok (directive none [] none l)
  unfolding parse display tracing.Prelude.eq_ignore_ascii_case tracing.Prelude.to_ascii_lowercase
  parse-level none regex = refl
  parse-level (some trace) regex = refl
  parse-level (some debug) regex = refl
  parse-level (some info) regex = refl
  parse-level (some warn) regex = refl
  parse-level (some error) regex = refl

  inner-append :
      (names : List (List ℕ)) (rest text : List ℕ)
      → inner names rest ++ text ≡ inner names (rest ++ text)
  inner-append [] rest text = refl
  inner-append (n ∷ names) rest text =
      ap (λ t. b'{' ∷ t) (append_assoc (joined n names) (b'}' ∷ (b']' ∷ rest)) text)

  inner-end :
      (name : List ℕ) (names : List (List ℕ)) (l : LevelFilter)
      → (name ++ inner names (b'=' ∷ [])) ++ display l ≡ name ++ inner names (b'=' ∷ display l)
  inner-end name names l =
      append_assoc name (inner names (b'=' ∷ [])) (display l)
      ∙ ap (λ t. name ++ t) (inner-append names (b'=' ∷ []) (display l))

  -- The whole texts with brackets, and with a target only.
  parse-brackets :
      (name : List ℕ) (names : List (List ℕ)) (l : LevelFilter) (regex : Bool)
      → all in_name name ≡ true
      → all is_field names ≡ true
      → parse (b'[' ∷ (name ++ inner names (b'=' ∷ display l))) regex
        ≡ ok (directive (read_span name names) names none l)
  unfolding step
  parse-brackets name names l regex h k =
      let text = b'[' ∷ (name ++ inner names (b'=' ∷ display l)) in
      parse-trimmed text regex
        (trimmed-start b'[' (name ++ inner names (b'=' ∷ [])) l (inner-end name names l) refl)
      ∙ bracket_run text regex 0 name names l start initial initial refl refl h k refl

  parse-target :
      (c : ℕ) (cs : List ℕ) (l : LevelFilter) (regex : Bool)
      → is_target (some (c ∷ cs)) ≡ true
      → parse (c ∷ (cs ++ (b'=' ∷ display l))) regex ≡ ok (directive none [] (some (c ∷ cs)) l)
  parse-target c cs l regex h =
      let from = c ∷ (cs ++ (b'=' ∷ display l)) in
      parse-trimmed from regex (
        trimmed-start c (cs ++ (b'=' ∷ [])) l (append_assoc cs (b'=' ∷ []) (display l))
          (may_start-visible c (ground arith)))
      ∙ (target_run from regex c cs (b'=' ∷ display l) (ground arith)
            (may_start-bracket c (ground arith)) (ground arith)
          ∙ target_equals from regex (c ∷ cs) l refl)

  parse-target_brackets :
      (c : ℕ) (cs name : List ℕ) (names : List (List ℕ)) (l : LevelFilter) (regex : Bool)
      → is_target (some (c ∷ cs)) ≡ true
      → all in_name name ≡ true
      → all is_field names ≡ true
      → parse (c ∷ (cs ++ (b'[' ∷ (name ++ inner names (b'=' ∷ display l))))) regex
        ≡ ok (directive (read_span name names) names (some (c ∷ cs)) l)
  parse-target_brackets c cs name names l regex g h k =
      let rest = b'[' ∷ (name ++ inner names (b'=' ∷ display l)) in
      let from = c ∷ (cs ++ rest) in
      parse-trimmed from regex (
        trimmed-start c (cs ++ (b'[' ∷ (name ++ inner names (b'=' ∷ [])))) l
          (append_assoc cs (b'[' ∷ (name ++ inner names (b'=' ∷ []))) (display l)
            ∙ ap (λ t. cs ++ (b'[' ∷ t)) (inner-end name names l))
          (may_start-visible c (ground arith)))
      ∙ (target_run from regex c cs rest (ground arith) (may_start-bracket c (ground arith))
            (ground arith)
          ∙ target_bracket from regex (c ∷ cs) name names l refl h k)

  -- `parse` reads back a directive that `Display` writes, whose fields have no values, where target,
  -- span and field names are not empty and without the characters that end them, and the target
  -- starts with a letter, a digit or one of `-`, `:` and `_`.
  pub parse-display_directive :
      (in_span target : Option (List ℕ)) (names : List (List ℕ)) (l : LevelFilter) (regex : Bool)
      → is_span_name in_span ≡ true
      → is_target target ≡ true
      → all is_field names ≡ true
      → parse (display_directive show (directive in_span names target l)) regex
        ≡ ok (directive in_span names target l)
  unfolding display_directive
  parse-display_directive none none [] l regex g h k = parse-level l regex
  parse-display_directive none none (n ∷ names) l regex g h k =
      ap (λ t. parse t regex) (brackets [] (n ∷ names) (b'=' ∷ display l))
      ∙ parse-brackets [] (n ∷ names) l regex refl k
  parse-display_directive none (some []) names l regex g h k = ground arith
  parse-display_directive none (some (c ∷ cs)) [] l regex g h k = parse-target c cs l regex h
  parse-display_directive none (some (c ∷ cs)) (n ∷ names) l regex g h k =
      ap (λ t. parse (c ∷ (cs ++ t)) regex) (brackets [] (n ∷ names) (b'=' ∷ display l))
      ∙ parse-target_brackets c cs [] (n ∷ names) l regex h refl k
  parse-display_directive (some []) target names l regex g h k = ground arith
  parse-display_directive (some (s ∷ ss)) none names l regex g h k =
      ap (λ t. parse t regex) (brackets (s ∷ ss) names (b'=' ∷ display l))
      ∙ (parse-brackets (s ∷ ss) names l regex (ground arith) k
          ∙ ap (λ r. ok (directive r names none l)) (read_span-named s ss names))
  parse-display_directive (some (s ∷ ss)) (some []) names l regex g h k = ground arith
  parse-display_directive (some (s ∷ ss)) (some (c ∷ cs)) names l regex g h k =
      ap (λ t. parse (c ∷ (cs ++ t)) regex) (brackets (s ∷ ss) names (b'=' ∷ display l))
      ∙ (parse-target_brackets c cs (s ∷ ss) names l regex h (ground arith) k
          ∙ ap (λ r. ok (directive r names (some (c ∷ cs)) l)) (read_span-named s ss names))
