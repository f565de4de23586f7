-- ===== src/EnvDirective/Parse/Parts.antt =====
-- How the state machine reads a target, and the brackets after it up to the end.
use tracing.Prelude.{
  ℕ, ◌+◌, ◌≡◌, refl, ap, ◌∙◌, Bool, true, false, List, [], ◌∷◌, ◌++◌, Option, some, drop, all,
  length, ◌==◌, arith,
}
use tracing.Prelude.Result.{ok}
use tracing.Level.{LevelFilter, display}
use tracing.FieldMatch.{Values}
use tracing.EnvDirective.{Directive}
use tracing.EnvDirective.Parse.{
  ParseState, start, level_or_target, span, field, fields, target, level, step, may_start, initial,
  span_name,
}
use tracing.EnvDirective.Parse.Segments.{
  in_target, in_name, run, run-step, target_segment, span_segment, equals_end, level_end, drop-add,
  drop-ended, drop-segment, slice-segment,
}
use tracing.EnvDirective.Parse.Fields.{unvalued, joined, is_field, fields_run}

-- What stands after the span's name, up to the rest of the text.
abbrev pub inner : List (List ℕ) → List ℕ → List ℕ
inner [] rest = b']' ∷ rest
inner (n ∷ names) rest = b'{' ∷ (joined n names ++ (b'}' ∷ (b']' ∷ rest)))

-- The span that is read.
abbrev pub read_span : List ℕ → List (List ℕ) → Option (List ℕ)
read_span name [] = some name
read_span name (n ∷ names) = span_name name

module _ {v : Values} (from : List ℕ) (regex : Bool) where
  -- The name of the span, what stands after it, and the level.
  inner_run :
      (s : ℕ) (name : List ℕ) (names : List (List ℕ)) (l : LevelFilter) (cur : Directive v)
      → drop s from ≡ name ++ inner names (b'=' ∷ display l)
      → all in_name name ≡ true
      → all is_field names ≡ true
      → cur.fields ≡ []
      → run from regex s (name ++ inner names (b'=' ∷ display l)) (span s) cur
        ≡ ok (record cur { in_span = read_span name names; fields = unvalued names; level = l })
  unfolding step
  inner_run s name [] l cur d h k e =
      span_segment from regex s name (b']' ∷ (b'=' ∷ display l)) cur h
      ∙ (run-step from regex (s + length name) b']' (b'=' ∷ display l) (span s) target cur
            (record cur { in_span = some name })
            (ap (λ t. ok (target, record cur { in_span = some t }))
              (slice-segment from s name (b']' ∷ (b'=' ∷ display l)) d))
          ∙ (equals_end from regex (s + length name + 1) l (record cur { in_span = some name })
                (drop-ended from s b']' name (b'=' ∷ display l) d)
              ∙ ap (λ fs. ok (record cur { in_span = some name; fields = fs; level = l })) e))
  inner_run s name (n ∷ names) l cur d h k e =
      let rest = b']' ∷ (b'=' ∷ display l) in
      let text = joined n names ++ (b'}' ∷ rest) in
      let t = s + length name + 1 in
      let named : Directive v = record cur { in_span = span_name name } in
      let listed : Directive v = record named { fields = cur.fields ++ unvalued (n ∷ names) } in
      let (j, g, q) =
        fields_run from regex t n names rest named (drop-ended from s b'{' name text d) k in
      span_segment from regex s name (b'{' ∷ text) cur h
      ∙ (run-step from regex (s + length name) b'{' text (span s) (field t) cur named (
            ap (λ x. ok (field t, record cur { in_span = span_name x }))
              (slice-segment from s name (b'{' ∷ text) d))
          ∙ (q
              ∙ (run-step from regex j b']' (b'=' ∷ display l) fields target listed listed refl
                  ∙ (equals_end from regex (j + 1) l listed (drop-add j 1 from ∙ ap (drop 1) g)
                      ∙ ap
                          (λ fs.
                            ok (record named { fields = fs ++ unvalued (n ∷ names); level = l }))
                          e))))

  -- From a bracket on, in a state that a bracket leads to a span from.
  pub bracket_run :
      (i : ℕ) (name : List ℕ) (names : List (List ℕ)) (l : LevelFilter) (state : ParseState)
      (cur changed : Directive v)
      → drop i from ≡ b'[' ∷ (name ++ inner names (b'=' ∷ display l))
      → step from regex i b'[' state cur ≡ ok (span (i + 1), changed)
      → all in_name name ≡ true
      → all is_field names ≡ true
      → changed.fields ≡ []
      → run from regex i (b'[' ∷ (name ++ inner names (b'=' ∷ display l))) state cur
        ≡ ok (record changed { in_span = read_span name names; fields = unvalued names; level = l })
  bracket_run i name names l state cur changed d e h k f =
      run-step from regex i b'[' (name ++ inner names (b'=' ∷ display l)) state (span (i + 1)) cur
        changed e
      ∙ inner_run (i + 1) name names l changed (drop-add i 1 from ∙ ap (drop 1) d) h k f

  -- A target at the start, up to what ends it.
  pub target_run :
      (c : ℕ) (cs rest : List ℕ)
      → may_start c ≡ true
      → (c == b'[') ≡ false
      → all in_target cs ≡ true
      → run {v = v} from regex 0 (c ∷ (cs ++ rest)) start initial
        ≡ run {v = v} from regex (0 + length (c ∷ cs)) rest (level_or_target 0) initial
  unfolding step
  target_run c cs rest h b k =
      run-step from regex 0 c (cs ++ rest) start (level_or_target 0) initial initial (ground arith)
      ∙ (target_segment from regex 0 (0 + 1) cs rest initial k
          ∙ ap (λ n. run from regex n rest (level_or_target 0) initial) (omega arith))

  -- After a target: the equals sign or a bracket.
  pub target_equals :
      (t : List ℕ) (l : LevelFilter)
      → from ≡ t ++ (b'=' ∷ display l)
      → run {v = v} from regex (0 + length t) (b'=' ∷ display l) (level_or_target 0) initial
        ≡ ok (record initial { target = some t; level = l })
  unfolding step
  target_equals t l d =
      run-step from regex (0 + length t) b'=' (display l) (level_or_target 0)
        (level (0 + length t + 1)) initial (record initial { target = some t })
        (ap (λ x. ok (level (0 + length t + 1), record initial { target = some x }))
          (slice-segment from 0 t (b'=' ∷ display l) d))
      ∙ level_end from regex (0 + length t + 1) (0 + length t + 1) l
          (record initial { target = some t }) (drop-ended from 0 b'=' t (display l) d)

  pub target_bracket :
      (t name : List ℕ) (names : List (List ℕ)) (l : LevelFilter)
      → from ≡ t ++ (b'[' ∷ (name ++ inner names (b'=' ∷ display l)))
      → all in_name name ≡ true
      → all is_field names ≡ true
      → run {v = v} from regex
          (0 + length t)
          (b'[' ∷ (name ++ inner names (b'=' ∷ display l)))
          (level_or_target 0)
          initial
        ≡ ok (record {
          in_span = read_span name names;
          fields = unvalued names;
          target = some t;
          level = l;
        })
  unfolding step
  target_bracket t name names l d h k =
      let rest = name ++ inner names (b'=' ∷ display l) in
      bracket_run (0 + length t) name names l (level_or_target 0) initial
        (record initial { target = some t }) (drop-segment from 0 t (b'[' ∷ rest) d)
        (ap (λ x. ok (span (0 + length t + 1), record initial { target = some x }))
          (slice-segment from 0 t (b'[' ∷ rest) d))
        h k refl
