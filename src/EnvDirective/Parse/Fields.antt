-- ===== src/EnvDirective/Parse/Fields.antt =====
-- How the state machine reads a list of fields without values.
use tracing.Prelude.{
  ℕ, ◌+◌, ◌≡◌, refl, ap, ◌∙◌, Bool, true, not, ◌&&◌, List, [], ◌∷◌, ◌++◌, map, none, drop, all,
  length, is_empty, arith,
}
use tracing.Prelude.Result.{ok, ◌>>=◌}
use tracing.Prelude.Split.{lacks, split_on-lacks}
use tracing.FieldMatch.{Values, Match}
use tracing.FieldMatch.Parse.{parse_match}
use tracing.EnvDirective.{Directive}
use tracing.EnvDirective.Parse.{ParseState, field, fields, slice, step, push_field}
use tracing.EnvDirective.Parse.Segments.{
  in_field, run, run-step, field_segment, drop-ended, slice-segment,
}

pub append_assoc : (xs ys zs : List ℕ) → (xs ++ ys) ++ zs ≡ xs ++ (ys ++ zs)
append_assoc [] ys zs = refl
append_assoc (x ∷ xs) ys zs = ap (λ t. x ∷ t) (append_assoc xs ys zs)

lacks-in_field : (name : List ℕ) → all in_field name ≡ true → lacks b'=' name ≡ true
lacks-in_field [] h = refl
lacks-in_field (c ∷ name) h = ground (arith, lacks-in_field name)

-- Fields without values, of the given names.
abbrev pub unvalued : {v : Values} → List (List ℕ) → List (Match v)
unvalued names = map (λ n. record { name = n; value = none }) names

-- The names with commas between them.
abbrev pub joined : List ℕ → List (List ℕ) → List ℕ
joined name [] = name
joined name (n ∷ names) = name ++ (b',' ∷ joined n names)

-- A name that is not empty, and without separators.
abbrev pub is_field : List ℕ → Bool
is_field name = not (is_empty name) && all in_field name

module _ {v : Values} (from : List ℕ) (regex : Bool) where
  push_field-name :
      (name : List ℕ) (cur : Directive v)
      → is_field name ≡ true
      → push_field regex name cur
        ≡ ok (record cur { fields = cur.fields ++ (record { name = name; value = none } ∷ []) })
  unfolding push_field parse_match
  push_field-name [] cur h = ground arith
  push_field-name (c ∷ cs) cur h =
      ground (arith, split_on-lacks b'=' (c ∷ cs), lacks-in_field (c ∷ cs))

  abbrev with_field : List ℕ → Directive v → Directive v
  with_field name cur = record cur {
    fields = cur.fields ++ (record { name = name; value = none } ∷ []);
  }

  -- One field, up to what ends it.
  field-step :
      (s : ℕ) (name : List ℕ) (c : ℕ) (rest : List ℕ) (next : ParseState) (cur : Directive v)
      → drop s from ≡ name ++ (c ∷ rest)
      → is_field name ≡ true
      → step from regex (s + length name) c (field s) cur
        ≡ (push_field regex (slice from s (s + length name)) cur >>= λ d. ok (next, d))
      → run from regex s (name ++ (c ∷ rest)) (field s) cur
        ≡ run from regex (s + length name + 1) rest next (with_field name cur)
  field-step s name c rest next cur d h e =
      field_segment from regex s name (c ∷ rest) cur (ground arith)
      ∙ run-step from regex (s + length name) c rest (field s) next cur (with_field name cur) (
          e
          ∙ (ap (λ t. push_field regex t cur >>= λ d. ok (next, d))
                (slice-segment from s name (c ∷ rest) d)
              ∙ ap (λ r. r >>= λ d. ok (next, d)) (push_field-name name cur h)))

  append_assoc_fields : (xs ys zs : List (Match v)) → (xs ++ ys) ++ zs ≡ xs ++ (ys ++ zs)
  append_assoc_fields [] ys zs = refl
  append_assoc_fields (x ∷ xs) ys zs = ap (λ t. x ∷ t) (append_assoc_fields xs ys zs)

  -- All fields of a list, up to the brace that closes it.
  pub fields_run :
      (s : ℕ) (name : List ℕ) (names : List (List ℕ)) (rest : List ℕ) (cur : Directive v)
      → drop s from ≡ joined name names ++ (b'}' ∷ rest)
      → all is_field (name ∷ names) ≡ true
      → (j : ℕ) × (drop j from ≡ rest)
        × (run from regex s (joined name names ++ (b'}' ∷ rest)) (field s) cur
            ≡ run from regex j rest fields
                (record cur { fields = cur.fields ++ unvalued (name ∷ names) }))
  unfolding step
  fields_run s name [] rest cur d h = (
    s + length name + 1,
    drop-ended from s b'}' name rest d,
    field-step s name b'}' rest fields cur d (ground arith) refl,
  )
  fields_run s name (n ∷ names) rest cur d h =
      let text = joined n names ++ (b'}' ∷ rest) in
      let split : (name ++ (b',' ∷ joined n names)) ++ (b'}' ∷ rest) ≡ name ++ (b',' ∷ text) =
        append_assoc name (b',' ∷ joined n names) (b'}' ∷ rest) in
      let t = s + length name + 1 in
      let (j, g, k) =
        fields_run t n names rest (with_field name cur)
          (drop-ended from s b',' name text (d ∙ split)) (ground arith) in
      (
        j,
        g,
        ap (λ x. run from regex s x (field s) cur) split
            ∙ (field-step s name b',' text (field t) cur (d ∙ split) (ground arith) refl
                ∙ (k
                    ∙ ap (λ fs. run from regex j rest fields (record cur { fields = fs }))
                        (append_assoc_fields cur.fields (record { name = name; value = none } ∷ [])
                          (unvalued (n ∷ names))))),
      )
