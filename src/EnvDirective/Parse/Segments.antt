-- ===== src/EnvDirective/Parse/Segments.antt =====
-- How the state machine passes over a part of a text.
use tracing.Prelude.{
  ℕ, zero, suc, ◌+◌, ◌-◌, ◌≡◌, refl, sym, ap, ◌∙◌, subst, Bool, true, false, not, ◌&&◌, ◌||◌, List,
  [], ◌∷◌, ◌++◌, Option, none, some, drop, take, all, length, ◌==◌, is_empty, if◌then◌else◌, arith,
}
use tracing.Prelude.Result.{Result, ok, ◌>>=◌}
use tracing.Level.{LevelFilter, trace, debug, info, warn, error, display}
use tracing.Level.Parse.Laws.{filter_from_str-display}
use tracing.FieldMatch.{Values}
use tracing.EnvDirective.{Directive}
use tracing.EnvDirective.Parse.{
  ParseError, ParseState, level_or_target, span, field, target, level, slice, step, loop, finish,
  level_or_trace,
}

take-length : (xs ys : List ℕ) → take (length xs) (xs ++ ys) ≡ xs
take-length [] ys = refl
take-length (x ∷ xs) ys = ground (arith, take-length xs ys)

drop-length : (xs ys : List ℕ) → drop (length xs) (xs ++ ys) ≡ ys
drop-length [] ys = refl
drop-length (x ∷ xs) ys = drop-length xs ys

drop-nil : (n : ℕ) → drop {A = ℕ} n [] ≡ []
drop-nil zero = refl
drop-nil (suc n) = refl

pub drop-add : (i j : ℕ) (xs : List ℕ) → drop (i + j) xs ≡ drop j (drop i xs)
drop-add zero j xs = ap (λ n. drop n xs) (omega arith)
drop-add (suc i) j [] =
    let e : suc i + j ≡ suc (i + j) = omega arith in ap (λ n. drop n []) e ∙ sym (drop-nil j)
drop-add (suc i) j (x ∷ xs) =
    let e : suc i + j ≡ suc (i + j) = omega arith in ap (λ n. drop n (x ∷ xs)) e ∙ drop-add i j xs

-- What is sliced from `s` on is the text up to the index.
pub slice-segment :
    (from : List ℕ) (s : ℕ) (mid rest : List ℕ)
    → drop s from ≡ mid ++ rest
    → slice from s (s + length mid) ≡ mid
slice-segment from s mid rest h =
    ap (λ n. take n (drop s from)) (omega arith) ∙ (ap (take (length mid)) h ∙ take-length mid rest)

pub drop-segment :
    (from : List ℕ) (s : ℕ) (mid rest : List ℕ)
    → drop s from ≡ mid ++ rest
    → drop (s + length mid) from ≡ rest
drop-segment from s mid rest h =
    drop-add s (length mid) from ∙ (ap (drop (length mid)) h ∙ drop-length mid rest)

-- The text after a segment and the character that ends it.
pub drop-ended :
    (from : List ℕ) (s c : ℕ) (mid rest : List ℕ)
    → drop s from ≡ mid ++ (c ∷ rest)
    → drop (s + length mid + 1) from ≡ rest
drop-ended from s c mid rest d =
    drop-add (s + length mid) 1 from ∙ ap (drop 1) (drop-segment from s mid (c ∷ rest) d)

-- Characters that the states for targets, spans, fields and levels pass over.
abbrev pub in_target : ℕ → Bool
in_target c = not (c == b'=') && (not (c == b'[') && not (c == b','))

abbrev pub in_name : ℕ → Bool
in_name c = not (c == b']') && not (c == b'{')

abbrev pub in_field : ℕ → Bool
in_field c = not (c == b'}') && (not (c == b',') && not (c == b'='))

abbrev in_level : ℕ → Bool
in_level c = not (c == b',')

display-in_level : (l : LevelFilter) → all in_level (display l) ≡ true
unfolding display
display-in_level none = refl
display-in_level (some trace) = refl
display-in_level (some debug) = refl
display-in_level (some info) = refl
display-in_level (some warn) = refl
display-in_level (some error) = refl

pub level_or_trace-display : (l : LevelFilter) → level_or_trace (display l) ≡ ok l
unfolding display level_or_trace tracing.Prelude.to_ascii_lowercase
level_or_trace-display none = ground (arith, filter_from_str-display (display none) none refl)
level_or_trace-display (some trace) =
    ground (arith, filter_from_str-display (display (some trace)) (some trace) refl)
level_or_trace-display (some debug) =
    ground (arith, filter_from_str-display (display (some debug)) (some debug) refl)
level_or_trace-display (some info) =
    ground (arith, filter_from_str-display (display (some info)) (some info) refl)
level_or_trace-display (some warn) =
    ground (arith, filter_from_str-display (display (some warn)) (some warn) refl)
level_or_trace-display (some error) =
    ground (arith, filter_from_str-display (display (some error)) (some error) refl)

pub append-nil : (xs : List ℕ) → xs ++ [] ≡ xs
append-nil [] = refl
append-nil (x ∷ xs) = ap (λ ys. x ∷ ys) (append-nil xs)

module _ {v : Values} (from : List ℕ) (regex : Bool) where
  unfoldable pub run : ℕ → List ℕ → ParseState → Directive v → Result ParseError (Directive v)
  unfolding loop finish
  run i cs state cur = loop from regex i cs state cur >>= λ r. finish from r.0 r.1

  pub run-step :
      (i c : ℕ) (cs : List ℕ) (state next : ParseState) (cur changed : Directive v)
      → step from regex i c state cur ≡ ok (next, changed)
      → run i (c ∷ cs) state cur ≡ run (i + 1) cs next changed
  unfolding loop run
  run-step i c cs state next cur changed h =
      ap (λ r. (r >>= λ q. loop from regex (i + 1) cs q.0 q.1) >>= λ q. finish from q.0 q.1) h

  -- A state passes over characters that it does not look at.
  run-skip :
      (test : ℕ → Bool) (state : ParseState) (cur : Directive v)
      → ((i c : ℕ) → test c ≡ true → step from regex i c state cur ≡ ok (state, cur))
      → (i : ℕ) (mid rest : List ℕ) → all test mid ≡ true
      → run i (mid ++ rest) state cur ≡ run (i + length mid) rest state cur
  run-skip test state cur stays i [] rest h = ap (λ n. run n rest state cur) (omega arith)
  run-skip test state cur stays i (c ∷ mid) rest h =
      run-step i c (mid ++ rest) state state cur cur (stays i c (ground arith))
      ∙ (run-skip test state cur stays (i + 1) mid rest (ground arith)
          ∙ ap (λ n. run n rest state cur) (omega arith))

  -- A text from `s` on, up to the separator, in the states for targets, spans and fields.
  pub target_segment :
      (s i : ℕ) (mid rest : List ℕ) (cur : Directive v)
      → all in_target mid ≡ true
      → run i (mid ++ rest) (level_or_target s) cur
        ≡ run (i + length mid) rest (level_or_target s) cur
  unfolding step
  target_segment s i mid rest cur h =
      run-skip in_target (level_or_target s) cur (λ j c g. ground arith) i mid rest h

  pub span_segment :
      (s : ℕ) (mid rest : List ℕ) (cur : Directive v)
      → all in_name mid ≡ true
      → run s (mid ++ rest) (span s) cur ≡ run (s + length mid) rest (span s) cur
  unfolding step
  span_segment s mid rest cur h = run-skip in_name (span s) cur (λ j c g. ground arith) s mid rest h

  pub field_segment :
      (s : ℕ) (mid rest : List ℕ) (cur : Directive v)
      → all in_field mid ≡ true
      → run s (mid ++ rest) (field s) cur ≡ run (s + length mid) rest (field s) cur
  unfolding step
  field_segment s mid rest cur h =
      run-skip in_field (field s) cur (λ j c g. ground arith) s mid rest h

  -- The level at the end.
  pub level_end :
      (s i : ℕ) (l : LevelFilter) (cur : Directive v)
      → drop s from ≡ display l
      → run i (display l) (level s) cur ≡ ok (record cur { level = l })
  unfolding step loop finish run
  level_end s i l cur h =
      ap (λ text. run i text (level s) cur) (sym (append-nil (display l)))
      ∙ (run-skip in_level (level s) cur (λ j c g. ground arith) i (display l) []
            (display-in_level l)
          ∙ ap (λ r. r >>= λ m. ok (record cur { level = m }))
              (ap level_or_trace h ∙ level_or_trace-display l))

  pub equals_end :
      (i : ℕ) (l : LevelFilter) (cur : Directive v)
      → drop i from ≡ b'=' ∷ display l
      → run i (b'=' ∷ display l) target cur ≡ ok (record cur { level = l })
  unfolding step
  equals_end i l cur h =
      run-step i b'=' (display l) target (level (i + 1)) cur cur refl
      ∙ level_end (i + 1) (i + 1) l cur (drop-add i 1 from ∙ ap (drop 1) h)
