-- ===== src/EnvDirective/Parse/Trim.antt =====
-- A printed directive has no white space at its ends.
use tracing.Prelude.{
  ℕ, ◌≡◌, refl, ap, subst, ◌∙◌, true, false, List, [], ◌∷◌, ◌++◌, none, some, ◌==◌, is_empty, arith,
}
use tracing.Level.{LevelFilter, trace, debug, info, warn, error, display}
use tracing.EnvDirective.Parse.{may_start, trim, trim_start, trim_end, is_whitespace}

trim_end-display : (l : LevelFilter) → trim_end (display l) ≡ display l
unfolding display
trim_end-display none = refl
trim_end-display (some trace) = refl
trim_end-display (some debug) = refl
trim_end-display (some info) = refl
trim_end-display (some warn) = refl
trim_end-display (some error) = refl

is_empty-display : (l : LevelFilter) → is_empty (display l) ≡ false
unfolding display
is_empty-display none = refl
is_empty-display (some trace) = refl
is_empty-display (some debug) = refl
is_empty-display (some info) = refl
is_empty-display (some warn) = refl
is_empty-display (some error) = refl

is_empty-append : (front back : List ℕ) → is_empty back ≡ false → is_empty (front ++ back) ≡ false
is_empty-append [] back h = h
is_empty-append (c ∷ front) back h = refl

trim_end-append :
    (front : List ℕ) (l : LevelFilter) → trim_end (front ++ display l) ≡ front ++ display l
trim_end-append [] l = trim_end-display l
trim_end-append (c ∷ front) l =
    ground (arith, trim_end-append front l, is_empty-append front (display l), is_empty-display l)

trim-display :
    (c : ℕ) (front : List ℕ) (l : LevelFilter)
    → is_whitespace c ≡ false
    → trim (c ∷ (front ++ display l)) ≡ c ∷ (front ++ display l)
unfolding trim
trim-display c front l h = ap trim_start (trim_end-append (c ∷ front) l) ∙ ground arith

pub trimmed-start :
    (c : ℕ) (front : List ℕ) (l : LevelFilter) {rest : List ℕ}
    → front ++ display l ≡ rest
    → is_whitespace c ≡ false
    → trim (c ∷ rest) ≡ c ∷ rest
trimmed-start c front l e h = subst (λ r. trim (c ∷ r) ≡ c ∷ r) e (trim-display c front l h)

pub may_start-visible : (c : ℕ) → may_start c ≡ true → is_whitespace c ≡ false
unfolding may_start
may_start-visible c h = ground arith

pub may_start-bracket : (c : ℕ) → may_start c ≡ true → (c == b'[') ≡ false
unfolding may_start
may_start-bracket c h = ground arith
