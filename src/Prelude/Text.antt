-- ===== src/Prelude/Text.antt =====
-- Texts as lists of bytes, and what the sources use of `str` and of `usize::from_str`.
use Prim.Native.Nat.{ℕ, ◌+◌, ◌-◌, ◌*◌, ◌^◌, ◌≤◌}
use Prim.Native.Char.{code}
use Prim.Native.String.{String}
use mathlib.Core.Path.{◌≡◌, refl}
use mathlib.Core.Bool.{Bool, true, false, ◌&&◌}
use mathlib.Core.Option.{Option, none, some}
use mathlib.Core.List.{List, [], ◌∷◌, map}
use native.Mathlib.Omega.{arith}
use tracing.Prelude.Tests.{ltb, leb, ◌==◌, if◌then◌else◌}

-- The bytes of an ASCII literal.
abbrev pub codes : String → List ℕ
codes String.[] = []
codes (String.◌∷◌ c s) = code c ∷ codes s

-- `==` on `str`
abbrev pub beq : List ℕ → List ℕ → Bool
beq [] [] = true
beq [] (y ∷ ys) = false
beq (x ∷ xs) [] = false
beq (x ∷ xs) (y ∷ ys) = (x == y) && beq xs ys

pub beq_refl : (xs : List ℕ) → beq xs xs ≡ true
beq_refl [] = refl
beq_refl (x ∷ xs) = ground (arith, beq_refl xs)

pub eq_of_beq : (xs ys : List ℕ) → beq xs ys ≡ true → xs ≡ ys
eq_of_beq [] [] h = refl
eq_of_beq [] (y ∷ ys) h = ground arith
eq_of_beq (x ∷ xs) [] h = ground arith
eq_of_beq (x ∷ xs) (y ∷ ys) h = ground (arith, eq_of_beq xs ys)

-- `s.starts_with(prefix)`
abbrev pub starts_with : List ℕ → List ℕ → Bool
starts_with s [] = true
starts_with [] (p ∷ ps) = false
starts_with (c ∷ s) (p ∷ ps) = (c == p) && starts_with s ps

pub starts_with_refl : (s : List ℕ) → starts_with s s ≡ true
starts_with_refl [] = refl
starts_with_refl (c ∷ s) = ground (arith, starts_with_refl s)

unfoldable pub to_ascii_lowercase : ℕ → ℕ
to_ascii_lowercase c = if leb b'A' c && leb c b'Z' then c + 32 else c

abbrev pub lower : List ℕ → List ℕ
lower = map to_ascii_lowercase

-- `s.eq_ignore_ascii_case(t)`
unfoldable pub eq_ignore_ascii_case : List ℕ → List ℕ → Bool
eq_ignore_ascii_case s t = beq (lower s) (lower t)

pub eq_of_eq_ignore_ascii_case :
    (s t : List ℕ) → eq_ignore_ascii_case s t ≡ true → lower s ≡ lower t
unfolding eq_ignore_ascii_case
eq_of_eq_ignore_ascii_case s t h = eq_of_beq (lower s) (lower t) h

pub eq_ignore_ascii_case_of_eq :
    (s t : List ℕ) → lower s ≡ lower t → eq_ignore_ascii_case s t ≡ true
unfolding eq_ignore_ascii_case
eq_ignore_ascii_case_of_eq s t h = ground (arith, beq_refl (lower t))

unfoldable pub is_digit : ℕ → Bool
is_digit c = leb b'0' c && leb c b'9'

-- The digits of a number; a value of 2^64 or more is refused.
abbrev pub parse_digits : ℕ → List ℕ → Option ℕ
unfolding is_digit
parse_digits acc [] = some acc
parse_digits acc (c ∷ cs) =
    let value = acc * 10 + (c - 48) in
    let rest = parse_digits value cs in if is_digit c && ltb value (2 ^ 64) then rest else none

-- `usize::from_str` on a 64-bit target: an optional plus sign and at least one digit.
unfoldable pub parse_usize : List ℕ → Option ℕ
unfolding is_digit
parse_usize [] = none
parse_usize (c ∷ []) = parse_digits 0 (c ∷ [])
parse_usize (c ∷ d ∷ cs) =
    if c == b'+' then parse_digits 0 (d ∷ cs) else parse_digits 0 (c ∷ d ∷ cs)

-- A text whose first byte is a letter, in either case, is not a number.
pub parse_usize_of_letter :
    (c : ℕ) (cs : List ℕ) → b'a' ≤ to_ascii_lowercase c → parse_usize (c ∷ cs) ≡ none
unfolding to_ascii_lowercase parse_usize is_digit
parse_usize_of_letter c [] h = ground arith
parse_usize_of_letter c (d ∷ cs) h = ground arith
