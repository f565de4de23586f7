-- ===== src/Prelude/Integer.antt =====
-- The integers over the native numbers, and `i64::from_str`.
use Prim.Native.Nat.{ℕ, zero, suc, ◌^◌, compare, Ordering}
use Prim.Native.Nat.Ordering.{lt, eq, gt}
use mathlib.Core.Bool.{Bool, true, false}
use mathlib.Core.Option.{Option, none, some}
use mathlib.Core.List.{List, [], ◌∷◌}
use tracing.Prelude.Tests.{ltb, leb, ◌==◌, if◌then◌else◌}
use tracing.Prelude.Text.{parse_digits, parse_usize}

-- `negsuc n` is -(n + 1).
pub data ℤ : Type 0 where
  pos negsuc : ℕ → ℤ

abbrev pub int_cmp : ℤ → ℤ → Ordering
int_cmp (pos a) (pos b) = compare a b
int_cmp (pos a) (negsuc b) = gt
int_cmp (negsuc a) (pos b) = lt
int_cmp (negsuc a) (negsuc b) = compare b a

abbrev pub int_eq : ℤ → ℤ → Bool
int_eq a b = elim (int_cmp a b) [ eq ↦ true | _ ↦ false ]

abbrev negated : ℕ → ℤ
negated zero = pos 0
negated (suc n) = negsuc n

-- at least -2^63, and less than 2^63
abbrev negative_i64 : Option ℕ → Option ℤ
negative_i64 none = none
negative_i64 (some n) = if leb n (2 ^ 63) then some (negated n) else none

abbrev positive_i64 : Option ℕ → Option ℤ
positive_i64 none = none
positive_i64 (some n) = if ltb n (2 ^ 63) then some (pos n) else none

-- `i64::from_str`: as for `usize`, with a minus sign too
unfoldable pub parse_i64 : List ℕ → Option ℤ
unfolding parse_usize
parse_i64 [] = none
parse_i64 (c ∷ []) = positive_i64 (parse_usize (c ∷ []))
parse_i64 (c ∷ d ∷ cs) =
    if c == b'-'
    then negative_i64 (parse_digits 0 (d ∷ cs))
    else positive_i64 (parse_usize (c ∷ d ∷ cs))
