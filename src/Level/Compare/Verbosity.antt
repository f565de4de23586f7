-- ===== src/Level/Compare/Verbosity.antt =====
-- The comparisons against an independent order: how verbose a level or a filter is.
use tracing.Prelude.{
  ℕ, ◌+◌, ◌≡◌, refl, Bool, true, ◌↔◌, ltb, leb, compare, Ordering, Option, some, none, arith,
}
use tracing.Level.{
  Level, trace, debug, info, warn, error, LevelFilter, from_level, as_usize, filter_as_usize,
}
use tracing.Level.Compare.LevelLevel
use tracing.Level.Compare.LevelFilterPair
use tracing.Level.Compare.LevelWithFilter
use tracing.Level.Compare.FilterWithLevel

-- The number that a level has in a directive: 1 for `error` up to 5 for `trace`.
abbrev pub level_verbosity : Level → ℕ
level_verbosity error = 1
level_verbosity warn = 2
level_verbosity info = 3
level_verbosity debug = 4
level_verbosity trace = 5

-- `off` lets nothing through.
abbrev pub verbosity : LevelFilter → ℕ
verbosity none = 0
verbosity (some l) = level_verbosity l

pub as_usize_sum : (l : Level) → as_usize l + level_verbosity l ≡ 5
unfolding as_usize
as_usize_sum trace = refl
as_usize_sum debug = refl
as_usize_sum info = refl
as_usize_sum warn = refl
as_usize_sum error = refl

pub filter_as_usize_sum : (f : LevelFilter) → filter_as_usize f + verbosity f ≡ 5
unfolding filter_as_usize
filter_as_usize_sum none = refl
filter_as_usize_sum (some l) = as_usize_sum l

-- The five comparisons of two values agree with the order of the numbers that they stand for.
pub record Agrees (x y : ℕ) (partial_cmp : Option Ordering) (lt le gt ge : Bool) : Type 0 where
  pub on_partial_cmp : partial_cmp ≡ some (compare x y)
  pub on_lt : lt ≡ ltb x y
  pub on_le : le ≡ leb x y
  pub on_gt : gt ≡ ltb y x
  pub on_ge : ge ≡ leb y x

pub level_level-Agrees :
    (l m : Level)
    → Agrees
        (level_verbosity l)
        (level_verbosity m)
        (LevelLevel.partial_cmp l m)
        (LevelLevel.lt l m)
        (LevelLevel.le l m)
        (LevelLevel.gt l m)
        (LevelLevel.ge l m)
unfolding LevelLevel.partial_cmp LevelLevel.lt LevelLevel.le LevelLevel.gt LevelLevel.ge
level_level-Agrees l m = ground (arith, as_usize_sum l, as_usize_sum m)

filter_filter-Agrees :
    (f g : LevelFilter)
    → Agrees
        (verbosity f)
        (verbosity g)
        (LevelFilterPair.partial_cmp f g)
        (LevelFilterPair.lt f g)
        (LevelFilterPair.le f g)
        (LevelFilterPair.gt f g)
        (LevelFilterPair.ge f g)
unfolding LevelFilterPair.partial_cmp LevelFilterPair.lt LevelFilterPair.le LevelFilterPair.gt
    LevelFilterPair.ge
filter_filter-Agrees f g = ground (arith, filter_as_usize_sum f, filter_as_usize_sum g)

level_filter-Agrees :
    (l : Level) (f : LevelFilter)
    → Agrees
        (level_verbosity l)
        (verbosity f)
        (LevelWithFilter.partial_cmp l f)
        (LevelWithFilter.lt l f)
        (LevelWithFilter.le l f)
        (LevelWithFilter.gt l f)
        (LevelWithFilter.ge l f)
unfolding LevelWithFilter.partial_cmp LevelWithFilter.lt LevelWithFilter.le LevelWithFilter.gt
    LevelWithFilter.ge
level_filter-Agrees l f = ground (arith, as_usize_sum l, filter_as_usize_sum f)

filter_level-Agrees :
    (f : LevelFilter) (l : Level)
    → Agrees
        (verbosity f)
        (level_verbosity l)
        (FilterWithLevel.partial_cmp f l)
        (FilterWithLevel.lt f l)
        (FilterWithLevel.le f l)
        (FilterWithLevel.gt f l)
        (FilterWithLevel.ge f l)
unfolding FilterWithLevel.partial_cmp FilterWithLevel.lt FilterWithLevel.le FilterWithLevel.gt
    FilterWithLevel.ge
filter_level-Agrees f l = ground (arith, filter_as_usize_sum f, as_usize_sum l)

-- The twenty comparisons between two levels and two filters, each with what it is to agree with.
abbrev pub AllAgree : Level → Level → LevelFilter → LevelFilter → Type 0
AllAgree l m f g =
    Agrees (level_verbosity l) (level_verbosity m) (LevelLevel.partial_cmp l m) (LevelLevel.lt l m)
      (LevelLevel.le l m) (LevelLevel.gt l m) (LevelLevel.ge l m)
    × Agrees (verbosity f) (verbosity g) (LevelFilterPair.partial_cmp f g) (LevelFilterPair.lt f g)
        (LevelFilterPair.le f g) (LevelFilterPair.gt f g) (LevelFilterPair.ge f g)
    × Agrees (level_verbosity l) (verbosity f) (LevelWithFilter.partial_cmp l f)
        (LevelWithFilter.lt l f) (LevelWithFilter.le l f) (LevelWithFilter.gt l f)
        (LevelWithFilter.ge l f)
    × Agrees (verbosity f) (level_verbosity l) (FilterWithLevel.partial_cmp f l)
        (FilterWithLevel.lt f l) (FilterWithLevel.le f l) (FilterWithLevel.gt f l)
        (FilterWithLevel.ge f l)

-- All twenty comparisons between levels and filters are the order of verbosity, in which `off` is
-- below `error`, and `trace` is the greatest.
pub comparisons_verbosity : (l m : Level) (f g : LevelFilter) → AllAgree l m f g
comparisons_verbosity l m f g = (
  level_level-Agrees l m,
  filter_filter-Agrees f g,
  level_filter-Agrees l f,
  filter_level-Agrees f l,
)

-- Equality between a level and a filter is equality of the filter that the level makes.
pub eq_level_filter :
    (l : Level) (f : LevelFilter)
    → (LevelWithFilter.eq l f ≡ FilterWithLevel.eq f l)
      × ((LevelWithFilter.eq l f ≡ true) ↔ (from_level l ≡ f))
unfolding LevelWithFilter.eq FilterWithLevel.eq from_level as_usize filter_as_usize
eq_level_filter l f = ground arith
