-- ===== src/Level/Compare/LevelWithFilter.antt =====
-- tracing-core/src/metadata.rs: `PartialEq<LevelFilter>` and `PartialOrd<LevelFilter>` for `Level`.
use tracing.Prelude.{Bool, Option, some, compare, Ordering, ltb, leb, ◌==◌}
use tracing.Level.{Level, LevelFilter, as_usize, filter_as_usize}

unfoldable pub eq : Level → LevelFilter → Bool
unfolding as_usize filter_as_usize
eq a b = as_usize a == filter_as_usize b

unfoldable pub partial_cmp : Level → LevelFilter → Option Ordering
unfolding as_usize filter_as_usize
partial_cmp a b = some (compare (filter_as_usize b) (as_usize a))

unfoldable pub lt : Level → LevelFilter → Bool
unfolding as_usize filter_as_usize
lt a b = ltb (filter_as_usize b) (as_usize a)

unfoldable pub le : Level → LevelFilter → Bool
unfolding as_usize filter_as_usize
le a b = leb (filter_as_usize b) (as_usize a)

unfoldable pub gt : Level → LevelFilter → Bool
unfolding as_usize filter_as_usize
gt a b = ltb (as_usize a) (filter_as_usize b)

unfoldable pub ge : Level → LevelFilter → Bool
unfolding as_usize filter_as_usize
ge a b = leb (as_usize a) (filter_as_usize b)
