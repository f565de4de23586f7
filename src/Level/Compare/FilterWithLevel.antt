-- ===== src/Level/Compare/FilterWithLevel.antt =====
-- tracing-core/src/metadata.rs: `PartialEq<Level>` and `PartialOrd<Level>` for `LevelFilter`.
use tracing.Prelude.{Bool, Option, some, compare, Ordering, ltb, leb, ◌==◌}
use tracing.Level.{Level, LevelFilter, as_usize, filter_as_usize}

unfoldable pub eq : LevelFilter → Level → Bool
unfolding as_usize filter_as_usize
eq a b = filter_as_usize a == as_usize b

unfoldable pub partial_cmp : LevelFilter → Level → Option Ordering
unfolding as_usize filter_as_usize
partial_cmp a b = some (compare (as_usize b) (filter_as_usize a))

unfoldable pub lt : LevelFilter → Level → Bool
unfolding as_usize filter_as_usize
lt a b = ltb (as_usize b) (filter_as_usize a)

unfoldable pub le : LevelFilter → Level → Bool
unfolding as_usize filter_as_usize
le a b = leb (as_usize b) (filter_as_usize a)

unfoldable pub gt : LevelFilter → Level → Bool
unfolding as_usize filter_as_usize
gt a b = ltb (filter_as_usize a) (as_usize b)

unfoldable pub ge : LevelFilter → Level → Bool
unfolding as_usize filter_as_usize
ge a b = leb (filter_as_usize a) (as_usize b)
