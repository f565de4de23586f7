-- ===== src/Level/Compare/LevelFilterPair.antt =====
-- tracing-core/src/metadata.rs: `PartialOrd` and `Ord` for `LevelFilter`.
use tracing.Prelude.{Bool, Option, some, compare, Ordering, ltb, leb}
use tracing.Level.{LevelFilter, filter_as_usize}

unfoldable pub cmp : LevelFilter → LevelFilter → Ordering
unfolding filter_as_usize
cmp a b = compare (filter_as_usize b) (filter_as_usize a)

unfoldable pub partial_cmp : LevelFilter → LevelFilter → Option Ordering
unfolding cmp
partial_cmp a b = some (cmp a b)

unfoldable pub lt : LevelFilter → LevelFilter → Bool
unfolding filter_as_usize
lt a b = ltb (filter_as_usize b) (filter_as_usize a)

unfoldable pub le : LevelFilter → LevelFilter → Bool
unfolding filter_as_usize
le a b = leb (filter_as_usize b) (filter_as_usize a)

unfoldable pub gt : LevelFilter → LevelFilter → Bool
unfolding filter_as_usize
gt a b = ltb (filter_as_usize a) (filter_as_usize b)

unfoldable pub ge : LevelFilter → LevelFilter → Bool
unfolding filter_as_usize
ge a b = leb (filter_as_usize a) (filter_as_usize b)
