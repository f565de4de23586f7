-- ===== src/Level/Compare/LevelLevel.antt =====
-- tracing-core/src/metadata.rs: `PartialOrd` and `Ord` for `Level`.
use tracing.Prelude.{Bool, Option, some, compare, Ordering, ltb, leb}
use tracing.Level.{Level, as_usize}

unfoldable pub cmp : Level → Level → Ordering
unfolding as_usize
cmp a b = compare (as_usize b) (as_usize a)

unfoldable pub partial_cmp : Level → Level → Option Ordering
unfolding cmp
partial_cmp a b = some (cmp a b)

unfoldable pub lt : Level → Level → Bool
unfolding as_usize
lt a b = ltb (as_usize b) (as_usize a)

unfoldable pub le : Level → Level → Bool
unfolding as_usize
le a b = leb (as_usize b) (as_usize a)

unfoldable pub gt : Level → Level → Bool
unfolding as_usize
gt a b = ltb (as_usize a) (as_usize b)

unfoldable pub ge : Level → Level → Bool
unfolding as_usize
ge a b = leb (as_usize a) (as_usize b)
