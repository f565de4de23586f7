-- ===== src/Filter/Max.antt =====
-- The greater of two level filters.
use tracing.Prelude.{ℕ, ◌≤◌, ◌⊎◌, arith}
use tracing.Level.{LevelFilter}
use tracing.Level.Compare.LevelFilterPair
use tracing.Level.Compare.Verbosity.{verbosity, filter_as_usize_sum}
use tracing.Filter.{max_filter}

pub max_filter-ge :
    (n : ℕ) (a b : LevelFilter)
    → (n ≤ verbosity a) ⊎ (n ≤ verbosity b)
    → n ≤ verbosity (max_filter a b)
unfolding LevelFilterPair.lt
max_filter-ge n a b h = ground (arith, filter_as_usize_sum a, filter_as_usize_sum b)
