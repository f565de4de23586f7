-- ===== src/EnvFilter/Hint.antt =====
-- The level hint bounds what an `EnvFilter` enables.
use tracing.Prelude.{ℕ, ◌≤◌, ◌≡◌, ◌⊎◌, inl, inr, true, some, Bool-cases, arith}
use tracing.Level.{Level, trace, LevelFilter}
use tracing.Level.Compare.FilterWithLevel
use tracing.Level.Compare.Verbosity.{level_verbosity, verbosity, as_usize_sum, filter_as_usize_sum}
use tracing.Metadata.{Metadata}
use tracing.Filter.Max.{max_filter-ge}
use tracing.FieldMatch.{Values}
use tracing.Filter.{max_filter}
use tracing.EnvDirective.{has_value_filters}
use tracing.EnvFilter.{EnvFilter, is_enabled, max_level_hint}

pub ge-verbosity :
    (f : LevelFilter) (l : Level) → FilterWithLevel.ge f l ≡ true → level_verbosity l ≤ verbosity f
unfolding FilterWithLevel.ge
ge-verbosity f l h = ground (arith, filter_as_usize_sum f, as_usize_sum l)

level_verbosity-le : (l : Level) → level_verbosity l ≤ 5
level_verbosity-le l = omega (arith, as_usize_sum l)

module _ {v : Values} where
  enabled_by :
      (self : EnvFilter v) (thread : ℕ) (meta : Metadata)
      → is_enabled thread self meta ≡ true
      → (level_verbosity meta.level ≤ verbosity self.statics.max_level)
        ⊎ (level_verbosity meta.level ≤ verbosity self.dynamics.max_level)
  unfolding is_enabled
  enabled_by self thread meta h = ground (
    arith,
    ge-verbosity self.statics.max_level meta.level,
    ge-verbosity self.dynamics.max_level meta.level,
  )

  -- In any state, and on any thread, a filter has a hint, and the metadata that the filter enables
  -- is not more verbose than it.
  pub is_enabled-le-max_level_hint :
      (self : EnvFilter v) (thread : ℕ) (meta : Metadata)
      → is_enabled thread self meta ≡ true
      → (hint : LevelFilter) × (max_level_hint self ≡ some hint)
        × (level_verbosity meta.level ≤ verbosity hint)
  unfolding max_level_hint
  is_enabled-le-max_level_hint self thread meta h =
      elim (Bool-cases (has_value_filters self.dynamics)) [
        | inl e ↦ (some trace, ground arith, level_verbosity-le meta.level)
        | inr e ↦ (
          max_filter self.statics.max_level self.dynamics.max_level,
          ground arith,
          max_filter-ge _ self.statics.max_level self.dynamics.max_level
              (enabled_by self thread meta h),
        )
      ]
