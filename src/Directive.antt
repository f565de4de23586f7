-- ===== src/Directive.antt =====
-- tracing-subscriber/src/filter/directive.rs: `DirectiveSet`, for any type of directives that has
-- `Ord` and `Match`.
pub mod Sorted
pub mod Contents
pub mod Selected
pub mod Rebuild
use Prim.Native.Nat.Ordering.{lt, eq, gt}
use tracing.Prelude.{ℕ, zero, suc, Bool, List, [], ◌∷◌, Option, none, some, Ordering, if◌then◌else◌}
use tracing.Level.{LevelFilter, off}
use tracing.Level.Compare.LevelFilterPair
use tracing.Metadata.{Metadata}

-- The traits `Ord` and `Match` of the directives.
pub record Directives (T : Type 0) : Type 0 where
  pub cmp : T → T → Ordering
  pub level : T → LevelFilter
  pub cares_about : T → Metadata → Bool

-- `struct DirectiveSet`
pub record DirectiveSet (T : Type 0) : Type 0 where
  pub directives : List T
  pub max_level : LevelFilter

-- The result of `binary_search`: `Ok(i)` or `Err(i)`.
pub data Search : Type 0 where
  found : ℕ → Search
  insert_at : ℕ → Search

abbrev next_index : Search → Search
next_index (found i) = found (suc i)
next_index (insert_at i) = insert_at (suc i)

module _ {T : Type 0} where
  -- `directives[i] = directive`, with `i` in bounds
  abbrev replace : List T → ℕ → T → List T
  replace [] i d = []
  replace (x ∷ xs) zero d = d ∷ xs
  replace (x ∷ xs) (suc i) d = x ∷ replace xs i d

  -- `Vec::insert`
  abbrev insert : List T → ℕ → T → List T
  insert xs zero d = d ∷ xs
  insert [] (suc i) d = d ∷ []
  insert (x ∷ xs) (suc i) d = x ∷ insert xs i d

  -- `DirectiveSet::default`
  abbrev pub empty : DirectiveSet T
  empty = record { directives = []; max_level = off }

module _ {T : Type 0} (t : Directives T) where
  open t use {cmp, level, cares_about}

  -- `binary_search`: on a sorted sequence without two equal elements its result is determined, so
  -- the first element that is not less is as good as the middle one.
  unfoldable pub binary_search : List T → T → Search
  binary_search [] d = insert_at 0
  binary_search (x ∷ xs) d = elim (cmp x d) [
    | lt ↦ next_index (binary_search xs d)
    | eq ↦ found 0
    | gt ↦ insert_at 0
  ]

  abbrev put : List T → T → Search → List T
  put xs d (found i) = replace xs i d
  put xs d (insert_at i) = insert xs i d

  -- `DirectiveSet::add`
  unfoldable pub add : T → DirectiveSet T → DirectiveSet T
  unfolding binary_search LevelFilterPair.gt
  add d self = record {
    directives = put self.directives d (binary_search self.directives d);
    max_level = if LevelFilterPair.gt (level d) self.max_level then level d else self.max_level;
  }

  -- `Extend::extend`
  unfoldable pub extend : List T → DirectiveSet T → DirectiveSet T
  extend [] self = self
  extend (d ∷ ds) self = extend ds (add d self)

  -- `FromIterator::from_iter`
  unfoldable pub from_iter : List T → DirectiveSet T
  unfolding extend
  from_iter ds = extend ds empty

  -- `directives_for(..).next()`, over the test that the filter makes
  unfoldable pub first : (T → Bool) → List T → Option T
  first test [] = none
  first test (x ∷ xs) = if test x then some x else first test xs

  -- `directives_for(metadata).next()`
  unfoldable pub directive_for : Metadata → DirectiveSet T → Option T
  unfolding first
  directive_for meta self = first (λ d. cares_about d meta) self.directives
