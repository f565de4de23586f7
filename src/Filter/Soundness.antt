-- ===== src/Filter/Soundness.antt =====
-- What a combined filter caches agrees with what it decides.
use tracing.Prelude.{ℕ, ◌≤◌, ◌≡◌, ◌⊎◌, false, not, ◌&&◌, Option, none, some, arith}
use tracing.Level.{Level, LevelFilter}
use tracing.Level.Compare.LevelFilterPair
use tracing.Level.Compare.Verbosity.{level_verbosity, verbosity, as_usize_sum, filter_as_usize_sum}
use tracing.Interest.{is_never, is_always}
use tracing.Filter.{
  Host, Filter, Expr, given, levels, allow, both, either, invert, build, and, or, negate,
  level_filter, optional, max_both, min_hint,
}

abbrev pub hint_verbosity : Option LevelFilter → ℕ
hint_verbosity none = 5
hint_verbosity (some f) = verbosity f

level_verbosity_bounds : (l : Level) → level_verbosity l ≤ 5
level_verbosity_bounds l = omega (arith, as_usize_sum l)

le-min_hint :
    (n : ℕ) (a b : Option LevelFilter)
    → n ≤ hint_verbosity a
    → n ≤ hint_verbosity b
    → n ≤ 5
    → n ≤ hint_verbosity (min_hint a b)
unfolding LevelFilterPair.lt
le-min_hint n none b h k m = m
le-min_hint n (some a) none h k m = m
le-min_hint n (some a) (some b) h k m = ground (arith, filter_as_usize_sum a, filter_as_usize_sum b)

le-max_both :
    (n : ℕ) (a b : Option LevelFilter)
    → (n ≤ hint_verbosity a) ⊎ (n ≤ hint_verbosity b)
    → n ≤ 5
    → n ≤ hint_verbosity (max_both a b)
unfolding LevelFilterPair.lt
le-max_both n none b h m = m
le-max_both n (some a) none h m = m
le-max_both n (some a) (some b) h m = ground (arith, filter_as_usize_sum a, filter_as_usize_sum b)

module _ {h : Host} where
  -- At one callsite and in one context: `never` and `always` are what the filter decides, and the
  -- level of what it enables is within its hint, if it gives one.
  pub record IsSound (f : Filter h) (meta : h.Meta) (cx : h.Context) : Type 0 where
    pub never_disables : (is_never (f.callsite_enabled meta) && f.enabled meta cx) ≡ false
    pub always_enables : (is_always (f.callsite_enabled meta) && not (f.enabled meta cx)) ≡ false
    pub hint_bounds :
        (f.enabled meta cx ≡ false)
        ⊎ (level_verbosity (h.level meta) ≤ hint_verbosity f.max_level_hint)

  -- The filters of which a combination is made.
  abbrev pub AllSound : Expr h → h.Meta → h.Context → Type 0
  AllSound (given f) meta cx = IsSound f meta cx
  AllSound (levels l) meta cx = Unit
  AllSound allow meta cx = Unit
  AllSound (both a b) meta cx = AllSound a meta cx × AllSound b meta cx
  AllSound (either a b) meta cx = AllSound a meta cx × AllSound b meta cx
  AllSound (invert a) meta cx = AllSound a meta cx

  and-IsSound :
      (f g : Filter h) (meta : h.Meta) (cx : h.Context)
      → IsSound f meta cx
      → IsSound g meta cx
      → IsSound (and f g) meta cx
  unfolding and
  and-IsSound f g meta cx s t = ground (
    arith,
    le-min_hint (level_verbosity (h.level meta)) f.max_level_hint g.max_level_hint,
    level_verbosity_bounds (h.level meta),
  )

  or-IsSound :
      (f g : Filter h) (meta : h.Meta) (cx : h.Context)
      → IsSound f meta cx
      → IsSound g meta cx
      → IsSound (or f g) meta cx
  unfolding or
  or-IsSound f g meta cx s t = ground (
    arith,
    le-max_both (level_verbosity (h.level meta)) f.max_level_hint g.max_level_hint,
    level_verbosity_bounds (h.level meta),
  )

  negate-IsSound :
      (f : Filter h) (meta : h.Meta) (cx : h.Context)
      → IsSound f meta cx
      → IsSound (negate f) meta cx
  unfolding negate
  negate-IsSound f meta cx s = ground (arith, level_verbosity_bounds (h.level meta))

  level_filter-IsSound :
      (l : LevelFilter) (meta : h.Meta) (cx : h.Context) → IsSound (level_filter {h = h} l) meta cx
  unfolding level_filter
  level_filter-IsSound l meta cx =
      ground (arith, as_usize_sum (h.level meta), filter_as_usize_sum l)

  allow-IsSound : (meta : h.Meta) (cx : h.Context) → IsSound (optional {h = h} none) meta cx
  unfolding optional
  allow-IsSound meta cx = ground (arith, level_verbosity_bounds (h.level meta))

  -- Any combination of `and`, `or`, `not`, level filters and absent filters is sound at a callsite
  -- and in a context where the filters that it is made of are: `never` is cached only for what it
  -- disables, `always` only for what it enables, and its hint bounds the level of what it enables.
  pub build-IsSound :
      (e : Expr h) (meta : h.Meta) (cx : h.Context) → AllSound e meta cx → IsSound (build e) meta cx
  unfolding build
  build-IsSound (given f) meta cx s = s
  build-IsSound (levels l) meta cx s = level_filter-IsSound l meta cx
  build-IsSound allow meta cx s = allow-IsSound meta cx
  build-IsSound (both a b) meta cx s =
      and-IsSound (build a) (build b) meta cx (build-IsSound a meta cx s.0)
        (build-IsSound b meta cx s.1)
  build-IsSound (either a b) meta cx s =
      or-IsSound (build a) (build b) meta cx (build-IsSound a meta cx s.0)
        (build-IsSound b meta cx s.1)
  build-IsSound (invert a) meta cx s = negate-IsSound (build a) meta cx (build-IsSound a meta cx s)
