-- ===== src/Filter/Functions.antt =====
-- tracing-subscriber/src/filter/filter_fn.rs: filters by closures. Where debug assertions are on, a
-- call whose assertion fails panics; the conditions of the assertions are functions of their own.
use tracing.Prelude.{
  ◌≡◌, Bool, true, false, not, ◌&&◌, ◌||◌, [], Option, none, some, if◌then◌else◌, arith, ◌≤◌,
}
use tracing.Level.{LevelFilter}
use tracing.Level.Compare.LevelWithFilter
use tracing.Level.Compare.Verbosity.{level_verbosity, as_usize_sum, filter_as_usize_sum}
use tracing.Interest.{Interest, never, sometimes, always, is_never, is_always}
use tracing.Filter.{Host, Filter}
use tracing.Filter.Soundness.{IsSound, hint_verbosity}

module _ (h : Host) where
  -- `struct FilterFn` and `struct DynFilterFn`
  pub record FilterFn : Type 0 where
    pub enabled : h.Meta → Bool
    pub max_level_hint : Option LevelFilter

  pub record DynFilterFn : Type 0 where
    pub enabled : h.Meta → h.Context → Bool
    pub register_callsite : Option (h.Meta → Interest)
    pub max_level_hint : Option LevelFilter

  -- `FilterFn::new` and `filter_fn`, `DynFilterFn::new` and `dynamic_filter_fn`, and their builders
  unfoldable pub filter_fn : (h.Meta → Bool) → FilterFn
  filter_fn enabled = record { enabled = enabled; max_level_hint = none }

  unfoldable pub with_max_level_hint : LevelFilter → FilterFn → FilterFn
  with_max_level_hint hint self = record self { max_level_hint = some hint }

  unfoldable pub dynamic_filter_fn : (h.Meta → h.Context → Bool) → DynFilterFn
  dynamic_filter_fn enabled = record {
    enabled = enabled;
    register_callsite = none;
    max_level_hint = none;
  }

  unfoldable pub dyn_with_max_level_hint : LevelFilter → DynFilterFn → DynFilterFn
  dyn_with_max_level_hint hint self = record self { max_level_hint = some hint }

  unfoldable pub with_callsite_filter : (h.Meta → Interest) → DynFilterFn → DynFilterFn
  with_callsite_filter callsite_enabled self = record self {
    register_callsite = some callsite_enabled;
  }

  -- `is_below_max_level`
  unfoldable pub is_below_max_level : Option LevelFilter → h.Meta → Bool
  unfolding LevelWithFilter.le
  is_below_max_level none meta = true
  is_below_max_level (some hint) meta = LevelWithFilter.le (h.level meta) hint

  -- `FilterFn::is_callsite_enabled`
  unfoldable pub is_callsite_enabled : FilterFn → h.Meta → Interest
  is_callsite_enabled self meta = if self.enabled meta then always else never

  -- `Filter for FilterFn`, and in the same way `Layer for FilterFn`
  unfoldable pub of_filter_fn : FilterFn → Filter h
  unfolding is_callsite_enabled
  of_filter_fn self = record {
    enabled = λ meta cx. self.enabled meta;
    callsite_enabled = is_callsite_enabled self;
    max_level_hint = self.max_level_hint;
    event_enabled = λ event cx. true;
    notify = λ n cx. [];
  }

  -- The assertion of `FilterFn::is_enabled`
  unfoldable pub fn_assertion : FilterFn → h.Meta → Bool
  unfolding is_below_max_level
  fn_assertion self meta = not (self.enabled meta) || is_below_max_level self.max_level_hint meta

  -- `DynFilterFn::default_callsite_enabled`
  unfoldable pub default_callsite_enabled : DynFilterFn → h.Meta → Interest
  unfolding is_below_max_level
  default_callsite_enabled self meta =
      if not (is_below_max_level self.max_level_hint meta) then never else sometimes

  -- `DynFilterFn::is_callsite_enabled`
  abbrev pub interest_or : Option (h.Meta → Interest) → Interest → h.Meta → Interest
  interest_or none default meta = default
  interest_or (some callsite_enabled) default meta = callsite_enabled meta

  unfoldable pub dyn_is_callsite_enabled : DynFilterFn → h.Meta → Interest
  unfolding default_callsite_enabled
  dyn_is_callsite_enabled self meta =
      interest_or self.register_callsite (default_callsite_enabled self meta) meta

  -- `Filter for DynFilterFn`, and in the same way `Layer for DynFilterFn`
  unfoldable pub of_dyn_filter_fn : DynFilterFn → Filter h
  unfolding dyn_is_callsite_enabled
  of_dyn_filter_fn self = record {
    enabled = self.enabled;
    callsite_enabled = dyn_is_callsite_enabled self;
    max_level_hint = self.max_level_hint;
    event_enabled = λ event cx. true;
    notify = λ n cx. [];
  }

  -- The assertion of `DynFilterFn::is_enabled`
  unfoldable pub dyn_fn_assertion : DynFilterFn → h.Meta → h.Context → Bool
  unfolding is_below_max_level
  dyn_fn_assertion self meta cx =
      not (self.enabled meta cx) || is_below_max_level self.max_level_hint meta

  below_lem :
      (hint : Option LevelFilter) (meta : h.Meta)
      → is_below_max_level hint meta ≡ true
      → level_verbosity (h.level meta) ≤ hint_verbosity hint
  unfolding is_below_max_level LevelWithFilter.le
  below_lem none meta e = omega (arith, as_usize_sum (h.level meta))
  below_lem (some f) meta e = ground (arith, as_usize_sum (h.level meta), filter_as_usize_sum f)

  -- Where the debug assertion of its `is_enabled` holds, a filter by a closure on the metadata is
  -- sound: what it answers for a callsite is what it decides in every context.
  filter_fn-IsSound :
      (self : FilterFn) (meta : h.Meta) (cx : h.Context)
      → fn_assertion self meta ≡ true
      → IsSound (of_filter_fn self) meta cx
  unfolding of_filter_fn fn_assertion is_callsite_enabled
  filter_fn-IsSound self meta cx e = record {
    never_disables = ground arith;
    always_enables = ground arith;
    hint_bounds = ground (arith, below_lem self.max_level_hint meta);
  }

  -- The same of a filter by a closure on the metadata and the context, without a callsite filter: it
  -- answers `never` only above its hint, and else `sometimes`.
  dyn_filter_fn-IsSound :
      (self : DynFilterFn) (meta : h.Meta) (cx : h.Context)
      → dyn_fn_assertion self meta cx ≡ true
      → self.register_callsite ≡ none
      → IsSound (of_dyn_filter_fn self) meta cx
  unfolding of_dyn_filter_fn dyn_fn_assertion dyn_is_callsite_enabled default_callsite_enabled
  dyn_filter_fn-IsSound self meta cx e n =
      let (x, y) = by_callsite self.register_callsite n in
      record {
        never_disables = x;
        always_enables = y;
        hint_bounds = ground (arith, below_lem self.max_level_hint meta);
      }
    where
      by_callsite :
          (r : Option (h.Meta → Interest))
          → r ≡ none
          → let i = interest_or r (default_callsite_enabled self meta) meta in
            ((is_never i && self.enabled meta cx) ≡ false)
            × ((is_always i && not (self.enabled meta cx)) ≡ false)
      by_callsite none b = (ground arith, ground arith)
      by_callsite (some f) b = ground arith
