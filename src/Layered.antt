-- ===== src/Layered.antt =====
-- tracing-subscriber/src/layer/layered.rs: the level hint of a stack of layers on a registry, each of
-- them put on the rest by `with_subscriber`.
pub mod Hint
mod Tests
use tracing.Prelude.{
  ℕ, Bool, true, false, not, ◌&&◌, ◌||◌, List, [], ◌∷◌, Option, none, some, if◌then◌else◌, any,
  is_empty,
}
use tracing.Level.{LevelFilter, off}
use tracing.Level.Compare.LevelFilterPair
use tracing.Filter.{max_filter}

-- A layer: its hint, whether it is `Option::None`, whether it has a filter of its own, and whether
-- it (or its filter) enables the metadata that is asked about.
pub record Layer : Type 0 where
  pub hint : Option LevelFilter
  pub is_none : Bool
  pub filtered : Bool
  pub enabled : Bool

-- `cmp::max` of hints: `None` is less than every `Some`.
abbrev pub max_hint : Option LevelFilter → Option LevelFilter → Option LevelFilter
unfolding LevelFilterPair.lt
max_hint none b = b
max_hint (some a) none = some a
max_hint (some a) (some b) = some (max_filter a b)

-- `Some(cmp::max(outer_hint?, inner_hint?))`
abbrev pub max_both_hints : Option LevelFilter → Option LevelFilter → Option LevelFilter
unfolding LevelFilterPair.lt
max_both_hints none b = none
max_both_hints (some a) none = none
max_both_hints (some a) (some b) = some (max_filter a b)

-- `cmp::max(outer_hint, Some(inner_hint?))`
abbrev pub max_inner_hint : Option LevelFilter → Option LevelFilter → Option LevelFilter
unfolding LevelFilterPair.lt
max_inner_hint a none = none
max_inner_hint a (some b) = max_hint a (some b)

abbrev pub lacks_hint : Option LevelFilter → Bool
lacks_hint none = true
lacks_hint (some f) = false

-- the test `inner_hint == Some(LevelFilter::OFF)`
abbrev pub is_off : Option LevelFilter → Bool
is_off none = false
is_off (some none) = true
is_off (some (some l)) = false

-- The flags of `Layered::new`, and what `layer_is_none` says of the layer.
pub record Flags : Type 0 where
  pub inner_is_registry : Bool
  pub has_layer_filter : Bool
  pub inner_has_layer_filter : Bool
  pub layer_is_none : Bool

-- `Layered::pick_level_hint`
unfoldable pub pick_level_hint :
    Flags → Option LevelFilter → Option LevelFilter → Bool → Option LevelFilter
unfolding LevelFilterPair.lt
pick_level_hint self outer_hint inner_hint inner_is_none =
    if self.inner_is_registry
    then outer_hint
    else if self.has_layer_filter && self.inner_has_layer_filter
    then max_both_hints outer_hint inner_hint
    else if self.has_layer_filter && lacks_hint inner_hint
    then none
    else if self.inner_has_layer_filter && lacks_hint outer_hint
    then none
    else if self.layer_is_none
    then max_inner_hint outer_hint inner_hint
    else if inner_is_none && is_off inner_hint
    then outer_hint
    else max_hint outer_hint inner_hint

-- `with_subscriber` and `Layered::new`: a downcast finds what any layer of the rest has.
abbrev pub flags : Layer → List Layer → Flags
flags l rest = record {
  inner_is_registry = is_empty rest;
  has_layer_filter = l.filtered;
  inner_has_layer_filter = any (λ k. k.filtered) rest || is_empty rest;
  layer_is_none = l.is_none;
}

-- `Subscriber::max_level_hint` for `Layered`, the outermost layer first; a registry has no hint.
unfoldable pub max_level_hint : List Layer → Option LevelFilter
unfolding pick_level_hint
max_level_hint [] = none
max_level_hint (l ∷ rest) =
    pick_level_hint (flags l rest) l.hint (max_level_hint rest) (any (λ k. k.is_none) rest)
