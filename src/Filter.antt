-- ===== src/Filter.antt =====
-- tracing-subscriber/src/filter/layer_filters: the combinators of `Filter`s, and the `Filter`s that
-- the crate implements for `LevelFilter` and `Option`.
pub mod Soundness
pub mod Algebra
pub mod Max
pub mod Functions
mod Tests
use tracing.Prelude.{
  Bool, true, false, not, ◌&&◌, ◌||◌, List, [], ◌++◌, Option, none, some, if◌then◌else◌,
}
use tracing.Level.{Level, LevelFilter}
use tracing.Level.Compare.LevelFilterPair
use tracing.Level.Compare.LevelWithFilter
use tracing.Interest.{Interest, never, sometimes, always, is_never, is_sometimes, is_always}

-- What a user's filters read and do: metadata with a level, the context of a call, events, the
-- notifications (`on_new_span`, `on_record`, `on_enter`, `on_exit`, `on_close`), and the effects that
-- these have.
pub record Host : Type 1 where
  pub Meta : Type 0
  pub level : Meta → Level
  pub Context : Type 0
  pub Event : Type 0
  pub Notification : Type 0
  pub Effect : Type 0

-- The trait `Filter`; a notification has effects, in order.
pub record Filter (h : Host) : Type 0 where
  pub enabled : h.Meta → h.Context → Bool
  pub callsite_enabled : h.Meta → Interest
  pub max_level_hint : Option LevelFilter
  pub event_enabled : h.Event → h.Context → Bool
  pub notify : h.Notification → h.Context → List h.Effect

-- `cmp::min` and `cmp::max` of level filters: `min` takes the first of equal ones, `max` the second.
abbrev pub min_filter : LevelFilter → LevelFilter → LevelFilter
unfolding LevelFilterPair.lt
min_filter a b = if LevelFilterPair.lt b a then b else a

abbrev pub max_filter : LevelFilter → LevelFilter → LevelFilter
unfolding LevelFilterPair.lt
max_filter a b = if LevelFilterPair.lt b a then a else b

-- `cmp::min` of hints: `None` is less than every `Some`.
abbrev pub min_hint : Option LevelFilter → Option LevelFilter → Option LevelFilter
unfolding LevelFilterPair.lt
min_hint none b = none
min_hint (some a) none = none
min_hint (some a) (some b) = some (min_filter a b)

-- `Some(cmp::max(a?, b?))`
abbrev pub max_both : Option LevelFilter → Option LevelFilter → Option LevelFilter
unfolding LevelFilterPair.lt
max_both none b = none
max_both (some a) none = none
max_both (some a) (some b) = some (max_filter a b)

-- `And::callsite_enabled`; `b` is asked only if `a` is not `never`.
abbrev pub and_interest : Interest → Interest → Interest
and_interest a b = if is_never a then a else if not (is_always b) then b else a

-- `Or::callsite_enabled`
abbrev pub or_interest : Interest → Interest → Interest
or_interest a b =
    if is_always a || is_always b
    then always
    else if is_sometimes a || is_sometimes b
    then sometimes
    else never

-- `Not::callsite_enabled`
abbrev pub not_interest : Interest → Interest
not_interest i = if is_always i then never else if is_never i then always else sometimes

module _ {h : Host} where
  -- `Filter for And`
  unfoldable pub and : Filter h → Filter h → Filter h
  unfolding LevelFilterPair.lt
  and a b = record {
    enabled = λ meta cx. a.enabled meta cx && b.enabled meta cx;
    callsite_enabled = λ meta. and_interest (a.callsite_enabled meta) (b.callsite_enabled meta);
    max_level_hint = min_hint a.max_level_hint b.max_level_hint;
    event_enabled = λ event cx. a.event_enabled event cx && b.event_enabled event cx;
    notify = λ n cx. a.notify n cx ++ b.notify n cx;
  }

  -- `Filter for Or`
  unfoldable pub or : Filter h → Filter h → Filter h
  unfolding LevelFilterPair.lt
  or a b = record {
    enabled = λ meta cx. a.enabled meta cx || b.enabled meta cx;
    callsite_enabled = λ meta. or_interest (a.callsite_enabled meta) (b.callsite_enabled meta);
    max_level_hint = max_both a.max_level_hint b.max_level_hint;
    event_enabled = λ event cx. a.event_enabled event cx || b.event_enabled event cx;
    notify = λ n cx. a.notify n cx ++ b.notify n cx;
  }

  -- `Filter for Not`
  unfoldable pub negate : Filter h → Filter h
  negate a = record {
    enabled = λ meta cx. not (a.enabled meta cx);
    callsite_enabled = λ meta. not_interest (a.callsite_enabled meta);
    max_level_hint = none;
    event_enabled = λ event cx. true;
    notify = a.notify;
  }

  -- `Filter for LevelFilter`; the notifications keep the trait's empty bodies.
  unfoldable pub level_filter : LevelFilter → Filter h
  unfolding LevelWithFilter.le
  level_filter self = record {
    enabled = λ meta cx. LevelWithFilter.le (h.level meta) self;
    callsite_enabled = λ meta. if LevelWithFilter.le (h.level meta) self then always else never;
    max_level_hint = some self;
    event_enabled = λ event cx. true;
    notify = λ n cx. [];
  }

  -- `Filter for Option`
  unfoldable pub optional : Option (Filter h) → Filter h
  optional none = record {
    enabled = λ meta cx. true;
    callsite_enabled = λ meta. always;
    max_level_hint = none;
    event_enabled = λ event cx. true;
    notify = λ n cx. [];
  }
  optional (some inner) = inner

-- A filter that is put together from others.
pub data Expr (h : Host) : Type 0 where
  given : Filter h → Expr h
  levels : LevelFilter → Expr h
  allow : Expr h
  both either : Expr h → Expr h → Expr h
  invert : Expr h → Expr h

pub build : {h : Host} → Expr h → Filter h
unfolding and or negate level_filter optional
build (given f) = f
build (levels l) = level_filter l
build allow = optional none
build (both a b) = and (build a) (build b)
build (either a b) = or (build a) (build b)
build (invert a) = negate (build a)
