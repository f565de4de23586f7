-- ===== src/Layers.antt =====
-- tracing-subscriber/src/layer/mod.rs: the implementations of `Layer` for `Option`, `Vec` and `Box`. A
-- box is the layer that it holds. The notifications of a layer are those of the trait `Layer`:
-- `on_new_span`, `on_record`, `on_follows_from`, `on_event`, `on_enter`, `on_exit`, `on_close`.
pub mod Vec
mod Tests
use tracing.Prelude.{
  Bool, true, not, ◌&&◌, ◌||◌, List, [], ◌∷◌, ◌++◌, Option, none, some, all, if◌then◌else◌,
}
use tracing.Level.{LevelFilter, off}
use tracing.Level.Compare.LevelFilterPair
use tracing.Interest.{Interest, never, always, is_never, is_sometimes, is_always}
use tracing.Filter.{Host, max_filter}

-- The trait `Layer`; a notification has effects, in order.
pub record Layer (h : Host) : Type 0 where
  pub register_callsite : h.Meta → Interest
  pub enabled : h.Meta → h.Context → Bool
  pub event_enabled : h.Event → h.Context → Bool
  pub max_level_hint : Option LevelFilter
  pub notify : h.Notification → h.Context → List h.Effect

-- One turn of the loop in `Vec::register_callsite`
unfoldable pub raise : Interest → Interest → Interest
raise interest new_interest =
    if (is_sometimes interest && is_always new_interest)
      || (is_never interest && not (is_never new_interest))
    then new_interest
    else interest

module _ {h : Host} where
  -- `Layer for Option`
  unfoldable pub of_option : Option (Layer h) → Layer h
  of_option none = record {
    register_callsite = λ meta. always;
    enabled = λ meta cx. true;
    event_enabled = λ event cx. true;
    max_level_hint = some off;
    notify = λ n cx. [];
  }
  of_option (some inner) = inner

  -- the loop of `Vec::register_callsite`, with the interest so far
  unfoldable pub vec_interest : h.Meta → Interest → List (Layer h) → Interest
  unfolding raise
  vec_interest meta interest [] = interest
  vec_interest meta interest (l ∷ ls) =
      vec_interest meta (raise interest (l.register_callsite meta)) ls

  -- the loop of `Vec::max_level_hint`, with the maximum so far
  unfoldable pub vec_hint : LevelFilter → List (Layer h) → Option LevelFilter
  unfolding LevelFilterPair.lt
  vec_hint max_level [] = some max_level
  vec_hint max_level (l ∷ ls) = elim l.max_level_hint [
    | none ↦ none
    | some hint ↦ vec_hint (max_filter hint max_level) ls
  ]

  unfoldable pub vec_notify : h.Notification → h.Context → List (Layer h) → List h.Effect
  vec_notify n cx [] = []
  vec_notify n cx (l ∷ ls) = l.notify n cx ++ vec_notify n cx ls

  -- `Layer for Vec`
  unfoldable pub of_vec : List (Layer h) → Layer h
  unfolding vec_interest vec_hint vec_notify
  of_vec ls = record {
    register_callsite = λ meta. vec_interest meta never ls;
    enabled = λ meta cx. all (λ l. l.enabled meta cx) ls;
    event_enabled = λ event cx. all (λ l. l.event_enabled event cx) ls;
    max_level_hint = vec_hint off ls;
    notify = λ n cx. vec_notify n cx ls;
  }
