-- ===== src/Reload.antt =====
-- tracing-subscriber/src/reload.rs: a layer or a filter behind a lock, the handle that replaces it,
-- and the interest cache after that. The lock is poisoned once a thread panicked while it wrote.
pub mod Delivery
mod Tests
use tracing.Prelude.{Bool, true, false, not, List, [], Option, none, some, if◌then◌else◌}
use tracing.Prelude.Result.{Result, ok, err}
use tracing.Interest.{sometimes}
use tracing.Filter.{Host, Filter}
use tracing.Callsite.{Dispatch, Global, rebuild_interest_cache}

-- `enum ErrorKind` of `Error`
pub data Error : Type 0 where
  subscriber_gone poisoned : Error

-- What `try_lock!` comes to: the lock, its `else`, or a panic.
pub data Locked : Type 0 where
  locked otherwise panics : Locked

-- `try_lock!`, for a lock and a thread that unwinds or does not
unfoldable pub try_lock : Bool → Bool → Locked
try_lock is_poisoned panicking =
    if is_poisoned then (if panicking then otherwise else panics) else locked

-- `Filter for Layer<L, S>`, where the lock can be read, and the answers of `else`. The trait's own
-- `event_enabled` is kept: it is not passed on to the filter.
unfoldable pub reload_filter : {h : Host} → Filter h → Filter h
reload_filter inner = record {
  enabled = inner.enabled;
  callsite_enabled = inner.callsite_enabled;
  max_level_hint = inner.max_level_hint;
  event_enabled = λ event cx. true;
  notify = inner.notify;
}

unfoldable pub unreadable_filter : {h : Host} → Filter h
unreadable_filter = record {
  enabled = λ meta cx. false;
  callsite_enabled = λ meta. sometimes;
  max_level_hint = none;
  event_enabled = λ event cx. true;
  notify = λ n cx. [];
}

-- What a method of a filter behind the lock does; `none` is a panic.
unfoldable pub filter_behind : {h : Host} → Locked → Filter h → Option (Filter h)
unfolding reload_filter unreadable_filter
filter_behind locked inner = some (reload_filter inner)
filter_behind otherwise inner = some unreadable_filter
filter_behind panics inner = none

-- What a call of the handle ends in: a result, or a panic.
pub data Outcome {ℓ} (A : Type ℓ) : Type ℓ where
  returned : A → Outcome A
  panicked : Outcome A

-- `registrars` are the dispatchers, as they answer with the layer that is behind the lock.
module _ (Meta L : Type 0) (registrars : L → List (Option (Dispatch Meta))) where
  -- The layer behind the `Weak`, with its lock, and the state of the callsites.
  pub record World : Type 0 where
    pub alive : Bool
    pub is_poisoned : Bool
    pub value : L
    pub callsites : Global Meta

  abbrev pub now : World → Global Meta
  now w = record (w.callsites) { registrars = registrars w.value }

  -- `callsite::rebuild_interest_cache`, in a thread whose default dispatcher is `default`
  unfoldable pub rebuilt : (L → Dispatch Meta) → World → World
  unfolding rebuild_interest_cache
  rebuilt default w = record w { callsites = rebuild_interest_cache (default w.value) (now w) }

  abbrev pub modified :
      (L → Dispatch Meta) → Option L → World → Outcome (Result Error (Unit {0})) × World
  modified default none w = (panicked, record w { is_poisoned = true })
  modified default (some value) w = (returned (ok tt), rebuilt default (record w { value = value }))

  abbrev pub modify_locked :
      (L → Dispatch Meta)
      → (L → Option L)
      → Locked
      → World
      → Outcome (Result Error (Unit {0})) × World
  modify_locked default f locked w = modified default (f w.value) w
  modify_locked default f otherwise w = (returned (err poisoned), w)
  modify_locked default f panics w = (panicked, w)

  -- `Handle::modify`, for a closure that may panic
  unfoldable pub modify :
      (L → Dispatch Meta)
      → Bool
      → (L → Option L)
      → World
      → Outcome (Result Error (Unit {0})) × World
  unfolding try_lock rebuilt
  modify default panicking f w =
      if not w.alive
      then (returned (err subscriber_gone), w)
      else modify_locked default f (try_lock w.is_poisoned panicking) w

  -- `Handle::reload`
  unfoldable pub reload :
      (L → Dispatch Meta) → Bool → L → World → Outcome (Result Error (Unit {0})) × World
  unfolding modify
  reload default panicking new_value w = modify default panicking (λ old. some new_value) w

  abbrev pub current_locked {ℓ} : {T : Type ℓ} → (L → T) → Locked → World → Outcome (Result Error T)
  current_locked f locked w = returned (ok (f w.value))
  current_locked f otherwise w = returned (err poisoned)
  current_locked f panics w = panicked

  -- `Handle::with_current`; `clone_current` drops its error.
  unfoldable pub with_current {ℓ} : {T : Type ℓ} → Bool → (L → T) → World → Outcome (Result Error T)
  unfolding try_lock
  with_current panicking f w =
      if not w.alive
      then returned (err subscriber_gone)
      else current_locked f (try_lock w.is_poisoned panicking) w
