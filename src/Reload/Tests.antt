-- ===== src/Reload/Tests.antt =====
-- A layer that is a maximum level, in the only dispatcher.
use tracing.Prelude.{In, ◌≡◌, refl, true, false, List, [], ◌∷◌, Option, none, some, inl, inr, arith}
use tracing.Prelude.Result.{ok}
use tracing.Level.{Level, LevelFilter, info, debug, trace}
use tracing.Level.Compare.LevelWithFilter
use tracing.Interest.{never, always, sometimes}
use tracing.Filter.{Host, Filter}
use tracing.Callsite.{
  Dispatch, Registered, rebuilder, recache, rebuild_interest_cache, rebuild_interest,
  rebuild_callsite_interest, event_test, fold_interest, set_interest,
}
use tracing.Callsite.Delivery.{IsLawful}
use tracing.Reload.{
  panicked, returned, World, now, rebuilt, modify, reload, with_current, try_lock, reload_filter,
}
use tracing.Reload.Delivery.{event_test-modify, modify-poisoned}

-- Callsites are levels.
abbrev max_dispatch : LevelFilter → Dispatch Level
max_dispatch l = record {
  register_callsite = λ m. sometimes;
  max_level_hint = none;
  enabled = λ m. LevelWithFilter.le m l;
}

-- `NoSubscriber`
abbrev no_subscriber : Dispatch Level
no_subscriber = record {
  register_callsite = λ m. never;
  max_level_hint = none;
  enabled = λ m. false;
}

abbrev registrars : LevelFilter → List (Option (Dispatch Level))
registrars l = some (max_dispatch l) ∷ []

abbrev at_debug : Registered Level
at_debug = record { meta = debug; byte = 1 }

abbrev world : World Level LevelFilter registrars
world = record {
  alive = true;
  is_poisoned = false;
  value = some info;
  callsites = record {
    linked = at_debug ∷ [];
    locked = [];
    max_level = 0;
    registrars = [];
    has_just_one = true;
  };
}

abbrev from_info : Option LevelFilter → LevelFilter
from_info none = none
from_info (some l) = l

-- A reload by a thread of which the only dispatcher is not the default makes the callsites `never`.
reloaded_elsewhere :
    (reload Level LevelFilter registrars
      (λ l. no_subscriber)
      false
      (some trace)
      world).1.callsites.linked
    ≡ record { meta = debug; byte = 0 } ∷ []
unfolding reload modify try_lock rebuilt rebuild_interest_cache rebuild_interest rebuilder
    rebuild_callsite_interest fold_interest set_interest
reloaded_elsewhere = refl

abbrev to_trace : LevelFilter → Option LevelFilter
to_trace l = some (some trace)

abbrev after : Registered Level
after = record { meta = debug; byte = 1 }

after-In : after ≡ recache (max_dispatch (some trace) ∷ []) at_debug
unfolding rebuild_callsite_interest fold_interest set_interest
after-In = refl

trace-IsLawful : IsLawful (max_dispatch (some trace)) debug debug
unfolding LevelWithFilter.le
trace-IsLawful = record {
  never_disables = refl;
  always_enables = refl;
  hint_bounds = inr (omega arith);
}

modify-poisoned_example :
    (modify Level LevelFilter registrars max_dispatch false to_trace
        (record world { is_poisoned = true })
      ≡ (panicked, record world { is_poisoned = true }))
    × (with_current Level LevelFilter registrars false
          (λ l. l)
          (record world { is_poisoned = true })
        ≡ panicked)
modify-poisoned_example =
    modify-poisoned Level LevelFilter registrars max_dispatch false to_trace (λ l. l)
      (record world { is_poisoned = true }) refl

asks_new : In (max_dispatch (some trace)) (
    rebuilder
      (max_dispatch (some trace))
      (now Level LevelFilter registrars (record world { value = some trace })))
unfolding rebuilder
asks_new = inl refl

callsites-In :
    In after
      (modify Level LevelFilter registrars max_dispatch false to_trace world).1.callsites.linked
unfolding modify try_lock rebuilt rebuild_interest_cache rebuild_interest rebuilder
    rebuild_callsite_interest fold_interest set_interest
callsites-In = inl refl

event_test-modify_example :
    let r = modify Level LevelFilter registrars max_dispatch false to_trace world in
    (r.0 ≡ returned (ok tt))
    × (r.1.value ≡ some trace)
    × (event_test (some trace) debug r.1.callsites.max_level after (max_dispatch (some trace))
        ≡ LevelWithFilter.le debug (some trace))
event_test-modify_example =
    event_test-modify Level LevelFilter registrars (some trace) debug max_dispatch false to_trace
      world (some trace) (max_dispatch (some trace)) after refl refl refl asks_new
      (inl callsites-In) trace-IsLawful (omega arith)

-- A filter that refuses each event still does so, but not behind the lock.
abbrev host : Host
host = record {
  Meta = Level;
  level = λ l. l;
  Context = Level;
  Event = Level;
  Notification = Level;
  Effect = Level;
}

abbrev no_events : Filter host
no_events = record {
  enabled = λ l cx. true;
  callsite_enabled = λ l. always;
  max_level_hint = none;
  event_enabled = λ e cx. false;
  notify = λ n cx. [];
}

events_behind :
    (no_events.event_enabled info info ≡ false)
    × ((reload_filter no_events).event_enabled info info ≡ true)
unfolding reload_filter
events_behind = (refl, refl)
