-- ===== src/Filter/Tests.antt =====
-- The theorems on filters at concrete inputs.
use tracing.Prelude.{◌≡◌, ℕ, refl, true, false, [], none, some, ◌==◌, inl}
use tracing.Level.{Level, info, warn}
use tracing.Interest.{never, sometimes}
use tracing.Filter.{Host, Filter, given, levels, both, invert, build}
use tracing.Level.Compare.LevelWithFilter
use tracing.Filter.Functions.{
  FilterFn, DynFilterFn, fn_assertion, dyn_fn_assertion, is_below_max_level,
}
use tracing.Filter.Soundness.{IsSound, build-IsSound}

-- Callsites are levels; the context is the number of the thread.
abbrev host : Host
host = record { Meta = Level; level = λ l. l; Context = ℕ; Event = ℕ; Notification = ℕ; Effect = ℕ }

-- A filter that follows the context.
abbrev on_thread_1 : Filter host
on_thread_1 = record {
  enabled = λ l cx. cx == 1;
  callsite_enabled = λ l. sometimes;
  max_level_hint = none;
  event_enabled = λ e cx. true;
  notify = λ n cx. [];
}

abbrev nothing : Filter host
nothing = record {
  enabled = λ l cx. false;
  callsite_enabled = λ l. never;
  max_level_hint = some none;
  event_enabled = λ e cx. true;
  notify = λ n cx. [];
}

build-IsSound_example :
    IsSound (build (both (levels (some info)) (invert (given on_thread_1)))) warn 2
build-IsSound_example =
    build-IsSound (both (levels (some info)) (invert (given on_thread_1))) warn 2
      (tt, record { never_disables = refl; always_enables = refl; hint_bounds = inl refl })

-- A closure that enables up to its hint, and one that follows the context, with a callsite filter.
unfoldable up_to_info : FilterFn host
unfolding LevelWithFilter.le
up_to_info = record {
  enabled = λ l. LevelWithFilter.le l (some info);
  max_level_hint = some (some info);
}

abbrev dynamic : DynFilterFn host
dynamic = record {
  enabled = λ l cx. cx == 1;
  register_callsite = some (λ l. sometimes);
  max_level_hint = none;
}

asserted :
    (fn_assertion host up_to_info warn ≡ true) × (dyn_fn_assertion host dynamic warn 1 ≡ true)
unfolding up_to_info fn_assertion dyn_fn_assertion is_below_max_level LevelWithFilter.le
asserted = (refl, refl)
