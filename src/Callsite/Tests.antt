-- ===== src/Callsite/Tests.antt =====
-- The theorems on callsites at concrete inputs.
use tracing.Prelude.{
  ℕ, ◌≡◌, ◌≢◌, refl, inl, inr, true, false, List, [], ◌∷◌, none, some, ◌==◌, arith, ◌⊎◌, In,
}
use tracing.Level.{trace, info}
use tracing.Level.Max.{initial_max_level}
use tracing.Interest.{never, sometimes, always}
use tracing.Callsite.{Dispatch, Global, register_dispatch, event_test}
use tracing.Callsite.Delivery.{event_test-register_dispatch}
use tracing.Callsite.Registration.{
  System, Reach, start, later, claim, start_system, registered, panicked, update, registering,
  load_head,
}
use tracing.Callsite.Registration.Invariant.{Seg, Distinct}
use tracing.Callsite.Registration.Steps.{Reach-well_formed}

-- A subscriber that records one callsite up to `info`, and one that records everything.
abbrev only_three : Dispatch ℕ
only_three = record {
  register_callsite = λ m. sometimes;
  max_level_hint = some (some info);
  enabled = λ m. m == 3;
}

abbrev everything : Dispatch ℕ
everything = record { register_callsite = λ m. always; max_level_hint = none; enabled = λ m. true }

abbrev one_callsite : Global ℕ
one_callsite = record {
  linked = record { meta = 3; byte = 0 } ∷ [];
  locked = [];
  max_level = initial_max_level;
  registrars = some everything ∷ none ∷ [];
  has_just_one = false;
}

event_test-register_dispatch_example :
    event_test
      (some trace)
      info
      (register_dispatch only_three one_callsite).max_level
      (record { meta = 3; byte = 1 })
      only_three
    ≡ true
unfolding register_dispatch tracing.Interest.and
event_test-register_dispatch_example =
    event_test-register_dispatch (some trace) info only_three only_three one_callsite
      (record { meta = 3; byte = 1 }) (inl refl) (inl (inl refl))
      (record { never_disables = refl; always_enables = refl; hint_bounds = inr (omega arith) })
      (omega arith)

-- Thread 0 has claimed callsite 7 and has loaded the head.
abbrev claimed_by_0 : System
claimed_by_0 = record start_system {
  registration = update start_system.registration 7 registering;
  pc = update start_system.pc 0 (load_head 7);
}

claimed_by_0-Reach : Reach claimed_by_0
claimed_by_0-Reach = later start (claim start_system 0 7 refl refl)

Reach-well_formed_example :
    (claimed_by_0.pc 0 ≢ panicked)
    × ((xs : List ℕ) × Seg claimed_by_0.next claimed_by_0.list_head xs
        × Distinct xs
        × ((claimed_by_0.registration 7 ≢ registered) ⊎ In 7 xs))
Reach-well_formed_example = Reach-well_formed claimed_by_0-Reach 0 7
