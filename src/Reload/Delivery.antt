-- ===== src/Reload/Delivery.antt =====
-- tracing-subscriber/src/reload.rs: what a reload changes, and the errors of the handle.
use tracing.Prelude.{
  ◌≤◌, ◌≡◌, refl, sym, subst, ◌⊎◌, inl, inr, Bool, true, false, List, map, Option, some, In, arith,
  not, if◌then◌else◌,
}
use tracing.Prelude.Result.{ok, err}
use tracing.Level.{Level, LevelFilter}
use tracing.Level.Compare.Verbosity.{level_verbosity, verbosity}
use tracing.Callsite.{
  Dispatch, Registered, rebuilder, recache, rebuild_interest_cache, rebuild_interest, event_test,
  rebuild_callsite_interest,
}
use tracing.Callsite.Delivery.{IsLawful, event_test_rebuilt, byte_rebuilt}
use tracing.Reload.{
  subscriber_gone, poisoned, panicked, locked, otherwise, panics, try_lock, returned, World, now,
  rebuilt, modify_locked, modify, with_current, current_locked,
}

module _ (Meta L : Type 0) (registrars : L → List (Option (Dispatch Meta))) where
  rebuilt_lem :
      (static_max : LevelFilter) (lvl : Level) (default : L → Dispatch Meta)
      (w : World Meta L registrars) (d : Dispatch Meta) (c : Registered Meta)
      → In d (rebuilder (default w.value) (now Meta L registrars w))
      → let after = (rebuilt Meta L registrars default w).callsites in
        In c after.linked ⊎ In c after.locked
        → IsLawful d c.meta lvl
        → level_verbosity lvl ≤ verbosity static_max
        → event_test static_max lvl after.max_level c d ≡ d.enabled c.meta
  unfolding rebuilt rebuild_interest_cache rebuild_interest
  rebuilt_lem static_max lvl default w d c hd hc l below =
      subst
        (λ b.
          event_test static_max lvl (rebuilt Meta L registrars default w).callsites.max_level
            (record { meta = c.meta; byte = b }) d
          ≡ d.enabled c.meta)
        (byte hc) (event_test_rebuilt static_max lvl c.meta d ds w.callsites.max_level hd l below)
    where
      ds : List (Dispatch Meta)
      ds = rebuilder (default w.value) (now Meta L registrars w)

      byte :
          In c (map (recache ds) w.callsites.linked) ⊎ In c (map (recache ds) w.callsites.locked)
          → rebuild_callsite_interest c.meta ds ≡ c.byte
      byte (inl h) = byte_rebuilt ds c w.callsites.linked h
      byte (inr h) = byte_rebuilt ds c w.callsites.locked h

  rebuilt-value :
      (default : L → Dispatch Meta) (w : World Meta L registrars)
      → (rebuilt Meta L registrars default w).value ≡ w.value
  unfolding rebuilt
  rebuilt-value default w = refl

  modify_lem :
      (default : L → Dispatch Meta) (panicking : Bool) (f : L → Option L)
      (w : World Meta L registrars) (value : L)
      → w.alive ≡ true
      → w.is_poisoned ≡ false
      → f w.value ≡ some value
      → modify Meta L registrars default panicking f w
        ≡ (returned (ok tt), rebuilt Meta L registrars default (record w { value = value }))
  unfolding modify try_lock
  modify_lem default panicking f w value a b e = rw (a, b, e) refl

  -- If the layer still lives, its lock is not poisoned and the closure does not panic, `modify` returns
  -- `Ok`, the layer is what the closure made of it, and the test of `event!` at each registered callsite
  -- then lets an event through exactly if the dispatcher enables it with the new layer, for a
  -- dispatcher that the rebuild asks, which keeps the contract of `Subscriber` at the callsite and
  -- whose level the static maximum does not exclude.
  pub event_test-modify :
      (static_max : LevelFilter) (lvl : Level) (default : L → Dispatch Meta) (panicking : Bool)
      (f : L → Option L) (w : World Meta L registrars) (value : L) (d : Dispatch Meta)
      (c : Registered Meta)
      → w.alive ≡ true
      → w.is_poisoned ≡ false
      → f w.value ≡ some value
      → In d (rebuilder (default value) (now Meta L registrars (record w { value = value })))
      → In c (modify Meta L registrars default panicking f w).1.callsites.linked
        ⊎ In c (modify Meta L registrars default panicking f w).1.callsites.locked
      → IsLawful d c.meta lvl
      → level_verbosity lvl ≤ verbosity static_max
      → let r = modify Meta L registrars default panicking f w in
        (r.0 ≡ returned (ok tt))
        × (r.1.value ≡ value)
        × (event_test static_max lvl r.1.callsites.max_level c d ≡ d.enabled c.meta)
  event_test-modify static_max lvl default panicking f w value d c a b e hd =
      let m = sym (modify_lem default panicking f w value a b e) in
      subst
        (λ r.
          In c r.1.callsites.linked ⊎ In c r.1.callsites.locked
          → IsLawful d c.meta lvl
          → level_verbosity lvl ≤ verbosity static_max
          → (r.0 ≡ returned (ok tt))
            × (r.1.value ≡ value)
            × (event_test static_max lvl r.1.callsites.max_level c d ≡ d.enabled c.meta))
        m
        (λ hc l below. (
          refl,
          rebuilt-value default (record w { value = value }),
          rebuilt_lem static_max lvl default (record w { value = value }) d c hd hc l below,
        ))

  -- Where a panic has poisoned the lock of a layer that lives: on a thread that does not unwind,
  -- `modify` and `with_current` of its handle panic, and on one that unwinds they return the error
  -- `Poisoned`. Where the layer is gone, both return `SubscriberGone` although the lock is poisoned. In
  -- each case the layer and the callsites stay as they were.
  pub modify-poisoned :
      {T : Type 0} (default : L → Dispatch Meta) (panicking : Bool) (f : L → Option L) (g : L → T)
      (w : World Meta L registrars)
      → w.is_poisoned ≡ true
      → (modify Meta L registrars default panicking f w ≡ (
        if w.alive
            then (if panicking then returned (err poisoned) else panicked)
            else returned (err subscriber_gone),
        w,
      ))
        × (with_current Meta L registrars panicking g w ≡ (
            if w.alive
            then (if panicking then returned (err poisoned) else panicked)
            else returned (err subscriber_gone)))
  unfolding modify with_current try_lock
  modify-poisoned default panicking f g w p =
      (on_modify w.alive panicking w.is_poisoned p, on_current w.alive panicking w.is_poisoned p)
    where
      on_modify :
          (a b o : Bool)
          → o ≡ true
          → (if not a
              then (returned (err subscriber_gone), w)
              else modify_locked Meta L registrars default f
                  (if o then (if b then otherwise else panics) else locked)
                  w)
            ≡ (
              if a
                  then (if b then returned (err poisoned) else panicked)
                  else returned (err subscriber_gone),
              w,
            )
      on_modify true b false e = ground arith
      on_modify true true true e = refl
      on_modify true false true e = refl
      on_modify false b o e = refl

      on_current :
          (a b o : Bool)
          → o ≡ true
          → (if not a
              then returned (err subscriber_gone)
              else current_locked Meta L registrars g
                  (if o then (if b then otherwise else panics) else locked)
                  w)
            ≡ (if a
                then (if b then returned (err poisoned) else panicked)
                else returned (err subscriber_gone))
      on_current true b false e = ground arith
      on_current true true true e = refl
      on_current true false true e = refl
      on_current false b o e = refl
