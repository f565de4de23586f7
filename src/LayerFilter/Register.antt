-- ===== src/LayerFilter/Register.antt =====
-- The interests that the filters of a stack add up while a callsite is registered.
use tracing.Prelude.{◌≡◌, refl, true, none, arith}
use tracing.LayerFilter.{
  FilterState, Stack, registry, plain, filtered, add_interest, register_callsite,
}

-- On a registry that has given out filter ids, registering a callsite leaves no interest behind for
-- the next one, also where a layer without a filter cuts the registration short.
pub register_callsite-taken :
    (k : Stack) (s : FilterState) → (register_callsite true k s).1.interest ≡ none
unfolding register_callsite
register_callsite-taken registry s = refl
register_callsite-taken (plain l rest) s = ground (arith, register_callsite-taken rest s)
register_callsite-taken (filtered f l rest) s =
    register_callsite-taken rest (add_interest f.callsite_enabled s)
