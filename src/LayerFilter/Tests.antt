-- ===== src/LayerFilter/Tests.antt =====
-- The theorems on per-layer filters at a stack of three layers.
use tracing.Prelude.{ℕ, ◌≡◌, refl, true, false, [], ◌∷◌, none, arith}
use tracing.Interest.{always, sometimes, never}
use tracing.LayerFilter.{
  FilterState, Layer, LayerFilter, Stack, registry, plain, filtered, enabled, event_enabled,
  process, register_callsite,
}
use tracing.LayerFilter.Delivery.{process-receivers}
use tracing.LayerFilter.Register.{register_callsite-taken}
use tracing.LayerFilter.Unused.{enabled-unused}

abbrev layer : ℕ → Layer
layer n = record { name = n; interest = always; enabled = true; event_enabled = true }

abbrev accepting : ℕ → LayerFilter
accepting n = record { id = n; callsite_enabled = sometimes; enabled = true; event_enabled = true }

abbrev rejecting : ℕ → LayerFilter
rejecting n = record { id = n; callsite_enabled = never; enabled = false; event_enabled = true }

abbrev stack : Stack
stack =
    filtered (rejecting 1) (layer 12)
      (plain (layer 11) (filtered (accepting 0) (layer 10) registry))

abbrev clear : FilterState
clear = record { enabled = λ i. false; interest = none }

process-receivers_example :
    ((process true stack clear).0 ≡ 10 ∷ 11 ∷ [])
    × ((i : ℕ) → (process true stack clear).1.enabled i ≡ false)
unfolding event_enabled enabled
process-receivers_example =
    process-receivers true stack clear (omega arith, refl, (omega arith, refl, tt)) (λ i. refl)
      (enabled-unused true stack clear 2 (omega arith) refl refl) refl

register_callsite-taken_example : (register_callsite true stack clear).1.interest ≡ none
register_callsite-taken_example = register_callsite-taken stack clear

enabled-unused_example : (enabled true (filtered (rejecting 0) (layer 10) registry) clear).0 ≡ true
enabled-unused_example =
    enabled-unused true (filtered (rejecting 0) (layer 10) registry) clear 1 (omega arith) refl refl
