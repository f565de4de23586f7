-- ===== src/Layered/Tests.antt =====
-- The theorem on hints at a stack with a filter and a layer that is `None`.
use tracing.Prelude.{◌≤◌, ◌≡◌, ◌⊎◌, refl, inl, inr, true, false, List, [], ◌∷◌, none, some, arith}
use tracing.Level.{info, warn}
use tracing.Filter.Soundness.{hint_verbosity}
use tracing.Layered.{Layer, max_level_hint}
use tracing.Layered.Hint.{is_seen, max_level_hint-seen}

-- A layer filtered at `info`, on `None`, on one that drops all that is more verbose than `warn`.
abbrev layers : List Layer
layers =
    record { hint = some (some info); is_none = false; filtered = true; enabled = true }
    ∷ record { hint = some none; is_none = true; filtered = false; enabled = false }
    ∷ record { hint = some (some warn); is_none = false; filtered = false; enabled = true }
    ∷ []

max_level_hint-seen_example :
    (is_seen layers ≡ false) ⊎ (2 ≤ hint_verbosity (max_level_hint layers))
max_level_hint-seen_example =
    max_level_hint-seen 2 layers (omega arith)
      (
        (inr (omega arith), inl refl),
        ((inl refl, inr (refl, refl)), ((inr (omega arith), inl refl), tt)),
      )
      refl
