-- ===== src/Registry/Tests.antt =====
-- The theorems on the registry at a span and its child.
use tracing.Prelude.{
  true, false, ℕ, ◌≡◌, refl, ◌<◌, ◌⊎◌, [], ◌∷◌, none, some, arith, ◌==◌, if◌then◌else◌,
}
use tracing.Registry.{
  this_stack, another, get, set_ref_count, remove, registry_try_close, drop_guard, clear,
  layered_try_close, root, Registry, explicit, new_span, try_close,
}
use tracing.Registry.Counts.{Handles, Counted, more}
use tracing.Registry.Layers.{dropped, layered_try_close-inner}
use tracing.Registry.Close.{Closed, try_close-Closed}
use tracing.Registry.History.{Reach, start, opened, Reach-Counted}

-- Span 2 is a child of span 1, whose handle is dropped.
abbrev family : Registry
family = record {
  spans =
      record { id = 2; parent = some 1; ref_count = 1 }
      ∷ record { id = 1; parent = none; ref_count = 1 }
      ∷ [];
  close_count = 0;
  closed = [];
}

abbrev handles : Handles
handles i = if 2 == i then 1 else 0

family-Counted : Counted family.spans handles
family-Counted = (
  refl,
  omega arith,
  omega arith,
  (λ e. omega (arith, e), tt),
  (refl, omega arith, omega arith, tt, λ i. ground arith),
)

try_close-Closed_example : Closed (try_close this_stack 3 2 2 family) 2 handles family
try_close-Closed_example =
    try_close-Closed 3 1 2 family handles family-Counted (omega arith) (omega arith) refl

-- On a thread without a default dispatcher the parent keeps the reference of its closed child.
orphaned :
    try_close (another (λ i r. some (false, r))) 3 1 2 family
    ≡ some (
      true,
      record {
        spans = record { id = 1; parent = none; ref_count = 1 } ∷ [];
        close_count = 0;
        closed = (0, 2) ∷ [];
      },
    )
unfolding try_close layered_try_close registry_try_close drop_guard clear get set_ref_count remove
orphaned = refl

abbrev one_span : Registry
one_span = record {
  spans = record { id = 1; parent = none; ref_count = 1 } ∷ [];
  close_count = 0;
  closed = [];
}

one_span-Reach : Reach one_span (more 1 (λ _. 0))
unfolding new_span
one_span-Reach = opened 1 root _ one_span (λ _. 0) start tt tt tt refl

Reach-Counted_example :
    Counted one_span.spans (more 1 (λ _. 0))
    × (one_span.close_count ≡ 0)
    × ((one_span.spans ≡ []) ⊎ ((id : ℕ) × (0 < more 1 (λ _. 0) id)))
Reach-Counted_example = Reach-Counted one_span-Reach

layered_try_close-inner_example :
    layered_try_close (λ i r. none) 1 2 (record family { close_count = 1 })
    ≡ some (true, dropped true 1 2 0 (record family { close_count = 1 }))
unfolding tracing.Registry.get
layered_try_close-inner_example =
    layered_try_close-inner (λ i r. none) 1 2 (record family { close_count = 1 })
      (record { id = 2; parent = some 1; ref_count = 1 }) refl (omega arith) (omega arith)
      (omega arith)
