-- ===== src/Lookup/Tests.antt =====
-- A root and two spans below it, of which the filter of the first bit disabled the middle one.
use tracing.Prelude.{◌≡◌, refl, false, List, [], ◌∷◌, some, none, ◌==◌, arith, filter}
use tracing.LayerFilter.{one_bit, is_enabled}
use tracing.SpanStack.{SpanStack, current, iter}
use tracing.Lookup.{
  Data, scope, from_root, lookup_current, span_data, is_enabled_for, collect, next, find_enabled,
  context_span, try_with_filter,
}
use tracing.Lookup.Ancestors.{IsNewestFirst, ancestors, scope-ancestors}

abbrev root : Data
root = record { id = 1; parent = none; filter_map = λ i. false }

abbrev middle : Data
middle = record { id = 2; parent = some 1; filter_map = λ i. i == 0 }

abbrev leaf : Data
leaf = record { id = 3; parent = some 2; filter_map = λ i. false }

abbrev spans : List Data
spans = leaf ∷ middle ∷ root ∷ []

spans-IsNewestFirst : IsNewestFirst spans
spans-IsNewestFirst = ((refl, (refl, (refl, tt))), ((refl, (refl, tt)), ((refl, tt), tt)))

from_root-leaf : from_root (one_bit 0) spans 4 leaf ≡ some (root ∷ leaf ∷ [])
unfolding from_root scope collect next span_data is_enabled_for is_enabled
from_root-leaf = refl

abbrev entered : SpanStack
entered = record { id = 2; duplicate = false } ∷ record { id = 1; duplicate = false } ∷ []

-- The span that was entered last is disabled, and the one around it is seen.
current_seen : lookup_current (one_bit 0) spans entered ≡ some root
unfolding lookup_current find_enabled context_span try_with_filter span_data is_enabled_for
    is_enabled current iter
current_seen = refl

scope-ancestors_example :
    scope (one_bit 0) spans 4 leaf
    ≡ some (filter (is_enabled_for (one_bit 0)) (ancestors spans (some 3)))
scope-ancestors_example = scope-ancestors (one_bit 0) spans 4 leaf spans-IsNewestFirst (omega arith)
