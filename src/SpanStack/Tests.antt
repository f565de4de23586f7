-- ===== src/SpanStack/Tests.antt =====
-- The theorems on the stack of entered spans at concrete inputs.
use tracing.Prelude.{◌≡◌, true, List, [], ◌∷◌}
use tracing.SpanStack.{pop}
use tracing.SpanStack.Laws.{Call, enter, exit, run, depth, IsMarked, run-counts}

-- Span 1 is entered twice and left once, around span 2.
abbrev calls : List Call
calls = enter 1 ∷ enter 2 ∷ enter 1 ∷ exit 1 ∷ []

run-counts_example :
    (depth 1 (run calls []) ≡ 1) × ((pop 1 (run calls [])).1 ≡ true) × IsMarked (run calls [])
run-counts_example = run-counts calls 1
