-- ===== src/Lookup.antt =====
-- tracing-subscriber/src/registry/mod.rs and layer/context.rs: the spans that a layer sees, which are
-- those that its filter enabled. The registry holds the newest span first. The loops that follow
-- parents run on fuel; `none` on the outside is its lack.
pub mod Ancestors
mod Tests
use tracing.Prelude.{ℕ, zero, suc, Bool, List, [], ◌∷◌, Option, none, some, ◌==◌, if◌then◌else◌}
use tracing.LayerFilter.{FilterMap, Mask, is_enabled}
use tracing.SpanStack.{SpanStack, iter, current}

-- `DataInner`, as far as `SpanData` reads it
pub record Data : Type 0 where
  pub id : ℕ
  pub parent : Option ℕ
  pub filter_map : FilterMap

abbrev pub and_then {ℓ κ} : {A : Type ℓ} {B : Type κ} → Option A → (A → Option B) → Option B
and_then none f = none
and_then (some a) f = f a

-- `LookupSpan::span_data`
unfoldable pub span_data : ℕ → List Data → Option Data
span_data id [] = none
span_data id (x ∷ xs) = let rest = span_data id xs in if x.id == id then some x else rest

-- `is_enabled_for`, and `try_with_filter`
unfoldable pub is_enabled_for : Mask → Data → Bool
unfolding is_enabled
is_enabled_for filter span = is_enabled span.filter_map filter

unfoldable pub try_with_filter : Mask → Data → Option Data
unfolding is_enabled_for
try_with_filter filter span = if is_enabled_for filter span then some span else none

module _ (filter : Mask) (spans : List Data) where
  -- `Iterator::next` for `Scope`: the span, and what is next after it
  unfoldable pub next : ℕ → Option ℕ → Option (Option (Data × Option ℕ))
  unfolding span_data is_enabled_for
  next zero id = none
  next (suc fuel) none = some none
  next (suc fuel) (some id) = elim (span_data id spans) [
    | none ↦ some none
    | some curr ↦
        let again = next fuel curr.parent in
        if is_enabled_for filter curr then some (some (curr, curr.parent)) else again
  ]

  -- `Scope::collect`, the loop over `next`
  unfoldable pub collect : ℕ → Option ℕ → Option (List Data)
  unfolding next
  collect zero id = none
  collect (suc fuel) id = elim (next (suc fuel) id) [
    | none ↦ none
    | some none ↦ some []
    | some (some (curr, rest)) ↦ and_then (collect fuel rest) (λ ds. some (curr ∷ ds))
  ]

  abbrev reversed : List Data → List Data → List Data
  reversed [] done = done
  reversed (d ∷ ds) done = reversed ds (d ∷ done)

  -- `SpanRef::scope`, and `Scope::from_root`
  unfoldable pub scope : ℕ → Data → Option (List Data)
  unfolding collect
  scope fuel span = collect fuel (some (span.id))

  unfoldable pub from_root : ℕ → Data → Option (List Data)
  unfolding scope
  from_root fuel span = and_then (scope fuel span) (λ ds. some (reversed ds []))

  -- `Context::span`
  unfoldable pub context_span : ℕ → Option Data
  unfolding span_data try_with_filter
  context_span id = and_then (span_data id spans) (try_with_filter filter)

  -- `find_map` in `lookup_current_filtered`
  unfoldable pub find_enabled : List ℕ → Option Data
  unfolding context_span
  find_enabled [] = none
  find_enabled (id ∷ ids) = elim (context_span id) [
    | none ↦ find_enabled ids
    | some span ↦ some span
  ]

  -- `Context::lookup_current`, on a `Registry` with this stack of spans
  abbrev pub or_filtered : Option Data → SpanStack → Option Data
  unfolding find_enabled iter
  or_filtered none stack = find_enabled (iter stack)
  or_filtered (some span) stack = some span

  unfoldable pub lookup_current : SpanStack → Option Data
  unfolding span_data try_with_filter or_filtered current
  lookup_current stack = and_then (current stack) (λ id.
      and_then (span_data id spans) (λ span. or_filtered (try_with_filter filter span) stack))
