-- ===== src/SpanStack.antt =====
-- tracing-subscriber/src/registry/stack.rs: the stack of the spans that a thread has entered. The
-- head of the list is the back of the vector.
pub mod Laws
mod Tests
use tracing.Prelude.{
  ℕ, Bool, true, false, not, ◌==◌, List, [], ◌∷◌, Option, none, some, any, if◌then◌else◌,
}

-- `struct ContextId`
pub record ContextId : Type 0 where
  pub id : ℕ
  pub duplicate : Bool

abbrev pub SpanStack : Type 0
SpanStack = List ContextId

-- `SpanStack::push`
unfoldable pub push : ℕ → SpanStack → SpanStack
push id stack = record { id = id; duplicate = any (λ i. i.id == id) stack } ∷ stack

-- `iter().enumerate().rev().find(..)` and `remove(idx)`: the removed entry, and the rest
unfoldable pub take_last : ℕ → SpanStack → Option (ContextId × SpanStack)
take_last expected_id [] = none
take_last expected_id (c ∷ stack) =
    let rest = take_last expected_id stack in
    if c.id == expected_id
    then some (c, stack)
    else elim rest [ none ↦ none | some (found, others) ↦ some (found, c ∷ others) ]

-- `SpanStack::pop`
unfoldable pub pop : ℕ → SpanStack → SpanStack × Bool
unfolding take_last
pop expected_id stack = elim (take_last expected_id stack) [
  | none ↦ (stack, false)
  | some (c, others) ↦ (others, not c.duplicate)
]

-- `SpanStack::iter`: from the back, without the duplicates
unfoldable pub iter : SpanStack → List ℕ
iter [] = []
iter (c ∷ stack) = let rest = iter stack in if not c.duplicate then c.id ∷ rest else rest

-- `SpanStack::current`
unfoldable pub current : SpanStack → Option ℕ
unfolding iter
current stack = elim (iter stack) [ [] ↦ none | id ∷ _ ↦ some id ]
