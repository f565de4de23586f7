-- ===== src/SpanStack/Laws.antt =====
-- The marks of duplicates, and what they make of the stack.
use tracing.Prelude.{
  ℕ, ◌≡◌, refl, sym, ap, ◌∙◌, min, ◌+◌, inl, inr, Bool, true, false, not, ◌==◌, List, [], ◌∷◌, any,
  suc, ltb, ◌-◌, arith, Option-cases, Bool-cases, if◌then◌else◌,
}
use tracing.SpanStack.{ContextId, SpanStack, push, take_last, pop, iter}

-- The span is entered.
abbrev pub entered : ℕ → SpanStack → Bool
entered id stack = any (λ c. c.id == id) stack

-- An entry is marked exactly if its span has an older entry.
abbrev pub IsMarked : SpanStack → Type 0
IsMarked [] = Unit {0}
IsMarked (c ∷ stack) = (c.duplicate ≡ entered c.id stack) × IsMarked stack

-- How often a span is entered.
abbrev pub depth : ℕ → SpanStack → ℕ
depth id [] = 0
depth id (c ∷ stack) = if c.id == id then suc (depth id stack) else depth id stack

push-IsMarked : (id : ℕ) (stack : SpanStack) → IsMarked stack → IsMarked (push id stack)
unfolding push
push-IsMarked id stack m = (refl, m)

entered-depth : (id : ℕ) (stack : SpanStack) → entered id stack ≡ ltb 0 (depth id stack)
entered-depth id [] = refl
entered-depth id (c ∷ stack) = ground (arith, entered-depth id stack)

-- `pop` by recursion.
pop-cons :
    (id : ℕ) (c : ContextId) (stack : SpanStack)
    → pop id (c ∷ stack)
      ≡ (if c.id == id then (stack, not c.duplicate) else (c ∷ (pop id stack).0, (pop id stack).1))
unfolding pop take_last
pop-cons id c stack = elim (Bool-cases (c.id == id)) [
  | inl e ↦ rw (e, pop, take_last)
  | inr e ↦ elim (Option-cases (take_last id stack)) [
    | inl f ↦ rw (e, f, pop, take_last)
    | inr (r, f) ↦ rw (e, f, pop, take_last)
  ]
]

depth-pop_hit :
    (id other : ℕ) (c : ContextId) (stack : SpanStack)
    → (c.id == id) ≡ true
    → depth other (pop id (c ∷ stack)).0 ≡ depth other stack
depth-pop_hit id other c stack e = rw (pop-cons id c stack, e)

depth-pop_miss :
    (id other : ℕ) (c : ContextId) (stack : SpanStack)
    → (c.id == id) ≡ false
    → depth other (pop id (c ∷ stack)).0 ≡ depth other (c ∷ (pop id stack).0)
depth-pop_miss id other c stack e = rw (pop-cons id c stack, e)

-- `pop` takes out one entry of its span and none of another.
depth-pop :
    (id other : ℕ) (stack : SpanStack)
    → depth other (pop id stack).0
      ≡ (if id == other then depth other stack - 1 else depth other stack)
unfolding pop take_last
depth-pop id other [] = ground arith
depth-pop id other (c ∷ stack) = elim (Bool-cases (c.id == id)) [
  | inl e ↦ rw (depth-pop_hit id other c stack e) (ground arith)
  | inr e ↦ rw (depth-pop_miss id other c stack e) (ground (arith, depth-pop id other stack))
]

pop-IsMarked : (id : ℕ) (stack : SpanStack) → IsMarked stack → IsMarked (pop id stack).0
unfolding pop take_last
pop-IsMarked id [] m = tt
pop-IsMarked id (c ∷ stack) m = elim (Bool-cases (c.id == id)) [
  | inl e ↦ rw (pop-cons id c stack, e) m.1
  | inr e ↦ rw (pop-cons id c stack, e) (marked e, pop-IsMarked id stack m.1)
]
  where
    marked : (c.id == id) ≡ false → c.duplicate ≡ entered c.id (pop id stack).0
    marked e =
        m.0
        ∙ entered-depth c.id stack
        ∙ ap (ltb 0) (kept e)
        ∙ sym (entered-depth c.id (pop id stack).0)
      where
        kept : (c.id == id) ≡ false → depth c.id stack ≡ depth c.id (pop id stack).0
        kept f = ground (arith, depth-pop id c.id stack)

-- `pop` answers whether the span was entered and is no longer.
pop-left : (id : ℕ) (stack : SpanStack) → IsMarked stack → (pop id stack).1 ≡ (depth id stack == 1)
unfolding pop take_last
pop-left id [] m = refl
pop-left id (c ∷ stack) m = elim (Bool-cases (c.id == id)) [
  | inl e ↦ rw (pop-cons id c stack, e) (ground (arith, m.0, entered-depth c.id stack))
  | inr e ↦ rw (pop-cons id c stack, e) (pop-left id stack m.1)
]

-- Entering and exiting: the calls that a thread makes.
pub data Call : Type 0 where
  enter exit : ℕ → Call

pub run : List Call → SpanStack → SpanStack
run [] stack = stack
run (enter id ∷ calls) stack = run calls (push id stack)
run (exit id ∷ calls) stack = run calls (pop id stack).0

-- The number of entries that the calls leave of a span; an exit of a span that is not entered does
-- nothing.
abbrev pub count : ℕ → List Call → ℕ → ℕ
count id [] n = n
count id (enter other ∷ calls) n = count id calls (if other == id then n + 1 else n)
count id (exit other ∷ calls) n = count id calls (if other == id then n - 1 else n)

run-IsMarked : (calls : List Call) (stack : SpanStack) → IsMarked stack → IsMarked (run calls stack)
unfolding run
run-IsMarked [] stack m = m
run-IsMarked (enter id ∷ calls) stack m =
    run-IsMarked calls (push id stack) (push-IsMarked id stack m)
run-IsMarked (exit id ∷ calls) stack m =
    run-IsMarked calls (pop id stack).0 (pop-IsMarked id stack m)

depth-push :
    (id other : ℕ) (stack : SpanStack)
    → depth other (push id stack)
      ≡ (if id == other then depth other stack + 1 else depth other stack)
unfolding push
depth-push id other stack = ground arith

depth-run :
    (id : ℕ) (calls : List Call) (stack : SpanStack)
    → depth id (run calls stack) ≡ count id calls (depth id stack)
unfolding run
depth-run id [] stack = refl
depth-run id (enter other ∷ calls) stack =
    depth-run id calls (push other stack) ∙ ap (count id calls) (depth-push other id stack)
depth-run id (exit other ∷ calls) stack =
    depth-run id calls (pop other stack).0 ∙ ap (count id calls) (depth-pop other id stack)

-- After any calls, the stack holds each span as often as it was entered and not exited, `exit` has
-- answered `true` exactly when it takes out the last entry of the span, and an entry is marked as a
-- duplicate exactly if its span has an older one.
pub run-counts :
    (calls : List Call) (id : ℕ)
    → (depth id (run calls []) ≡ count id calls 0)
      × ((pop id (run calls [])).1 ≡ (count id calls 0 == 1))
      × IsMarked (run calls [])
run-counts calls id =
    (depth-run id calls [], pop-left id _ marked ∙ ap (λ n. n == 1) (depth-run id calls []), marked)
  where
    marked : IsMarked (run calls [])
    marked = run-IsMarked calls [] tt

pub occurrences : ℕ → List ℕ → ℕ
occurrences id [] = 0
occurrences id (x ∷ xs) = if x == id then suc (occurrences id xs) else occurrences id xs

occurrences-iter :
    (id : ℕ) (stack : SpanStack)
    → IsMarked stack
    → occurrences id (iter stack) ≡ min 1 (depth id stack)
unfolding iter occurrences
occurrences-iter id [] m = refl
occurrences-iter id (c ∷ stack) m =
    ground (arith, occurrences-iter id stack m.1, entered-depth c.id stack)

-- After any calls `iter` lists each span that is entered once, and no other span.
pub occurrences-iter-run :
    (calls : List Call) (id : ℕ) → occurrences id (iter (run calls [])) ≡ min 1 (count id calls 0)
occurrences-iter-run calls id =
    occurrences-iter id _ (run-IsMarked calls [] tt) ∙ ap (min 1) (depth-run id calls [])

-- Leaving the span that was entered last restores the stack, and answers `true` exactly if the span
-- was not entered before.
pub pop-push :
    (id : ℕ) (stack : SpanStack) → pop id (push id stack) ≡ (stack, not (entered id stack))
unfolding push
pop-push id stack =
    rw (pop-cons id (record { id = id; duplicate = entered id stack }) stack) (ground arith)
