-- ===== src/Directive/Contents.antt =====
-- What a set holds after `add`, and after it was built from a sequence.
use Prim.Native.Nat.Ordering.{lt, eq}
use tracing.Prelude.{
  ◌≤◌, ◌≡◌, ◌≢◌, ◌↔◌, refl, ◌⊎◌, inl, inr, List, [], ◌∷◌, All, All-imp, In, In-All, arith,
}
use tracing.Prelude.Order.{IsWeakOrder}
use tracing.Level.Compare.Verbosity.{verbosity, filter_as_usize_sum}
use tracing.Directive.{Directives, DirectiveSet, empty, binary_search, add, extend, from_iter}
use tracing.Directive.Sorted.{IsSorted, place, place-cons, All-place, add-IsSorted}

module _ {T : Type 0} (t : Directives T) (o : IsWeakOrder t.cmp) where
  In-place_of :
      (xs : List T) (d e : T) → (e ≡ d) ⊎ (In e xs × (t.cmp e d ≢ eq)) → In e (place t xs d)
  unfolding binary_search
  In-place_of [] d e (inl h) = inl h
  In-place_of [] d e (inr (m, n)) = absurd (m refl)
  In-place_of (x ∷ xs) d e h =
      ground (arith, place-cons t x xs d, In-place_of xs d e, o.cmp_reverse x d, o.cmp_reverse e d)

  -- Only the directive that is added equals it afterwards.
  place-apart :
      (xs : List T) (d e : T)
      → IsSorted t xs
      → In e (place t xs d)
      → (e ≡ d) ⊎ (In e xs × (t.cmp e d ≢ eq))
  unfolding binary_search
  place-apart [] d e s h = elim h [ inl q ↦ inl q | inr m ↦ absurd (m refl) ]
  place-apart (x ∷ xs) d e s h = ground (
    arith,
    place-cons t x xs d,
    place-apart xs d e s.1,
    In-All (λ y. t.cmp x y ≡ lt) e xs,
    o.lt_trans d x e,
    o.cmp_congr x d e,
    o.cmp_reverse x d,
    o.cmp_reverse e d,
    o.cmp_reverse x e,
    o.cmp_refl d,
    o.cmp_refl x,
  )

  -- `add` puts the new directive in, takes out the one that it equals by `cmp`, and keeps all
  -- others.
  pub In-add :
      (d e : T) (set : DirectiveSet T)
      → IsSorted t set.directives
      → In e (add t d set).directives ↔ ((e ≡ d) ⊎ (In e set.directives × (t.cmp e d ≢ eq)))
  unfolding add
  In-add d e set s = (place-apart set.directives d e s, In-place_of set.directives d e)

  -- `e` is in the sequence, and no later element equals it by `cmp`.
  abbrev pub Last : T → List T → Type 0
  Last e [] = ⊥
  Last e (d ∷ ds) = ((e ≡ d) × All (λ y. t.cmp e y ≢ eq) ds) ⊎ Last e ds

  In-extend :
      (ds : List T) (e : T) (set : DirectiveSet T)
      → IsSorted t set.directives
      → In e (extend t ds set).directives
        ↔ (Last e ds ⊎ (In e set.directives × All (λ y. t.cmp e y ≢ eq) ds))
  unfolding extend
  In-extend [] e set s = (λ h. inr (h, tt), λ h. elim h [ inl l ↦ absurd l | inr q ↦ q.0 ])
  In-extend (d ∷ ds) e set s =
      let ih = In-extend ds e (add t d set) (add-IsSorted t o d set s) in
      (λ h. to (ih.0 h), λ h. ih.1 (from h))
    where
      to :
          Last e ds ⊎ (In e (add t d set).directives × All (λ y. t.cmp e y ≢ eq) ds)
          → Last e (d ∷ ds) ⊎ (In e set.directives × All (λ y. t.cmp e y ≢ eq) (d ∷ ds))
      to (inl l) = inl (inr l)
      to (inr (m, a)) = elim ((In-add d e set s).0 m) [
        | inl q ↦ inl (inl (q, a))
        | inr (k, n) ↦ inr (k, (n, a))
      ]

      from :
          Last e (d ∷ ds) ⊎ (In e set.directives × All (λ y. t.cmp e y ≢ eq) (d ∷ ds))
          → Last e ds ⊎ (In e (add t d set).directives × All (λ y. t.cmp e y ≢ eq) ds)
      from (inl (inl (q, a))) = inr ((In-add d e set s).1 (inl q), a)
      from (inl (inr l)) = inl l
      from (inr (k, (n, a))) = inr ((In-add d e set s).1 (inr (k, n)), a)

  -- A set that is built from a sequence holds exactly the directives that no later one of the
  -- sequence replaces.
  pub In-from_iter : (ds : List T) (e : T) → In e (from_iter t ds).directives ↔ Last e ds
  unfolding from_iter
  In-from_iter ds e =
      (λ h. to ((In-extend ds e empty tt).0 h), λ l. (In-extend ds e empty tt).1 (inl l))
    where
      to : Last e ds ⊎ ((e ≢ e) × All (λ y. t.cmp e y ≢ eq) ds) → Last e ds
      to (inl l) = l
      to (inr (m, a)) = absurd (m refl)

  -- No directive of the set is more verbose than `max_level`.
  abbrev pub IsBounded : DirectiveSet T → Type 0
  IsBounded set = All (λ d. verbosity (t.level d) ≤ verbosity set.max_level) set.directives

  add-max_level :
      (d : T) (set : DirectiveSet T)
      → (verbosity (t.level d) ≤ verbosity (add t d set).max_level)
        × (verbosity set.max_level ≤ verbosity (add t d set).max_level)
  unfolding add
  add-max_level d set =
      ground (arith, filter_as_usize_sum (t.level d), filter_as_usize_sum set.max_level)

  pub add-IsBounded : (d : T) (set : DirectiveSet T) → IsBounded set → IsBounded (add t d set)
  unfolding add
  add-IsBounded d set b =
      All-place t o _ set.directives d (add-max_level d set).0
        (All-imp (λ e h. omega (arith, (add-max_level d set).1)) set.directives b)

  pub extend-IsBounded :
      (ds : List T) (set : DirectiveSet T) → IsBounded set → IsBounded (extend t ds set)
  unfolding extend
  extend-IsBounded [] set b = b
  extend-IsBounded (d ∷ ds) set b = extend-IsBounded ds (add t d set) (add-IsBounded d set b)
