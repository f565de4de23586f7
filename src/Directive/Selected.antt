-- ===== src/Directive/Selected.antt =====
-- The directive that decides: the most specific one that matches.
use Prim.Native.Nat.Ordering.{lt}
use tracing.Prelude.{
  ◌≡◌, refl, ◌⊎◌, Bool, true, false, List, [], ◌∷◌, Option, none, some, In, In-All, arith,
}
use tracing.Prelude.Order.{IsWeakOrder}
use tracing.Metadata.{Metadata}
use tracing.Directive.{Directives, first, directive_for, from_iter}
use tracing.Directive.Sorted.{IsSorted, from_iter-IsSorted}

module _ {T : Type 0} (t : Directives T) where
  -- The first directive that passes is in the set, passes, and is less than all others that do.
  pub first-least :
      (test : T → Bool) (xs : List T) (d e : T)
      → IsSorted t xs
      → first t test xs ≡ some d
      → In e xs
      → test e ≡ true
      → In d xs × (test d ≡ true) × ((e ≡ d) ⊎ (t.cmp d e ≡ lt))
  unfolding first
  first-least test [] d e s f m p = absurd (m refl)
  first-least test (x ∷ xs) d e s f m p =
      ground (arith, first-least test xs d e s.1, In-All (λ y. t.cmp x y ≡ lt) e xs)

  pub first-none :
      (test : T → Bool) (xs : List T) (e : T) → first t test xs ≡ none → In e xs → test e ≡ false
  unfolding first
  first-none test [] e f m = absurd (m refl)
  first-none test (x ∷ xs) e f m = ground (arith, first-none test xs e)

  pub first-some :
      (test : T → Bool) (xs : List T) (d : T) → first t test xs ≡ some d → In d xs × (test d ≡ true)
  unfolding first
  first-some test [] d f = cc
  first-some test (x ∷ xs) d f = ground (arith, first-some test xs d)

  -- In a set built from a sequence, if any directive `e` cares about some metadata then one is
  -- selected, and it is `e` or before `e` in the order of specificity.
  pub directive_for-from_iter :
      (o : IsWeakOrder t.cmp) (ds : List T) (meta : Metadata) (e : T)
      → In e (from_iter t ds).directives
      → t.cares_about e meta ≡ true
      → (d : T) × (directive_for t meta (from_iter t ds) ≡ some d)
        × In d (from_iter t ds).directives
        × (t.cares_about d meta ≡ true)
        × ((e ≡ d) ⊎ (t.cmp d e ≡ lt))
  unfolding directive_for
  directive_for-from_iter o ds meta e m p =
      go (first t (λ d. t.cares_about d meta) (from_iter t ds).directives) refl
    where
      go :
          (r : Option T)
          → first t (λ d. t.cares_about d meta) (from_iter t ds).directives ≡ r
          → (d : T) × (first t (λ d. t.cares_about d meta) (from_iter t ds).directives ≡ some d)
            × In d (from_iter t ds).directives
            × (t.cares_about d meta ≡ true)
            × ((e ≡ d) ⊎ (t.cmp d e ≡ lt))
      go none f = absurd (cc (p, first-none _ (from_iter t ds).directives e f m))
      go (some d) f =
          let l = first-least _ (from_iter t ds).directives d e (from_iter-IsSorted t o ds) f m p in
          (d, f, l.0, l.1, l.2)
