-- ===== src/Directive/Rebuild.antt =====
-- A set that is built from the directives of a sorted set is that set.
use mathlib.Core.List.{append_assoc, append-nil}
use Prim.Native.Nat.Ordering.{lt}
use tracing.Prelude.{◌≡◌, refl, sym, ap, ◌∙◌, subst, List, [], ◌∷◌, ◌++◌, All, arith}
use tracing.Directive.{Directives, DirectiveSet, empty, add, extend, from_iter, binary_search}
use tracing.Directive.Sorted.{IsSorted, place, place-cons}

module _ {T : Type 0} (t : Directives T) where
  place-last : (xs : List T) (d : T) → All (λ y. t.cmp y d ≡ lt) xs → place t xs d ≡ xs ++ (d ∷ [])
  unfolding binary_search
  place-last [] d h = refl
  place-last (x ∷ xs) d h = ground (arith, place-cons t x xs d, place-last xs d h.1)

  -- In a sorted sequence all before an element are less than it.
  IsSorted-before :
      (xs ds : List T) (d : T) → IsSorted t (xs ++ (d ∷ ds)) → All (λ y. t.cmp y d ≡ lt) xs
  IsSorted-before [] ds d s = tt
  IsSorted-before (x ∷ xs) ds d s = (middle xs s.0, IsSorted-before xs ds d s.1)
    where
      middle : (ys : List T) → All (λ y. t.cmp x y ≡ lt) (ys ++ (d ∷ ds)) → t.cmp x d ≡ lt
      middle [] a = a.0
      middle (y ∷ ys) a = middle ys a.1

  extend-sorted :
      (ds : List T) (set : DirectiveSet T)
      → IsSorted t (set.directives ++ ds)
      → (extend t ds set).directives ≡ set.directives ++ ds
  unfolding extend add
  extend-sorted [] set s = sym (append-nil set.directives)
  extend-sorted (d ∷ ds) set s =
      let e = place-last set.directives d (IsSorted-before set.directives ds d s) in
      let shift = ap (λ xs. xs ++ ds) e ∙ append_assoc set.directives (d ∷ []) ds in
      extend-sorted ds (add t d set) (subst (IsSorted t) (sym shift) s) ∙ shift

  pub from_iter-sorted : (ds : List T) → IsSorted t ds → (from_iter t ds).directives ≡ ds
  unfolding from_iter
  from_iter-sorted ds s = extend-sorted ds empty s
