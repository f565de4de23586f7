-- ===== src/Directive/Sorted.antt =====
-- The directives stay ordered, with no two of them equal, so the binary search is determined.
use Prim.Native.Nat.Ordering.{lt, eq, gt}
use tracing.Prelude.{◌≡◌, refl, List, [], ◌∷◌, ◌++◌, All, All-imp, length, Ordering, arith}
use tracing.Prelude.Order.{IsWeakOrder}
use tracing.Directive.{
  Directives, DirectiveSet, Search, found, insert_at, next_index, empty, binary_search, put, add,
  extend, from_iter,
}

module _ {T : Type 0} (t : Directives T) where
  -- Each directive is less than all that follow it.
  abbrev pub IsSorted : List T → Type 0
  IsSorted [] = Unit {0}
  IsSorted (x ∷ xs) = All (λ y. t.cmp x y ≡ lt) xs × IsSorted xs

  -- The directives after `add`.
  abbrev pub place : List T → T → List T
  place xs d = put t xs d (binary_search t xs d)

  put_next :
      (x : T) (xs : List T) (d : T) (r : Search)
      → put t (x ∷ xs) d (next_index r) ≡ x ∷ put t xs d r
  put_next x xs d (found i) = refl
  put_next x xs d (insert_at i) = refl

  -- `add` by recursion.
  pub place-cons :
      (x : T) (xs : List T) (d : T)
      → place (x ∷ xs) d ≡ elim (t.cmp x d) [ lt ↦ x ∷ place xs d | eq ↦ d ∷ xs | gt ↦ d ∷ x ∷ xs ]
  unfolding binary_search
  place-cons x xs d = ground (arith, put_next x xs d (binary_search t xs d))

module _ {T : Type 0} (t : Directives T) (o : IsWeakOrder t.cmp) where
  pub All-place {κ} : (P : T → Type κ) (xs : List T) (d : T) → P d → All P xs → All P (place t xs d)
  unfolding binary_search
  All-place P [] d p h = (p, tt)
  All-place P (x ∷ xs) d p h = ground (arith, place-cons t x xs d, All-place P xs d p h.1)

  All-less :
      (d x : T) (xs : List T)
      → t.cmp d x ≡ lt
      → All (λ y. t.cmp x y ≡ lt) xs
      → All (λ y. t.cmp d y ≡ lt) xs
  All-less d x xs h = All-imp (λ y g. o.lt_trans d x y h g) xs

  All-equal :
      (d x : T) (xs : List T)
      → t.cmp x d ≡ eq
      → All (λ y. t.cmp x y ≡ lt) xs
      → All (λ y. t.cmp d y ≡ lt) xs
  All-equal d x xs h = All-imp (λ y g. ground (arith, o.cmp_congr x d y)) xs

  place-IsSorted : (xs : List T) (d : T) → IsSorted t xs → IsSorted t (place t xs d)
  unfolding binary_search
  place-IsSorted [] d s = (tt, tt)
  place-IsSorted (x ∷ xs) d s = ground (
    arith,
    place-cons t x xs d,
    place-IsSorted xs d s.1,
    All-place (λ y. t.cmp x y ≡ lt) xs d,
    o.cmp_reverse x d,
    All-equal d x xs,
    All-less d x xs,
  )

  pub add-IsSorted :
      (d : T) (set : DirectiveSet T)
      → IsSorted t set.directives
      → IsSorted t (add t d set).directives
  unfolding add
  add-IsSorted d set s = place-IsSorted set.directives d s

  extend-IsSorted :
      (ds : List T) (set : DirectiveSet T)
      → IsSorted t set.directives
      → IsSorted t (extend t ds set).directives
  unfolding extend
  extend-IsSorted [] set s = s
  extend-IsSorted (d ∷ ds) set s = extend-IsSorted ds (add t d set) (add-IsSorted d set s)

  -- A set that is built from any directives is strictly sorted by `cmp`, the most specific first.
  pub from_iter-IsSorted : (ds : List T) → IsSorted t (from_iter t ds).directives
  unfolding from_iter
  from_iter-IsSorted ds = extend-IsSorted ds empty tt

  -- What the documentation of `binary_search` promises of its result, for `i` the length of
  -- `before`: the element at `i` is equal, or `i` is where the element fits.
  pub data Searched (xs : List T) (d : T) (r : Search) : Type 0 where
    hit :
        (before after : List T) (x : T)
        → xs ≡ before ++ (x ∷ after)
        → t.cmp x d ≡ eq
        → r ≡ found (length before)
        → Searched xs d r
    miss :
        (before after : List T)
        → xs ≡ before ++ after
        → All (λ y. t.cmp y d ≡ lt) before
        → All (λ y. t.cmp y d ≡ gt) after
        → r ≡ insert_at (length before)
        → Searched xs d r

  All-greater :
      (d x : T) (xs : List T)
      → t.cmp x d ≡ gt
      → All (λ y. t.cmp x y ≡ lt) xs
      → All (λ y. t.cmp y d ≡ gt) xs
  All-greater d x xs h =
      All-imp (λ y g. ground (arith, o.cmp_reverse x d, o.cmp_reverse d y, o.lt_trans d x y)) xs

  Searched-cons :
      (x : T) (xs : List T) (d : T) (r : Search)
      → t.cmp x d ≡ lt
      → Searched xs d r
      → Searched (x ∷ xs) d (next_index r)
  Searched-cons x xs d r h (hit b a y e g f) = hit (x ∷ b) a y (cc) g (rw f)
  Searched-cons x xs d r h (miss b a e l g f) = miss (x ∷ b) a (cc) (h, l) g (rw f)

  Searched-step :
      (x : T) (xs : List T) (d : T) (o' : Ordering)
      → t.cmp x d ≡ o'
      → IsSorted t (x ∷ xs)
      → Searched xs d (binary_search t xs d)
      → Searched (x ∷ xs) d (binary_search t (x ∷ xs) d)
  unfolding binary_search
  Searched-step x xs d lt e s ih = rw (e, binary_search) (Searched-cons x xs d _ e ih)
  Searched-step x xs d eq e s ih = rw (e, binary_search) (hit [] xs x refl e refl)
  Searched-step x xs d gt e s ih =
      rw (e, binary_search) (miss [] (x ∷ xs) refl tt (e, All-greater d x xs e s.0) refl)

  -- On sorted directives the search does what `binary_search` promises.
  pub binary_search-Searched :
      (xs : List T) (d : T) → IsSorted t xs → Searched xs d (binary_search t xs d)
  unfolding binary_search
  binary_search-Searched [] d s = miss [] [] refl tt tt refl
  binary_search-Searched (x ∷ xs) d s =
      Searched-step x xs d (t.cmp x d) refl s (binary_search-Searched xs d s.1)
