-- ===== src/Registry/History.antt =====
-- What a program does with handles: it opens spans, clones handles and drops them.
use tracing.Prelude.{
  ℕ, suc, ◌+◌, ◌^◌, ◌%◌, ◌<◌, ◌≡◌, refl, ap, ◌∙◌, ◌⊎◌, inl, inr, Bool, List, [], ◌∷◌, Option, none,
  some, ◌==◌, Bool-cases, arith, length, All, subst,
}
use tracing.Registry.{
  Span, Registry, usize_max, get, this_stack, set_ref_count, clone_span, Parent, root, contextual,
  explicit, take_parent, new_span, try_close, ◌>>=◌,
}
use tracing.Registry.Counts.{
  Handles, none_at, fewer, more, more_parent, Absent, Counted, Counted-congr, get-Counted,
}
use tracing.Registry.Counts.Updates.{get-Absent, Absent-set_ref_count, set_ref_count-Counted}
use tracing.Registry.Close.{try_close-Closed}

-- No count is about to overflow.
abbrev pub HasRoom : List Span → Type 0
HasRoom xs = All (λ x. x.ref_count + 1 < usize_max) xs

get-HasRoom :
    (id : ℕ) (xs : List Span) (x : Span)
    → get id xs ≡ some x
    → HasRoom xs
    → x.ref_count + 1 < usize_max
unfolding get
get-HasRoom id [] x g h = cc
get-HasRoom id (y ∷ ys) x g h = elim (Bool-cases (y.id == id)) [
  | inl e ↦ let same : y ≡ x = ground arith in subst (λ z. z.ref_count + 1 < usize_max) same h.0
  | inr e ↦ get-HasRoom id ys x (ground arith) h.1
]

wrapping_inc-HasRoom : (n : ℕ) → n + 1 < usize_max → (n + 1) % 2 ^ 64 ≡ n + 1
wrapping_inc-HasRoom n h = omega (arith, h)

-- Cloning a handle to a span gives another handle to it, and changes nothing else.
pub clone_span-Counted :
    (id : ℕ) (r : Registry) (hs : Handles)
    → Counted r.spans hs
    → 0 < hs id
    → HasRoom r.spans
    → (s : Registry) × (clone_span id r ≡ some s)
      × Counted s.spans (more id hs)
      × (s.close_count ≡ r.close_count)
      × ((fresh : ℕ) → Absent fresh r.spans → Absent fresh s.spans)
unfolding clone_span
clone_span-Counted id r hs c h room =
    let (x, g, p, q, m) = get-Counted id r.spans hs c h in
    let below = get-HasRoom id r.spans x g room in
    (
      record r { spans = set_ref_count id (x.ref_count + 1) r.spans },
      rw g (ground (arith, wrapping_inc-HasRoom x.ref_count below)),
      set_ref_count-Counted id (x.ref_count + 1) r.spans hs (more id hs) x c g (omega arith)
          (omega (arith, below)) (λ i d. ground arith) (ground arith),
      refl,
      λ fresh a. Absent-set_ref_count fresh id (x.ref_count + 1) r.spans a,
    )

-- A parent that is named is a span to which the program has a handle.
abbrev pub IsHeld : Parent → Handles → Type 0
IsHeld root hs = Unit
IsHeld (contextual none) hs = Unit
IsHeld (contextual (some id)) hs = 0 < hs id
IsHeld (explicit id) hs = 0 < hs id

Absent-unheld : (id : ℕ) (xs : List Span) (hs : Handles) → Counted xs hs → Absent id xs → hs id ≡ 0
Absent-unheld id xs hs c a = elim (Bool-cases (hs id == 0)) [
  | inl e ↦ ground arith
  | inr e ↦
      let (x, g, _, _, _) = get-Counted id xs hs c (ground arith) in
      ground (arith, get-Absent id xs a)
]

-- The new span in front of the others, of which its parent has gained a reference.
opened-Counted :
    (fresh : ℕ) (p : Option ℕ) (xs : List Span) (hs : Handles)
    → Counted xs (more_parent p hs)
    → Absent fresh xs
    → hs fresh ≡ 0
    → Counted (record { id = fresh; parent = p; ref_count = 1 } ∷ xs) (more fresh hs)
opened-Counted fresh p xs hs c a z = (
  ground (arith, z),
  omega arith,
  omega arith,
  a,
  Counted-congr xs (more_parent p hs) (more_parent p (none_at fresh (more fresh hs))) (by_parent p)
      c,
)
  where
    by_parent :
        (q : Option ℕ) (i : ℕ)
        → more_parent q hs i ≡ more_parent q (none_at fresh (more fresh hs)) i
    by_parent none i = ground (arith, z)
    by_parent (some q) i = ground (arith, z)

take_parent-Counted :
    (parent : Parent) (r : Registry) (hs : Handles)
    → Counted r.spans hs
    → IsHeld parent hs
    → HasRoom r.spans
    → (p : Option ℕ) × (s : Registry) × (take_parent parent r ≡ some (p, s))
      × Counted s.spans (more_parent p hs)
      × (s.close_count ≡ r.close_count)
      × ((fresh : ℕ) → Absent fresh r.spans → Absent fresh s.spans)
take_parent-Counted root r hs c h room = (none, r, refl, c, refl, λ f a. a)
take_parent-Counted (contextual none) r hs c h room = (none, r, refl, c, refl, λ f a. a)
take_parent-Counted (contextual (some id)) r hs c h room =
    let (s, e, d, k, a) = clone_span-Counted id r hs c h room in
    (some id, s, ap (λ o. o >>= λ t. some (some id, t)) e, d, k, a)
take_parent-Counted (explicit id) r hs c h room =
    let (s, e, d, k, a) = clone_span-Counted id r hs c h room in
    (some id, s, ap (λ o. o >>= λ t. some (some id, t)) e, d, k, a)

-- Opening a span in a fresh slot of the pool, with a parent to which the program has a handle or
-- none, does not panic while no count is about to overflow. It gives one handle to the span, whose
-- parent gains the reference that the span holds.
pub new_span-Counted :
    (fresh : ℕ) (parent : Parent) (r : Registry) (hs : Handles)
    → Counted r.spans hs
    → Absent fresh r.spans
    → IsHeld parent hs
    → HasRoom r.spans
    → (s : Registry) × (new_span fresh parent r ≡ some s)
      × Counted s.spans (more fresh hs)
      × (s.close_count ≡ r.close_count)
unfolding new_span
new_span-Counted fresh parent r hs c a h room =
    let (p, s, e, d, k, b) = take_parent-Counted parent r hs c h room in
    (
      record s { spans = record { id = fresh; parent = p; ref_count = 1 } ∷ s.spans },
      rw e refl,
      opened-Counted fresh p s.spans hs d (b fresh a) (Absent-unheld fresh r.spans hs c a),
      k,
    )

-- The registry and the handles of a program that opens spans, clones handles and drops them, on a
-- stack of at least one layer whose dispatcher is the default one wherever a handle is dropped.
pub data Reach : Registry → Handles → Type 0 where
  start : Reach (record { spans = []; close_count = 0; closed = [] }) (λ _. 0)
  opened :
      (fresh : ℕ) (parent : Parent) (r s : Registry) (hs : Handles)
      → Reach r hs
      → Absent fresh r.spans
      → IsHeld parent hs
      → HasRoom r.spans
      → new_span fresh parent r ≡ some s
      → Reach s (more fresh hs)
  cloned :
      (id : ℕ) (r s : Registry) (hs : Handles)
      → Reach r hs
      → 0 < hs id
      → HasRoom r.spans
      → clone_span id r ≡ some s
      → Reach s (more id hs)
  dropped :
      (fuel layer id : ℕ) (b : Bool) (r s : Registry) (hs : Handles)
      → Reach r hs
      → 0 < hs id
      → length r.spans < fuel
      → try_close this_stack fuel (suc layer) id r ≡ some (b, s)
      → Reach s (fewer id hs)

abbrev Consistent : Registry → Handles → Type 0
Consistent r hs = Counted r.spans hs × (r.close_count ≡ 0)

Consistent-of_some :
    (s t : Registry) (hs : Handles) (o : Option Registry)
    → o ≡ some s
    → o ≡ some t
    → Consistent t hs
    → Consistent s hs
Consistent-of_some s t hs o e f c =
    let same : t ≡ s = ground arith in subst (λ z. Consistent z hs) same c

-- On a stack of at least one layer, a program on one thread opens spans in fresh slots of the pool,
-- with a parent to which it has a handle or none, clones handles and drops them, while no count is
-- about to overflow; where a handle is dropped, the default dispatcher is that of the registry's
-- stack. After any such history every count is the number of handles to the span and of its live
-- children, every parent of a live span is live, and the thread holds no guard. So nothing leaks:
-- where a span is left, the program has a handle.
pub Reach-Counted :
    {r : Registry} {hs : Handles}
    → Reach r hs
    → Counted r.spans hs × (r.close_count ≡ 0) × ((r.spans ≡ []) ⊎ ((id : ℕ) × (0 < hs id)))
Reach-Counted {r} {hs} h = let (c, k) = consistent h in (c, k, left r.spans c)
  where
    consistent : {s : Registry} {gs : Handles} → Reach s gs → Consistent s gs
    consistent start = ((λ i. refl), refl)
    consistent (opened fresh parent r s hs h a held room e) =
        let (c, k) = consistent h in
        let (t, f, d, l) = new_span-Counted fresh parent r hs c a held room in
        Consistent-of_some s t (more fresh hs) _ e f (d, l ∙ k)
    consistent (cloned id r s hs h held room e) =
        let (c, k) = consistent h in
        let (t, f, d, l, _) = clone_span-Counted id r hs c held room in
        Consistent-of_some s t (more id hs) _ e f (d, l ∙ k)
    consistent (dropped fuel layer id b r s hs h held room e) =
        let (c, k) = consistent h in
        let closed = try_close-Closed fuel layer id r hs c held room k in
        let same : closed.after ≡ s = ground (arith, closed.returns) in
        subst (λ z. Consistent z (fewer id hs)) same (closed.counted, closed.idle)

    left : (xs : List Span) → Counted xs hs → (xs ≡ []) ⊎ ((id : ℕ) × (0 < hs id))
    left [] c = inl refl
    left (x ∷ xs) c = inr (x.id, omega (arith, c.0, c.1))
