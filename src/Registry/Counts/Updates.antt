-- ===== src/Registry/Counts/Updates.antt =====
-- The references after a count changes, and after a span leaves the pool.
use tracing.Prelude.{
  ℕ, suc, ◌+◌, ◌<◌, ◌≡◌, refl, sym, ap, ◌∙◌, inl, inr, false, List, [], ◌∷◌, Option, none, some,
  ◌==◌, Bool-cases, arith, length,
}
use tracing.Registry.{Span, usize_max, get, set_ref_count, remove}
use tracing.Registry.Counts.{
  Handles, none_at, more, fewer, more_parent, Absent, Counted, tail_handles, Counted-congr,
  get-Counted,
}

pub Absent-set_ref_count :
    (a id n : ℕ) (xs : List Span) → Absent a xs → Absent a (set_ref_count id n xs)
unfolding set_ref_count
Absent-set_ref_count a id n [] h = tt
Absent-set_ref_count a id n (x ∷ xs) h = elim (Bool-cases (x.id == id)) [
  | inl e ↦ rw e h
  | inr e ↦ rw e (h.0, Absent-set_ref_count a id n xs h.1)
]

Absent-remove : (a id : ℕ) (xs : List Span) → Absent a xs → Absent a (remove id xs)
unfolding remove
Absent-remove a id [] h = tt
Absent-remove a id (x ∷ xs) h = elim (Bool-cases (x.id == id)) [
  | inl e ↦ rw e h.1
  | inr e ↦ rw e (h.0, Absent-remove a id xs h.1)
]

pub get-Absent : (a : ℕ) (xs : List Span) → Absent a xs → get a xs ≡ none
unfolding get
get-Absent a [] h = refl
get-Absent a (x ∷ xs) h = ground (arith, get-Absent a xs h.1)

-- A parent is live, so it is no absent span.
more_parent-Absent :
    (a : ℕ) (xs : List Span) (p : Option ℕ) (ks fs : Handles)
    → Counted xs (more_parent p fs)
    → Absent a xs
    → more_parent p ks a ≡ ks a
more_parent-Absent a xs none ks fs c h = refl
more_parent-Absent a xs (some q) ks fs c h = elim (Bool-cases (q == a)) [
  | inl e ↦
      let (x, g, _, _, _) = get-Counted q xs (more q fs) c (ground arith) in
      ground (arith, get-Absent a xs h)
  | inr e ↦ ground arith
]

pub parent-Absent :
    (a id : ℕ) (xs : List Span) (hs ks : Handles) (x : Span)
    → Counted xs hs
    → get id xs ≡ some x
    → Absent a xs
    → more_parent x.parent ks a ≡ ks a
unfolding get
parent-Absent a id [] hs ks x c g h = cc
parent-Absent a id (y ∷ ys) hs ks x c g h = elim (Bool-cases (y.id == id)) [
  | inl e ↦
      let same : y ≡ x = ground arith in
      ap (λ z. more_parent z.parent ks a) (sym same)
      ∙ more_parent-Absent a ys y.parent ks (none_at y.id hs) c.4 h.1
  | inr e ↦ parent-Absent a id ys (tail_handles y hs) ks x c.4 (ground arith) h.1
]

-- Handles that agree but at one span still do after the same references are added.
more_parent-congr :
    (p : Option ℕ) (fs gs : Handles) (i : ℕ) → fs i ≡ gs i → more_parent p fs i ≡ more_parent p gs i
more_parent-congr none fs gs i e = e
more_parent-congr (some q) fs gs i e = ground (arith, e)

more_parent-change :
    (p : Option ℕ) (fs gs : Handles) (i m n : ℕ)
    → gs i + m ≡ fs i + n
    → more_parent p gs i + m ≡ more_parent p fs i + n
more_parent-change none fs gs i m n e = e
more_parent-change (some q) fs gs i m n e = ground (arith, e)

-- Where the count of a span changes as its handles do, the counts still agree.
pub set_ref_count-Counted :
    (id n : ℕ) (xs : List Span) (hs gs : Handles) (x : Span)
    → Counted xs hs
    → get id xs ≡ some x
    → 0 < n
    → n < usize_max
    → ((i : ℕ) → (id == i) ≡ false → gs i ≡ hs i)
    → gs id + x.ref_count ≡ hs id + n
    → Counted (set_ref_count id n xs) gs
unfolding get set_ref_count
set_ref_count-Counted id n [] hs gs x c g p q same change = cc
set_ref_count-Counted id n (y ∷ ys) hs gs x c g p q same change = elim (Bool-cases (y.id == id)) [
  | inl e ↦ rw e (
    ground arith,
    p,
    q,
    c.3,
    Counted-congr ys (tail_handles y hs) (tail_handles y gs)
        (λ i.
          more_parent-congr y.parent (none_at y.id hs) (none_at y.id gs) i (ground (arith, same i)))
        c.4,
  )
  | inr e ↦ rw e (
    c.0 ∙ sym (same y.id (ground arith)),
    c.1,
    c.2,
    Absent-set_ref_count y.id id n ys c.3,
    set_ref_count-Counted id n ys (tail_handles y hs) (tail_handles y gs) x c.4 (ground arith) p q
        (λ i d.
          more_parent-congr y.parent (none_at y.id gs) (none_at y.id hs) i
            (ground (arith, same i d)))
        (more_parent-change y.parent (none_at y.id hs) (none_at y.id gs) id x.ref_count n
          (ground (arith, change))),
  )
]

-- The references that are left when a span that has one handle leaves.
abbrev pub left_by : Span → ℕ → Handles → Handles
left_by x id hs = more_parent x.parent (fewer id hs)

left_by_comm :
    (x : Span) (p : Option ℕ) (a id : ℕ) (hs : Handles)
    → 0 < hs id
    → (a == id) ≡ false
    → more_parent x.parent (fewer id hs) a ≡ fewer id hs a
    → (i : ℕ)
    → more_parent x.parent (fewer id (more_parent p (none_at a hs))) i
      ≡ more_parent p (none_at a (more_parent x.parent (fewer id hs))) i
left_by_comm x p a id hs h d apart i = by_parents x.parent p apart
  where
    by_parents :
        (q r : Option ℕ)
        → more_parent q (fewer id hs) a ≡ fewer id hs a
        → more_parent q (fewer id (more_parent r (none_at a hs))) i
          ≡ more_parent r (none_at a (more_parent q (fewer id hs))) i
    by_parents none none e = ground arith
    by_parents none (some r) e = ground arith
    by_parents (some q) none e = ground arith
    by_parents (some q) (some r) e = ground arith

positive_in_tail :
    (p : Option ℕ) (a id : ℕ) (hs : Handles)
    → 0 < hs id
    → (a == id) ≡ false
    → 0 < more_parent p (none_at a hs) id
positive_in_tail none a id hs h e = ground arith
positive_in_tail (some q) a id hs h e = ground arith

-- A span whose one reference is a handle can leave: then its parent has one reference more than
-- the handles and the other children give it.
pub remove-Counted :
    (id : ℕ) (xs : List Span) (hs : Handles) (x : Span)
    → Counted xs hs
    → get id xs ≡ some x
    → x.ref_count ≡ 1
    → 0 < hs id
    → Counted (remove id xs) (left_by x id hs)
unfolding get remove
remove-Counted id [] hs x c g one h = cc
remove-Counted id (y ∷ ys) hs x c g one h = elim (Bool-cases (y.id == id)) [
  | inl e ↦
      let same : y ≡ x = ground arith in
      rw e (
        Counted-congr ys (tail_handles y hs) (left_by x id hs)
          (λ i.
            ap (λ z. more_parent z.parent (none_at y.id hs) i) same
            ∙ more_parent-congr x.parent (none_at y.id hs) (fewer id hs) i
                (ground (arith, c.0, ap (λ z. z.ref_count) same)))
          c.4)
  | inr e ↦
      let g2 : get id ys ≡ some x = ground arith in
      let apart = parent-Absent y.id id ys (tail_handles y hs) (fewer id hs) x c.4 g2 c.3 in
      rw e (
        ground (arith, c.0, apart),
        c.1,
        c.2,
        Absent-remove y.id id ys c.3,
        Counted-congr (remove id ys) (left_by x id (tail_handles y hs))
            (tail_handles y (left_by x id hs)) (left_by_comm x y.parent y.id id hs h e apart)
            (remove-Counted id ys (tail_handles y hs) x c.4 g2 one
              (positive_in_tail y.parent y.id id hs h e)),
      )
]

pub length-remove :
    (id : ℕ) (xs : List Span) (x : Span)
    → get id xs ≡ some x
    → suc (length (remove id xs)) ≡ length xs
unfolding get remove
length-remove id [] x g = cc
length-remove id (y ∷ ys) x g = elim (Bool-cases (y.id == id)) [
  | inl e ↦ rw e refl
  | inr e ↦ rw e (ap suc (length-remove id ys x (ground arith)))
]

-- A span that is found with a new count, and its removal.
pub get-set_ref_count :
    (id n : ℕ) (xs : List Span) (x : Span)
    → get id xs ≡ some x
    → (get id (set_ref_count id n xs) ≡ some (record x { ref_count = n }))
      × (remove id (set_ref_count id n xs) ≡ remove id xs)
unfolding get set_ref_count remove
get-set_ref_count id n [] x g = cc
get-set_ref_count id n (y ∷ ys) x g = ground (arith, get-set_ref_count id n ys x)
