-- ===== src/Rolling/Sorted.antt =====
-- tracing-appender/src/rolling.rs: the files in the order of their creation, and those that a test
-- keeps.
use tracing.Prelude.{
  ℕ, suc, zero, ◌-◌, ◌≤◌, ◌≡◌, refl, ap, ◌∙◌, Bool, true, false, ◌&&◌, List, [], ◌∷◌, ◌++◌, leb,
  if◌then◌else◌, length, take, drop, filter, any, All, All-imp, In, inl, inr, arith, Bool-cases,
}
use tracing.Rolling.Files.{DirEntry, insert_by_created, sort_by_created}

module _ {ℓ} {A : Type ℓ} where
  pub filter-filter :
      (p q : A → Bool) (xs : List A) → filter q (filter p xs) ≡ filter (λ x. p x && q x) xs
  filter-filter p q [] = refl
  filter-filter p q (x ∷ xs) = ground (arith, filter-filter p q xs)

  pub take-drop : (n : ℕ) (xs : List A) → take n xs ++ drop n xs ≡ xs
  take-drop zero xs = refl
  take-drop (suc n) [] = refl
  take-drop (suc n) (x ∷ xs) = ap (λ ys. x ∷ ys) (take-drop n xs)

  pub length-drop : (n : ℕ) (xs : List A) → length (drop n xs) ≡ length xs - n
  length-drop zero xs = omega arith
  length-drop (suc n) [] = omega arith
  length-drop (suc n) (x ∷ xs) = length-drop n xs ∙ omega arith

  pub length-filter : (p : A → Bool) (xs : List A) → length (filter p xs) ≤ length xs
  length-filter p [] = omega arith
  length-filter p (x ∷ xs) = ground (arith, length-filter p xs)

  -- The test refuses each of the first elements.
  pub filter-append_refused :
      (p : A → Bool) (xs ys : List A)
      → All (λ x. p x ≡ false) xs
      → filter p (xs ++ ys) ≡ filter p ys
  filter-append_refused p [] ys h = refl
  filter-append_refused p (x ∷ xs) ys h = rw (h.0) (filter-append_refused p xs ys h.1)

  pub All-filter_if {κ} :
      (P : A → Type κ) (p : A → Bool) (xs : List A)
      → All (λ x. p x ≡ true → P x) xs
      → All P (filter p xs)
  All-filter_if P p [] h = h
  All-filter_if P p (x ∷ xs) h = elim (Bool-cases (p x)) [
    | inl e ↦ rw e (h.0 e, All-filter_if P p xs h.1)
    | inr e ↦ rw e (All-filter_if P p xs h.1)
  ]

  pub All-of_In {κ} : (P : A → Type κ) (xs : List A) → ((x : A) → In x xs → P x) → All P xs
  All-of_In P [] h = tt
  All-of_In P (x ∷ xs) h = (h x (inl refl), All-of_In P xs (λ y m. h y (inr m)))

  pub All-both {κ μ} :
      (P : A → Type κ) (Q : A → Type μ) (xs : List A)
      → All P xs
      → All Q xs
      → All (λ x. P x × Q x) xs
  All-both P Q [] h k = tt
  All-both P Q (x ∷ xs) h k = ((h.0, k.0), All-both P Q xs h.1 k.1)

  pub any-In : (p : A → Bool) (x : A) (xs : List A) → In x xs → p x ≡ true → any p xs ≡ true
  any-In p x [] m h = absurd (m refl)
  any-In p x (y ∷ ys) (inl e) h = ground (arith, ap p e)
  any-In p x (y ∷ ys) (inr m) h = ground (arith, any-In p x ys m)

-- In the order of creation
abbrev pub IsSorted : List (DirEntry × ℕ) → Type 0
IsSorted [] = Unit {0}
IsSorted (x ∷ xs) = All (λ y. x.1 ≤ y.1) xs × IsSorted xs

pub All-insert :
    (P : DirEntry × ℕ → Type 0) (x : DirEntry × ℕ) (xs : List (DirEntry × ℕ))
    → P x
    → All P xs
    → All P (insert_by_created x xs)
All-insert P x [] p h = (p, tt)
All-insert P x (y ∷ ys) p h = elim (Bool-cases (leb x.1 y.1)) [
  | inl e ↦ rw e (p, h)
  | inr e ↦ rw e (h.0, All-insert P x ys p h.1)
]

insert-IsSorted :
    (x : DirEntry × ℕ) (xs : List (DirEntry × ℕ)) → IsSorted xs → IsSorted (insert_by_created x xs)
insert-IsSorted x [] s = (tt, tt)
insert-IsSorted x (y ∷ ys) s = elim (Bool-cases (leb x.1 y.1)) [
  | inl e ↦ rw e ((le e, All-imp (λ z h. omega (arith, h, le e)) ys s.0), s)
  | inr e ↦ rw e (All-insert (λ z. y.1 ≤ z.1) x ys (ge e) s.0, insert-IsSorted x ys s.1)
]
  where
    le : leb x.1 y.1 ≡ true → x.1 ≤ y.1
    le e = ground arith

    ge : leb x.1 y.1 ≡ false → y.1 ≤ x.1
    ge e = ground arith

pub sort-IsSorted : (xs : List (DirEntry × ℕ)) → IsSorted (sort_by_created xs)
sort-IsSorted [] = tt
sort-IsSorted (x ∷ xs) = insert-IsSorted x (sort_by_created xs) (sort-IsSorted xs)

module _ (p : DirEntry × ℕ → Bool) where
  length-filter-insert :
      (x : DirEntry × ℕ) (xs : List (DirEntry × ℕ))
      → length (filter p (insert_by_created x xs)) ≡ length (filter p (x ∷ xs))
  length-filter-insert x [] = refl
  length-filter-insert x (y ∷ ys) = ground (arith, length-filter-insert x ys)

  pub length-filter-sort :
      (xs : List (DirEntry × ℕ)) → length (filter p (sort_by_created xs)) ≡ length (filter p xs)
  length-filter-sort [] = refl
  length-filter-sort (x ∷ xs) =
      length-filter-insert x (sort_by_created xs) ∙ ground (arith, length-filter-sort xs)

-- What holds of the sorted files holds of the files.
All-insert_inv :
    (P : DirEntry × ℕ → Type 0) (x : DirEntry × ℕ) (xs : List (DirEntry × ℕ))
    → All P (insert_by_created x xs)
    → P x × All P xs
All-insert_inv P x [] h = h
All-insert_inv P x (y ∷ ys) h = by_order (leb x.1 y.1) (All-insert_inv P x ys) h
  where
    by_order :
        (o : Bool)
        → (All P (insert_by_created x ys) → P x × All P ys)
        → All P (if o then x ∷ y ∷ ys else y ∷ insert_by_created x ys)
        → P x × All P (y ∷ ys)
    by_order true inv k = k
    by_order false inv k = let (a, b) = inv k.1 in (a, (k.0, b))

pub All-sort_inv :
    (P : DirEntry × ℕ → Type 0) (xs : List (DirEntry × ℕ)) → All P (sort_by_created xs) → All P xs
All-sort_inv P [] h = tt
All-sort_inv P (x ∷ xs) h =
    let (a, b) = All-insert_inv P x (sort_by_created xs) h in (a, All-sort_inv P xs b)

-- The first files are no newer than the others.
pub take-drop-IsSorted :
    (n : ℕ) (xs : List (DirEntry × ℕ))
    → IsSorted xs
    → All (λ kept. All (λ old. old.1 ≤ kept.1) (take n xs)) (drop n xs)
take-drop-IsSorted zero xs s = All-of_In _ xs (λ x m. tt)
take-drop-IsSorted (suc n) [] s = tt
take-drop-IsSorted (suc n) (x ∷ xs) s =
    All-both _ _ (drop n xs) (All-drop n xs s.0) (take-drop-IsSorted n xs s.1)
  where
    All-drop :
        (n : ℕ) (ys : List (DirEntry × ℕ))
        → All (λ y. x.1 ≤ y.1) ys
        → All (λ y. x.1 ≤ y.1) (drop n ys)
    All-drop zero ys h = h
    All-drop (suc n) [] h = h
    All-drop (suc n) (y ∷ ys) h = All-drop n ys h.1

length-insert :
    (x : DirEntry × ℕ) (xs : List (DirEntry × ℕ))
    → length (insert_by_created x xs) ≡ suc (length xs)
length-insert x [] = refl
length-insert x (y ∷ ys) = ground (arith, length-insert x ys)

pub length-sort : (xs : List (DirEntry × ℕ)) → length (sort_by_created xs) ≡ length xs
length-sort [] = refl
length-sort (x ∷ xs) = length-insert x (sort_by_created xs) ∙ ap suc (length-sort xs)
