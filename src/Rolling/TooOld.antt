-- ===== src/Rolling/TooOld.antt =====
-- tracing-appender/src/rolling.rs: the files that are removed, and those that are not.
use tracing.Prelude.{
  ℕ, zero, suc, ◌-◌, ◌^◌, ◌<◌, ◌≤◌, ◌≡◌, ◌≢◌, refl, ap, ◌∙◌, sym, subst, Bool, true, false, List,
  [], ◌∷◌, if◌then◌else◌, length, take, drop, filter, All, All-imp, inl, inr, arith, Bool-cases,
  ltb, ltb→lt, All-append,
}
use tracing.Rolling.{Dates}
use tracing.Rolling.Files.{DirEntry, Disk, wrapping_sub, sort_by_created, too_old}
use tracing.Rolling.Sorted.{
  take-drop, length-drop, length-filter, filter-append_refused, All-filter_if, All-of_In,
  All-insert, sort-IsSorted, length-sort, length-filter-sort, All-sort_inv, take-drop-IsSorted,
}

module _ (ds : Dates) (disk : Disk ds) where
  false≢true : false ≢ true
  false≢true e = ground arith

  refused_lem :
      (k : ℕ) (files : List (DirEntry × ℕ)) (p : DirEntry × ℕ → Bool)
      → All (λ f. p f ≡ false) (take k (sort_by_created files))
      → (length (filter p files) ≤ length files - k)
        × All
            (λ kept. All (λ old. old.1 ≤ kept.1) (take k (sort_by_created files)))
            (filter p files)
  refused_lem k files p a =
      let sorted = sort_by_created files in
      let parts = take-drop k sorted in
      let kept =
        ap (filter p) (sym parts) ∙ filter-append_refused p (take k sorted) (drop k sorted) a in
      (
        omega (
          arith,
          length-filter-sort p files,
          ap length kept,
          length-filter p (drop k sorted),
          length-drop k sorted,
          length-sort files,
        ),
        All-filter_if _ p files (
            All-sort_inv _ files (
              subst (All (λ x. p x ≡ true → All (λ old. old.1 ≤ x.1) (take k sorted))) parts (
                All-append _ (take k sorted) (drop k sorted) (
                  All-imp (λ x e f. absurd (false≢true (sym e ∙ f))) (take k sorted) a,
                  All-imp (λ x h e. h) (drop k sorted)
                      (take-drop-IsSorted k sorted (sort-IsSorted files)),
                )))),
      )

  -- The files that the test leaves, for one that refuses all that are too old.
  pub too_old_lem :
      (max_files : ℕ) (files : List (DirEntry × ℕ)) (p : DirEntry × ℕ → Bool)
      → 0 < max_files
      → length files < 2 ^ 64
      → All (λ f. p f ≡ false) (too_old ds disk max_files files)
      → (length (filter p files) < max_files)
        × All
            (λ kept. All (λ old. old.1 ≤ kept.1) (too_old ds disk max_files files))
            (filter p files)
  unfolding too_old
  too_old_lem max_files files p h l a = by_length (ltb (length files) max_files) refl a
    where
      by_length :
          (o : Bool)
          → ltb (length files) max_files ≡ o
          → let old =
              if o
              then []
              else take
                  (wrapping_sub (length files) (wrapping_sub max_files 1))
                  (sort_by_created files) in
            All (λ f. p f ≡ false) old
            → (length (filter p files) < max_files)
              × All (λ kept. All (λ old. old.1 ≤ kept.1) old) (filter p files)
      by_length true e b = (
        omega (arith, length-filter p files, ltb→lt _ _ e),
        All-of_In _ (filter p files) (λ x m. tt),
      )
      by_length false e b =
          let (c, d) = refused_lem _ files p b in (omega (arith, c, h, l, ge e), d)
        where
          ge : ltb (length files) max_files ≡ false → max_files ≤ length files
          ge e = ground arith

  All-insert-sort :
      (P : DirEntry × ℕ → Type 0) (xs : List (DirEntry × ℕ)) → All P xs → All P (sort_by_created xs)
  All-insert-sort P [] h = tt
  All-insert-sort P (x ∷ xs) h = All-insert P x (sort_by_created xs) h.0 (All-insert-sort P xs h.1)

  All-take :
      (P : DirEntry × ℕ → Type 0) (n : ℕ) (xs : List (DirEntry × ℕ)) → All P xs → All P (take n xs)
  All-take P zero xs h = tt
  All-take P (suc n) [] h = tt
  All-take P (suc n) (x ∷ xs) h = (h.0, All-take P n xs h.1)

  length-take :
      (n : ℕ) (xs : List (DirEntry × ℕ)) → length (take n xs) ≡ length xs - (length xs - n)
  length-take zero xs = omega arith
  length-take (suc n) [] = omega arith
  length-take (suc n) (x ∷ xs) = omega (arith, length-take n xs)

  -- The files that are too old are files of the list, and as many as there are above the maximum.
  pub too_old-All :
      (P : DirEntry × ℕ → Type 0) (max_files : ℕ) (files : List (DirEntry × ℕ))
      → All P files
      → All P (too_old ds disk max_files files)
  unfolding too_old
  too_old-All P max_files files h = elim (Bool-cases (ltb (length files) max_files)) [
    | inl e ↦ rw e tt
    | inr e ↦ rw e (All-take P _ (sort_by_created files) (All-insert-sort P files h))
  ]

  pub length-too_old :
      (max_files : ℕ) (files : List (DirEntry × ℕ))
      → 0 < max_files
      → length files < 2 ^ 64
      → length (too_old ds disk max_files files) ≡ suc (length files) - max_files
  unfolding too_old
  length-too_old max_files files h l = elim (Bool-cases (ltb (length files) max_files)) [
    | inl e ↦ rw e (omega (arith, ltb→lt _ _ e))
    | inr e ↦ rw e (
        let n = wrapping_sub (length files) (wrapping_sub max_files 1) in
        omega (arith, h, l, ge e, length-take n (sort_by_created files), length-sort files))
  ]
    where
      ge : ltb (length files) max_files ≡ false → max_files ≤ length files
      ge e = ground arith
