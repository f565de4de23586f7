-- ===== src/Rolling/Owned.antt =====
-- tracing-appender/src/rolling.rs: which entries of the directory `prune_old_logs` counts as log files,
-- by what their names are made of.
use tracing.Prelude.{
  ℕ, ◌≡◌, ◌≢◌, ◌↔◌, refl, sym, ap, ◌∙◌, ◌⊎◌, inl, inr, Bool, true, false, ◌&&◌, ◌||◌, List, [], ◌∷◌,
  ◌++◌, Option, none, some, In, starts_with, arith, if◌then◌else◌, Option-cases, subst,
}
use tracing.Rolling.{Dates, and_then, date_format}
use tracing.Rolling.Config.{Builder}
use tracing.Rolling.Affix.{starts_with-split, starts_with-append, ends_with-split, ends_with-append}
use tracing.Rolling.Files.{
  FileMetadata, DirEntry, Disk, ends_with, is_some, has_prefix, has_suffix, or_else, matches,
  parse_date_from_filename, with_created, read_candidate, candidate, candidates,
}

-- The name begins with the prefix, and ends with the suffix, if there is one.
abbrev pub Begins : Option (List ℕ) → List ℕ → Type 0
Begins none name = Unit {0}
Begins (some prefix) name = (rest : List ℕ) × (name ≡ prefix ++ rest)

abbrev pub Ends : Option (List ℕ) → List ℕ → Type 0
Ends none name = Unit {0}
Ends (some suffix) name = (front : List ℕ) × (name ≡ front ++ suffix)

module _ (ds : Dates) (disk : Disk ds) where
  open disk use {parse_date}

  has_prefix_iff :
      (p : Option (List ℕ)) (name : List ℕ) → (has_prefix ds disk p name ≡ true) ↔ Begins p name
  has_prefix_iff none name = (λ h. tt, λ h. refl)
  has_prefix_iff (some p) name = (
    λ h. starts_with-split name p h,
    λ b. ap (λ s. starts_with s p) b.1 ∙ starts_with-append p b.0,
  )

  has_suffix_iff :
      (p : Option (List ℕ)) (name : List ℕ) → (has_suffix ds disk p name ≡ true) ↔ Ends p name
  has_suffix_iff none name = (λ h. tt, λ h. refl)
  has_suffix_iff (some p) name =
      (λ h. ends_with-split name p h, λ b. ap (λ s. ends_with s p) b.1 ∙ ends_with-append b.0 p)

  -- A log file of the appender, created at `t`: a file with a name in UTF-8 that begins with the prefix
  -- and ends with the suffix, or that is a date if there is neither. Where the file system knows no
  -- time of creation, it is the date in the name.
  pub record IsOwn (b : Builder) (entry : DirEntry) (t : ℕ) : Type 0 where
    pub metadata : FileMetadata
    pub found : entry.metadata ≡ some metadata
    pub is_file : metadata.is_file ≡ true
    pub is_utf8 : entry.is_utf8 ≡ true
    pub begins : Begins b.prefix entry.file_name
    pub ends : Ends b.suffix entry.file_name
    pub named :
        (b.prefix ≢ none)
        ⊎ (b.suffix ≢ none)
        ⊎ (parse_date entry.file_name (date_format b.rotation) ≢ none)
    pub dated :
        (metadata.created ≡ some t)
        ⊎ ((metadata.created ≡ none)
            × (parse_date_from_filename ds disk entry.file_name
                  (date_format b.rotation)
                  b.prefix
                  b.suffix
                ≡ some t))

  some_iff {ℓ} : {A : Type ℓ} (o : Option A) → (is_some ds disk o ≡ true) ↔ (o ≢ none)
  some_iff none = (λ h. ground arith, λ h. absurd (h refl))
  some_iff (some a) = (λ h. ground arith, λ h. refl)

  abbrev Named : Builder → List ℕ → Type 0
  Named b name =
      (b.prefix ≢ none) ⊎ (b.suffix ≢ none) ⊎ (parse_date name (date_format b.rotation) ≢ none)

  or_iff : (p q r : Bool) → ((p || (q || r)) ≡ true) ↔ ((p ≡ true) ⊎ (q ≡ true) ⊎ (r ≡ true))
  or_iff true q r = (λ h. inl refl, λ h. refl)
  or_iff false true r = (λ h. inr (inl refl), λ h. refl)
  or_iff false false r = (λ h. inr (inr h), λ h. ground arith)

  some_test_iff :
      (b : Builder) (name : List ℕ)
      → ((is_some ds disk b.prefix
            || (is_some ds disk b.suffix
                || is_some ds disk (parse_date name (date_format b.rotation))))
          ≡ true)
        ↔ Named b name
  some_test_iff b name =
      let (to, from) = or_iff (is_some ds disk b.prefix) (is_some ds disk b.suffix) _ in
      (λ h. there (to h), λ h. from (back h))
    where
      there :
          (is_some ds disk b.prefix ≡ true)
            ⊎ (is_some ds disk b.suffix ≡ true)
            ⊎ (is_some ds disk (parse_date name (date_format b.rotation)) ≡ true)
          → Named b name
      there (inl h) = inl ((some_iff b.prefix).0 h)
      there (inr (inl h)) = inr (inl ((some_iff b.suffix).0 h))
      there (inr (inr h)) = inr (inr ((some_iff (parse_date name (date_format b.rotation))).0 h))

      back :
          Named b name
          → (is_some ds disk b.prefix ≡ true)
            ⊎ (is_some ds disk b.suffix ≡ true)
            ⊎ (is_some ds disk (parse_date name (date_format b.rotation)) ≡ true)
      back (inl h) = inl ((some_iff b.prefix).1 h)
      back (inr (inl h)) = inr (inl ((some_iff b.suffix).1 h))
      back (inr (inr h)) = inr (inr ((some_iff (parse_date name (date_format b.rotation))).1 h))

  matches_iff :
      (b : Builder) (name : List ℕ)
      → (matches ds disk b name ≡ true) ↔ (Begins b.prefix name × Ends b.suffix name × Named b name)
  unfolding matches
  matches_iff b name = (
    λ h. (
      (has_prefix_iff b.prefix name).0 (ground arith),
      (has_suffix_iff b.suffix name).0 (ground arith),
      (some_test_iff b name).0 (ground arith),
    ),
    λ (h : Begins b.prefix name × Ends b.suffix name × Named b name).
        rw ((has_prefix_iff b.prefix name).1 h.0, (has_suffix_iff b.suffix name).1 h.1)
          ((some_test_iff b name).1 h.2),
  )

  -- The time of creation, from the two places that it is looked for in.
  or_else_iff :
      (a b : Option ℕ) (t : ℕ)
      → (or_else ds disk a b ≡ some t) ↔ ((a ≡ some t) ⊎ ((a ≡ none) × (b ≡ some t)))
  or_else_iff none b t = (λ h. inr (refl, h), λ h. ground arith)
  or_else_iff (some a) b t = (λ h. inl h, λ h. ground arith)

  with_created_lem :
      (entry other : DirEntry) (o : Option ℕ) (t : ℕ)
      → with_created ds disk entry o ≡ some (other, t)
      → (other ≡ entry) × (o ≡ some t)
  with_created_lem entry other none t h = ground arith
  with_created_lem entry other (some a) t h = (cc, cc)

  candidate-IsOwn :
      (b : Builder) (entry other : DirEntry) (t : ℕ)
      → candidate ds disk b (some entry) ≡ some (other, t)
      → (other ≡ entry) × IsOwn b entry t
  unfolding candidate read_candidate
  candidate-IsOwn b entry other t h = by_metadata entry.metadata refl h
    where
      by_test :
          (m : FileMetadata) (c : Bool)
          → entry.metadata ≡ some m
          → (m.is_file && (entry.is_utf8 && matches ds disk b entry.file_name)) ≡ c
          → (if c
              then with_created ds disk entry (
                  or_else ds disk m.created (
                    parse_date_from_filename ds disk entry.file_name
                      (date_format b.rotation)
                      b.prefix
                      b.suffix))
              else none)
            ≡ some (other, t)
          → (other ≡ entry) × IsOwn b entry t
      by_test m false e c k = ground arith
      by_test m true e c k =
          let (same, d) = with_created_lem entry other _ t k in
          let (p, s, n) = (matches_iff b entry.file_name).0 (ground arith) in
          (
            same,
            record {
              metadata = m;
              found = e;
              is_file = ground arith;
              is_utf8 = ground arith;
              begins = p;
              ends = s;
              named = n;
              dated = (or_else_iff m.created _ t).0 d;
            },
          )

      by_metadata :
          (o : Option FileMetadata)
          → entry.metadata ≡ o
          → and_then o (read_candidate ds disk b entry) ≡ some (other, t)
          → (other ≡ entry) × IsOwn b entry t
      by_metadata none e k = ground arith
      by_metadata (some m) e k = by_test m _ e refl k

  candidate-of_own :
      (b : Builder) (entry : DirEntry) (t : ℕ)
      → IsOwn b entry t
      → candidate ds disk b (some entry) ≡ some (entry, t)
  unfolding candidate read_candidate
  candidate-of_own b entry t o =
      let accepts : (o.metadata.is_file && (entry.is_utf8 && matches ds disk b entry.file_name))
          ≡ true =
        all_three _ _ _ o.is_file o.is_utf8
          ((matches_iff b entry.file_name).1 (o.begins, o.ends, o.named)) in
      ap (λ q. and_then q (read_candidate ds disk b entry)) o.found
      ∙ ap
          (λ c.
            if c
            then with_created ds disk entry (
                or_else ds disk o.metadata.created (
                  parse_date_from_filename ds disk entry.file_name (date_format b.rotation) b.prefix
                    b.suffix))
            else none)
          accepts
      ∙ ap (with_created ds disk entry) ((or_else_iff o.metadata.created _ t).1 o.dated)
    where
      all_three : (p q r : Bool) → p ≡ true → q ≡ true → r ≡ true → (p && (q && r)) ≡ true
      all_three p q r d e f = ground arith

  -- The files that `prune_old_logs` counts are the appender's log files that the directory lists.
  pub In-candidates :
      (b : Builder) (entries : List (Option DirEntry)) (entry : DirEntry) (t : ℕ)
      → In (entry, t) (candidates ds disk b entries) ↔ (In (some entry) entries × IsOwn b entry t)
  unfolding candidates candidate
  In-candidates b [] entry t = (λ h. ground arith, λ h. ground arith)
  In-candidates b (none ∷ es) entry t =
      let (to, from) = In-candidates b es entry t in
      (λ h. (inr (to h).0, (to h).1), λ h. from (later h.0, h.1))
    where
      later : In (some entry) (none ∷ es) → In (some entry) es
      later (inl e) = ground arith
      later (inr m) = m
  In-candidates b (some e ∷ es) entry t =
      let ih = In-candidates b es entry t in
      elim (Option-cases (candidate ds disk b (some e))) [
        | inl n ↦ rw n (λ h. (inr (ih.0 h).0, (ih.0 h).1), λ h. ih.1 (refused n h.1 h.0, h.1))
        | inr (c, n) ↦ rw n (λ h. there c n ih.0 h, λ h. back c n ih.1 h.1 h.0)
      ]
    where
      refused :
          candidate ds disk b (some e) ≡ none
          → IsOwn b entry t
          → In (some entry) (some e ∷ es)
          → In (some entry) es
      refused n o (inl s) =
          let k = candidate-of_own b entry t o in let j = ap (candidate ds disk b) s in cc
      refused n o (inr m) = m

      there :
          (c : DirEntry × ℕ)
          → candidate ds disk b (some e) ≡ some c
          → (In (entry, t) (candidates ds disk b es) → In (some entry) es × IsOwn b entry t)
          → In (entry, t) (c ∷ candidates ds disk b es)
          → In (some entry) (some e ∷ es) × IsOwn b entry t
      there c n to (inl s) =
          let (same, o) = candidate-IsOwn b e entry t (n ∙ ap some (sym s)) in
          (inl (ap some same), subst (λ x. IsOwn b x t) (sym same) o)
      there c n to (inr m) = (inr (to m).0, (to m).1)

      back :
          (c : DirEntry × ℕ)
          → candidate ds disk b (some e) ≡ some c
          → (In (some entry) es × IsOwn b entry t → In (entry, t) (candidates ds disk b es))
          → IsOwn b entry t
          → In (some entry) (some e ∷ es)
          → In (entry, t) (c ∷ candidates ds disk b es)
      back c n from o (inl s) =
          let k = candidate-of_own b entry t o in let j = ap (candidate ds disk b) s in inl cc
      back c n from o (inr m) = inr (from (m, o))
