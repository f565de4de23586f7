-- ===== src/Rolling/Pruned.antt =====
-- tracing-appender/src/rolling.rs: what the removal of old log files leaves in the directory.
use tracing.Prelude.{
  ℕ, suc, In, ◌↔◌, fun_ext, ◌-◌, ◌^◌, ◌<◌, ◌≤◌, ◌≡◌, refl, ◌⊎◌, ap, ◌∙◌, sym, Bool, true, false,
  not, List, [], ◌∷◌, if◌then◌else◌, Option, none, some, length, filter, any, All, inl, inr, arith,
  Bool-cases, beq, beq_refl,
}
use tracing.Rolling.{Dates, and_then}
use tracing.Rolling.Config.{Builder}
use tracing.Rolling.TooOld.{too_old_lem, too_old-All, length-too_old}
use tracing.Rolling.Owned.{IsOwn, In-candidates}
use tracing.Rolling.Files.{
  FileMetadata, DirEntry, Disk, candidate, candidates, read_candidate, with_created, remove_files,
  too_old, prune_old_logs,
}
use tracing.Rolling.Sorted.{filter-filter, All-of_In, any-In}

abbrev pub named : List ℕ → Option DirEntry → Bool
named name none = false
named name (some entry) = beq entry.file_name name

-- The entries that do not have the name of one of the files.
abbrev pub is_left : List (DirEntry × ℕ) → Option DirEntry → Bool
is_left files entry = not (any (λ f. named f.0.file_name entry) files)

module _ (ds : Dates) (disk : Disk ds) where
  open disk use {Fs, read_dir, remove_file}

  -- A file that is removed is not listed any more, and nothing else changes in the directory.
  abbrev pub Removes : Type 0
  Removes =
      (name : List ℕ) (fs : Fs) (entries : List (Option DirEntry))
      → (remove_file name fs).0 ≡ true
      → read_dir fs ≡ some entries
      → read_dir (remove_file name fs).1 ≡ some (filter (λ e. not (named name e)) entries)

  -- No removal of these files fails.
  abbrev pub AreRemoved : List (DirEntry × ℕ) → Fs → Type 0
  AreRemoved [] fs = Unit {0}
  AreRemoved (f ∷ files) fs =
      let r = remove_file f.0.file_name fs in (r.0 ≡ true) × AreRemoved files r.1

  remove_files_lem :
      (files : List (DirEntry × ℕ)) (fs : Fs) (entries : List (Option DirEntry))
      → Removes
      → AreRemoved files fs
      → read_dir fs ≡ some entries
      → read_dir (remove_files ds disk files fs) ≡ some (filter (is_left files) entries)
  unfolding remove_files
  remove_files_lem [] fs entries law a e = e ∙ ap some (sym (filter_all entries))
    where
      filter_all : (es : List (Option DirEntry)) → filter (is_left []) es ≡ es
      filter_all [] = refl
      filter_all (x ∷ xs) = ap (λ ys. x ∷ ys) (filter_all xs)
  remove_files_lem (f ∷ files) fs entries law (a, b) e =
      remove_files_lem files _ _ law b (law f.0.file_name fs entries a e)
      ∙ ap some (
          filter-filter (λ x. not (named f.0.file_name x)) (is_left files) entries
          ∙ ap (λ p. filter p entries) (fun_ext (λ x. ground arith)))

  -- Whether it is refused or accepted, the entry stays the same.
  abbrev Same : DirEntry → Option (DirEntry × ℕ) → Type 0
  Same entry r = (r ≡ none) ⊎ ((t : ℕ) × (r ≡ some (entry, t)))

  with_created-Same : (entry : DirEntry) (o : Option ℕ) → Same entry (with_created ds disk entry o)
  with_created-Same entry none = inl refl
  with_created-Same entry (some t) = inr (t, refl)

  if-Same :
      (entry : DirEntry) (c : Bool) (r : Option (DirEntry × ℕ))
      → Same entry r
      → Same entry (if c then r else none)
  if-Same entry true r h = h
  if-Same entry false r h = inl refl

  candidate-Same : (b : Builder) (entry : DirEntry) → Same entry (candidate ds disk b (some entry))
  unfolding candidate read_candidate
  candidate-Same b entry = by_metadata entry.metadata
    where
      by_metadata :
          (m : Option FileMetadata) → Same entry (and_then m (read_candidate ds disk b entry))
      by_metadata none = inl refl
      by_metadata (some m) = if-Same entry _ _ (with_created-Same entry _)

  candidates-filter :
      (b : Builder) (p : Option DirEntry → Bool) (entries : List (Option DirEntry))
      → candidates ds disk b (filter p entries)
        ≡ filter (λ c. p (some c.0)) (candidates ds disk b entries)
  unfolding candidates candidate
  candidates-filter b p [] = refl
  candidates-filter b p (none ∷ es) = elim (Bool-cases (p none)) [
    | inl t ↦ rw (t, candidates) (candidates-filter b p es)
    | inr f ↦ rw (f) (candidates-filter b p es)
  ]
  candidates-filter b p (some e ∷ es) = elim (candidate-Same b e) [
    | inl n ↦ elim (Bool-cases (p (some e))) [
      | inl t ↦ rw (t, candidates, n) (candidates-filter b p es)
      | inr f ↦ rw (f, candidates, n) (candidates-filter b p es)
    ]
    | inr (t, f) ↦ elim (Bool-cases (p (some e))) [
      | inl h ↦ rw (h, candidates, f, h) (ap (λ cs. (e, t) ∷ cs) (candidates-filter b p es))
      | inr h ↦ rw (h, candidates, f, h) (candidates-filter b p es)
    ]
  ]

  refuses_lem : (files : List (DirEntry × ℕ)) → All (λ f. is_left files (some f.0) ≡ false) files
  refuses_lem files = All-of_In _ files (λ f m.
      ap not (any-In (λ g. named g.0.file_name (some f.0)) f files m (beq_refl f.0.file_name)))

  -- What pruning to `max_files` leaves in a directory with these entries.
  pub record IsPruned (b : Builder) (max_files : ℕ) (entries : List (Option DirEntry)) (fs : Fs)
      : Type 0 where
    pub left : List (Option DirEntry)
    pub on_read : read_dir fs ≡ some left
    pub on_others :
        left ≡ filter (is_left (too_old ds disk max_files (candidates ds disk b entries))) entries
    pub own :
        All
          (λ old. In (some old.0) entries × IsOwn ds disk b old.0 old.1)
          (too_old ds disk max_files (candidates ds disk b entries))
    pub count :
        length (too_old ds disk max_files (candidates ds disk b entries))
        ≡ suc (length (candidates ds disk b entries)) - max_files
    pub counted :
        (entry : DirEntry) (t : ℕ)
        → In (entry, t) (candidates ds disk b left)
          ↔ (In (some entry) left × IsOwn ds disk b entry t)
    pub bounded : length (candidates ds disk b left) < max_files
    pub newest :
        All
          (λ kept.
            All (λ old. old.1 ≤ kept.1) (too_old ds disk max_files (candidates ds disk b entries)))
          (candidates ds disk b left)

  -- Let the directory be readable, `max_files` not 0, the log files fewer than 2 ^ 64, no removal fail,
  -- and a removal take the entries with its name out of the directory and no others. A log file is an
  -- entry that is a file with a UTF-8 name that begins with the prefix and ends with the suffix, or,
  -- without both, is a date; and that has a time of creation, or a date in its name. Then
  -- `prune_old_logs` calls for the removal of log files of the directory only, as many as there are
  -- above `max_files - 1`, and none if there are not so many; the entries that are left are those that
  -- were there, without those of the removed names; less than `max_files` log files are left, and
  -- none of them is older than one that was removed.
  pub prune_old_logs-IsPruned :
      (b : Builder) (max_files : ℕ) (fs : Fs) (entries : List (Option DirEntry))
      → Removes
      → 0 < max_files
      → read_dir fs ≡ some entries
      → length (candidates ds disk b entries) < 2 ^ 64
      → AreRemoved (too_old ds disk max_files (candidates ds disk b entries)) fs
      → IsPruned b max_files entries (prune_old_logs ds disk b max_files fs)
  unfolding prune_old_logs
  prune_old_logs-IsPruned b max_files fs entries law h e l a =
      let files = candidates ds disk b entries in
      let old = too_old ds disk max_files files in
      let (c, d) =
        too_old_lem ds disk max_files files (λ f. is_left old (some f.0)) h l (refuses_lem old) in
      let same = candidates-filter b (is_left old) entries in
      record {
        left = filter (is_left old) entries;
        on_read = rw (prune_old_logs, e) (remove_files_lem old fs entries law a e);
        on_others = refl;
        own =
            too_old-All ds disk _ max_files files
              (All-of_In _ files (λ f m. (In-candidates ds disk b entries f.0 f.1).0 m));
        count = length-too_old ds disk max_files files h l;
        counted = In-candidates ds disk b (filter (is_left old) entries);
        bounded = rw same c;
        newest = rw same d;
      }
