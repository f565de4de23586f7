-- ===== src/Rolling/Files.antt =====
-- tracing-appender/src/rolling.rs: which files belong to an appender, and the removal of old ones. The
-- file system is a parameter, and so are the formats of the crate `time`. What is printed to the
-- standard error is left out.
use tracing.Prelude.{
  ℕ, ◌+◌, ◌-◌, ◌%◌, ◌^◌, Bool, true, false, ◌&&◌, ◌||◌, List, [], ◌∷◌, Option, none, some, leb, ltb,
  ◌==◌, if◌then◌else◌, starts_with, length, take,
}
use tracing.Rolling.{Dates, and_then, date_format}
use tracing.Rolling.Config.{Builder, dot}

abbrev pub reversed : List ℕ → List ℕ → List ℕ
reversed [] done = done
reversed (c ∷ s) done = reversed s (c ∷ done)

-- `s.ends_with(suffix)`
abbrev pub ends_with : List ℕ → List ℕ → Bool
ends_with s suffix = starts_with (reversed s []) (reversed suffix [])

-- `s.strip_prefix(prefix)` and `s.strip_suffix(suffix)`
abbrev pub strip_prefix : List ℕ → List ℕ → Option (List ℕ)
strip_prefix s [] = some s
strip_prefix [] (p ∷ ps) = none
strip_prefix (c ∷ s) (p ∷ ps) = let rest = strip_prefix s ps in if c == p then rest else none

abbrev pub strip_suffix : List ℕ → List ℕ → Option (List ℕ)
strip_suffix s suffix =
    and_then (strip_prefix (reversed s []) (reversed suffix [])) (λ rest. some (reversed rest []))

-- What is used of `fs::Metadata` and of `fs::DirEntry`: `created` in nanoseconds, and whether the
-- name is UTF-8.
pub record FileMetadata : Type 0 where
  pub is_file : Bool
  pub created : Option ℕ

pub record DirEntry : Type 0 where
  pub metadata : Option FileMetadata
  pub file_name : List ℕ
  pub is_utf8 : Bool

-- The file system, with the log directory, and the texts of dates: `format` and `parse` by a
-- description of the format.
pub record Disk (ds : Dates) : Type 1 where
  pub Fs : Type 0
  pub File : Type 0
  pub read_dir : Fs → Option (List (Option DirEntry))
  pub remove_file : List ℕ → Fs → Bool × Fs
  pub open_append : List ℕ → Fs → Option File × Fs
  pub create_dir_all : Fs → Bool × Fs
  pub remove_symlink_file : List ℕ → Fs → Fs
  pub symlink_file : List ℕ → List ℕ → Fs → Bool × Fs
  pub write : List ℕ → File → Fs → Option ℕ × Fs
  pub flush : File → Fs → Fs
  pub format : List ℕ → ds.OffsetDateTime → Option (List ℕ)
  pub parse_date : List ℕ → List ℕ → Option ℕ
  pub parse_date_time : List ℕ → List ℕ → Option ℕ

-- `a - b` of `usize`, as it is without checks for overflow
abbrev pub wrapping_sub : ℕ → ℕ → ℕ
wrapping_sub a b = (a + (2 ^ 64 - b)) % 2 ^ 64

-- `files.sort_by_key(|(_, created_at)| *created_at)`: stable, by insertion
abbrev pub insert_by_created : DirEntry × ℕ → List (DirEntry × ℕ) → List (DirEntry × ℕ)
insert_by_created x [] = x ∷ []
insert_by_created x (y ∷ ys) =
    let rest = insert_by_created x ys in if leb x.1 y.1 then x ∷ y ∷ ys else y ∷ rest

abbrev pub sort_by_created : List (DirEntry × ℕ) → List (DirEntry × ℕ)
sort_by_created [] = []
sort_by_created (x ∷ xs) = insert_by_created x (sort_by_created xs)

module _ (ds : Dates) (disk : Disk ds) where
  open ds use {OffsetDateTime}
  open disk use {Fs, File, format, parse_date, parse_date_time}

  -- `parse_date_from_filename`
  abbrev without_prefix : Option (List ℕ) → List ℕ → Option (List ℕ)
  without_prefix none s = some s
  without_prefix (some prefix) s = and_then (strip_prefix s prefix) (λ rest. strip_prefix rest dot)

  abbrev without_suffix : Option (List ℕ) → List ℕ → Option (List ℕ)
  without_suffix none s = some s
  without_suffix (some suffix) s = and_then (strip_suffix s suffix) (λ rest. strip_suffix rest dot)

  abbrev pub or_else {ℓ} : {A : Type ℓ} → Option A → Option A → Option A
  or_else none o = o
  or_else (some a) o = some a

  unfoldable pub parse_date_from_filename :
      List ℕ → List ℕ → Option (List ℕ) → Option (List ℕ) → Option ℕ
  parse_date_from_filename filename fmt prefix suffix =
      and_then (without_prefix prefix filename) (λ rest.
        and_then (without_suffix suffix rest)
          (λ datetime. or_else (parse_date_time datetime fmt) (parse_date datetime fmt)))

  -- The filter of the file names in `prune_old_logs`
  abbrev pub is_some {ℓ} : {A : Type ℓ} → Option A → Bool
  is_some none = false
  is_some (some a) = true

  abbrev pub has_prefix : Option (List ℕ) → List ℕ → Bool
  has_prefix none s = true
  has_prefix (some prefix) s = starts_with s prefix

  abbrev pub has_suffix : Option (List ℕ) → List ℕ → Bool
  has_suffix none s = true
  has_suffix (some suffix) s = ends_with s suffix

  unfoldable pub matches : Builder → List ℕ → Bool
  matches b filename =
      has_prefix b.prefix filename
      && (has_suffix b.suffix filename
          && (is_some b.prefix
              || (is_some b.suffix || is_some (parse_date filename (date_format b.rotation)))))

  abbrev pub with_created : DirEntry → Option ℕ → Option (DirEntry × ℕ)
  with_created entry created = and_then created (λ t. some (entry, t))

  -- The closure of `filter_map`, of an entry that was read with its metadata
  unfoldable pub read_candidate : Builder → DirEntry → FileMetadata → Option (DirEntry × ℕ)
  unfolding matches parse_date_from_filename date_format
  read_candidate b entry metadata =
      if metadata.is_file && (entry.is_utf8 && matches b entry.file_name)
      then with_created entry (
          or_else metadata.created
            (parse_date_from_filename entry.file_name (date_format b.rotation) b.prefix b.suffix))
      else none

  unfoldable pub candidate : Builder → Option DirEntry → Option (DirEntry × ℕ)
  unfolding read_candidate
  candidate b entry = and_then entry (λ entry. and_then entry.metadata (read_candidate b entry))

  -- `filter_map(..).collect()`
  abbrev pub with_candidate : Option (DirEntry × ℕ) → List (DirEntry × ℕ) → List (DirEntry × ℕ)
  with_candidate none files = files
  with_candidate (some file) files = file ∷ files

  unfoldable pub candidates : Builder → List (Option DirEntry) → List (DirEntry × ℕ)
  unfolding candidate
  candidates b [] = []
  candidates b (entry ∷ entries) = with_candidate (candidate b entry) (candidates b entries)

  -- The loop that removes files; an error is printed.
  unfoldable pub remove_files : List (DirEntry × ℕ) → Fs → Fs
  remove_files [] fs = fs
  remove_files (file ∷ files) fs = remove_files files (disk.remove_file file.0.file_name fs).1

  -- The files that are to be removed.
  unfoldable pub too_old : ℕ → List (DirEntry × ℕ) → List (DirEntry × ℕ)
  too_old max_files files =
      if ltb (length files) max_files
      then []
      else take (wrapping_sub (length files) (wrapping_sub max_files 1)) (sort_by_created files)

  -- `Inner::prune_old_logs`
  unfoldable pub prune_old_logs : Builder → ℕ → Fs → Fs
  unfolding candidates too_old remove_files
  prune_old_logs b max_files fs = elim (disk.read_dir fs) [
    | none ↦ fs
    | some entries ↦ remove_files (too_old max_files (candidates b entries)) fs
  ]
