-- ===== src/Rolling/Config.antt =====
-- tracing-appender/src/rolling/builder.rs: the configuration, and the names of the files that
-- rolling.rs makes of it.
use tracing.Prelude.{ℕ, List, [], ◌∷◌, ◌++◌, Option, none, some, ltb, if◌then◌else◌}
use tracing.Rolling.{Rotation, never}

-- `struct Builder`
pub record Builder : Type 0 where
  pub rotation : Rotation
  pub prefix : Option (List ℕ)
  pub suffix : Option (List ℕ)
  pub latest_symlink : Option (List ℕ)
  pub max_files : Option ℕ

-- `Builder::new`
abbrev pub new : Builder
new = record {
  rotation = never;
  prefix = none;
  suffix = none;
  latest_symlink = none;
  max_files = none;
}

abbrev not_empty : List ℕ → Option (List ℕ)
not_empty [] = none
not_empty (c ∷ s) = some (c ∷ s)

-- The methods of `Builder`
unfoldable pub rotation : Rotation → Builder → Builder
rotation r b = record b { rotation = r }

unfoldable pub filename_prefix : List ℕ → Builder → Builder
filename_prefix prefix b = record b { prefix = not_empty prefix }

unfoldable pub filename_suffix : List ℕ → Builder → Builder
filename_suffix suffix b = record b { suffix = not_empty suffix }

unfoldable pub max_log_files : ℕ → Builder → Builder
max_log_files n b = record b { max_files = if ltb 0 n then some n else none }

unfoldable pub latest_symlink : List ℕ → Builder → Builder
latest_symlink name b = record b { latest_symlink = not_empty name }

-- The literal `.`, before and after the date.
abbrev pub dot : List ℕ
dot = b'.' ∷ []

-- `match (&self.rotation, &self.log_filename_prefix, &self.log_filename_suffix)`
unfoldable pub file_name : Rotation → Option (List ℕ) → Option (List ℕ) → List ℕ → List ℕ
file_name never (some filename) none date = filename
file_name never (some filename) (some suffix) date = filename ++ (dot ++ suffix)
file_name never none (some suffix) date = suffix
file_name r (some filename) (some suffix) date = filename ++ (dot ++ (date ++ (dot ++ suffix)))
file_name r (some filename) none date = filename ++ (dot ++ date)
file_name r none (some suffix) date = date ++ (dot ++ suffix)
file_name r none none date = date
