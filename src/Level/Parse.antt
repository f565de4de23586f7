-- ===== src/Level/Parse.antt =====
-- tracing-core/src/metadata.rs: `FromStr for Level` and `FromStr for LevelFilter`. The error types
-- hold nothing, so a failure is `none`.
pub mod Laws
use tracing.Prelude.{
  ℕ, List, [], ◌∷◌, codes, Option, none, some, ◌==◌, if◌then◌else◌, parse_usize,
  eq_ignore_ascii_case,
}
use tracing.Level.{Level, trace, debug, info, warn, error, LevelFilter, off}

abbrev level_of_number : ℕ → Option Level
level_of_number n =
    if n == 1
    then some error
    else if n == 2
    then some warn
    else if n == 3
    then some info
    else if n == 4
    then some debug
    else if n == 5
    then some trace
    else none

abbrev level_of_name : List ℕ → Option Level
level_of_name s =
    if eq_ignore_ascii_case s (codes "error")
    then some error
    else if eq_ignore_ascii_case s (codes "warn")
    then some warn
    else if eq_ignore_ascii_case s (codes "info")
    then some info
    else if eq_ignore_ascii_case s (codes "debug")
    then some debug
    else if eq_ignore_ascii_case s (codes "trace")
    then some trace
    else none

-- `Option::and_then`
abbrev pub and_then {ℓ κ} : {A : Type ℓ} {B : Type κ} → Option A → (A → Option B) → Option B
and_then none f = none
and_then (some a) f = f a

-- `Option::or_else`
abbrev pub or_else {ℓ} : {A : Type ℓ} → Option A → Option A → Option A
or_else none b = b
or_else (some a) b = some a

unfoldable pub level_from_str : List ℕ → Option Level
level_from_str s = or_else (and_then (parse_usize s) level_of_number) (level_of_name s)

abbrev filter_of_number : ℕ → Option LevelFilter
filter_of_number n =
    if n == 0
    then some off
    else if n == 1
    then some (some error)
    else if n == 2
    then some (some warn)
    else if n == 3
    then some (some info)
    else if n == 4
    then some (some debug)
    else if n == 5
    then some (some trace)
    else none

abbrev filter_of_name : List ℕ → Option LevelFilter
filter_of_name [] = some (some error)
filter_of_name (c ∷ cs) =
    let s = c ∷ cs in
    if eq_ignore_ascii_case s (codes "error")
    then some (some error)
    else if eq_ignore_ascii_case s (codes "warn")
    then some (some warn)
    else if eq_ignore_ascii_case s (codes "info")
    then some (some info)
    else if eq_ignore_ascii_case s (codes "debug")
    then some (some debug)
    else if eq_ignore_ascii_case s (codes "trace")
    then some (some trace)
    else if eq_ignore_ascii_case s (codes "off")
    then some off
    else none

unfoldable pub filter_from_str : List ℕ → Option LevelFilter
filter_from_str from = or_else (and_then (parse_usize from) filter_of_number) (filter_of_name from)
