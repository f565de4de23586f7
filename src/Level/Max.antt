-- ===== src/Level/Max.antt =====
-- tracing-core/src/metadata.rs: the global maximum level, an `AtomicUsize` that only `set_max`
-- writes. The state is the number that it holds.
use tracing.Prelude.{ℕ, ◌≡◌, refl, List, [], ◌∷◌, Option, none, some, ◌==◌, if◌then◌else◌}
use tracing.Level.{trace, debug, info, warn, error, LevelFilter, off, as_usize, off_usize}

-- `MAX_LEVEL` at the start
abbrev pub initial_max_level : ℕ
initial_max_level = off_usize

-- `LevelFilter::set_max`: the swap stores the new number whatever the old one was.
unfoldable pub set_max : LevelFilter → ℕ → ℕ
unfolding as_usize
set_max (some level) max_level = as_usize level
set_max none max_level = off_usize

-- `LevelFilter::current`; `none` stands for `unreachable_unchecked`.
unfoldable pub current : ℕ → Option LevelFilter
unfolding as_usize
current max_level =
    if max_level == as_usize error
    then some (some error)
    else if max_level == as_usize warn
    then some (some warn)
    else if max_level == as_usize info
    then some (some info)
    else if max_level == as_usize debug
    then some (some debug)
    else if max_level == as_usize trace
    then some (some trace)
    else if max_level == off_usize
    then some off
    else none

pub current-set_max : (f : LevelFilter) (m : ℕ) → current (set_max f m) ≡ some f
unfolding current set_max
current-set_max none m = refl
current-set_max (some trace) m = refl
current-set_max (some debug) m = refl
current-set_max (some info) m = refl
current-set_max (some warn) m = refl
current-set_max (some error) m = refl

-- The calls of `set_max` that a program makes, in order.
pub set_all : List LevelFilter → ℕ → ℕ
set_all [] m = m
set_all (f ∷ fs) m = set_all fs (set_max f m)

-- The last of the calls, or `off` if there is none.
abbrev pub last_or : LevelFilter → List LevelFilter → LevelFilter
last_or d [] = d
last_or d (f ∷ fs) = last_or f fs

current-set_all_from :
    (d : LevelFilter) (fs : List LevelFilter) (m : ℕ)
    → current m ≡ some d
    → current (set_all fs m) ≡ some (last_or d fs)
unfolding set_all
current-set_all_from d [] m h = h
current-set_all_from d (f ∷ fs) m h = current-set_all_from f fs (set_max f m) (current-set_max f m)

-- After any sequence of `set_max`, `current` returns the last filter that was set (`off` before the
-- first), so the branch that the code declares unreachable is never taken.
pub current-set_all :
    (fs : List LevelFilter) → current (set_all fs initial_max_level) ≡ some (last_or off fs)
unfolding current
current-set_all fs = current-set_all_from off fs initial_max_level refl
