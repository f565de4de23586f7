-- ===== src/Callsite.antt =====
-- tracing-core/src/callsite.rs: the cached interest of a callsite, the list of dispatchers, and the
-- rebuilding of the cache; the test that the macros of tracing/src/macros.rs make with it.
pub mod Cache
pub mod Delivery
pub mod Registration
mod Tests
use tracing.Prelude.{
  ℕ, Bool, true, false, not, ◌&&◌, ◌||◌, List, [], ◌∷◌, ◌++◌, map, Option, none, some, ◌==◌, leb,
  length, if◌then◌else◌,
}
use tracing.Level.{Level, trace, LevelFilter, off}
use tracing.Level.Compare.LevelFilterPair
use tracing.Level.Compare.LevelWithFilter
use tracing.Level.Max.{set_max, current}
use tracing.Interest.{Interest, never, sometimes, always, is_never, is_always, and}

-- What a `Dispatch` answers. The subscriber behind it is the program's user's.
pub record Dispatch (Meta : Type 0) : Type 0 where
  pub register_callsite : Meta → Interest
  pub max_level_hint : Option LevelFilter
  pub enabled : Meta → Bool

abbrev interest_never : ℕ
interest_never = 0

abbrev interest_sometimes : ℕ
interest_sometimes = 1

abbrev interest_always : ℕ
interest_always = 2

-- `DefaultCallsite::set_interest`: the byte that is stored
unfoldable pub set_interest : Interest → ℕ
set_interest interest =
    if is_never interest
    then interest_never
    else if is_always interest
    then interest_always
    else interest_sometimes

-- the end of `DefaultCallsite::register`: any other byte reads as `sometimes`
unfoldable pub load_interest : ℕ → Interest
load_interest byte =
    if byte == interest_never then never else if byte == interest_always then always else sometimes

-- `DefaultCallsite::interest`: `none` stands for the call of `register`.
unfoldable pub interest : ℕ → Option Interest
interest byte =
    if byte == interest_never
    then some never
    else if byte == interest_sometimes
    then some sometimes
    else if byte == interest_always
    then some always
    else none

-- the closure of `rebuild_callsite_interest`
abbrev pub take_interest : Option Interest → Interest → Option Interest
take_interest none this_interest = some this_interest
take_interest (some that_interest) this_interest = some (and that_interest this_interest)

abbrev unwrap_or {ℓ} : {A : Type ℓ} → Option A → A → A
unwrap_or none a = a
unwrap_or (some b) a = b

abbrev le_current : Level → Option LevelFilter → Bool
unfolding LevelWithFilter.le
le_current lvl none = false
le_current lvl (some f) = LevelWithFilter.le lvl f

-- `level_enabled!`; `static_max` is `STATIC_MAX_LEVEL`.
unfoldable pub level_enabled : LevelFilter → Level → ℕ → Bool
unfolding LevelWithFilter.le current
level_enabled static_max lvl max_level =
    LevelWithFilter.le lvl static_max && le_current lvl (current max_level)

module _ {Meta : Type 0} where
  -- `dispatchers.for_each` with that closure
  unfoldable pub fold_interest : Meta → Option Interest → List (Dispatch Meta) → Option Interest
  fold_interest meta acc [] = acc
  fold_interest meta acc (d ∷ ds) =
      fold_interest meta (take_interest acc (d.register_callsite meta)) ds

  -- `rebuild_callsite_interest`: the byte that the callsite then holds
  unfoldable pub rebuild_callsite_interest : Meta → List (Dispatch Meta) → ℕ
  unfolding fold_interest set_interest
  rebuild_callsite_interest meta ds = set_interest (unwrap_or (fold_interest meta none ds) never)

  -- the first closure of `Callsites::rebuild_interest`
  pub fold_max : LevelFilter → List (Dispatch Meta) → LevelFilter
  unfolding LevelFilterPair.gt
  fold_max max_level [] = max_level
  fold_max max_level (d ∷ ds) =
      let level_hint = unwrap_or d.max_level_hint (some trace) in
      fold_max (if LevelFilterPair.gt level_hint max_level then level_hint else max_level) ds

-- A registered callsite: its metadata and the byte that it caches.
pub record Registered (Meta : Type 0) : Type 0 where
  pub meta : Meta
  pub byte : ℕ

-- The process-wide state: `CALLSITES` (the linked list and then the locked vector), `MAX_LEVEL` and
-- `DISPATCHERS`. A registrar is the dispatch that it upgrades to, if that still lives.
pub record Global (Meta : Type 0) : Type 0 where
  pub linked : List (Registered Meta)
  pub locked : List (Registered Meta)
  pub max_level : ℕ
  pub registrars : List (Option (Dispatch Meta))
  pub has_just_one : Bool

module _ {Meta : Type 0} where
  -- `registrars.iter().filter_map(Registrar::upgrade)`
  unfoldable pub live : List (Option (Dispatch Meta)) → List (Dispatch Meta)
  live [] = []
  live (none ∷ rs) = live rs
  live (some d ∷ rs) = d ∷ live rs

  -- `dispatchers.retain(|d| d.upgrade().is_some())`
  unfoldable pub retain_live : List (Option (Dispatch Meta)) → List (Option (Dispatch Meta))
  retain_live [] = []
  retain_live (none ∷ rs) = retain_live rs
  retain_live (some d ∷ rs) = some d ∷ retain_live rs

  -- `Dispatchers::rebuilder` and `Rebuilder::for_each`: the dispatchers that a rebuild asks.
  -- `default` is the calling thread's, which `get_default` returns.
  unfoldable pub rebuilder : Dispatch Meta → Global Meta → List (Dispatch Meta)
  unfolding live
  rebuilder default s = if s.has_just_one then default ∷ [] else live s.registrars

  abbrev pub recache : List (Dispatch Meta) → Registered Meta → Registered Meta
  recache ds c = record c { byte = rebuild_callsite_interest c.meta ds }

  -- `Callsites::rebuild_interest`
  unfoldable pub rebuild_interest : List (Dispatch Meta) → Global Meta → Global Meta
  unfolding fold_max set_max rebuild_callsite_interest
  rebuild_interest ds s = record s {
    linked = map (recache ds) s.linked;
    locked = map (recache ds) s.locked;
    max_level = set_max (fold_max off ds) s.max_level;
  }

  -- `callsite::rebuild_interest_cache`
  unfoldable pub rebuild_interest_cache : Dispatch Meta → Global Meta → Global Meta
  unfolding rebuilder rebuild_interest
  rebuild_interest_cache default s = rebuild_interest (rebuilder default s) s

  -- `Dispatchers::register_dispatch`
  unfoldable pub add_registrar : Dispatch Meta → Global Meta → Global Meta
  unfolding retain_live
  add_registrar d s =
      let registrars = retain_live s.registrars ++ (some d ∷ []) in
      record s { registrars = registrars; has_just_one = leb (length registrars) 1 }

  -- `callsite::register_dispatch`: the rebuilder is the one that holds the write lock.
  unfoldable pub register_dispatch : Dispatch Meta → Global Meta → Global Meta
  unfolding add_registrar live rebuild_interest
  register_dispatch d s = let t = add_registrar d s in rebuild_interest (live t.registrars) t

  -- `DefaultCallsite::register` of a callsite that is not registered yet
  unfoldable pub register_default : Meta → Dispatch Meta → Global Meta → Global Meta
  unfolding rebuilder rebuild_callsite_interest
  register_default meta default s =
      let byte = rebuild_callsite_interest meta (rebuilder default s) in
      record s { linked = record { meta = meta; byte = byte } ∷ s.linked }

  -- `callsite::register` of a callsite of another type, which `push_dyn` puts into the vector
  unfoldable pub register_dyn : Meta → Dispatch Meta → Global Meta → Global Meta
  unfolding rebuilder rebuild_callsite_interest
  register_dyn meta default s =
      let byte = rebuild_callsite_interest meta (rebuilder default s) in
      record s { locked = s.locked ++ (record { meta = meta; byte = byte } ∷ []) }

  -- `__is_enabled`
  unfoldable pub is_enabled : Meta → Interest → Dispatch Meta → Bool
  is_enabled meta interest default = is_always interest || default.enabled meta

  -- the test of `event!` at a callsite that is registered, where `interest` reads the byte and
  -- `register` would only read it again
  unfoldable pub event_test : LevelFilter → Level → ℕ → Registered Meta → Dispatch Meta → Bool
  unfolding level_enabled load_interest interest is_enabled
  event_test static_max lvl max_level c default =
      let this = unwrap_or (interest c.byte) (load_interest c.byte) in
      level_enabled static_max lvl max_level
      && (not (is_never this) && is_enabled c.meta this default)
