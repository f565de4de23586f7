-- ===== src/Dispatcher.antt =====
-- tracing-core/src/dispatcher.rs: the global default dispatcher, the scoped defaults of the threads,
-- and the guard against dispatching while a dispatcher is called. `D` is the type of the dispatchers,
-- a thread is a number, and the destructors of thread-local values are not run.
pub mod Scopes
pub mod Global
mod Tests
use tracing.Prelude.{
  ℕ, ◌+◌, ◌-◌, ◌%◌, ◌^◌, Bool, true, false, List, [], ◌∷◌, ◌++◌, Option, none, some, ◌==◌,
  if◌then◌else◌,
}

-- `UNINITIALIZED`, `INITIALIZING` and `INITIALIZED`
pub data Init : Type 0 where
  uninitialized initializing initialized : Init

-- `struct State`
pub record State (D : Type 0) : Type 0 where
  pub default : Option D
  pub can_enter : Bool

-- The statics, and `CURRENT_STATE` of each thread.
pub record System (D : Type 0) : Type 0 where
  pub exists : Bool
  pub global_init : Init
  pub global_dispatch : D
  pub scoped_count : ℕ
  pub current_state : ℕ → State D

-- What a thread does: it runs a closure under `with_default`, or under `get_default`, and goes on.
pub data Program (D : Type 0) : Type 0 where
  finished : Program D
  scope : D → Program D → Program D → Program D
  dispatch : Program D → Program D → Program D

abbrev or_else : {D : Type 0} → Option D → D → D
or_else none d = d
or_else (some e) d = e

module _ {D : Type 0} where
  abbrev with_state : ℕ → State D → System D → System D
  with_state thread st s = record s {
    current_state = λ t. if t == thread then st else s.current_state t;
  }

  -- `State::set_default`, with the content of the guard
  unfoldable pub set_default : ℕ → D → System D → Option D × System D
  set_default thread new_dispatch s = (
    (s.current_state thread).default,
    record (with_state thread (record { default = some new_dispatch; can_enter = true }) s) {
      exists = true;
      scoped_count = (s.scoped_count + 1) % 2 ^ 64;
    },
  )

  -- `Drop for DefaultGuard`
  unfoldable pub drop_guard : ℕ → Option D → System D → System D
  drop_guard thread prior s =
      record (with_state thread (record (s.current_state thread) { default = prior }) s) {
        scoped_count = (s.scoped_count + (2 ^ 64 - 1)) % 2 ^ 64;
      }

  -- `Drop for Entered`
  abbrev leave : ℕ → Bool → System D → System D
  leave thread entered s =
      if entered
      then with_state thread (record (s.current_state thread) { can_enter = true }) s
      else s

module _ {D : Type 0} (NONE : D) where
  -- `get_global`
  unfoldable pub get_global : System D → D
  get_global s = elim s.global_init [
    | uninitialized ↦ NONE
    | initializing ↦ NONE
    | initialized ↦ s.global_dispatch
  ]

  -- `Entered::current`
  abbrev current : ℕ → System D → D
  unfolding get_global
  current thread s = or_else (s.current_state thread).default (get_global s)

  -- `get_default` up to the call of its closure: the dispatcher, and whether the state was entered.
  unfoldable pub begin : ℕ → System D → D × (Bool × System D)
  unfolding get_global current
  begin thread s =
      if s.scoped_count == 0
      then (get_global s, (false, s))
      else if (s.current_state thread).can_enter
      then (
        current thread s,
        (true, with_state thread (record (s.current_state thread) { can_enter = false }) s),
      )
      else (NONE, (false, s))

  -- The dispatchers that the closures of `get_default` are given, in order, and the state at the end.
  unfoldable pub exec : ℕ → Program D → System D → List D × System D
  unfolding set_default drop_guard begin
  exec thread finished s = ([], s)
  exec thread (scope d body rest) s =
      let g = set_default thread d s in
      let r = exec thread body g.1 in
      let q = exec thread rest (drop_guard thread g.0 r.1) in (r.0 ++ q.0, q.1)
  exec thread (dispatch body rest) s =
      let b = begin thread s in
      let r = exec thread body b.1.1 in
      let q = exec thread rest (leave thread b.1.0 r.1) in (b.0 ∷ (r.0 ++ q.0), q.1)
