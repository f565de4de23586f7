-- ===== src/Registry.antt =====
-- tracing-subscriber/src/registry/sharded.rs: the spans of a `Registry`, their reference counts and
-- their removal, under the stack of `Layered` subscribers of tracing-subscriber/src/layer/layered.rs.
-- A panic is `none`. The pool of the `sharded_slab` crate holds the live spans, the newest first;
-- the index that it hands out for a new span is an argument.
pub mod Counts
pub mod Layers
pub mod Close
pub mod History
mod Tests
use tracing.Prelude.{
  ℕ, zero, suc, ◌+◌, ◌-◌, ◌^◌, ◌%◌, Bool, true, false, ◌&&◌, List, [], ◌∷◌, ◌++◌, Option, none,
  some, ◌==◌, ltb, if◌then◌else◌,
}

-- `struct DataInner`, with the span's id; the metadata, the extensions and the filter map do not
-- bear on its lifetime.
pub record Span : Type 0 where
  pub id : ℕ
  pub parent : Option ℕ
  pub ref_count : ℕ

-- `CLOSE_COUNT` is the closing thread's; `closed` logs the calls of `on_close`, a layer and a span
-- each, layer 0 being the innermost.
pub record Registry : Type 0 where
  pub spans : List Span
  pub close_count : ℕ
  pub closed : List (ℕ × ℕ)

abbrev pub usize_max : ℕ
usize_max = 2 ^ 64 - 1

-- `Registry::get`
unfoldable pub get : ℕ → List Span → Option Span
get id [] = none
get id (x ∷ xs) = if x.id == id then some x else get id xs

-- a store to the count of a span
unfoldable pub set_ref_count : ℕ → ℕ → List Span → List Span
set_ref_count id n [] = []
set_ref_count id n (x ∷ xs) =
    if x.id == id then record x { ref_count = n } ∷ xs else x ∷ set_ref_count id n xs

-- the removal of a span from the pool
unfoldable pub remove : ℕ → List Span → List Span
remove id [] = []
remove id (x ∷ xs) = if x.id == id then xs else x ∷ remove id xs

-- `fetch_add(1)` and `fetch_sub(1)` wrap around.
abbrev wrapping_inc : ℕ → ℕ
wrapping_inc n = (n + 1) % 2 ^ 64

abbrev wrapping_dec : ℕ → ℕ
wrapping_dec n = if n == 0 then usize_max else n - 1

infixl 5 ◌>>=◌
abbrev ◌>>=◌ {ℓ κ} : {A : Type ℓ} {B : Type κ} → Option A → (A → Option B) → Option B
none >>= f = none
some a >>= f = f a

-- `Subscriber::clone_span for Registry`
unfoldable pub clone_span : ℕ → Registry → Option Registry
unfolding get set_ref_count
clone_span id r = do
  span ← get id r.spans
  if span.ref_count == 0
      then none
      else some (record r { spans = set_ref_count id (wrapping_inc span.ref_count) r.spans })

-- `Subscriber::try_close for Registry`, on a thread that is not panicking
unfoldable pub registry_try_close : ℕ → Registry → Option (Bool × Registry)
unfolding get set_ref_count
registry_try_close id r = do
  span ← get id r.spans
  if ltb span.ref_count usize_max
      then some (
        if ltb 1 span.ref_count then false else true,
        record r { spans = set_ref_count id (wrapping_dec span.ref_count) r.spans },
      )
      else none

-- `Attributes`: root, contextual (with the thread's current span) or with an explicit parent
pub data Parent : Type 0 where
  root : Parent
  contextual : Option ℕ → Parent
  explicit : ℕ → Parent

-- `self.clone_span(id)` in `new_span`
abbrev clone_parent : ℕ → Registry → Option (Option ℕ × Registry)
clone_parent id r = clone_span id r >>= λ s. some (some id, s)

abbrev pub take_parent : Parent → Registry → Option (Option ℕ × Registry)
take_parent root r = some (none, r)
take_parent (contextual none) r = some (none, r)
take_parent (contextual (some id)) r = clone_parent id r
take_parent (explicit id) r = clone_parent id r

-- `Subscriber::new_span for Registry`; `fresh` is the id of the slot that the pool hands out.
unfoldable pub new_span : ℕ → Parent → Registry → Option Registry
unfolding clone_span
new_span fresh parent r = do
  (p, s) ← take_parent parent r
  some (record s { spans = record { id = fresh; parent = p; ref_count = 1 } ∷ s.spans })

-- `Clear for DataInner`: after the span has left the pool, the reference to its parent is dropped
-- through the default dispatcher of the thread, whose `try_close` is the argument `dispatch`.
abbrev clear_parent :
    (ℕ → Registry → Option (Bool × Registry)) → Option ℕ → Registry → Option Registry
clear_parent dispatch none r = some r
clear_parent dispatch (some p) r = dispatch p r >>= λ q. some q.1

unfoldable pub clear : (ℕ → Registry → Option (Bool × Registry)) → ℕ → Registry → Option Registry
clear dispatch id r = do
  span ← get id r.spans
  clear_parent dispatch span.parent (record r { spans = remove id r.spans })

-- `Drop for CloseGuard`
unfoldable pub drop_guard :
    (ℕ → Registry → Option (Bool × Registry)) → ℕ → Bool → Registry → Option Registry
unfolding clear
drop_guard dispatch id is_closing r =
    let c = r.close_count in
    let s = record r { close_count = c - 1 } in
    if (c == 1) && is_closing then clear dispatch id s else some s

-- `Subscriber::try_close for Layered`, for a stack of that many layers on a registry: each of them
-- finds the registry by its downcast and holds a `CloseGuard` while the inner one is called.
unfoldable pub layered_try_close :
    (ℕ → Registry → Option (Bool × Registry)) → ℕ → ℕ → Registry → Option (Bool × Registry)
unfolding registry_try_close drop_guard
layered_try_close dispatch zero id r = registry_try_close id r
layered_try_close dispatch (suc layer) id r = do
  (closing, s) ← layered_try_close dispatch layer id (record r { close_count = r.close_count + 1 })
  let t = if closing then record s { closed = s.closed ++ ((layer, id) ∷ []) } else s
  u ← drop_guard dispatch id closing t
  some (closing, u)

-- What `dispatcher::get_default` gives to the thread that closes a span: the dispatcher of this stack,
-- or another one, or none, by what its `try_close` does to this registry.
pub data DefaultDispatch : Type 0 where
  this_stack : DefaultDispatch
  another : (ℕ → Registry → Option (Bool × Registry)) → DefaultDispatch

-- `try_close` of the default dispatcher, where that of the stack is given
abbrev pub default_try_close :
    DefaultDispatch
    → (ℕ → Registry → Option (Bool × Registry))
    → ℕ
    → Registry
    → Option (Bool × Registry)
default_try_close this_stack of_stack = of_stack
default_try_close (another of_other) of_stack = of_other

-- `Dispatch::try_close` of the whole stack, on a thread with that default dispatcher. The fuel bounds
-- how many ancestors can close; `none` also stands for its end.
unfoldable pub try_close : DefaultDispatch → ℕ → ℕ → ℕ → Registry → Option (Bool × Registry)
unfolding layered_try_close
try_close d zero layers id r = none
try_close d (suc fuel) layers id r =
    layered_try_close (default_try_close d (try_close d fuel layers)) layers id r
