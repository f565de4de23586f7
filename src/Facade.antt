-- ===== src/Facade.antt =====
-- tracing/src/span.rs: `Span`, `Entered` and `EnteredSpan`, as the calls that they make to their
-- subscriber, and a program that makes, enters, clones and drops them. The feature `log` is off.
-- A subscriber is a function of what it was called with; the call `current_span` is not listed.
pub mod Program
pub mod Balance
pub mod Moves
pub mod Ledger
mod Tests
use tracing.Prelude.{
  ℕ, zero, suc, ◌+◌, ◌-◌, Bool, true, false, not, ◌&&◌, List, [], ◌∷◌, ◌++◌, Option, none, some,
  ◌==◌, if◌then◌else◌,
}
use tracing.Metadata.{Metadata}

-- `Parent` and `Attributes` of tracing-core/src/span.rs; `values` stands for a `ValueSet`.
pub data Parent : Type 0 where
  root : Parent
  current : Parent
  explicit : ℕ → Parent

pub record Attributes : Type 0 where
  pub metadata : Metadata
  pub values : List (List ℕ)
  pub parent : Parent

-- The calls of a subscriber's methods: `new_span` and `clone_span` with the `Id` that was returned.
pub data Call : Type 0 where
  new_span : Attributes → ℕ → Call
  clone_span : ℕ → ℕ → Call
  try_close enter exit : ℕ → Call
  record_values : ℕ → List (List ℕ) → Call
  record_follows_from : ℕ → ℕ → Call

-- The calls so far, the last first, each with its dispatcher.
abbrev pub History : Type 0
History = List (ℕ × Call)

-- What the subscribers return.
pub record Subscribers : Type 0 where
  pub new_span : ℕ → Attributes → History → ℕ
  pub clone_span : ℕ → ℕ → History → ℕ
  pub current_span : ℕ → History → Option (ℕ × Metadata)

-- `struct Inner` and `struct Span`
pub record Inner : Type 0 where
  pub id : ℕ
  pub subscriber : ℕ

pub record Span : Type 0 where
  pub inner : Option Inner
  pub meta : Option Metadata

-- `Attributes::new`, `new_root`, and the match in `child_of_with`
abbrev pub new_attributes : Metadata → List (List ℕ) → Attributes
new_attributes meta values = record { metadata = meta; values = values; parent = current }

abbrev pub new_root_attributes : Metadata → List (List ℕ) → Attributes
new_root_attributes meta values = record { metadata = meta; values = values; parent = root }

abbrev pub child_of_attributes : Option ℕ → Metadata → List (List ℕ) → Attributes
child_of_attributes (some parent) meta values = record {
  metadata = meta;
  values = values;
  parent = explicit parent;
}
child_of_attributes none meta values = new_root_attributes meta values

-- `Span::new_disabled`, `Span::none`, `Span::id`, `is_disabled` and `is_none`
abbrev pub new_disabled : Metadata → Span
new_disabled meta = record { inner = none; meta = some meta }

abbrev pub none_span : Span
none_span = record { inner = none; meta = none }

abbrev pub inner_id : Option Inner → Option ℕ
inner_id none = none
inner_id (some i) = some (i.id)

unfoldable pub span_id : Span → Option ℕ
span_id span = inner_id span.inner

abbrev pub is_absent {ℓ} : {A : Type ℓ} → Option A → Bool
is_absent none = true
is_absent (some a) = false

unfoldable pub is_disabled : Span → Bool
is_disabled span = is_absent span.inner

unfoldable pub is_none : Span → Bool
unfolding is_disabled
is_none span = is_disabled span && is_absent span.meta

-- `PartialEq for Span` and `for Inner`: a span without metadata is equal to none.
abbrev inner_eq : Option Inner → Option Inner → Bool
inner_eq none none = true
inner_eq none (some b) = false
inner_eq (some a) none = false
inner_eq (some a) (some b) = a.id == b.id

abbrev meta_eq : Option Metadata → Option Metadata → Bool → Bool
meta_eq (some this) (some that) same_inner =
    (this.fields.callsite == that.fields.callsite) && same_inner
meta_eq (some this) none same_inner = false
meta_eq none that same_inner = false

unfoldable pub span_eq : Span → Span → Bool
span_eq a b = meta_eq a.meta b.meta (inner_eq a.inner b.inner)

-- A call of `inner.subscriber`, if the span is enabled.
abbrev pub call_inner : (ℕ → Call) → Option Inner → History → History
call_inner call none h = h
call_inner call (some i) h = (i.subscriber, call i.id) ∷ h

-- `do_enter`, `do_exit`, `Drop for Span`, `record_all` and `follows_from`
unfoldable pub do_enter : Span → History → History
do_enter span h = call_inner enter span.inner h

unfoldable pub do_exit : Span → History → History
do_exit span h = call_inner exit span.inner h

unfoldable pub drop_span : Span → History → History
drop_span span h = call_inner try_close span.inner h

unfoldable pub record_all : List (List ℕ) → Span → History → History
record_all values span h = call_inner (λ id. record_values id values) span.inner h

abbrev pub follows : Option Inner → Option ℕ → History → History
follows none from h = h
follows (some i) none h = h
follows (some i) (some from) h = (i.subscriber, record_follows_from i.id from) ∷ h

unfoldable pub follows_from : Option ℕ → Span → History → History
follows_from from span h = follows span.inner from h

module _ (subs : Subscribers) where
  -- `Span::make_with`
  unfoldable pub make_with : Metadata → Attributes → ℕ → History → Span × History
  make_with meta attrs dispatch h =
      let id = subs.new_span dispatch attrs h in
      (
        record { inner = some (record { id = id; subscriber = dispatch }); meta = some meta },
        (dispatch, new_span attrs id) ∷ h,
      )

  -- `Span::current`, in the dispatcher that `get_default` gives
  abbrev pub of_current : ℕ → Option (ℕ × Metadata) → History → Span × History
  of_current dispatch none h = (none_span, h)
  of_current dispatch (some (id, meta)) h =
      let cloned = subs.clone_span dispatch id h in
      (
        record { inner = some (record { id = cloned; subscriber = dispatch }); meta = some meta },
        (dispatch, clone_span id cloned) ∷ h,
      )

  unfoldable pub current_of : ℕ → History → Span × History
  current_of dispatch h = of_current dispatch (subs.current_span dispatch h) h

  -- `Clone for Span`, which is derived, with `Clone for Inner`
  abbrev pub clone_inner : Option Metadata → Option Inner → History → Span × History
  clone_inner meta none h = (record { inner = none; meta = meta }, h)
  clone_inner meta (some i) h =
      let cloned = subs.clone_span i.subscriber i.id h in
      (
        record { inner = some (record { id = cloned; subscriber = i.subscriber }); meta = meta },
        (i.subscriber, clone_span i.id cloned) ∷ h,
      )

  unfoldable pub clone : Span → History → Span × History
  clone span h = clone_inner span.meta span.inner h

  -- `Span::or_current`; a disabled span is dropped without a call.
  unfoldable pub or_current : ℕ → Span → History → Span × History
  unfolding is_disabled current_of drop_span
  or_current dispatch span h =
      if is_disabled span
      then (let r = current_of dispatch h in (r.0, drop_span span r.1))
      else (span, h)
