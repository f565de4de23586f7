-- ===== src/Facade/Program.antt =====
-- tracing/src/span.rs: the variables of a program that hold spans, and what the compiler lets it do
-- with them. Each variable is a slot; a slot counts the `Entered` guards that borrow it, which may
-- be dropped in any order but before the slot is moved. What the compiler refuses does nothing.
use tracing.Prelude.{ℕ, zero, suc, List, [], ◌∷◌, ◌++◌, Option, none, some}
use tracing.Metadata.{Metadata}
use tracing.Facade.{
  History, Subscribers, Span, new_attributes, new_root_attributes, child_of_attributes,
  new_disabled, none_span, span_id, do_enter, do_exit, drop_span, record_all, follows_from,
  make_with, current_of, clone, or_current,
}

-- A variable with a `Span`, with an `EnteredSpan`, or moved out of; the number of its guards. What the
-- program gives to `mem::forget` stays as a slot that nothing has access to: the handle that is
-- never dropped, and the entry that is never exited.
pub data Slot : Type 0 where
  moved : Slot
  span : Span → ℕ → Slot
  entered_span : Span → ℕ → Slot
  forgotten_span forgotten_entered forgotten_guard : Span → Slot

abbrev pub slot_at : ℕ → List Slot → Slot
slot_at i [] = moved
slot_at zero (s ∷ slots) = s
slot_at (suc i) (s ∷ slots) = slot_at i slots

abbrev pub set_slot : ℕ → Slot → List Slot → List Slot
set_slot i new [] = []
set_slot zero new (s ∷ slots) = new ∷ slots
set_slot (suc i) new (s ∷ slots) = s ∷ set_slot i new slots

-- What a program does; a new variable is the last slot. The dispatcher is what `get_default` gives.
pub data Op : Type 0 where
  make : ℕ → Metadata → List (List ℕ) → Op
  make_root : ℕ → Metadata → List (List ℕ) → Op
  make_child : ℕ → ℕ → Metadata → List (List ℕ) → Op
  disable : Metadata → Op
  make_none : Op
  make_current : ℕ → Op
  copy : ℕ → Op
  borrow_enter : ℕ → Op
  drop_guard : ℕ → Op
  own_enter : ℕ → Op
  exit_entered : ℕ → Op
  replace_or_current : ℕ → ℕ → Op
  record_on : ℕ → List (List ℕ) → Op
  follow : ℕ → ℕ → Op
  drop_var : ℕ → Op
  forget_guard : ℕ → Op
  forget_var : ℕ → Op

-- The variables, and the calls so far.
pub record World : Type 0 where
  pub slots : List Slot
  pub history : History

-- The span that a variable gives access to, by `Deref` for an `EnteredSpan`.
abbrev pub span_of : Slot → Option Span
span_of moved = none
span_of (span s guards) = some s
span_of (entered_span s guards) = some s
span_of (forgotten_span s) = none
span_of (forgotten_entered s) = none
span_of (forgotten_guard s) = none

-- `Span::enter` and `Drop for Entered`
unfoldable pub with_guard : Slot → History → Slot × History
with_guard (span s guards) h = (span s (suc guards), do_enter s h)
with_guard (entered_span s guards) h = (entered_span s (suc guards), do_enter s h)
with_guard slot h = (slot, h)

unfoldable pub without_guard : Slot → History → Slot × History
without_guard (span s (suc guards)) h = (span s guards, do_exit s h)
without_guard (entered_span s (suc guards)) h = (entered_span s guards, do_exit s h)
without_guard slot h = (slot, h)

-- `Span::entered`
unfoldable pub entered : Slot → History → Slot × History
entered (span s zero) h = (entered_span s zero, do_enter s h)
entered slot h = (slot, h)

-- `Drop for EnteredSpan`, and then of its field
unfoldable pub drop_entered : Span → History → History
drop_entered s h = drop_span s (do_exit s h)

-- `EnteredSpan::exit`, with the drop of what is left in its place
unfoldable pub exit_slot : Slot → History → Slot × History
unfolding drop_entered
exit_slot (entered_span s zero) h = (span s zero, drop_entered none_span (do_exit s h))
exit_slot slot h = (slot, h)

unfoldable pub drop_slot : Slot → History → Slot × History
unfolding drop_entered
drop_slot (span s zero) h = (moved, drop_span s h)
drop_slot (entered_span s zero) h = (moved, drop_entered s h)
drop_slot slot h = (slot, h)

-- `mem::forget` of a `Span`, and of an `EnteredSpan`: no `drop` is run.
unfoldable pub forget_slot : Slot → Slot
forget_slot (span s zero) = forgotten_span s
forget_slot (entered_span s zero) = forgotten_entered s
forget_slot slot = slot

-- `mem::forget` of an `Entered`, which ends its borrow of the variable
unfoldable pub forget_entered : Slot → Slot × List Slot
forget_entered (span s (suc guards)) = (span s guards, forgotten_guard s ∷ [])
forget_entered (entered_span s (suc guards)) = (entered_span s guards, forgotten_guard s ∷ [])
forget_entered slot = (slot, [])

-- `Span::in_scope`: enter, what the closure does, and the drop of the guard
unfoldable pub in_scope : ℕ → List Op → List Op
in_scope i body = borrow_enter i ∷ (body ++ (drop_guard i ∷ []))

module _ (subs : Subscribers) where
  abbrev pub push : World → Span × History → World
  push w r = record { slots = w.slots ++ (span r.0 zero ∷ []); history = r.1 }

  abbrev pub update : ℕ → World → Slot × History → World
  update i w r = record { slots = set_slot i r.0 w.slots; history = r.1 }

  abbrev pub left_behind : ℕ → World → Slot × List Slot → World
  left_behind i w r = record w { slots = set_slot i r.0 w.slots ++ r.1 }

  abbrev pub copied : World → Option Span → World
  copied w none = w
  copied w (some s) = push w (clone subs s w.history)

  unfoldable pub or_current_slot : ℕ → Slot → History → Slot × History
  or_current_slot dispatch (span s zero) h =
      let r = or_current subs dispatch s h in (span r.0 zero, r.1)
  or_current_slot dispatch slot h = (slot, h)

  abbrev pub on_span : (Span → History → History) → Option Span → World → World
  on_span f none w = w
  on_span f (some s) w = record w { history = f s w.history }

  unfoldable pub made_child : ℕ → Metadata → List (List ℕ) → World → Option Span → World
  unfolding make_with span_id
  made_child d meta values w none = w
  made_child d meta values w (some parent) =
      push w (make_with subs meta (child_of_attributes (span_id parent) meta values) d w.history)

  unfoldable pub followed : World → Option Span → Option Span → World
  unfolding span_id follows_from
  followed w none from = w
  followed w (some s) none = w
  followed w (some s) (some from) = record w { history = follows_from (span_id from) s w.history }

  unfoldable pub step : Op → World → World
  unfolding forget_slot forget_entered with_guard without_guard entered exit_slot drop_slot
      or_current_slot record_all current_of make_with clone made_child followed
  step (make d meta values) w =
      push w (make_with subs meta (new_attributes meta values) d w.history)
  step (make_root d meta values) w =
      push w (make_with subs meta (new_root_attributes meta values) d w.history)
  step (make_child d parent meta values) w =
      made_child d meta values w (span_of (slot_at parent w.slots))
  step (disable meta) w = push w (new_disabled meta, w.history)
  step make_none w = push w (none_span, w.history)
  step (make_current d) w = push w (current_of subs d w.history)
  step (copy i) w = copied w (span_of (slot_at i w.slots))
  step (borrow_enter i) w = update i w (with_guard (slot_at i w.slots) w.history)
  step (drop_guard i) w = update i w (without_guard (slot_at i w.slots) w.history)
  step (own_enter i) w = update i w (entered (slot_at i w.slots) w.history)
  step (exit_entered i) w = update i w (exit_slot (slot_at i w.slots) w.history)
  step (replace_or_current d i) w = update i w (or_current_slot d (slot_at i w.slots) w.history)
  step (record_on i values) w = on_span (record_all values) (span_of (slot_at i w.slots)) w
  step (follow i from) w = followed w (span_of (slot_at i w.slots)) (span_of (slot_at from w.slots))
  step (drop_var i) w = update i w (drop_slot (slot_at i w.slots) w.history)
  step (forget_guard i) w = left_behind i w (forget_entered (slot_at i w.slots))
  step (forget_var i) w = update i w (forget_slot (slot_at i w.slots), w.history)

  unfoldable pub run : List Op → World → World
  unfolding step
  run [] w = w
  run (op ∷ ops) w = run ops (step op w)
