-- ===== src/Facade/Ledger.antt =====
-- tracing/src/span.rs: what a program of spans has opened, closed, entered and exited at each point.
use tracing.Prelude.{
  ℕ, zero, suc, ◌+◌, ◌≡◌, refl, ap, List, [], ◌∷◌, ◌++◌, Option, none, some, arith,
}
use tracing.Metadata.{Metadata}
use tracing.Facade.{History, Subscribers, Span, clone, record_all, new_disabled, none_span, span_id}
use tracing.Facade.Program.{
  Slot, moved, span, entered_span, slot_at, set_slot, World, update, push, Op, make, make_root,
  make_child, disable, make_none, make_current, copy, borrow_enter, drop_guard, own_enter,
  exit_entered, replace_or_current, record_on, follow, drop_var, forgotten_span, forgotten_entered,
  forgotten_guard, forget_guard, forget_var, forget_entered, left_behind, step, run, span_of,
  copied, on_span, made_child, followed,
}
use tracing.Facade.Balance.{
  total, opens, closes, enters, exits, handles, guards, forgotten_entries, of_inner, Adds,
  record_all-Adds, follows_from-Adds, times,
}
use tracing.Facade.Moves.{
  Moves, Made, make_with-Made, current_of-Made, clone-Made, or_current-Moves, with_guard-Moves,
  without_guard-Moves, entered-Moves, exit_slot-Moves, drop_slot-Moves, forget_slot-Moves,
}

total-append {ℓ} :
    {A : Type ℓ} (f : A → ℕ) (xs ys : List A) → total f (xs ++ ys) ≡ total f xs + total f ys
unfolding total
total-append f [] ys = omega arith
total-append f (x ∷ xs) ys = omega (arith, total-append f xs ys)

total-set_slot :
    (f : Slot → ℕ) (i : ℕ) (t : Slot) (slots : List Slot)
    → f moved ≡ 0
    → (slot_at i slots ≡ moved → t ≡ moved)
    → total f (set_slot i t slots) + f (slot_at i slots) ≡ total f slots + f t
unfolding total
total-set_slot f i t [] z g = omega (arith, z, ap f (g refl))
total-set_slot f zero t (s ∷ slots) z g = omega arith
total-set_slot f (suc i) t (s ∷ slots) z g = omega (arith, total-set_slot f i t slots z g)

module _ (d id : ℕ) where
  -- For the span `id` of the dispatcher `d`: each handle that was opened and not closed is that of
  -- a variable or was forgotten, and so is each entry that was not exited.
  pub record IsBalanced (w : World) : Type 0 where
    pub on_handles :
        total (opens d id) w.history ≡ total (closes d id) w.history + total (handles d id) w.slots
    pub on_guards :
        total (enters d id) w.history ≡ total (exits d id) w.history + total (guards d id) w.slots

module _ (d id : ℕ) (subs : Subscribers) where
  update-IsBalanced :
      (i : ℕ) (w : World) (r : Slot × History)
      → Moves d id (slot_at i w.slots) w.history r
      → IsBalanced d id w
      → IsBalanced d id (update subs i w r)
  update-IsBalanced i w r m b = record {
    on_handles = omega (
      arith,
      m.on_handles,
      b.on_handles,
      total-set_slot (handles d id) i r.0 w.slots refl m.gone,
    );
    on_guards =
        omega
          (arith, m.on_guards, b.on_guards, total-set_slot (guards d id) i r.0 w.slots refl m.gone);
  }

  -- A guard that is forgotten is counted as such.
  left_behind_lem :
      (s : Slot)
      → let r = forget_entered s in
        (handles d id r.0 + total (handles d id) r.1 ≡ handles d id s)
        × (guards d id r.0 + total (guards d id) r.1 ≡ guards d id s)
        × (s ≡ moved → r.0 ≡ moved)
  unfolding forget_entered total
  left_behind_lem moved = (refl, refl, λ e. e)
  left_behind_lem (forgotten_span s) = (omega arith, omega arith, λ e. e)
  left_behind_lem (forgotten_entered s) = (omega arith, omega arith, λ e. e)
  left_behind_lem (forgotten_guard s) = (omega arith, omega arith, λ e. e)
  left_behind_lem (span s zero) = (omega arith, omega arith, λ e. e)
  left_behind_lem (span s (suc m)) = (omega arith, omega arith, λ e. ground arith)
  left_behind_lem (entered_span s zero) = (omega arith, omega arith, λ e. e)
  left_behind_lem (entered_span s (suc m)) = (omega arith, omega arith, λ e. ground arith)

  left_behind-IsBalanced :
      (i : ℕ) (w : World)
      → IsBalanced d id w
      → IsBalanced d id (left_behind subs i w (forget_entered (slot_at i w.slots)))
  left_behind-IsBalanced i w b =
      let r = forget_entered (slot_at i w.slots) in
      let (p, q, g) = left_behind_lem (slot_at i w.slots) in
      record {
        on_handles = omega (
          arith,
          p,
          b.on_handles,
          total-append (handles d id) (set_slot i r.0 w.slots) r.1,
          total-set_slot (handles d id) i r.0 w.slots refl g,
        );
        on_guards = omega (
          arith,
          q,
          b.on_guards,
          total-append (guards d id) (set_slot i r.0 w.slots) r.1,
          total-set_slot (guards d id) i r.0 w.slots refl g,
        );
      }

  push-IsBalanced :
      (w : World) (r : Span × History)
      → Made d id subs w.history r
      → IsBalanced d id w
      → IsBalanced d id (push subs w r)
  unfolding total
  push-IsBalanced w r a b = record {
    on_handles = omega (
      arith,
      a.on_opens,
      a.on_closes,
      b.on_handles,
      total-append (handles d id) w.slots (span r.0 zero ∷ []),
    );
    on_guards = omega (
      arith,
      a.on_enters,
      a.on_exits,
      b.on_guards,
      total-append (guards d id) w.slots (span r.0 zero ∷ []),
    );
  }

  call-IsBalanced :
      (w : World) (h : History)
      → Adds d id w.history h 0 0 0 0
      → IsBalanced d id w
      → IsBalanced d id (record w { history = h })
  call-IsBalanced w h a b = record {
    on_handles = omega (arith, a.on_opens, a.on_closes, b.on_handles);
    on_guards = omega (arith, a.on_enters, a.on_exits, b.on_guards);
  }

  copied-IsBalanced :
      (w : World) (s : Option Span) → IsBalanced d id w → IsBalanced d id (copied subs w s)
  copied-IsBalanced w none b = b
  copied-IsBalanced w (some s) b =
      push-IsBalanced w (clone subs s w.history) (clone-Made d id subs s w.history) b

  made_child-IsBalanced :
      (dispatch : ℕ) (meta : Metadata) (values : List (List ℕ)) (w : World) (s : Option Span)
      → IsBalanced d id w
      → IsBalanced d id (made_child subs dispatch meta values w s)
  unfolding made_child
  made_child-IsBalanced dispatch meta values w none b = b
  made_child-IsBalanced dispatch meta values w (some s) b =
      push-IsBalanced w _ (make_with-Made d id subs meta _ dispatch w.history) b

  recorded-IsBalanced :
      (values : List (List ℕ)) (w : World) (s : Option Span)
      → IsBalanced d id w
      → IsBalanced d id (on_span subs (record_all values) s w)
  recorded-IsBalanced values w none b = b
  recorded-IsBalanced values w (some s) b =
      call-IsBalanced w _ (record_all-Adds d id values s w.history) b

  followed-IsBalanced :
      (w : World) (s from : Option Span)
      → IsBalanced d id w
      → IsBalanced d id (followed subs w s from)
  unfolding followed
  followed-IsBalanced w none from b = b
  followed-IsBalanced w (some s) none b = b
  followed-IsBalanced w (some s) (some from) b =
      call-IsBalanced w _ (follows_from-Adds d id (span_id from) s w.history) b

  new-Made : (s : Span) (h : History) → s.inner ≡ none → Made d id subs h (s, h)
  new-Made s h e = record {
    on_opens = omega (arith, ap (of_inner d id) e);
    on_closes = omega arith;
    on_enters = omega arith;
    on_exits = omega arith;
  }

  step-IsBalanced : (op : Op) (w : World) → IsBalanced d id w → IsBalanced d id (step subs op w)
  unfolding step
  step-IsBalanced (make n meta values) w b =
      push-IsBalanced w _ (make_with-Made d id subs meta _ n w.history) b
  step-IsBalanced (make_root n meta values) w b =
      push-IsBalanced w _ (make_with-Made d id subs meta _ n w.history) b
  step-IsBalanced (make_child n parent meta values) w b =
      made_child-IsBalanced n meta values w (span_of (slot_at parent w.slots)) b
  step-IsBalanced (disable meta) w b =
      push-IsBalanced w _ (new-Made (new_disabled meta) w.history refl) b
  step-IsBalanced make_none w b = push-IsBalanced w _ (new-Made none_span w.history refl) b
  step-IsBalanced (make_current n) w b =
      push-IsBalanced w _ (current_of-Made d id subs n w.history) b
  step-IsBalanced (copy i) w b = copied-IsBalanced w (span_of (slot_at i w.slots)) b
  step-IsBalanced (borrow_enter i) w b =
      update-IsBalanced i w _ (with_guard-Moves d id (slot_at i w.slots) w.history) b
  step-IsBalanced (drop_guard i) w b =
      update-IsBalanced i w _ (without_guard-Moves d id (slot_at i w.slots) w.history) b
  step-IsBalanced (own_enter i) w b =
      update-IsBalanced i w _ (entered-Moves d id (slot_at i w.slots) w.history) b
  step-IsBalanced (exit_entered i) w b =
      update-IsBalanced i w _ (exit_slot-Moves d id (slot_at i w.slots) w.history) b
  step-IsBalanced (replace_or_current n i) w b =
      update-IsBalanced i w _ (or_current-Moves d id subs n (slot_at i w.slots) w.history) b
  step-IsBalanced (record_on i values) w b =
      recorded-IsBalanced values w (span_of (slot_at i w.slots)) b
  step-IsBalanced (follow i from) w b =
      followed-IsBalanced w (span_of (slot_at i w.slots)) (span_of (slot_at from w.slots)) b
  step-IsBalanced (drop_var i) w b =
      update-IsBalanced i w _ (drop_slot-Moves d id (slot_at i w.slots) w.history) b
  step-IsBalanced (forget_guard i) w b = left_behind-IsBalanced i w b
  step-IsBalanced (forget_var i) w b =
      update-IsBalanced i w _ (forget_slot-Moves d id (slot_at i w.slots) w.history) b

  run_lem : (ops : List Op) (w : World) → IsBalanced d id w → IsBalanced d id (run subs ops w)
  unfolding run
  run_lem [] w b = b
  run_lem (op ∷ ops) w b = run_lem ops (step subs op w) (step-IsBalanced op w b)

times_zero : (m n : ℕ) → n ≡ 0 → times m n ≡ 0
times_zero zero n e = refl
times_zero (suc m) n e = omega (arith, e, times_zero m n e)

module _ (d id : ℕ) where
  guards_forgotten : (s : Slot) → handles d id s ≡ 0 → guards d id s ≡ forgotten_entries d id s
  guards_forgotten moved e = refl
  guards_forgotten (span s m) e = times_zero m _ e
  guards_forgotten (entered_span s m) e = times_zero (suc m) _ e
  guards_forgotten (forgotten_span s) e = refl
  guards_forgotten (forgotten_entered s) e = e
  guards_forgotten (forgotten_guard s) e = refl

  total-guards_forgotten :
      (slots : List Slot)
      → total (handles d id) slots ≡ 0
      → total (guards d id) slots ≡ total (forgotten_entries d id) slots
  unfolding total
  total-guards_forgotten [] e = refl
  total-guards_forgotten (s ∷ slots) e =
      let a = guards_forgotten s (omega (arith, e)) in
      let b = total-guards_forgotten slots (omega (arith, e)) in omega (arith, a, b)

abbrev pub start : World
start = record { slots = []; history = [] }

start-IsBalanced : (d id : ℕ) → IsBalanced d id start
unfolding total
start-IsBalanced d id = record { on_handles = refl; on_guards = refl }

-- At every point of a program, and for every span of every dispatcher: the subscriber was given as
-- many handles (`new_span` and `clone_span` that returned the span) as were closed by `try_close`, are
-- held by a variable or were forgotten, and it was told of as many entries as exits, as guards that
-- live, and as guards that were forgotten.
pub run-IsBalanced :
    (subs : Subscribers) (ops : List Op) (d id : ℕ) → IsBalanced d id (run subs ops start)
run-IsBalanced subs ops d id = run_lem d id subs ops start (start-IsBalanced d id)

-- At a point where a subscriber was told to close each handle of a span, it was told of an exit for
-- each entry, but for the entries of which the program gave the `Entered` guard to `mem::forget`: with no
-- such guard, no span is left entered when it closes.
pub run-exited :
    (subs : Subscribers) (ops : List Op) (d id : ℕ)
    → let w = run subs ops start in
      total (opens d id) w.history ≡ total (closes d id) w.history
      → total (enters d id) w.history
        ≡ total (exits d id) w.history + total (forgotten_entries d id) w.slots
run-exited subs ops d id e =
    let b = run-IsBalanced subs ops d id in
    omega (
      arith,
      b.on_guards,
      total-guards_forgotten d id (run subs ops start).slots (omega (arith, b.on_handles, e)),
    )
