-- ===== src/Facade/Moves.antt =====
-- tracing/src/span.rs: each step of a variable keeps the balance of the calls.
use tracing.Prelude.{
  ℕ, zero, suc, ◌+◌, ◌≡◌, ◌≢◌, refl, ap, ◌∷◌, Option, none, some, arith, Option-cases, inl, inr,
}
use tracing.Metadata.{Metadata}
use tracing.Facade.{
  Attributes, clone_span, History, Subscribers, Inner, Span, do_exit, drop_span, make_with,
  current_of, clone, or_current, is_disabled, of_current, clone_inner,
}
use tracing.Facade.Program.{
  Slot, moved, span, entered_span, forgotten_span, forgotten_entered, forgotten_guard, forget_slot,
  with_guard, without_guard, entered, drop_entered, exit_slot, drop_slot, or_current_slot,
}
use tracing.Facade.Balance.{
  total, opens, closes, enters, exits, of_inner, hit, handles, guards, Adds, none-Adds, Adds-trans,
  do_enter-Adds, do_exit-Adds, drop_span-Adds,
}

module _ (d id : ℕ) where
  -- A step of a variable keeps the balance.
  pub record Moves (s : Slot) (h : History) (r : Slot × History) : Type 0 where
    pub on_handles :
        total (opens d id) r.1 + (total (closes d id) h + handles d id s)
        ≡ total (opens d id) h + (total (closes d id) r.1 + handles d id r.0)
    pub on_guards :
        total (enters d id) r.1 + (total (exits d id) h + guards d id s)
        ≡ total (enters d id) h + (total (exits d id) r.1 + guards d id r.0)
    pub gone : s ≡ moved → r.0 ≡ moved

  same-Moves : (s : Slot) (h : History) → Moves s h (s, h)
  same-Moves s h = record { on_handles = omega arith; on_guards = omega arith; gone = λ e. e }

  -- A step that adds calls, of a variable that is not moved out of.
  Adds-Moves :
      (s t : Slot) (h k : History) (o c n x : ℕ)
      → Adds d id h k o c n x
      → s ≢ moved
      → o + handles d id s ≡ c + handles d id t
      → n + guards d id s ≡ x + guards d id t
      → Moves s h (t, k)
  Adds-Moves s t h k o c n x a m e f = record {
    on_handles = omega (arith, a.on_opens, a.on_closes, e);
    on_guards = omega (arith, a.on_enters, a.on_exits, f);
    gone = λ g. absurd (m g);
  }

  span≢moved : (s : Span) (m : ℕ) → span s m ≢ moved
  span≢moved s m = ground arith

  entered_span≢moved : (s : Span) (m : ℕ) → entered_span s m ≢ moved
  entered_span≢moved s m = ground arith

  pub with_guard-Moves : (s : Slot) (h : History) → Moves s h (with_guard s h)
  unfolding with_guard
  with_guard-Moves moved h = same-Moves moved h
  with_guard-Moves (forgotten_span s) h = same-Moves (forgotten_span s) h
  with_guard-Moves (forgotten_entered s) h = same-Moves (forgotten_entered s) h
  with_guard-Moves (forgotten_guard s) h = same-Moves (forgotten_guard s) h
  with_guard-Moves (span s m) h =
      Adds-Moves (span s m) _ h _ _ _ _ _ (do_enter-Adds d id s h) (span≢moved s m) (omega arith)
        (omega arith)
  with_guard-Moves (entered_span s m) h =
      Adds-Moves (entered_span s m) _ h _ _ _ _ _ (do_enter-Adds d id s h) (entered_span≢moved s m)
        (omega arith) (omega arith)

  pub without_guard-Moves : (s : Slot) (h : History) → Moves s h (without_guard s h)
  unfolding without_guard
  without_guard-Moves moved h = same-Moves moved h
  without_guard-Moves (forgotten_span s) h = same-Moves (forgotten_span s) h
  without_guard-Moves (forgotten_entered s) h = same-Moves (forgotten_entered s) h
  without_guard-Moves (forgotten_guard s) h = same-Moves (forgotten_guard s) h
  without_guard-Moves (span s zero) h = same-Moves (span s zero) h
  without_guard-Moves (span s (suc m)) h =
      Adds-Moves (span s (suc m)) _ h _ _ _ _ _ (do_exit-Adds d id s h) (span≢moved s (suc m))
        (omega arith) (omega arith)
  without_guard-Moves (entered_span s zero) h = same-Moves (entered_span s zero) h
  without_guard-Moves (entered_span s (suc m)) h =
      Adds-Moves (entered_span s (suc m)) _ h _ _ _ _ _ (do_exit-Adds d id s h)
        (entered_span≢moved s (suc m)) (omega arith) (omega arith)

  pub entered-Moves : (s : Slot) (h : History) → Moves s h (entered s h)
  unfolding entered
  entered-Moves moved h = same-Moves moved h
  entered-Moves (forgotten_span s) h = same-Moves (forgotten_span s) h
  entered-Moves (forgotten_entered s) h = same-Moves (forgotten_entered s) h
  entered-Moves (forgotten_guard s) h = same-Moves (forgotten_guard s) h
  entered-Moves (span s zero) h =
      Adds-Moves (span s zero) _ h _ _ _ _ _ (do_enter-Adds d id s h) (span≢moved s 0) (omega arith)
        (omega arith)
  entered-Moves (span s (suc m)) h = same-Moves (span s (suc m)) h
  entered-Moves (entered_span s m) h = same-Moves (entered_span s m) h

  pub exit_slot-Moves : (s : Slot) (h : History) → Moves s h (exit_slot s h)
  unfolding exit_slot drop_entered drop_span do_exit
  exit_slot-Moves moved h = same-Moves moved h
  exit_slot-Moves (forgotten_span s) h = same-Moves (forgotten_span s) h
  exit_slot-Moves (forgotten_entered s) h = same-Moves (forgotten_entered s) h
  exit_slot-Moves (forgotten_guard s) h = same-Moves (forgotten_guard s) h
  exit_slot-Moves (span s m) h = same-Moves (span s m) h
  exit_slot-Moves (entered_span s zero) h =
      Adds-Moves (entered_span s zero) _ h _ _ _ _ _ (do_exit-Adds d id s h)
        (entered_span≢moved s 0) (omega arith) (omega arith)
  exit_slot-Moves (entered_span s (suc m)) h = same-Moves (entered_span s (suc m)) h

  pub drop_slot-Moves : (s : Slot) (h : History) → Moves s h (drop_slot s h)
  unfolding drop_slot drop_entered
  drop_slot-Moves moved h = same-Moves moved h
  drop_slot-Moves (forgotten_span s) h = same-Moves (forgotten_span s) h
  drop_slot-Moves (forgotten_entered s) h = same-Moves (forgotten_entered s) h
  drop_slot-Moves (forgotten_guard s) h = same-Moves (forgotten_guard s) h
  drop_slot-Moves (span s zero) h =
      Adds-Moves (span s zero) moved h _ _ _ _ _ (drop_span-Adds d id s h) (span≢moved s 0)
        (omega arith) (omega arith)
  drop_slot-Moves (span s (suc m)) h = same-Moves (span s (suc m)) h
  drop_slot-Moves (entered_span s zero) h =
      Adds-Moves (entered_span s zero) moved h _ _ _ _ _
        (Adds-trans d id (do_exit-Adds d id s h) (drop_span-Adds d id s (do_exit s h)))
        (entered_span≢moved s 0) (omega arith) (omega arith)
  drop_slot-Moves (entered_span s (suc m)) h = same-Moves (entered_span s (suc m)) h

  pub forget_slot-Moves : (s : Slot) (h : History) → Moves s h (forget_slot s, h)
  unfolding forget_slot
  forget_slot-Moves moved h = same-Moves moved h
  forget_slot-Moves (forgotten_span s) h = same-Moves (forgotten_span s) h
  forget_slot-Moves (forgotten_entered s) h = same-Moves (forgotten_entered s) h
  forget_slot-Moves (forgotten_guard s) h = same-Moves (forgotten_guard s) h
  forget_slot-Moves (span s zero) h =
      Adds-Moves (span s zero) _ h h _ _ _ _ (none-Adds d id h) (span≢moved s 0) (omega arith)
        (omega arith)
  forget_slot-Moves (span s (suc m)) h = same-Moves (span s (suc m)) h
  forget_slot-Moves (entered_span s zero) h =
      Adds-Moves (entered_span s zero) _ h h _ _ _ _ (none-Adds d id h) (entered_span≢moved s 0)
        (omega arith) (omega arith)
  forget_slot-Moves (entered_span s (suc m)) h = same-Moves (entered_span s (suc m)) h

module _ (d id : ℕ) (subs : Subscribers) where
  -- A new handle, with the call that made it.
  abbrev pub Made : History → Span × History → Type 0
  Made h r = Adds d id h r.1 (of_inner d id r.0.inner) 0 0 0

  pub make_with-Made :
      (meta : Metadata) (attrs : Attributes) (dispatch : ℕ) (h : History)
      → Made h (make_with subs meta attrs dispatch h)
  unfolding make_with total
  make_with-Made meta attrs dispatch h = record {
    on_opens = omega arith;
    on_closes = omega arith;
    on_enters = omega arith;
    on_exits = omega arith;
  }

  cloned-Adds :
      (dispatch of new : ℕ) (h : History)
      → Adds d id h ((dispatch, clone_span of new) ∷ h) (hit d id dispatch new) 0 0 0
  unfolding total
  cloned-Adds dispatch of new h = record {
    on_opens = omega arith;
    on_closes = omega arith;
    on_enters = omega arith;
    on_exits = omega arith;
  }

  pub current_of-Made : (dispatch : ℕ) (h : History) → Made h (current_of subs dispatch h)
  unfolding current_of
  current_of-Made dispatch h = by_current (subs.current_span dispatch h)
    where
      by_current : (o : Option (ℕ × Metadata)) → Made h (of_current subs dispatch o h)
      by_current none = none-Adds d id h
      by_current (some (x, meta)) = cloned-Adds dispatch x (subs.clone_span dispatch x h) h

  pub clone-Made : (s : Span) (h : History) → Made h (clone subs s h)
  unfolding clone
  clone-Made s h = by_inner s.inner
    where
      by_inner : (o : Option Inner) → Made h (clone_inner subs s.meta o h)
      by_inner none = none-Adds d id h
      by_inner (some i) = cloned-Adds i.subscriber i.id (subs.clone_span i.subscriber i.id h) h

  or_current-disabled :
      (dispatch : ℕ) (s : Span) (h : History)
      → s.inner ≡ none
      → or_current subs dispatch s h ≡ current_of subs dispatch h
  unfolding or_current is_disabled drop_span
  or_current-disabled dispatch s h e = rw e refl

  or_current-enabled :
      (dispatch : ℕ) (s : Span) (i : Inner) (h : History)
      → s.inner ≡ some i
      → or_current subs dispatch s h ≡ (s, h)
  unfolding or_current is_disabled
  or_current-enabled dispatch s i h e = rw e refl

  pub or_current-Moves :
      (dispatch : ℕ) (s : Slot) (h : History) → Moves d id s h (or_current_slot subs dispatch s h)
  unfolding or_current_slot
  or_current-Moves dispatch moved h = same-Moves d id moved h
  or_current-Moves dispatch (forgotten_span s) h = same-Moves d id (forgotten_span s) h
  or_current-Moves dispatch (forgotten_entered s) h = same-Moves d id (forgotten_entered s) h
  or_current-Moves dispatch (forgotten_guard s) h = same-Moves d id (forgotten_guard s) h
  or_current-Moves dispatch (span s zero) h = elim (Option-cases s.inner) [
    | inl e ↦ rw (or_current-disabled dispatch s h e) (
        Adds-Moves d id (span s zero) _ h _ _ _ _ _ (current_of-Made dispatch h)
          (span≢moved d id s 0) (omega (arith, ap (of_inner d id) e)) (omega arith))
    | inr (i, e) ↦ rw (or_current-enabled dispatch s i h e) (same-Moves d id (span s zero) h)
  ]
  or_current-Moves dispatch (span s (suc m)) h = same-Moves d id (span s (suc m)) h
  or_current-Moves dispatch (entered_span s m) h = same-Moves d id (entered_span s m) h
