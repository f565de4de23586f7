-- ===== src/Facade/Tests.antt =====
-- A program with one subscriber, which numbers its spans by the calls so far.
use tracing.Prelude.{ℕ, suc, ◌+◌, ◌≡◌, refl, List, [], ◌∷◌, none, some, codes}
use tracing.Level.{info}
use tracing.Metadata.{Metadata}
use tracing.Facade.{
  History, Subscribers, new_span, clone_span, try_close, enter, exit, record_values, new_attributes,
  child_of_attributes, do_enter, do_exit, drop_span, record_all, make_with, clone, span_id,
}
use tracing.Facade.Program.{
  Op, make, make_child, copy, borrow_enter, drop_guard, own_enter, exit_entered, drop_var,
  record_on, forget_guard, forget_entered, in_scope, step, run, with_guard, without_guard, entered,
  exit_slot, drop_slot, drop_entered, made_child,
}
use tracing.Facade.Balance.{total, opens, closes, enters, exits, forgotten_entries}
use tracing.Facade.Ledger.{IsBalanced, start, run-IsBalanced, run-exited}

abbrev calls_so_far : History → ℕ
calls_so_far [] = 0
calls_so_far (c ∷ h) = suc (calls_so_far h)

abbrev numbering : Subscribers
numbering = record {
  new_span = λ d attrs h. suc (calls_so_far h);
  clone_span = λ d id h. id;
  current_span = λ d h. none;
}

abbrev request : Metadata
request = record {
  name = codes "request";
  target = codes "app";
  level = info;
  module_path = none;
  file = none;
  line = none;
  fields = record { names = []; callsite = 1 };
  kind = 2;
}

-- A scope with an entered child in it, whose `exit` gives the span back.
abbrev program : List Op
program =
    make 0 request []
    ∷ borrow_enter 0
    ∷ make_child 0 0 request []
    ∷ own_enter 1
    ∷ exit_entered 1
    ∷ copy 1
    ∷ drop_var 1
    ∷ drop_var 0
    ∷ drop_guard 0
    ∷ drop_var 0
    ∷ []

-- The span 1 cannot be dropped while it is borrowed.
program-run :
    (run numbering program start).history
    ≡ (0, try_close 1)
      ∷ (0, exit 1)
      ∷ (0, try_close 3)
      ∷ (0, clone_span 3 3)
      ∷ (0, exit 3)
      ∷ (0, enter 3)
      ∷ (0, new_span (child_of_attributes (some 1) request []) 3)
      ∷ (0, enter 1)
      ∷ (0, new_span (new_attributes request []) 1)
      ∷ []
unfolding run step with_guard without_guard entered exit_slot drop_slot drop_entered made_child
    make_with clone span_id do_enter do_exit drop_span
program-run = refl

in_scope-run :
    (run numbering (make 0 request [] ∷ in_scope 0 (record_on 0 [] ∷ [])) start).history
    ≡ (0, exit 1)
      ∷ (0, record_values 1 [])
      ∷ (0, enter 1)
      ∷ (0, new_span (new_attributes request []) 1)
      ∷ []
unfolding run step in_scope with_guard without_guard make_with record_all do_enter do_exit
in_scope-run = refl

-- `mem::forget(span.enter()); drop(span)` closes a span that is left entered.
forgotten-run :
    (run numbering
      (make 0 request [] ∷ borrow_enter 0 ∷ forget_guard 0 ∷ drop_var 0 ∷ [])
      start).history
    ≡ (0, try_close 1) ∷ (0, enter 1) ∷ (0, new_span (new_attributes request []) 1) ∷ []
unfolding run step with_guard forget_entered drop_slot make_with do_enter drop_span
forgotten-run = refl

run-IsBalanced_example : IsBalanced 0 3 (run numbering program start)
run-IsBalanced_example = run-IsBalanced numbering program 0 3

program_closed :
    let h = (run numbering program start).history in total (opens 0 1) h ≡ total (closes 0 1) h
unfolding total run step with_guard without_guard entered exit_slot drop_slot drop_entered
    made_child make_with clone span_id do_enter do_exit drop_span
program_closed = refl

run-exited_example :
    let w = run numbering program start in
    total (enters 0 1) w.history
    ≡ total (exits 0 1) w.history + total (forgotten_entries 0 1) w.slots
run-exited_example = run-exited numbering program 0 1 program_closed
