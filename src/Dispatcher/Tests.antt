-- ===== src/Dispatcher/Tests.antt =====
-- Programs of scopes and calls.
use tracing.Prelude.{ℕ, ◌≡◌, refl, true, false, [], ◌∷◌, none, not, ◌==◌, arith}
use tracing.Dispatcher.{System, Program, finished, scope, dispatch, initialized, exec, get_global}
use tracing.Dispatcher.{uninitialized}
use tracing.Dispatcher.Global.{
  Shared, Reach, here, next, call, compare_exchange, write, publish, set_exists, initial, exchange,
  at, idle, called, won, written, published, returned_ok, returned_err, read_global,
  Reach-returned_ok,
}
use tracing.Dispatcher.Scopes.{IsAt, lexical, exec-lexical}

-- The dispatcher 0 is none, and 9 is the global one.
abbrev system : System ℕ
system = record {
  exists = true;
  global_init = initialized;
  global_dispatch = 9;
  scoped_count = 0;
  current_state = λ thread. record { default = none; can_enter = true };
}

-- A call in two scopes, with a call in it, and one after them.
abbrev program : Program ℕ
program =
    scope 1 (scope 2 (dispatch (dispatch finished finished) finished) (dispatch finished finished))
      (dispatch (dispatch finished finished) finished)

program_seen : (exec 0 0 program system).0 ≡ 2 ∷ 0 ∷ 1 ∷ 9 ∷ 9 ∷ []
unfolding exec
program_seen = refl

-- A scope that is opened and closed while a dispatcher is called lets the calls after it in again.
entered_again :
    (exec 0 0
      (scope 1
        (dispatch (dispatch finished (scope 2 finished (dispatch finished finished))) finished)
        finished)
      system).0
    ≡ 1 ∷ 0 ∷ 1 ∷ []
unfolding exec
entered_again = refl

system-IsAt : IsAt 0 9 0 0 none true system
unfolding get_global
system-IsAt = record { on_count = refl; on_default = refl; on_can_enter = refl; on_global = refl }

exec-lexical_example :
    ((exec 0 0 program system).0 ≡ lexical 0 9 (not (0 == 0)) none program)
    × IsAt 0 9 0 0 none true (exec 0 0 program system).1
exec-lexical_example = exec-lexical 0 9 0 program 0 none system refl (omega arith) system-IsAt

-- One thread sets the global dispatcher, and another one comes too late.
abbrev called_twice : Shared ℕ
called_twice = record {
  global_init = uninitialized;
  global_dispatch = 0;
  exists = false;
  pc = at 1 (called 6) (at 0 (called 5) (λ t. idle));
}

abbrev at_end : Shared ℕ
at_end = record {
  global_init = initialized;
  global_dispatch = 5;
  exists = true;
  pc =
      at 0 (returned_ok 5)
        (at 0 (published 5) (at 0 (written 5) (at 1 returned_err (at 0 (won 5) called_twice.pc))));
}

reach : Reach 0 at_end
unfolding exchange
reach =
    next
      (next
        (next
          (next
            (next
              (next (next here (call (initial 0) 0 5 refl))
                (call (record (initial 0) { pc = at 0 (called 5) (λ t. idle) }) 1 6 refl))
              (compare_exchange called_twice 0 5 refl))
            (compare_exchange (exchange 0 5 called_twice) 1 6 refl))
          (write (exchange 1 6 (exchange 0 5 called_twice)) 0 5 refl))
        (publish
          (record (exchange 1 6 (exchange 0 5 called_twice)) {
            global_dispatch = 5;
            pc = at 0 (written 5) (exchange 1 6 (exchange 0 5 called_twice)).pc;
          })
          0 5 refl))
      (set_exists
        (record at_end {
          exists = false;
          pc =
              at 0 (published 5)
                (at 0 (written 5) (at 1 returned_err (at 0 (won 5) called_twice.pc)));
        })
        0 5 refl)

Reach-returned_ok_example : (◌≡◌ {A = ℕ} 0 0) × (read_global 0 at_end ≡ 5)
Reach-returned_ok_example = Reach-returned_ok 0 at_end 0 0 5 5 reach refl refl
