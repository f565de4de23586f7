-- ===== src/EnvFilter/Tests.antt =====
-- Filters at concrete directives, spans and events.
use tracing.Prelude.{ℕ, ◌≤◌, ◌≡◌, refl, true, false, List, [], ◌∷◌, none, some, codes, arith}
use tracing.Level.{Level, info, debug, LevelFilter, off}
use tracing.Level.Compare.Verbosity.{level_verbosity, verbosity}
use tracing.Metadata.{Metadata, event_bit, span_bit}
use tracing.FieldMatch.Samples.{values}
use tracing.EnvDirective.{Directive, SpanMatcher}
use tracing.EnvFilter.{
  EnvFilter, Builder, from_directives, add_directive, is_enabled, max_level_hint, register_callsite,
}
use tracing.EnvFilter.History.{Op, register, open_span, enter_span, exit_span, record_span, run}
use tracing.EnvFilter.Hint.{is_enabled-le-max_level_hint}
use tracing.EnvFilter.Interests.{IsKept, reached, register_callsite-IsKept_later}
use tracing.EnvFilter.Scope.{Nested, done, other, around, callbacks, run-nested, is_enabled-entered}

abbrev builder : Builder values
builder = record { regex = true; default_directive = none }

-- `[conn]=debug`
abbrev in_conn : Directive values
in_conn = record { in_span = some (codes "conn"); fields = []; target = none; level = some debug }

-- `[job]=info`
abbrev in_job : Directive values
in_job = record { in_span = some (codes "job"); fields = []; target = none; level = some info }

-- `[{peer}]=debug`
abbrev with_peer : Directive values
with_peer = record {
  in_span = none;
  fields = record { name = codes "peer"; value = none } ∷ [];
  target = none;
  level = some debug;
}

abbrev metadata_of : List ℕ → Level → ℕ → ℕ → Metadata
metadata_of name level callsite kind = record {
  name = name;
  target = codes "net";
  level = level;
  module_path = none;
  file = none;
  line = none;
  fields = record { names = codes "peer" ∷ []; callsite = callsite };
  kind = kind;
}

abbrev conn : Metadata
conn = metadata_of (codes "conn") info 5 span_bit

abbrev job : Metadata
job = metadata_of (codes "job") info 6 span_bit

abbrev message : Metadata
message = metadata_of (codes "event") debug 7 event_bit

-- A matcher without values, of a level.
abbrev matcher_of : LevelFilter → SpanMatcher values
matcher_of level = record {
  field_matches = record { fields = []; level = level; has_matched = false } ∷ [];
  base_level = off;
}

-- The filter `[conn]=debug,[job]=info` when a span of each name is open.
abbrev state : EnvFilter values
state = record {
  statics = record { directives = []; max_level = off };
  dynamics = record { directives = in_conn ∷ in_job ∷ []; max_level = some debug };
  has_dynamics = true;
  by_id = (1, matcher_of (some debug)) ∷ (2, matcher_of (some info)) ∷ [];
  by_cs = [];
  scope = λ thread. [];
  regex = true;
}

-- After the outer of two spans is exited first, the inner one's level is gone, not its own.
out_of_order :
    (run (enter_span 0 1 ∷ enter_span 0 2 ∷ exit_span 0 1 ∷ []) state).scope 0 ≡ some debug ∷ []
unfolding run
out_of_order = refl

entered-enables : is_enabled 0 (run (enter_span 0 1 ∷ []) state) message ≡ true
unfolding is_enabled run
entered-enables = refl

-- A directive that names a field only is dynamic as well if the filter is built from it, and not if
-- it is added later.
built_has : (from_directives builder (with_peer ∷ [])).has_dynamics ≡ true
unfolding from_directives
built_has = refl

added_has : (add_directive with_peer (from_directives builder [])).has_dynamics ≡ false
unfolding from_directives add_directive
added_has = refl

is_enabled-le-max_level_hint_example :
    (hint : LevelFilter) × (max_level_hint (run (enter_span 0 1 ∷ []) state) ≡ some hint)
    × (level_verbosity debug ≤ verbosity hint)
is_enabled-le-max_level_hint_example =
    is_enabled-le-max_level_hint (run (enter_span 0 1 ∷ []) state) 0 message entered-enables

abbrev before : List (Op values)
before = register job ∷ open_span 2 job [] ∷ []

abbrev after : List (Op values)
after = open_span 1 conn [] ∷ enter_span 0 1 ∷ []

register_callsite-IsKept_later_example :
    IsKept
      (reached builder (in_conn ∷ in_job ∷ []) (with_peer ∷ []) before)
      (run after
        (register_callsite conn
          (reached builder (in_conn ∷ in_job ∷ []) (with_peer ∷ []) before)).1)
      conn
      0
      (register_callsite conn (reached builder (in_conn ∷ in_job ∷ []) (with_peer ∷ []) before)).0
register_callsite-IsKept_later_example =
    register_callsite-IsKept_later builder (in_conn ∷ in_job ∷ []) (with_peer ∷ []) before after
      conn 0

-- A span in a span, and a thread that enters one meanwhile.
abbrev while : Nested values
while = around 1 (other (enter_span 1 2) (around 2 done (other (record_span 1 []) done))) done

run-nested_example : (run (callbacks 0 while) state).scope 0 ≡ []
run-nested_example = run-nested 0 while state refl

is_enabled-entered_example :
    is_enabled 0 (run (enter_span 0 1 ∷ callbacks 0 (around 2 done done)) state) message ≡ true
unfolding tracing.EnvDirective.span_level
is_enabled-entered_example =
    is_enabled-entered 0 1 (matcher_of (some debug)) (around 2 done done) state message refl refl
      refl (omega arith) (omega arith)
