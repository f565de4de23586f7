-- ===== src/Targets.antt =====
-- tracing-subscriber/src/filter/targets.rs: the `Targets` filter.
pub mod Laws
mod Tests
use tracing.Prelude.{ℕ, Bool, List, [], ◌∷◌, map, Option, none, some, if◌then◌else◌}
use tracing.Level.{Level, LevelFilter}
use tracing.Interest.{Interest, never, always}
use tracing.Metadata.{Metadata}
use tracing.Directive.{DirectiveSet, empty, add, extend}
use tracing.StaticDirective.{StaticDirective, statics, enabled, target_enabled}
use tracing.Callsite.{Dispatch}

-- `struct Targets(DirectiveSet<StaticDirective>)`
abbrev pub Targets : Type 0
Targets = DirectiveSet StaticDirective

-- `Targets::new`
abbrev pub new : Targets
new = empty

-- `StaticDirective::new(Some(target), Default::default(), level)`
abbrev pub with_level : List ℕ → LevelFilter → StaticDirective
with_level target level = record { target = some target; field_names = []; level = level }

-- `Targets::with_target`
unfoldable pub with_target : List ℕ → LevelFilter → Targets → Targets
unfolding add
with_target target level self = add statics (with_level target level) self

-- `Extend::extend`, and so `with_targets` and `from_iter`
unfoldable pub extend_targets : List (List ℕ × LevelFilter) → Targets → Targets
unfolding extend
extend_targets iter self = extend statics (map (λ p. with_level p.0 p.1) iter) self

-- `Targets::with_default`
unfoldable pub with_default : LevelFilter → Targets → Targets
unfolding add
with_default level self =
    add statics (record { target = none; field_names = []; level = level }) self

-- `find_map` of `default_level`
find_default : List StaticDirective → Option LevelFilter
find_default [] = none
find_default (d ∷ ds) =
    let rest = find_default ds in elim d.target [ none ↦ some d.level | some target ↦ rest ]

-- `Targets::default_level`
unfoldable pub default_level : Targets → Option LevelFilter
unfolding find_default
default_level self = find_default self.directives

-- `Targets::iter`, and `IntoIter`
pairs : List StaticDirective → List (List ℕ × LevelFilter)
pairs [] = []
pairs (d ∷ ds) =
    let rest = pairs ds in elim d.target [ none ↦ rest | some target ↦ (target, d.level) ∷ rest ]

unfoldable pub iter : Targets → List (List ℕ × LevelFilter)
unfolding pairs
iter self = pairs self.directives

-- `Targets::interested`
unfoldable pub interested : Targets → Metadata → Interest
unfolding enabled
interested self metadata = if enabled self metadata then always else never

-- `Targets::would_enable`
unfoldable pub would_enable : Targets → List ℕ → Level → Bool
unfolding target_enabled
would_enable self target level = target_enabled self target level

-- `Layer for Targets` (and `Filter for Targets`): what a registry with this layer alone answers.
abbrev pub targets_dispatch : Targets → Dispatch Metadata
targets_dispatch self = record {
  register_callsite = interested self;
  max_level_hint = some self.max_level;
  enabled = enabled self;
}
