-- ===== src/EnvFilter.antt =====
-- tracing-subscriber/src/filter/env/mod.rs and builder.rs: an `EnvFilter` and its callbacks. A thread
-- and a span are numbers; a vector of the scope has its last element first. No lock is poisoned, so
-- `try_lock!` never takes its other branch.
pub mod History
pub mod Hint
pub mod Interests
pub mod Scope
mod Tests
use tracing.Prelude.{
  ℕ, Bool, true, false, not, ◌&&◌, ◌||◌, List, [], ◌∷◌, map, Option, none, some, is_empty, any,
  filter, ◌==◌, if◌then◌else◌,
}
use tracing.Level.{Level, trace, LevelFilter}
use tracing.Level.Compare.FilterWithLevel
use tracing.Metadata.{Metadata, is_span}
use tracing.Interest.{Interest, never, sometimes, always}
use tracing.Directive.{DirectiveSet, add}
use tracing.StaticDirective.{StaticDirective, statics, enabled}
use tracing.Filter.{max_filter}
use tracing.FieldMatch.{Values}
use tracing.FieldMatch.Span.{Value}
use tracing.EnvDirective.{
  Directive, CallsiteMatcher, SpanMatcher, dynamics, to_static, make_tables, deregexify, matcher,
  has_value_filters, to_span_matcher, span_level, record_update,
}

-- `struct EnvFilter`
pub record EnvFilter (v : Values) : Type 0 where
  pub statics : DirectiveSet StaticDirective
  pub dynamics : DirectiveSet (Directive v)
  pub has_dynamics : Bool
  pub by_id : List (ℕ × SpanMatcher v)
  pub by_cs : List (ℕ × CallsiteMatcher v)
  pub scope : ℕ → List LevelFilter
  pub regex : Bool

-- `struct Builder`, without the name of the variable
pub record Builder (v : Values) : Type 0 where
  pub regex : Bool
  pub default_directive : Option (Directive v)

-- `HashMap::get`, `remove`, and `insert`, which puts the new entry before an old one
abbrev pub get {ℓ} : {A : Type ℓ} → ℕ → List (ℕ × A) → Option A
get k [] = none
get k ((j, x) ∷ m) = if j == k then some x else get k m

abbrev pub remove {ℓ} : {A : Type ℓ} → ℕ → List (ℕ × A) → List (ℕ × A)
remove k [] = []
remove k ((j, x) ∷ m) = if j == k then remove k m else (j, x) ∷ remove k m

abbrev pub insert {ℓ} : {A : Type ℓ} → ℕ → A → List (ℕ × A) → List (ℕ × A)
insert k x m = (k, x) ∷ remove k m

abbrev pub contains_key {ℓ} : {A : Type ℓ} → ℕ → List (ℕ × A) → Bool
contains_key k m = elim (get k m) [ none ↦ false | some x ↦ true ]

-- The vector of one thread is changed.
abbrev pub at_thread :
    ℕ → (List LevelFilter → List LevelFilter) → (ℕ → List LevelFilter) → ℕ → List LevelFilter
at_thread thread f scope t = if t == thread then f (scope t) else scope t

-- `Vec::pop`
abbrev pub pop : List LevelFilter → List LevelFilter
pop [] = []
pop (l ∷ ls) = ls

-- The scan of the scope in `enabled`.
unfoldable pub enabled_by_scope : List LevelFilter → Level → Bool
unfolding FilterWithLevel.ge
enabled_by_scope scope level = any (λ filter. FilterWithLevel.ge filter level) scope

module _ {v : Values} where
  abbrev add_to : Directive v → Option StaticDirective → EnvFilter v → EnvFilter v
  unfolding add
  add_to directive (some stat) self = record self { statics = add statics stat self.statics }
  add_to directive none self = record self {
    has_dynamics = true;
    dynamics = add dynamics directive self.dynamics;
  }

  -- `EnvFilter::add_directive`
  unfoldable pub add_directive : Directive v → EnvFilter v → EnvFilter v
  unfolding deregexify to_static add_to
  add_directive directive self =
      let d = if not self.regex then deregexify directive else directive in
      add_to d (to_static d) self

  abbrev made : Bool → DirectiveSet (Directive v) × DirectiveSet StaticDirective → EnvFilter v
  made regex tables = record {
    statics = tables.1;
    dynamics = tables.0;
    has_dynamics = not (is_empty tables.0.directives);
    by_id = [];
    by_cs = [];
    scope = λ thread. [];
    regex = regex;
  }

  abbrev with_default : Option (Directive v) → EnvFilter v → EnvFilter v
  unfolding add_directive
  with_default none self = self
  with_default (some default) self =
      if not self.has_dynamics && is_empty self.statics.directives
      then add_directive default self
      else self

  -- `Builder::from_directives`, without its warnings about the static maximum level
  unfoldable pub from_directives : Builder v → List (Directive v) → EnvFilter v
  unfolding deregexify make_tables with_default
  from_directives self directives =
      let ds = if not self.regex then map deregexify directives else directives in
      with_default self.default_directive (made self.regex (make_tables ds))

  -- `EnvFilter::enabled`
  unfoldable pub is_enabled : ℕ → EnvFilter v → Metadata → Bool
  unfolding FilterWithLevel.ge is_span enabled enabled_by_scope
  is_enabled thread self metadata =
      let level = metadata.level in
      if (self.has_dynamics && FilterWithLevel.ge self.dynamics.max_level level)
        && ((is_span metadata.kind && contains_key metadata.fields.callsite self.by_cs)
            || enabled_by_scope (self.scope thread) level)
      then true
      else if FilterWithLevel.ge self.statics.max_level level
      then enabled self.statics metadata
      else false

  -- `EnvFilter::max_level_hint`
  unfoldable pub max_level_hint : EnvFilter v → Option LevelFilter
  unfolding has_value_filters
  max_level_hint self =
      if has_value_filters self.dynamics
      then some (some trace)
      else some (max_filter self.statics.max_level self.dynamics.max_level)

  -- `EnvFilter::base_interest`
  abbrev base_interest : EnvFilter v → Interest
  base_interest self = if self.has_dynamics then sometimes else never

  -- The end of `register_callsite`, and its part for a span that a dynamic filter matches.
  abbrev static_interest : Metadata → EnvFilter v → Interest × EnvFilter v
  unfolding enabled
  static_interest metadata self =
      (if enabled self.statics metadata then always else base_interest self, self)

  abbrev matched_interest :
      Metadata → Option (CallsiteMatcher v) → EnvFilter v → Interest × EnvFilter v
  matched_interest metadata none self = static_interest metadata self
  matched_interest metadata (some m) self =
      (always, record self { by_cs = insert metadata.fields.callsite m self.by_cs })

  -- `EnvFilter::register_callsite`
  unfoldable pub register_callsite : Metadata → EnvFilter v → Interest × EnvFilter v
  unfolding is_span matcher static_interest
  register_callsite metadata self =
      if self.has_dynamics && is_span metadata.kind
      then matched_interest metadata (matcher self.dynamics metadata) self
      else static_interest metadata self

  abbrev new_span : ℕ → List (ℕ × Value v) → Option (CallsiteMatcher v) → EnvFilter v → EnvFilter v
  unfolding to_span_matcher
  new_span id attrs none self = self
  new_span id attrs (some cs) self = record self {
    by_id = insert id (to_span_matcher cs attrs) self.by_id;
  }

  -- `EnvFilter::on_new_span`
  unfoldable pub on_new_span : ℕ → Metadata → List (ℕ × Value v) → EnvFilter v → EnvFilter v
  unfolding new_span
  on_new_span id metadata attrs self =
      if not self.has_dynamics
      then self
      else new_span id attrs (get metadata.fields.callsite self.by_cs) self

  abbrev enter : ℕ → ℕ → Option (SpanMatcher v) → EnvFilter v → EnvFilter v
  unfolding span_level
  enter thread id none self = self
  enter thread id (some span) self =
      let r = span_level span in
      record self {
        by_id = insert id r.1 self.by_id;
        scope = at_thread thread (λ levels. r.0 ∷ levels) self.scope;
      }

  -- `EnvFilter::on_enter`
  unfoldable pub on_enter : ℕ → ℕ → EnvFilter v → EnvFilter v
  unfolding enter
  on_enter thread id self =
      if not self.has_dynamics then self else enter thread id (get id self.by_id) self

  -- `EnvFilter::cares_about_span`
  abbrev pub cares_about_span : ℕ → EnvFilter v → Bool
  cares_about_span span self = contains_key span self.by_id

  -- `EnvFilter::on_exit`
  unfoldable pub on_exit : ℕ → ℕ → EnvFilter v → EnvFilter v
  on_exit thread id self =
      if not self.has_dynamics
      then self
      else if cares_about_span id self
      then record self { scope = at_thread thread pop self.scope }
      else self

  -- `EnvFilter::on_close`
  unfoldable pub on_close : ℕ → EnvFilter v → EnvFilter v
  on_close id self =
      if not self.has_dynamics
      then self
      else if not (cares_about_span id self)
      then self
      else record self { by_id = remove id self.by_id }

  abbrev update : ℕ → List (ℕ × Value v) → Option (SpanMatcher v) → EnvFilter v → EnvFilter v
  unfolding record_update
  update id values none self = self
  update id values (some span) self = record self {
    by_id = insert id (record_update values span) self.by_id;
  }

  -- `EnvFilter::on_record`
  unfoldable pub on_record : ℕ → List (ℕ × Value v) → EnvFilter v → EnvFilter v
  unfolding update
  on_record id values self =
      if not self.has_dynamics then self else update id values (get id self.by_id) self
