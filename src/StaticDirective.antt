-- ===== src/StaticDirective.antt =====
-- tracing-subscriber/src/filter/directive.rs: `StaticDirective`, and the methods of the set of them.
pub mod Order
pub mod Enabled
pub mod Text
mod Tests
use Prim.Native.Nat.Ordering.{lt, eq, gt}
use tracing.Prelude.{
  ℕ, Bool, true, false, not, ◌&&◌, List, [], ◌∷◌, Option, none, some, Ordering, compare, length,
  is_empty, starts_with, if◌then◌else◌,
}
use tracing.Prelude.Order.{reverse, then_with, option_cmp, slice_cmp}
use tracing.Level.{Level, LevelFilter, error}
use tracing.Level.Compare.FilterWithLevel
use tracing.Metadata.{Metadata, FieldSet, field, is_event}
use tracing.Directive.{Directives, DirectiveSet, first, directive_for}

-- `struct StaticDirective`
pub record StaticDirective : Type 0 where
  pub target : Option (List ℕ)
  pub field_names : List (List ℕ)
  pub level : LevelFilter

-- `Default for StaticDirective`
pub default : StaticDirective
default = record { target = none; field_names = []; level = some error }

-- `Option::map(String::len)`
abbrev pub target_len : Option (List ℕ) → Option ℕ
target_len none = none
target_len (some s) = some (length s)

-- `Ord::cmp`: `String::cmp` compares bytes.
abbrev pub str_cmp : List ℕ → List ℕ → Ordering
str_cmp = slice_cmp compare

unfoldable pub cmp : StaticDirective → StaticDirective → Ordering
cmp self other = reverse (
    then_with
      (then_with (option_cmp compare (target_len self.target) (target_len other.target))
        (compare (length self.field_names) (length other.field_names)))
      (then_with (option_cmp str_cmp self.target other.target)
        (slice_cmp str_cmp self.field_names other.field_names)))

-- The part of `cares_about` and `cares_about_target` that they share.
abbrev pub target_matches : Option (List ℕ) → List ℕ → Bool
target_matches none to_check = true
target_matches (some target) to_check = starts_with to_check target

-- `StaticDirective::cares_about_target`
unfoldable pub cares_about_target : StaticDirective → List ℕ → Bool
cares_about_target self to_check =
    if not (target_matches self.target to_check)
    then false
    else if not (is_empty self.field_names)
    then false
    else true

abbrev pub is_none {ℓ} : {A : Type ℓ} → Option A → Bool
is_none none = true
is_none (some a) = false

-- the loop over the field names
has_fields : FieldSet → List (List ℕ) → Bool
has_fields fields [] = true
has_fields fields (name ∷ names) =
    let rest = has_fields fields names in if is_none (field fields name) then false else rest

-- `Match::cares_about`
unfoldable pub cares_about : StaticDirective → Metadata → Bool
unfolding has_fields
cares_about self meta =
    if not (target_matches self.target meta.target)
    then false
    else if is_event meta.kind && not (is_empty self.field_names)
    then has_fields meta.fields self.field_names
    else true

abbrev pub statics : Directives StaticDirective
statics = record { cmp = cmp; level = λ d. d.level; cares_about = cares_about }

abbrev decide : Level → Option StaticDirective → Bool
unfolding FilterWithLevel.ge
decide level none = false
decide level (some d) = FilterWithLevel.ge d.level level

-- `DirectiveSet<StaticDirective>::enabled`
unfoldable pub enabled : DirectiveSet StaticDirective → Metadata → Bool
unfolding directive_for FilterWithLevel.ge
enabled self meta = decide meta.level (directive_for statics meta self)

-- `DirectiveSet<StaticDirective>::target_enabled`
unfoldable pub target_enabled : DirectiveSet StaticDirective → List ℕ → Level → Bool
unfolding first FilterWithLevel.ge
target_enabled self target level =
    decide level (first statics (λ d. cares_about_target d target) self.directives)
