-- ===== src/Targets/Laws.antt =====
-- What the builder methods of `Targets` do to the answers of the filter.
use tracing.Prelude.{
  ℕ, ◌≡◌, refl, inl, false, List, [], ◌∷◌, none, some, All, In, is_empty, arith, not, ◌&&◌,
}
use tracing.Level.{LevelFilter}
use tracing.Metadata.{Metadata}
use tracing.Directive.{from_iter, binary_search}
use tracing.Directive.Sorted.{place, place-cons}
use tracing.StaticDirective.{StaticDirective, statics, is_none}
use tracing.StaticDirective.Order.{cmp-specific}
use tracing.StaticDirective.Enabled.{enabled-le-max_level}
use tracing.Callsite.Delivery.{IsLawful}
use tracing.Targets.{
  Targets, interested, targets_dispatch, with_default, with_target, with_level, default_level,
  find_default, iter, pairs,
}

-- A `Targets` filter built from any directives keeps the contract of `Subscriber` at every callsite:
-- its cached interest is its decision, and its hint is not exceeded.
pub targets-IsLawful :
    (ds : List StaticDirective) (meta : Metadata)
    → IsLawful (targets_dispatch (from_iter statics ds)) meta meta.level
unfolding interested
targets-IsLawful ds meta = ground (arith, enabled-le-max_level ds meta)

-- A directive without a target has no field names either, as the builder methods leave it.
abbrev pub IsPlain : StaticDirective → Type 0
IsPlain d = (is_none d.target && not (is_empty d.field_names)) ≡ false

module _ (level : LevelFilter) where
  abbrev default_directive : StaticDirective
  default_directive = record { target = none; field_names = []; level = level }

  find_default-place :
      (xs : List StaticDirective)
      → All IsPlain xs
      → (find_default (place statics xs default_directive) ≡ some level)
        × (pairs (place statics xs default_directive) ≡ pairs xs)
  unfolding find_default pairs binary_search
  find_default-place [] h = (refl, refl)
  find_default-place (x ∷ xs) h = ground (
    arith,
    place-cons statics x xs default_directive,
    find_default-place xs h.1,
    (cmp-specific x default_directive).0,
  )

-- `with_default` sets the default level, and leaves the targets and their levels as they were.
pub default_level-with_default :
    (level : LevelFilter) (self : Targets)
    → All IsPlain self.directives
    → (default_level (with_default level self) ≡ some level)
      × (iter (with_default level self) ≡ iter self)
unfolding default_level with_default iter
default_level-with_default level self h = find_default-place level self.directives h

module _ (target : List ℕ) (level : LevelFilter) where
  place-with_target :
      (xs : List StaticDirective)
      → (find_default (place statics xs (with_level target level)) ≡ find_default xs)
        × In (target, level) (pairs (place statics xs (with_level target level)))
  unfolding find_default pairs binary_search
  place-with_target [] = (refl, inl refl)
  place-with_target (x ∷ xs) = ground (
    arith,
    place-cons statics x xs (with_level target level),
    place-with_target xs,
    (cmp-specific x (with_level target level)).0,
  )

-- `with_target` lists the target with its level, and leaves the default level as it was.
pub iter-with_target :
    (target : List ℕ) (level : LevelFilter) (self : Targets)
    → In (target, level) (iter (with_target target level self))
      × (default_level (with_target target level self) ≡ default_level self)
unfolding default_level with_target iter
iter-with_target target level self =
    let (keep, listed) = place-with_target target level self.directives in (listed, keep)
