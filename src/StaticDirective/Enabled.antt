-- ===== src/StaticDirective/Enabled.antt =====
-- What a set of static directives enables.
use Prim.Native.Nat.Ordering.{lt}
use tracing.Prelude.{
  ◌≤◌, ◌<◌, ◌≡◌, refl, ap, sym, ◌⊎◌, inl, inr, length, true, List, [], ◌∷◌, Option, none, some, All,
  In, In-All, is_empty, arith,
}
use tracing.Level.{Level, LevelFilter}
use tracing.Level.Compare.Verbosity.{level_verbosity, verbosity, as_usize_sum, filter_as_usize_sum}
use tracing.Level.Compare.FilterWithLevel
use tracing.Metadata.{Metadata}
use tracing.Directive.{DirectiveSet, empty, first, directive_for, from_iter}
use tracing.Directive.Contents.{IsBounded, extend-IsBounded}
use tracing.Directive.Selected.{directive_for-from_iter, first-some}
use tracing.StaticDirective.{
  StaticDirective, cmp, statics, cares_about, cares_about_target, decide, enabled, target_enabled,
}
use tracing.StaticDirective.Order.{cmp-IsWeakOrder, cmp-specific, target_rank}

-- `d` stands before `e`, and its target is longer, or is as long with no fewer fields: a directive
-- without a target is below all that have one.
abbrev pub IsMoreSpecific : StaticDirective → StaticDirective → Type 0
IsMoreSpecific d e =
    (cmp d e ≡ lt)
    × ((target_rank e < target_rank d)
        ⊎ ((target_rank e ≡ target_rank d) × (length e.field_names ≤ length d.field_names)))

of_lt : (d e : StaticDirective) → cmp d e ≡ lt → IsMoreSpecific d e
of_lt d e l = (l, elim (cmp-specific d e).1 [ inl n ↦ absurd (n l) | inr h ↦ h ])

-- In a set built from a sequence, if any directive `e` cares about some metadata, then one that
-- does decides: the metadata is enabled exactly if its level passes that one's level. It is `e`, or
-- it stands before `e` in the order and is more specific: its target is longer, or as long with no
-- fewer field names.
pub enabled_by_most_specific :
    (ds : List StaticDirective) (meta : Metadata) (e : StaticDirective)
    → In e (from_iter statics ds).directives
    → cares_about e meta ≡ true
    → (d : StaticDirective) × In d (from_iter statics ds).directives
      × (cares_about d meta ≡ true)
      × ((e ≡ d) ⊎ IsMoreSpecific d e)
      × (enabled (from_iter statics ds) meta ≡ FilterWithLevel.ge d.level meta.level)
unfolding enabled
enabled_by_most_specific ds meta e m p =
    let (d, f, i, c, q) = directive_for-from_iter statics cmp-IsWeakOrder ds meta e m p in
    (d, i, c, before q, ap (decide meta.level) f)
  where
    before : {d : StaticDirective} → (e ≡ d) ⊎ (cmp d e ≡ lt) → (e ≡ d) ⊎ IsMoreSpecific d e
    before (inl s) = inl s
    before {d} (inr l) = inr (of_lt d e l)

pub from_iter-IsBounded :
    (ds : List StaticDirective) → IsBounded statics cmp-IsWeakOrder (from_iter statics ds)
unfolding from_iter
from_iter-IsBounded ds = extend-IsBounded statics cmp-IsWeakOrder ds empty tt

decide_bounded :
    (level : Level) (r : Option StaticDirective) (max : LevelFilter)
    → ((d : StaticDirective) → r ≡ some d → verbosity d.level ≤ verbosity max)
    → decide level r ≡ true
    → level_verbosity level ≤ verbosity max
unfolding FilterWithLevel.ge
decide_bounded level none max b h = cc
decide_bounded level (some d) max b h =
    ground (arith, b d refl, as_usize_sum level, filter_as_usize_sum d.level)

pub enabled-IsBounded :
    (set : DirectiveSet StaticDirective) (meta : Metadata)
    → IsBounded statics cmp-IsWeakOrder set
    → enabled set meta ≡ true
    → level_verbosity meta.level ≤ verbosity set.max_level
unfolding enabled directive_for
enabled-IsBounded set meta b h = decide_bounded meta.level _ set.max_level bound h
  where
    bound :
        (d : StaticDirective)
        → first statics (λ e. cares_about e meta) set.directives ≡ some d
        → verbosity d.level ≤ verbosity set.max_level
    bound d e =
        In-All (λ x. verbosity x.level ≤ verbosity set.max_level) d set.directives
          (first-some statics _ _ d e).0 b

-- The metadata that a set built from a sequence enables is not more verbose than its `max_level`.
pub enabled-le-max_level :
    (ds : List StaticDirective) (meta : Metadata)
    → enabled (from_iter statics ds) meta ≡ true
    → level_verbosity meta.level ≤ verbosity (from_iter statics ds).max_level
enabled-le-max_level ds meta h =
    enabled-IsBounded (from_iter statics ds) meta (from_iter-IsBounded ds) h

-- Without field names the two tests of a directive agree on its target.
cares_about-target :
    (d : StaticDirective) (meta : Metadata)
    → is_empty d.field_names ≡ true
    → cares_about d meta ≡ cares_about_target d meta.target
unfolding cares_about cares_about_target
cares_about-target d meta h = ground arith

first-target :
    (xs : List StaticDirective) (meta : Metadata)
    → All (λ d. is_empty d.field_names ≡ true) xs
    → first statics (λ d. cares_about d meta) xs
      ≡ first statics (λ d. cares_about_target d meta.target) xs
unfolding first
first-target [] meta h = refl
first-target (x ∷ xs) meta h = ground (arith, cares_about-target x meta, first-target xs meta h.1)

-- Where no directive names fields, `target_enabled` says of a target and a level what `enabled`
-- says of any metadata that has them.
pub target_enabled-eq :
    (self : DirectiveSet StaticDirective) (meta : Metadata)
    → All (λ d. is_empty d.field_names ≡ true) self.directives
    → target_enabled self meta.target meta.level ≡ enabled self meta
unfolding target_enabled enabled directive_for
target_enabled-eq self meta h = ap (decide meta.level) (sym (first-target self.directives meta h))
