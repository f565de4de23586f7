-- ===== src/EnvFilter/Interests.antt =====
-- The interest that `register_callsite` returns, against what `enabled` answers later.
use tracing.Prelude.{
  ℕ, ◌≤◌, ◌<◌, ◌≡◌, ◌≢◌, refl, ◌⊎◌, inl, inr, Bool, true, false, not, ◌&&◌, List, [], ◌∷◌, Option,
  none, some, Bool-cases, Option-cases, arith, map, is_empty, filter, ap, ◌++◌, if◌then◌else◌,
  subst, sym, ◌∙◌, le-cases,
}
use tracing.Level.{Level, LevelFilter}
use tracing.Level.Compare.FilterWithLevel
use tracing.Level.Compare.Verbosity.{level_verbosity, verbosity, as_usize_sum, filter_as_usize_sum}
use tracing.Metadata.{Metadata, is_span}
use tracing.Interest.{Interest, always, is_never, is_always}
use tracing.Directive.Contents.{IsBounded, add-IsBounded}
use tracing.StaticDirective.{StaticDirective, statics, enabled}
use tracing.StaticDirective.Order.{cmp-IsWeakOrder}
use tracing.StaticDirective.Enabled.{enabled-IsBounded, from_iter-IsBounded}
use tracing.FieldMatch.{Values}
use tracing.EnvDirective.{
  Directive, CallsiteMatcher, matcher, make_tables, to_statics, is_dynamic, deregexify,
}
use tracing.EnvFilter.{
  EnvFilter, Builder, contains_key, register_callsite, matched_interest, static_interest,
  is_enabled, from_directives, add_directive, add_to, with_default, made, insert,
}
use tracing.EnvFilter.History.{Op, run, run-Follows, Follows}

pub verbosity-ge :
    (f : LevelFilter) (l : Level) → level_verbosity l ≤ verbosity f → FilterWithLevel.ge f l ≡ true
unfolding FilterWithLevel.ge
verbosity-ge f l h = ground (arith, filter_as_usize_sum f, as_usize_sum l)

module _ {v : Values} where
  -- The static directives are bounded by their maximum level.
  abbrev HasBound : EnvFilter v → Type 0
  HasBound f = IsBounded statics cmp-IsWeakOrder f.statics

  add_to-HasBound :
      (e : Directive v) (r : Option StaticDirective) (f : EnvFilter v)
      → HasBound f
      → HasBound (add_to e r f)
  unfolding add_to
  add_to-HasBound e none f b = b
  add_to-HasBound e (some stat) f b = add-IsBounded statics cmp-IsWeakOrder stat f.statics b

  add_directive-HasBound :
      (d : Directive v) (f : EnvFilter v) → HasBound f → HasBound (add_directive d f)
  unfolding add_directive
  add_directive-HasBound d f b = add_to-HasBound _ _ f b

  with_default-HasBound :
      (r : Option (Directive v)) (f : EnvFilter v) → HasBound f → HasBound (with_default r f)
  unfolding with_default
  with_default-HasBound none f b = b
  with_default-HasBound (some d) f b =
      elim (Bool-cases (not f.has_dynamics && is_empty f.statics.directives)) [
        | inl e ↦ rw e (add_directive-HasBound d f b)
        | inr e ↦ rw e b
      ]

  made-HasBound : (regex : Bool) (ds : List (Directive v)) → HasBound (made regex (make_tables ds))
  unfolding make_tables
  made-HasBound regex ds =
      from_iter-IsBounded
        (to_statics (filter (λ d. not (is_dynamic d)) ds) ++ to_statics (filter is_dynamic ds))

  from_directives-HasBound :
      (b : Builder v) (ds : List (Directive v)) → HasBound (from_directives b ds)
  unfolding from_directives
  from_directives-HasBound b ds =
      with_default-HasBound b.default_directive _
        (made-HasBound b.regex (if not b.regex then map deregexify ds else ds))

  enabled_by_statics :
      (g : EnvFilter v) (meta : Metadata) (thread : ℕ)
      → HasBound g
      → enabled g.statics meta ≡ true
      → is_enabled thread g meta ≡ true
  unfolding is_enabled
  enabled_by_statics g meta thread b h =
      let bounded =
        verbosity-ge g.statics.max_level meta.level (enabled-IsBounded g.statics meta b h) in
      ground (arith, bounded)

  enabled_by_callsite :
      (g : EnvFilter v) (meta : Metadata) (thread : ℕ)
      → g.has_dynamics ≡ true
      → level_verbosity meta.level ≤ verbosity g.dynamics.max_level
      → is_span meta.kind ≡ true
      → contains_key meta.fields.callsite g.by_cs ≡ true
      → is_enabled thread g meta ≡ true
  unfolding is_enabled
  enabled_by_callsite g meta thread d l s c =
      rw d (rw s (rw c (rw (verbosity-ge g.dynamics.max_level meta.level l) refl)))

  disabled_by_statics :
      (g : EnvFilter v) (meta : Metadata) (thread : ℕ)
      → g.has_dynamics ≡ false
      → enabled g.statics meta ≡ false
      → is_enabled thread g meta ≡ false
  unfolding is_enabled
  disabled_by_statics g meta thread d h = ground arith

  -- The two ways in which `register_callsite` answers.
  register_callsite-cases :
      (f : EnvFilter v) (meta : Metadata)
      → ((m : CallsiteMatcher v) × (f.has_dynamics ≡ true)
          × (is_span meta.kind ≡ true)
          × (matcher f.dynamics meta ≡ some m)
          × (register_callsite meta f
              ≡ (always, record f { by_cs = insert meta.fields.callsite m f.by_cs })))
        ⊎ (register_callsite meta f ≡ static_interest meta f)
  unfolding register_callsite
  register_callsite-cases f meta = elim (Bool-cases (f.has_dynamics && is_span meta.kind)) [
    | inl e ↦ elim (Option-cases (matcher f.dynamics meta)) [
      | inl n ↦ inr (rw e (ap (λ m. matched_interest meta m f) n))
      | inr (m, n) ↦
          inl (m, ground arith, ground arith, n, rw e (ap (λ r. matched_interest meta r f) n))
    ]
    | inr e ↦ inr (rw e refl)
  ]

  Follows-HasBound : (f g : EnvFilter v) → Follows f g → HasBound f → HasBound g
  Follows-HasBound f g k b = subst (λ s. IsBounded statics cmp-IsWeakOrder s) (sym k.same_statics) b

  matched-kept :
      (f g : EnvFilter v) (meta : Metadata) (m : CallsiteMatcher v) (thread : ℕ)
      → f.has_dynamics ≡ true
      → is_span meta.kind ≡ true
      → Follows (record f { by_cs = insert meta.fields.callsite m f.by_cs }) g
      → (is_enabled thread g meta ≡ true)
        ⊎ (verbosity f.dynamics.max_level < level_verbosity meta.level)
  matched-kept f g meta m thread d s k =
      elim (le-cases (level_verbosity meta.level) (verbosity f.dynamics.max_level)) [
        | inl l ↦ inl (
            enabled_by_callsite g meta thread (k.same_has ∙ d)
              (subst (λ x. level_verbosity meta.level ≤ verbosity x.max_level) (sym k.same_dynamics)
                l)
              s (k.knows meta.fields.callsite (ground arith)))
        | inr l ↦ inr l
      ]

  -- The answers to a callsite, at once and later.
  abbrev pub IsKept : EnvFilter v → EnvFilter v → Metadata → ℕ → Interest → Type 0
  IsKept f g meta thread interest =
      ((is_never interest && is_enabled thread g meta) ≡ false)
      × (((is_always interest && not (is_enabled thread g meta)) ≡ false)
          ⊎ ((is_span meta.kind ≡ true)
              × (matcher f.dynamics meta ≢ none)
              × (verbosity f.dynamics.max_level < level_verbosity meta.level)))

  register_callsite-IsKept :
      (f g : EnvFilter v) (meta : Metadata) (thread : ℕ)
      → HasBound f
      → Follows (register_callsite meta f).1 g
      → IsKept f g meta thread (register_callsite meta f).0
  unfolding static_interest
  register_callsite-IsKept f g meta thread b k = elim (register_callsite-cases f meta) [
    | inl (m, d, s, n, e) ↦ rw e (
      refl,
      elim (matched-kept f g meta m thread d s (subst (λ r. Follows r.1 g) e k)) [
        | inl h ↦ inl (rw h refl)
        | inr l ↦ inr (s, λ z. cc, l)
      ],
    )
    | inr e ↦
        let h : Follows f g = subst (λ r. Follows r.1 g) e k in
        rw e (elim (Bool-cases (enabled f.statics meta)) [
          | inl y ↦
              let z =
                enabled_by_statics g meta thread (Follows-HasBound f g h b)
                  (ap (λ s. enabled s meta) h.same_statics ∙ y) in
              (ground arith, inl (ground arith))
          | inr y ↦
              let w = disabled_by_statics g meta thread in
              let q = ap (λ s. enabled s meta) h.same_statics in
              (ground (arith, w, h.same_has, q), inl (ground arith))
        ])
  ]

  -- A filter that is built from directives, and to which further ones are added.
  unfoldable pub extended : List (Directive v) → EnvFilter v → EnvFilter v
  extended [] f = f
  extended (d ∷ ds) f = extended ds (add_directive d f)

  extended-HasBound :
      (ds : List (Directive v)) (f : EnvFilter v) → HasBound f → HasBound (extended ds f)
  unfolding extended
  extended-HasBound [] f b = b
  extended-HasBound (d ∷ ds) f b =
      extended-HasBound ds (add_directive d f) (add_directive-HasBound d f b)

  -- Such a filter, at some point of its use.
  abbrev pub reached :
      Builder v → List (Directive v) → List (Directive v) → List (Op v) → EnvFilter v
  reached b ds added ops = run ops (extended added (from_directives b ds))

  -- For a filter that a builder made of directives and to which `add_directive` added others, whatever
  -- happens before and after it registers a callsite: if the interest is `never`, then
  -- it disables the callsite. If it is `always`, then the filter enables the callsite, unless this is
  -- a span that a dynamic directive cares about and more verbose than all dynamic directives.
  pub register_callsite-IsKept_later :
      (b : Builder v) (ds added : List (Directive v)) (before after : List (Op v)) (meta : Metadata)
      (thread : ℕ)
      → IsKept
          (reached b ds added before)
          (run after (register_callsite meta (reached b ds added before)).1)
          meta
          thread
          (register_callsite meta (reached b ds added before)).0
  register_callsite-IsKept_later b ds added before after meta thread =
      register_callsite-IsKept (reached b ds added before) _ meta thread
        (Follows-HasBound (extended added (from_directives b ds)) _ (run-Follows before _)
          (extended-HasBound added _ (from_directives-HasBound b ds)))
        (run-Follows after _)
