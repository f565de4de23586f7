-- ===== src/StaticDirective/Text/SetRoundTrip.antt =====
-- The same for a whole `Targets` filter.
use tracing.Prelude.{
  ℕ, ◌≡◌, refl, ap, ◌∙◌, Bool, true, false, ◌&&◌, List, [], ◌∷◌, ◌++◌, Option, none, some, is_empty,
  all, leb, length, arith, map,
}
use tracing.Prelude.Split.{lacks, split_on, split_on-lacks, split_on-append, lacks-append}
use tracing.Prelude.Result.{ok, ◌>>=◌, map_collect}
use tracing.Level.{LevelFilter, display}
use tracing.Directive.{DirectiveSet, from_iter}
use tracing.Directive.Sorted.{IsSorted}
use tracing.Directive.Rebuild.{from_iter-sorted}
use tracing.StaticDirective.{StaticDirective, statics}
use tracing.StaticDirective.Text.{
  display_directive, directive_from_str, display_list, display_targets, targets_from_str,
}
use tracing.StaticDirective.Text.RoundTrip.{
  is_printable, is_target, is_field, lacks-display, directive_from_str-display_directive,
}

-- A directive whose text has no comma.
abbrev pub is_listed : StaticDirective → Bool
is_listed d = is_printable d && leb (length d.field_names) 1

lacks-some :
    (target : List ℕ) (names : List (List ℕ)) (level : LevelFilter)
    → is_target target ≡ true
    → all is_field names ≡ true
    → leb (length names) 1 ≡ true
    → lacks b','
        (display_directive (record { target = some target; field_names = names; level = level }))
      ≡ true
unfolding display_directive
lacks-some target [] level h k l =
    lacks-append b',' target (b'=' ∷ display level) (ground arith)
      (ground (arith, lacks-display level))
lacks-some target (name ∷ []) level h k l = lacks-append b',' target _ (ground arith) (
    lacks-append b',' (b'[' ∷ b'{' ∷ (name ++ (b'}' ∷ b']' ∷ []))) (b'=' ∷ display level)
      (ground (arith, lacks-append b',' name (b'}' ∷ b']' ∷ [])))
      (ground (arith, lacks-display level)))
lacks-some target (name ∷ another ∷ names) level h k l = ground arith

lacks-display_directive :
    (d : StaticDirective) → is_listed d ≡ true → lacks b',' (display_directive d) ≡ true
lacks-display_directive d h = by_target d.target d.field_names h
  where
    by_target :
        (target : Option (List ℕ)) (names : List (List ℕ))
        → is_listed (record { target = target; field_names = names; level = d.level }) ≡ true
        → lacks b','
            (display_directive (record { target = target; field_names = names; level = d.level }))
          ≡ true
    by_target none [] k = unfold display_directive in ground (arith, lacks-display d.level)
    by_target none (name ∷ names) k = ground arith
    by_target (some target) names k =
        lacks-some target names d.level (ground arith) (ground arith) (ground arith)

split_on-display_list :
    (d : StaticDirective) (ds : List StaticDirective)
    → all is_listed (d ∷ ds) ≡ true
    → split_on b',' (display_list (d ∷ ds)) ≡ map display_directive (d ∷ ds)
split_on-display_list d [] h =
    split_on-lacks b',' (display_directive d) (lacks-display_directive d (ground arith))
split_on-display_list d (e ∷ ds) h =
    split_on-append b',' (display_directive d) (display_list (e ∷ ds))
      (lacks-display_directive d (ground arith))
    ∙ ap (λ pieces. display_directive d ∷ pieces) (split_on-display_list e ds (ground arith))

map_collect-display :
    (ds : List StaticDirective)
    → all is_listed ds ≡ true
    → map_collect directive_from_str (map display_directive ds) ≡ ok ds
map_collect-display [] h = refl
map_collect-display (d ∷ ds) h =
    ap
      (λ r.
        r >>= λ y. map_collect directive_from_str (map display_directive ds) >>= λ ys. ok (y ∷ ys))
      (directive_from_str-display_directive d (ground arith))
    ∙ ap (λ r. r >>= λ ys. ok (d ∷ ys)) (map_collect-display ds (ground arith))

collected :
    (ds : List StaticDirective)
    → is_empty ds ≡ false
    → all is_listed ds ≡ true
    → map_collect directive_from_str (split_on b',' (display_list ds)) ≡ ok ds
collected [] e h = ground arith
collected (d ∷ ds) e h =
    ap (map_collect directive_from_str) (split_on-display_list d ds h)
    ∙ map_collect-display (d ∷ ds) h

-- A `Targets` filter that has some directive, each with at most one field name and without separating
-- bytes in its texts, is printed to a text that parses to a filter with the same directives.
pub targets_from_str-display_targets :
    (self : DirectiveSet StaticDirective)
    → IsSorted statics self.directives
    → is_empty self.directives ≡ false
    → all is_listed self.directives ≡ true
    → (parsed : DirectiveSet StaticDirective) × (targets_from_str (display_targets self)
        ≡ ok parsed)
      × (parsed.directives ≡ self.directives)
unfolding targets_from_str display_targets
targets_from_str-display_targets self s e h = (
  from_iter statics self.directives,
  ap (λ r. r >>= λ ds. ok (from_iter statics ds)) (collected self.directives e h),
  from_iter-sorted statics self.directives s,
)
