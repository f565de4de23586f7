-- ===== src/StaticDirective/Text/Tests.antt =====
-- The round trips at concrete directives, and what texts are refused or read in another way.
use tracing.Prelude.{◌≡◌, refl, List, [], ◌∷◌, Option, none, some, codes}
use tracing.Prelude.Result.{ok, err}
use tracing.Level.{info, warn, debug, trace, error}
use tracing.Directive.{DirectiveSet}
use tracing.StaticDirective.{StaticDirective, cmp}
use tracing.StaticDirective.Text.{
  display_directive, directive_from_str, display_targets, targets_from_str, too_many_equals,
}
use tracing.StaticDirective.Text.SetRoundTrip.{targets_from_str-display_targets}

-- `db[{sql,rows}]=debug`
abbrev db_debug : StaticDirective
db_debug = record {
  target = some (codes "db");
  field_names = codes "sql" ∷ codes "rows" ∷ [];
  level = some debug;
}

abbrev http_warn : StaticDirective
http_warn = record { target = some (codes "http"); field_names = []; level = some warn }

abbrev all_info : StaticDirective
all_info = record { target = none; field_names = []; level = some info }

abbrev filter : DirectiveSet StaticDirective
filter = record { directives = http_warn ∷ all_info ∷ []; max_level = some info }

printed : display_directive db_debug ≡ codes "db[{sql,rows}]=debug"
unfolding display_directive
printed = refl

refused : directive_from_str (codes "a=b=c") ≡ err too_many_equals
unfolding directive_from_str
refused = refl

-- The comma between two field names splits a directive of `Targets` in two.
split_fields :
    targets_from_str (codes "db[{sql,rows}]=debug")
    ≡ ok (record {
      directives =
          record { target = some (codes "db[{sql"); field_names = []; level = some trace }
          ∷ record { target = some (codes "rows}]"); field_names = []; level = some debug }
          ∷ [];
      max_level = some trace;
    })
unfolding targets_from_str directive_from_str tracing.Level.Parse.filter_from_str cmp
    tracing.Directive.add tracing.Prelude.parse_usize tracing.Prelude.eq_ignore_ascii_case
    tracing.Prelude.to_ascii_lowercase
split_fields = refl

-- The text of a filter without directives is the level `error` for all targets.
empty_text :
    targets_from_str (display_targets (record { directives = []; max_level = none }))
    ≡ ok (record {
      directives = record { target = none; field_names = []; level = some error } ∷ [];
      max_level = some error;
    })
unfolding targets_from_str display_targets directive_from_str tracing.Directive.add
    tracing.Prelude.parse_usize
empty_text = refl

targets_from_str-display_targets_example :
    (parsed : DirectiveSet StaticDirective) × (targets_from_str (display_targets filter)
      ≡ ok parsed)
    × (parsed.directives ≡ http_warn ∷ all_info ∷ [])
unfolding cmp
targets_from_str-display_targets_example =
    targets_from_str-display_targets filter ((refl, tt), (tt, tt)) refl refl
