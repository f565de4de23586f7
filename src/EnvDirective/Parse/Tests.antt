-- ===== src/EnvDirective/Parse/Tests.antt =====
-- Directives read from concrete texts.
use tracing.Prelude.{◌≡◌, refl, true, List, [], ◌∷◌, none, some, codes}
use tracing.Prelude.Result.{ok, err}
use tracing.Level.{debug, trace}
use tracing.FieldMatch.Samples.{values}
use tracing.EnvDirective.{Directive}
use tracing.EnvDirective.Display.{display_directive}
use tracing.EnvDirective.Parse.{parse, parse_all, other, bad_level}
use tracing.EnvDirective.Parse.RoundTrip.{directive, parse-display_directive}

-- White space before a level makes a target of it.
leading_space :
    parse {v = values} (codes " info") true
    ≡ ok (directive {v = values} (λ m. []) none [] (some (codes " info")) (some trace))
unfolding parse tracing.Prelude.eq_ignore_ascii_case tracing.Prelude.to_ascii_lowercase
leading_space = refl

-- White space after a level is an error.
trailing_space : parse {v = values} (codes "db=info ") true ≡ err bad_level
unfolding parse tracing.Prelude.eq_ignore_ascii_case tracing.Prelude.to_ascii_lowercase
trailing_space = refl

-- A list of fields is split at its commas before it is read.
split_fields : parse_all {v = values} true (codes "db[{sql,rows}]=info") ≡ err other
unfolding parse_all
split_fields = refl

-- `db::pool[query{sql,rows}]=debug`
abbrev query : Directive values
query =
    directive {v = values} (λ m. []) (some (codes "query")) (codes "sql" ∷ codes "rows" ∷ [])
      (some (codes "db::pool")) (some debug)

parse-display_directive_example : parse (display_directive (λ m. []) query) true ≡ ok query
unfolding tracing.EnvDirective.Parse.may_start
parse-display_directive_example =
    parse-display_directive (λ m. []) (some (codes "query")) (some (codes "db::pool"))
      (codes "sql" ∷ codes "rows" ∷ []) (some debug) true refl refl refl
