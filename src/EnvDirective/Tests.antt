-- ===== src/EnvDirective/Tests.antt =====
-- Dynamic directives at concrete spans.
use tracing.Prelude.{◌≡◌, ◌⊎◌, false, [], ◌∷◌, map, none, some, codes, is_empty}
use tracing.Level.{info, debug, off}
use tracing.Metadata.{Metadata, span_bit}
use tracing.Directive.{DirectiveSet}
use tracing.FieldMatch.{u64}
use tracing.FieldMatch.Samples.{values}
use tracing.EnvDirective.{Directive, CallsiteMatcher, matcher}
use tracing.EnvDirective.Matcher.{caring, matcher-caring}

-- `[conn{peer=7}]=debug`
abbrev conn_peer : Directive values
conn_peer = record {
  in_span = some (codes "conn");
  fields = record { name = codes "peer"; value = some (u64 7) } ∷ [];
  target = none;
  level = some debug;
}

abbrev rules : DirectiveSet (Directive values)
rules = record { directives = conn_peer ∷ []; max_level = some debug }

abbrev conn : Metadata
conn = record {
  name = codes "conn";
  target = codes "net";
  level = info;
  module_path = none;
  file = none;
  line = none;
  fields = record { names = codes "addr" ∷ codes "peer" ∷ []; callsite = 5 };
  kind = span_bit;
}

matcher-caring_example :
    ((matcher rules conn ≡ none) × (caring conn rules.directives ≡ []))
    ⊎ ((m : CallsiteMatcher values) × (matcher rules conn ≡ some m)
        × (m.base_level ≡ off)
        × (is_empty (caring conn rules.directives) ≡ false)
        × (map (λ f. f.level) m.field_matches ≡ map (λ d. d.level) (caring conn rules.directives)))
matcher-caring_example = matcher-caring rules conn
