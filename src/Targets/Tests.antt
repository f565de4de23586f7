-- ===== src/Targets/Tests.antt =====
-- The theorems on `Targets` at concrete inputs.
use tracing.Prelude.{[], ◌∷◌, none, some, codes}
use tracing.Level.{warn, error}
use tracing.Metadata.{Metadata, event_bit}
use tracing.Directive.{from_iter}
use tracing.StaticDirective.{StaticDirective, statics}
use tracing.Callsite.Delivery.{IsLawful}
use tracing.Targets.{Targets, targets_dispatch}
use tracing.Targets.Laws.{targets-IsLawful}

abbrev app_warn : StaticDirective
app_warn = record { target = some (codes "app"); field_names = []; level = some warn }

abbrev app_only : Targets
app_only = record { directives = app_warn ∷ []; max_level = some warn }

abbrev request : Metadata
request = record {
  name = codes "request";
  target = codes "app::http";
  level = error;
  module_path = none;
  file = none;
  line = none;
  fields = record { names = []; callsite = 0 };
  kind = event_bit;
}

targets-IsLawful_example :
    IsLawful (targets_dispatch (from_iter statics (app_warn ∷ []))) request request.level
targets-IsLawful_example = targets-IsLawful (app_warn ∷ []) request
