-- ===== src/StaticDirective/Tests.antt =====
-- The theorems on sets of directives at concrete inputs.
use tracing.Prelude.{◌≡◌, refl, inl, inr, ◌⊎◌, ◌↔◌, true, List, [], ◌∷◌, none, some, codes, In}
use tracing.Level.{debug, info, warn}
use tracing.Level.Compare.FilterWithLevel
use tracing.Metadata.{Metadata, span_bit}
use tracing.Directive.{from_iter, add, binary_search}
use tracing.Directive.Sorted.{Searched, binary_search-Searched}
use tracing.Directive.Contents.{Last, In-from_iter}
use tracing.StaticDirective.{StaticDirective, statics, cmp, cares_about, enabled}
use tracing.StaticDirective.Order.{cmp-IsWeakOrder}
use tracing.StaticDirective.Enabled.{IsMoreSpecific, enabled_by_most_specific}

abbrev app_warn : StaticDirective
app_warn = record { target = some (codes "app"); field_names = []; level = some warn }

abbrev app_db_debug : StaticDirective
app_db_debug = record { target = some (codes "app::db"); field_names = []; level = some debug }

abbrev all_info : StaticDirective
all_info = record { target = none; field_names = []; level = some info }

abbrev directives : List StaticDirective
directives = all_info ∷ app_db_debug ∷ app_warn ∷ []

-- A span of the program's database module.
abbrev query : Metadata
query = record {
  name = codes "query";
  target = codes "app::db";
  level = debug;
  module_path = none;
  file = none;
  line = none;
  fields = record { names = codes "sql" ∷ []; callsite = 0 };
  kind = span_bit;
}

binary_search-Searched_example :
    Searched statics cmp-IsWeakOrder
      (app_db_debug ∷ all_info ∷ [])
      app_warn
      (binary_search statics (app_db_debug ∷ all_info ∷ []) app_warn)
unfolding cmp
binary_search-Searched_example =
    binary_search-Searched statics cmp-IsWeakOrder (app_db_debug ∷ all_info ∷ []) app_warn
      ((refl, tt), (tt, tt))

In-from_iter_example :
    In app_warn (from_iter statics directives).directives
    ↔ Last statics cmp-IsWeakOrder app_warn directives
In-from_iter_example = In-from_iter statics cmp-IsWeakOrder directives app_warn

enabled_by_most_specific_example :
    (d : StaticDirective) × In d (from_iter statics directives).directives
    × (cares_about d query ≡ true)
    × ((app_warn ≡ d) ⊎ IsMoreSpecific d app_warn)
    × (enabled (from_iter statics directives) query ≡ FilterWithLevel.ge d.level query.level)
unfolding from_iter cares_about cmp add tracing.Metadata.is_event
enabled_by_most_specific_example =
    enabled_by_most_specific directives query app_warn (inr (inl refl)) refl
