-- ===== src/Level/Tests.antt =====
-- The theorems on levels at concrete inputs.
use tracing.Prelude.{◌≡◌, ◌↔◌, some, codes}
use tracing.Level.{info}
use tracing.Level.Parse.{filter_from_str}
use tracing.Level.Parse.Laws.{Names, filter_from_str_iff}

filter_from_str_iff_example :
    (filter_from_str (codes "Info") ≡ some (some info)) ↔ Names (codes "Info") (some info)
filter_from_str_iff_example = filter_from_str_iff (codes "Info") (some info)
