-- ===== src/FieldMatch/Span/Tests.antt =====
-- Matching at concrete values.
use tracing.Prelude.{◌≡◌, refl, true, List, [], ◌∷◌, codes, starts_with, all, some}
use tracing.Level.{info}
use tracing.FieldMatch.{u64, bool}
use tracing.FieldMatch.Samples.{values}
use tracing.FieldMatch.Span.{
  debug_matches, CallsiteMatch, to_span_match, is_matched, u64_value, bool_value, matches,
}
use tracing.FieldMatch.Span.Prefix.{debug_matches-prefix, concat}
use tracing.FieldMatch.Span.Matched.{Op, record_update, ask, run, recorded, is_hit, is_matched-run}

-- A pattern accepts a text that it only starts with.
accepts_shorter : debug_matches (codes "Answer(42)") (codes "Answer" ∷ []) ≡ true
unfolding debug_matches
accepts_shorter = refl

debug_matches-prefix_example :
    debug_matches (codes "Answer(42)") (codes "Answer" ∷ codes "(4" ∷ [])
    ≡ starts_with (codes "Answer(42)") (concat (codes "Answer" ∷ codes "(4" ∷ []))
debug_matches-prefix_example =
    debug_matches-prefix (codes "Answer(42)") (codes "Answer" ∷ codes "(4" ∷ [])

abbrev wanted : CallsiteMatch values
wanted = record { fields = (0, u64 7) ∷ (2, bool true) ∷ []; level = some info }

abbrev ops : List (Op values)
ops =
    record_update ((0, u64_value 7) ∷ [])
    ∷ ask
    ∷ record_update ((2, bool_value true) ∷ (0, u64_value 8) ∷ [])
    ∷ ask
    ∷ []

matched : all (is_hit (recorded ops [])) wanted.fields ≡ true
unfolding is_hit matches
matched = refl

is_matched-run_example :
    (is_matched (run ops (to_span_match wanted))).0 ≡ all (is_hit (recorded ops [])) wanted.fields
is_matched-run_example = is_matched-run wanted ops
