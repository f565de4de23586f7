-- ===== src/Writers/Tests.antt =====
-- Errors to one sink, the rest to a file, and all to a sink that fails.
use tracing.Prelude.{ℕ, ◌==◌, ◌≡◌, refl, List, [], ◌∷◌, ◌++◌, none, length, codes, if◌then◌else◌}
use tracing.Prelude.Result.{Result, ok, err}
use tracing.Level.{Level, error, warn, info}
use tracing.Metadata.{Metadata}
use tracing.Writers.{
  MakeWriter, custom, optional, with_max_level, and, or_else, Sinks, make_writer_for, write_all,
  write, flush, tee, user,
}
use tracing.Writers.Reached.{reached, reached_inside, each, make_writer_for-reached}

-- The state lists what was written, with its sink. The sink 7 fails, and 8 takes one byte at a time.
unfoldable counted : ℕ → List ℕ → Result ℕ ℕ
counted i buf = if i == 8 then ok 1 else ok (length buf)

unfoldable done : ℕ → Result ℕ (Unit {0})
done i = if i == 7 then err 7 else ok tt

abbrev log : Sinks
log = record {
  State = List (ℕ × List ℕ);
  IoError = ℕ;
  write = λ i buf s. (counted i buf, s ++ ((i, buf) ∷ []));
  write_all = λ i buf s. (done i, s ++ ((i, buf) ∷ []));
  flush = λ i s. (done i, s);
}

abbrev at_level : Level → Metadata
at_level level = record {
  name = codes "event";
  target = codes "app";
  level = level;
  module_path = none;
  file = none;
  line = none;
  fields = record { names = []; callsite = 1 };
  kind = 1;
}

abbrev sink_at : ℕ → MakeWriter
sink_at i = custom (λ meta. i)

abbrev makers : MakeWriter
makers =
    and (sink_at 7)
      (or_else (with_max_level (sink_at 1) error) (optional (with_max_level (sink_at 2) warn)))

levels_reached :
    (reached makers (at_level error) ≡ 7 ∷ 1 ∷ [])
    × (reached makers (at_level warn) ≡ 7 ∷ 2 ∷ [])
    × (reached makers (at_level info) ≡ 7 ∷ [])
unfolding reached reached_inside
levels_reached = (refl, refl, refl)

-- `Tee` reports the greater of the two counts, although the sink 8 took one byte only.
partial_write :
    write log (tee (user 1) (user 8)) (codes "abc") []
    ≡ (ok 3, (1, codes "abc") ∷ (8, codes "abc") ∷ [])
unfolding write counted
partial_write = refl

make_writer_for-reached_example :
    (write_all log (make_writer_for makers (at_level warn)) (codes "x") []
      ≡ each log (λ i buf. log.write_all i (codes "x") buf) (reached makers (at_level warn)) [])
    × (flush log (make_writer_for makers (at_level warn)) []
        ≡ each log log.flush (reached makers (at_level warn)) [])
make_writer_for-reached_example = make_writer_for-reached log makers (at_level warn) (codes "x") []
