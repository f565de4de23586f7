-- ===== src/Writers/Reached.antt =====
-- tracing-subscriber/src/fmt/writer.rs: which users' writers an event reaches.
use tracing.Prelude.{
  ℕ, ◌≡◌, refl, ap, ◌∙◌, Bool, true, false, List, [], ◌∷◌, ◌++◌, Option, none, some, leb,
  if◌then◌else◌, sym,
}
use tracing.Prelude.Result.{Result, ok, err}
use tracing.Level.{Level}
use tracing.Level.Compare.LevelLevel.{le, ge}
use tracing.Level.Compare.Verbosity.{level_verbosity, level_level-Agrees}
use tracing.Metadata.{Metadata}
use tracing.Writers.{
  OptionalMaker, with_max_level, with_min_level, with_filter, MakeWriter, custom, optional, and,
  or_else, Writer, user, null, either_a, either_b, tee, optional_writer, or_writer,
  make_optional_for, make_writer_for, Sinks, both, write_all, flush,
}

-- The users' writers behind a writer, in the order in which they are written.
unfoldable pub sinks_of : Writer → List ℕ
sinks_of (user i) = i ∷ []
sinks_of null = []
sinks_of (either_a a) = sinks_of a
sinks_of (either_b b) = sinks_of b
sinks_of (tee a b) = sinks_of a ++ sinks_of b

-- Whether an optional writer takes the metadata, by the numbers from 1 for `error` up to 5 for `trace`.
abbrev pub takes : OptionalMaker → Metadata → Bool
takes (with_max_level make level) meta = leb (level_verbosity meta.level) (level_verbosity level)
takes (with_min_level make level) meta = leb (level_verbosity level) (level_verbosity meta.level)
takes (with_filter make filter) meta = filter meta

-- The sinks that the metadata is to reach: those of both for `and`, those of the other for `or_else` if
-- the first does not take it, and none behind a test that does not take it.
unfoldable mutual
  pub reached_inside : OptionalMaker → Metadata → List ℕ
  reached_inside (with_max_level make level) meta = reached make meta
  reached_inside (with_min_level make level) meta = reached make meta
  reached_inside (with_filter make filter) meta = reached make meta

  pub reached : MakeWriter → Metadata → List ℕ
  reached (custom pick) meta = pick (some meta) ∷ []
  reached (optional make) meta =
      let inside = reached_inside make meta in if takes make meta then inside else []
  reached (and a b) meta = reached a meta ++ reached b meta
  reached (or_else inner other) meta =
      let inside = reached_inside inner meta in
      let outside = reached other meta in if takes inner meta then inside else outside

module _ (sinks : Sinks) where
  open sinks use {State, IoError}

  -- Each sink in turn, the later ones after an error too; the first error is the result.
  unfoldable pub each :
      (ℕ → State → Result IoError (Unit {0}) × State)
      → List ℕ
      → State
      → Result IoError (Unit {0}) × State
  each f [] s = (ok tt, s)
  each f (i ∷ is) s = let r = f i s in let rest = each f is r.1 in (both r.0 rest.0, rest.1)

  both_assoc : (a b c : Result IoError (Unit {0})) → both (both a b) c ≡ both a (both b c)
  both_assoc (ok a) (ok b) (ok c) = refl
  both_assoc (ok a) (ok b) (err e) = refl
  both_assoc (ok a) (err e) c = refl
  both_assoc (err e) b c = refl

  both_ok : (a : Result IoError (Unit {0})) → both (ok tt) a ≡ a
  both_ok (ok tt) = refl
  both_ok (err e) = refl

  ok_both : (a : Result IoError (Unit {0})) → both a (ok tt) ≡ a
  ok_both (ok tt) = refl
  ok_both (err e) = refl

  each-append :
      (f : ℕ → State → Result IoError (Unit {0}) × State) (is js : List ℕ) (s : State)
      → each f (is ++ js) s
        ≡ (both (each f is s).0 (each f js (each f is s).1).0, (each f js (each f is s).1).1)
  unfolding each
  each-append f [] js s = ap (λ r. (r, (each f js s).1)) (sym (both_ok (each f js s).0))
  each-append f (i ∷ is) js s = rw (each-append f is js (f i s).1) (
      ap (λ r. (r, (each f js (each f is (f i s).1).1).1))
        (sym (both_assoc (f i s).0 (each f is (f i s).1).0 _)))

  write_all-sinks :
      (w : Writer) (buf : List ℕ) (s : State)
      → write_all sinks w buf s ≡ each (λ i. sinks.write_all i buf) (sinks_of w) s
  unfolding write_all sinks_of each
  write_all-sinks (user i) buf s =
      ap (λ r. (r, (sinks.write_all i buf s).1)) (sym (ok_both (sinks.write_all i buf s).0))
  write_all-sinks null buf s = refl
  write_all-sinks (either_a a) buf s = write_all-sinks a buf s
  write_all-sinks (either_b b) buf s = write_all-sinks b buf s
  write_all-sinks (tee a b) buf s =
      rw (write_all-sinks a buf s, write_all-sinks b buf _)
        (sym (each-append (λ i. sinks.write_all i buf) (sinks_of a) (sinks_of b) s))

  flush-sinks : (w : Writer) (s : State) → flush sinks w s ≡ each sinks.flush (sinks_of w) s
  unfolding flush sinks_of each
  flush-sinks (user i) s = ap (λ r. (r, (sinks.flush i s).1)) (sym (ok_both (sinks.flush i s).0))
  flush-sinks null s = refl
  flush-sinks (either_a a) s = flush-sinks a s
  flush-sinks (either_b b) s = flush-sinks b s
  flush-sinks (tee a b) s =
      rw (flush-sinks a s, flush-sinks b _)
        (sym (each-append sinks.flush (sinks_of a) (sinks_of b) s))

le_level : (l m : Level) → le l m ≡ leb (level_verbosity l) (level_verbosity m)
le_level l m = (level_level-Agrees l m).on_le

ge_level : (l m : Level) → ge l m ≡ leb (level_verbosity m) (level_verbosity l)
ge_level l m = (level_level-Agrees l m).on_ge

-- What an optional writer makes, and what it leaves to another.
abbrev InsideOf : Bool → Option Writer → List ℕ → Type 0
InsideOf t o is =
    (sinks_of (optional_writer o) ≡ (if t then is else []))
    × ((w : Writer) → sinks_of (or_writer o w) ≡ (if t then is else sinks_of w))

inside_if :
    (t : Bool) (w : Writer) (is : List ℕ)
    → sinks_of w ≡ is
    → InsideOf t (if t then some w else none) is
unfolding sinks_of
inside_if true w is e = (e, λ v. e)
inside_if false w is e = (refl, λ v. refl)

mutual
  unfolding make_optional_for make_writer_for reached_inside reached sinks_of

  optional-reached :
      (make : OptionalMaker) (meta : Metadata)
      → InsideOf (takes make meta) (make_optional_for make meta) (reached_inside make meta)
  optional-reached (with_max_level make level) meta =
      rw (le_level meta.level level) (inside_if _ _ _ (sinks_of-reached make meta))
  optional-reached (with_min_level make level) meta =
      rw (ge_level meta.level level) (inside_if _ _ _ (sinks_of-reached make meta))
  optional-reached (with_filter make filter) meta = inside_if _ _ _ (sinks_of-reached make meta)

  sinks_of-reached :
      (make : MakeWriter) (meta : Metadata)
      → sinks_of (make_writer_for make meta) ≡ reached make meta
  sinks_of-reached (custom pick) meta = refl
  sinks_of-reached (optional make) meta = (optional-reached make meta).0
  sinks_of-reached (and a b) meta = rw (sinks_of-reached a meta, sinks_of-reached b meta) refl
  sinks_of-reached (or_else inner other) meta =
      (optional-reached inner meta).1 (make_writer_for other meta)
      ∙ ap (λ is. if takes inner meta then reached_inside inner meta else is)
          (sinks_of-reached other meta)

-- Writing to, and flushing, the writer that any combination of makers gives for some metadata comes to
-- the same for each user's writer that the metadata is to reach, in their order: the later ones are
-- written after an error of an earlier one too, and the first error is the result.
pub make_writer_for-reached :
    (sinks : Sinks) (make : MakeWriter) (meta : Metadata) (buf : List ℕ) (s : sinks.State)
    → (write_all sinks (make_writer_for make meta) buf s
        ≡ each sinks (λ i. sinks.write_all i buf) (reached make meta) s)
      × (flush sinks (make_writer_for make meta) s ≡ each sinks sinks.flush (reached make meta) s)
make_writer_for-reached sinks make meta buf s =
    let w = make_writer_for make meta in
    let e = sinks_of-reached make meta in
    (
      write_all-sinks sinks w buf s ∙ ap (λ is. each sinks (λ i. sinks.write_all i buf) is s) e,
      flush-sinks sinks w s ∙ ap (λ is. each sinks sinks.flush is s) e,
    )
