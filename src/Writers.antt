-- ===== src/Writers.antt =====
-- tracing-subscriber/src/fmt/writer.rs: `MakeWriter` and its combinators, and the writers that they make.
-- A user's own writer is a numbered sink, of which the user's `MakeWriter` picks one; `io::sink` takes
-- everything. `BoxMakeWriter` is the writer that it boxes.
pub mod Reached
mod Tests
use tracing.Prelude.{ℕ, max, Bool, List, Option, none, some, if◌then◌else◌, length}
use tracing.Prelude.Result.{Result, ok, err}
use tracing.Level.{Level}
use tracing.Level.Compare.LevelLevel.{le, ge}
use tracing.Metadata.{Metadata}

-- `WithMaxLevel`, `WithMinLevel` and `WithFilter`, whose writer is an `OptionalWriter`; `Tee`, `OrElse`,
-- and the implementations for closures, `Mutex`, `Arc` and files.
mutual
  pub data OptionalMaker : Type 0 where
    with_max_level : MakeWriter → Level → OptionalMaker
    with_min_level : MakeWriter → Level → OptionalMaker
    with_filter : MakeWriter → (Metadata → Bool) → OptionalMaker

  pub data MakeWriter : Type 0 where
    custom : (Option Metadata → ℕ) → MakeWriter
    optional : OptionalMaker → MakeWriter
    and : MakeWriter → MakeWriter → MakeWriter
    or_else : OptionalMaker → MakeWriter → MakeWriter

-- `EitherWriter`, `Tee`, `io::sink()` and a user's writer
pub data Writer : Type 0 where
  user : ℕ → Writer
  null : Writer
  either_a : Writer → Writer
  either_b : Writer → Writer
  tee : Writer → Writer → Writer

-- `OptionalWriter` is `EitherWriter<T, Sink>`: `OptionalWriter::some` and `none`.
abbrev pub optional_writer : Option Writer → Writer
optional_writer none = either_b null
optional_writer (some w) = either_a w

-- The `match` of `OrElse`
abbrev pub or_writer : Option Writer → Writer → Writer
or_writer none other = either_b other
or_writer (some w) other = either_a w

-- `MakeWriter::make_writer`
unfoldable mutual
  pub make_optional : OptionalMaker → Option Writer
  make_optional (with_max_level make level) = none
  make_optional (with_min_level make level) = none
  make_optional (with_filter make filter) = some (make_writer make)

  pub make_writer : MakeWriter → Writer
  make_writer (custom pick) = user (pick none)
  make_writer (optional make) = optional_writer (make_optional make)
  make_writer (and a b) = tee (make_writer a) (make_writer b)
  make_writer (or_else inner other) = or_writer (make_optional inner) (make_writer other)

-- `MakeWriter::make_writer_for`
unfoldable mutual
  unfolding le ge

  pub make_optional_for : OptionalMaker → Metadata → Option Writer
  make_optional_for (with_max_level make level) meta =
      let w = make_writer_for make meta in if le meta.level level then some w else none
  make_optional_for (with_min_level make level) meta =
      let w = make_writer_for make meta in if ge meta.level level then some w else none
  make_optional_for (with_filter make filter) meta =
      let w = make_writer_for make meta in if filter meta then some w else none

  pub make_writer_for : MakeWriter → Metadata → Writer
  make_writer_for (custom pick) meta = user (pick (some meta))
  make_writer_for (optional make) meta = optional_writer (make_optional_for make meta)
  make_writer_for (and a b) meta = tee (make_writer_for a meta) (make_writer_for b meta)
  make_writer_for (or_else inner other) meta =
      or_writer (make_optional_for inner meta) (make_writer_for other meta)

-- The users' writers, with their state.
pub record Sinks : Type 1 where
  pub State : Type 0
  pub IoError : Type 0
  pub write : ℕ → List ℕ → State → Result IoError ℕ × State
  pub write_all : ℕ → List ℕ → State → Result IoError (Unit {0}) × State
  pub flush : ℕ → State → Result IoError (Unit {0}) × State

-- `(res_a?, res_b?)`: the error of `a` comes first.
abbrev pub both_counts : {E : Type 0} → Result E ℕ → Result E ℕ → Result E ℕ
both_counts (ok a) (ok b) = ok (max a b)
both_counts (ok a) (err e) = err e
both_counts (err e) r = err e

abbrev pub both : {E : Type 0} → Result E (Unit {0}) → Result E (Unit {0}) → Result E (Unit {0})
both (ok a) (ok b) = ok tt
both (ok a) (err e) = err e
both (err e) r = err e

module _ (sinks : Sinks) where
  open sinks use {State, IoError}

  -- `Write` for `EitherWriter` and `Tee`
  unfoldable pub write : Writer → List ℕ → State → Result IoError ℕ × State
  write (user i) buf s = sinks.write i buf s
  write null buf s = (ok (length buf), s)
  write (either_a a) buf s = write a buf s
  write (either_b b) buf s = write b buf s
  write (tee a b) buf s =
      let res_a = write a buf s in
      let res_b = write b buf res_a.1 in (both_counts res_a.0 res_b.0, res_b.1)

  unfoldable pub write_all : Writer → List ℕ → State → Result IoError (Unit {0}) × State
  write_all (user i) buf s = sinks.write_all i buf s
  write_all null buf s = (ok tt, s)
  write_all (either_a a) buf s = write_all a buf s
  write_all (either_b b) buf s = write_all b buf s
  write_all (tee a b) buf s =
      let res_a = write_all a buf s in
      let res_b = write_all b buf res_a.1 in (both res_a.0 res_b.0, res_b.1)

  unfoldable pub flush : Writer → State → Result IoError (Unit {0}) × State
  flush (user i) s = sinks.flush i s
  flush null s = (ok tt, s)
  flush (either_a a) s = flush a s
  flush (either_b b) s = flush b s
  flush (tee a b) s =
      let res_a = flush a s in let res_b = flush b res_a.1 in (both res_a.0 res_b.0, res_b.1)
