-- ===== src/Level.antt =====
-- tracing-core/src/metadata.rs: `Level` and `LevelFilter`, their integer representation, their
-- names, and the global maximum level.
pub mod Compare
pub mod Parse
pub mod Max
mod Tests
use tracing.Prelude.{ℕ, ◌+◌, List, codes, Option, none, some}

-- `enum LevelInner`, and `struct Level(LevelInner)` around it
pub data Level : Type 0 where
  trace debug info warn error : Level

-- `level as usize`: the discriminants
unfoldable pub as_usize : Level → ℕ
as_usize trace = 0
as_usize debug = 1
as_usize info = 2
as_usize warn = 3
as_usize error = 4

-- `struct LevelFilter(Option<Level>)`
abbrev pub LevelFilter : Type 0
LevelFilter = Option Level

abbrev pub off : LevelFilter
off = none

pub from_level : Level → LevelFilter
from_level l = some l

abbrev pub off_usize : ℕ
unfolding as_usize
off_usize = as_usize error + 1

unfoldable pub filter_as_usize : LevelFilter → ℕ
unfolding as_usize
filter_as_usize (some f) = as_usize f
filter_as_usize none = off_usize

-- `Level::as_str`, and `Display for Level`
unfoldable pub as_str : Level → List ℕ
as_str trace = codes "TRACE"
as_str debug = codes "DEBUG"
as_str info = codes "INFO"
as_str warn = codes "WARN"
as_str error = codes "ERROR"

-- `Display for LevelFilter`
unfoldable pub display : LevelFilter → List ℕ
display none = codes "off"
display (some error) = codes "error"
display (some warn) = codes "warn"
display (some info) = codes "info"
display (some debug) = codes "debug"
display (some trace) = codes "trace"
