-- ===== src/Level/Compare.antt =====
-- tracing-core/src/metadata.rs: the four families of hand-written comparisons, which swap their
-- sides because the discriminants run backwards.
pub mod LevelLevel
pub mod LevelFilterPair
pub mod LevelWithFilter
pub mod FilterWithLevel
pub mod Verbosity
