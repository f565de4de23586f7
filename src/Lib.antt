-- ===== src/Lib.antt =====
-- The crates `tracing`, `tracing-core`, `tracing-subscriber` and `tracing-appender`: how an event or a span is
-- let through from the macro that makes it to the filters that decide, which dispatcher it reaches,
-- how spans live, and where the output goes.
--
-- A macro's callsite caches an `Interest`, which `tracing-core/src/callsite.rs` computes from what
-- every dispatcher answers; the global maximum `LevelFilter` is computed from their hints. The test
-- that `event!` makes reads both before it asks the dispatcher. `tracing-subscriber` builds the
-- answers: `Targets` and `EnvFilter` decide by ordered sets of directives, which they read from
-- texts, the `Filter` combinators put filters together, and a registry holds the spans that are
-- open and the stack of those that are entered. `tracing`'s `Span` is the handle to one of them. A
-- reload replaces a layer or a filter and has the interests computed again. A `MakeWriter` picks the
-- writers of a line, of which `tracing-appender` has one that rotates files and one that hands lines
-- to a thread.
--
--   Level.antt, Level/Compare, Level/Parse, Level/Max: `Level` and `LevelFilter` of
--     tracing-core/src/metadata.rs, their comparisons, parsing, and `MAX_LEVEL`.
--   Metadata.antt: what filters read of `Metadata`, `Kind` and `FieldSet`.
--   Interest.antt: `Interest` of tracing-core/src/subscriber.rs.
--   Callsite.antt, Callsite/Registration: tracing-core/src/callsite.rs. A `Dispatch` is a record of a
--     subscriber's answers; `Global` is the process-wide state. The lock-free list of callsites is a
--     step relation of threads, one atomic operation to a step, in sequentially consistent order.
--   Directive.antt, StaticDirective.antt: tracing-subscriber/src/filter/directive.rs.
--   StaticDirective/Text: `Display` and `FromStr` of the same file and of
--     tracing-subscriber/src/filter/targets.rs.
--   Targets.antt: tracing-subscriber/src/filter/targets.rs.
--   FieldMatch.antt, FieldMatch/Parse, FieldMatch/Span: tracing-subscriber/src/filter/env/field.rs. `f64`
--     and the patterns of the crate `matchers` are the parameter `Values`.
--   EnvDirective.antt, EnvDirective/Parse, EnvDirective/Display:
--     tracing-subscriber/src/filter/env/directive.rs; `parse` is its state machine, on ASCII texts.
--   EnvFilter.antt: `EnvFilter` of tracing-subscriber/src/filter/env/mod.rs with its callbacks, and
--     `from_directives` of builder.rs. EnvFilter/History has the callbacks in any order.
--   Filter.antt: tracing-subscriber/src/filter/layer_filters/combinator.rs, and the filters of mod.rs.
--   LayerFilter.antt: `FilterId`, `FilterMap`, `FilterState` and `Filtered` of the same mod.rs, in a
--     stack of `Layered` (tracing-subscriber/src/layer/layered.rs).
--   Layered.antt: the level hint of stacks of tracing-subscriber/src/layer/layered.rs.
--   SpanStack.antt: tracing-subscriber/src/registry/stack.rs.
--   Registry.antt: tracing-subscriber/src/registry/sharded.rs, under the `try_close` of
--     tracing-subscriber/src/layer/layered.rs. The default dispatcher of the thread that closes a span,
--     through which the span's parent is released, is an argument.
--   Dispatcher.antt: tracing-core/src/dispatcher.rs, the scoped defaults of a thread that runs a program
--     of `with_default` and `get_default`; Dispatcher/Global has `set_global_default` as a step
--     relation of threads.
--   NonBlocking.antt: tracing-appender/src/non_blocking.rs and worker.rs, over the channel of the crate
--     `crossbeam_channel` and the user's writer, which are parameters.
--   Rolling.antt: tracing-appender/src/rolling.rs and rolling/builder.rs, over the crate `time` and the
--     file system, which are parameters; Rolling/Rollover has threads that share an appender.
--   Facade.antt: `Span` of tracing/src/span.rs, as the calls that it makes; Facade/Program has a program
--     of its operations, with the guards that borrow its variables and what it gives to `mem::forget`.
--   Writers.antt: tracing-subscriber/src/fmt/writer.rs, `MakeWriter` with its combinators.
--   Filter/Functions: tracing-subscriber/src/filter/filter_fn.rs.
--   Lookup.antt: scopes and the current span, in tracing-subscriber/src/registry/mod.rs and
--     tracing-subscriber/src/layer/context.rs.
--   Layers.antt: `Option` and `Vec` of layers, in tracing-subscriber/src/layer/mod.rs.
--   Reload.antt: tracing-subscriber/src/reload.rs, over the callsites of Callsite.antt.
--   Prelude.antt: lists, texts as lists of bytes, and orders, which the others share.
--
-- Texts are lists of bytes. Counters have 64 bits and wrap around as the code's do. `binary_search`
-- of the standard library is by recursion, which on strictly sorted lists is what its documentation
-- promises. Closing a span takes fuel for the ancestors that close with it: each of them leaves the
-- pool first, so more fuel than there are live spans is enough. A scope takes fuel in the same way, since
-- each parent is older. Everything else is structural.
--
-- Not modelled: the formatting of output, which is text; the conversion of timestamps, whose code is
-- that of another project; the reading of the environment and destroyed thread-local values; poisoned
-- locks, but for those of a reload; trees of layers, the attribute macros, the bridges to other crates,
-- and the test support. The debug assertions of filters are conditions of the lemmas on them.
pub mod Prelude
pub mod Callsite
pub mod Directive
pub mod Dispatcher
pub mod EnvDirective
pub mod EnvFilter
pub mod Facade
pub mod FieldMatch
pub mod Filter
pub mod Interest
pub mod LayerFilter
pub mod Layered
pub mod Layers
pub mod Level
pub mod Lookup
pub mod Metadata
pub mod NonBlocking
pub mod Registry
pub mod Reload
pub mod Rolling
pub mod SpanStack
pub mod StaticDirective
pub mod Targets
pub mod Writers
