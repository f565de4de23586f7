-- ===== src/LayerFilter.antt =====
-- tracing-subscriber/src/filter/layer_filters/mod.rs: `FilterId`, `FilterMap`, the thread's
-- `FilterState`, and the layers `Filtered` by them, in a stack of `Layered` on a registry
-- (tracing-subscriber/src/layer/layered.rs, tracing-subscriber/src/registry/sharded.rs). The
-- counters that only check assertions in debug builds are left out.
pub mod Bits
pub mod Passes
pub mod Delivery
pub mod Register
pub mod Unused
mod Tests
use tracing.Prelude.{
  ℕ, zero, suc, Bool, true, false, not, ◌&&◌, ◌||◌, List, [], ◌∷◌, ◌++◌, Option, none, some, ◌==◌,
  ltb, if◌then◌else◌,
}
use tracing.Interest.{Interest, never, sometimes, always, is_never, is_sometimes, is_always}

-- A `u64` as its bits, of which the first 64 count.
abbrev pub Mask : Type 0
Mask = ℕ → Bool

abbrev pub all_below : ℕ → Mask → Bool
all_below zero b = true
all_below (suc n) b = b n && all_below n b

-- the test `== u64::MAX`
unfoldable pub is_max : Mask → Bool
is_max b = all_below 64 b

-- `FilterId::disabled` and `FilterId::none`
abbrev pub disabled : Mask
disabled i = true

abbrev pub no_id : Mask
no_id i = false

-- `1 << id`
abbrev pub one_bit : ℕ → Mask
one_bit id i = id == i

-- `FilterId::new`, which panics from 64 up
unfoldable pub new_id : ℕ → Option Mask
new_id id = if ltb id 64 then some (one_bit id) else none

-- `FilterId::and`
unfoldable pub and_id : Mask → Mask → Mask
unfolding is_max
and_id self other = if is_max self then other else (λ i. self i || other i)

-- `struct FilterMap`: the bits of the filters that have disabled what is processed
abbrev pub FilterMap : Type 0
FilterMap = Mask

-- `FilterMap::set`
unfoldable pub set : FilterMap → Mask → Bool → FilterMap
unfolding is_max
set self mask enabled =
    if is_max mask
    then self
    else if enabled
    then (λ i. self i && not (mask i))
    else (λ i. self i || mask i)

-- `FilterMap::is_enabled`
unfoldable pub is_enabled : FilterMap → Mask → Bool
is_enabled self mask = all_below 64 (λ i. not (self i && mask i))

-- `FilterMap::any_enabled`
unfoldable pub any_enabled : FilterMap → Bool
unfolding is_max
any_enabled self = not (is_max self)

-- `struct FilterState`
pub record FilterState : Type 0 where
  pub enabled : FilterMap
  pub interest : Option Interest

-- `FilterState::set`
abbrev pub set_state : Mask → Bool → FilterState → FilterState
unfolding set
set_state filter enabled s = record s { enabled = set s.enabled filter enabled }

-- `FilterState::add_interest`
unfoldable pub add_interest : Interest → FilterState → FilterState
add_interest interest s = elim s.interest [
  | none ↦ record s { interest = some interest }
  | some curr ↦
      if (is_always curr && not (is_always interest)) || (is_never curr && not (is_never interest))
      then record s { interest = some sometimes }
      else s
]

-- `FilterState::clear_enabled`
abbrev pub clear_enabled : FilterState → FilterState
clear_enabled s = record s { enabled = λ i. false }

-- What a layer answers of one callsite and one event there, the context being that of the event.
-- `name` stands for the layer in the log of `on_event`.
pub record Layer : Type 0 where
  pub name : ℕ
  pub interest : Interest
  pub enabled : Bool
  pub event_enabled : Bool

-- The filter of a `Filtered` layer, with the id that `on_layer` gave it.
pub record LayerFilter : Type 0 where
  pub id : ℕ
  pub callsite_enabled : Interest
  pub enabled : Bool
  pub event_enabled : Bool

-- A stack of layers, the outermost first; `registry` is its root.
pub data Stack : Type 0 where
  registry : Stack
  plain : Layer → Stack → Stack
  filtered : LayerFilter → Layer → Stack → Stack

-- `Registry::has_per_layer_filters`
unfoldable pub has_filters : Stack → Bool
has_filters registry = false
has_filters (plain l rest) = has_filters rest
has_filters (filtered f l rest) = true

-- `Subscriber::enabled` for `Layered`, `Layer::enabled` for `Filtered`, and `enabled` for the
-- registry, of which `plf` says whether it has given out filter ids.
unfoldable pub enabled : Bool → Stack → FilterState → Bool × FilterState
unfolding any_enabled set
enabled plf registry s = (if plf then any_enabled s.enabled else true, s)
enabled plf (plain l rest) s =
    let inner = enabled plf rest s in if l.enabled then inner else (false, clear_enabled s)
enabled plf (filtered f l rest) s =
    let t = set_state (one_bit f.id) f.enabled s in
    let inner = enabled plf rest t in
    if (if f.enabled then l.enabled else true) then inner else (false, clear_enabled t)

-- `FilterState::and`
abbrev pub and_state : Mask → Bool → FilterState → Bool × FilterState
unfolding is_enabled set
and_state filter wanted s =
    let e = is_enabled s.enabled filter && wanted in (e, set_state filter e s)

-- `event_enabled` in the same way
unfoldable pub event_enabled : Bool → Stack → FilterState → Bool × FilterState
unfolding any_enabled is_enabled set
event_enabled plf registry s = (if plf then any_enabled s.enabled else true, s)
event_enabled plf (plain l rest) s =
    let inner = event_enabled plf rest s in if l.event_enabled then inner else (false, s)
event_enabled plf (filtered f l rest) s =
    let (e, t) = and_state (one_bit f.id) f.event_enabled s in
    let inner = event_enabled plf rest t in
    if (if e then l.event_enabled else true) then inner else (false, t)

-- `Subscriber::event`, with `on_event` for `Filtered` and `FilterState::did_enable`: the names of the
-- layers that are called, in order.
unfoldable pub event : Stack → FilterState → List ℕ × FilterState
unfolding is_enabled set
event registry s = ([], s)
event (plain l rest) s = let (log, t) = event rest s in (log ++ (l.name ∷ []), t)
event (filtered f l rest) s =
    let (log, t) = event rest s in
    if is_enabled t.enabled (one_bit f.id)
    then (log ++ (l.name ∷ []), t)
    else (log, set_state (one_bit f.id) true t)

-- What `event!` does at a callsite that asks: `Dispatch::enabled`, and then `Dispatch::event`.
unfoldable pub process : Bool → Stack → FilterState → List ℕ × FilterState
unfolding enabled event_enabled event
process plf k s =
    let (a, t) = enabled plf k s in
    let (b, u) = event_enabled plf k t in if a then if b then event k u else ([], u) else ([], t)

-- `inner_has_layer_filter` of `Layered::new`, which is also set on a registry itself
abbrev inner_has_layer_filter : Stack → Bool
inner_has_layer_filter registry = true
inner_has_layer_filter (plain l rest) = has_filters rest
inner_has_layer_filter (filtered f l rest) = true

-- `register_callsite` in the same way, with `Layered::pick_interest`.
unfoldable pub register_callsite : Bool → Stack → FilterState → Interest × FilterState
unfolding add_interest has_filters
register_callsite plf registry s =
    if plf
    then (elim s.interest [ none ↦ always | some i ↦ i ], record s { interest = none })
    else (always, s)
register_callsite plf (plain l rest) s =
    let (inner, t) = register_callsite plf rest s in
    if is_never l.interest
    then (l.interest, record s { interest = none })
    else if is_sometimes l.interest
    then (l.interest, t)
    else if is_never inner && inner_has_layer_filter rest
    then (sometimes, t)
    else (inner, t)
register_callsite plf (filtered f l rest) s =
    register_callsite plf rest (add_interest f.callsite_enabled s)
