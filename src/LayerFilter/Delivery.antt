-- ===== src/LayerFilter/Delivery.antt =====
-- Which layers an event reaches, through the three passes over the stack.
use tracing.Prelude.{
  ℕ, ◌<◌, ◌≡◌, refl, ap, ◌∙◌, Bool, true, false, not, ◌&&◌, ◌||◌, List, [], ◌∷◌, ◌++◌, ◌==◌,
  if◌then◌else◌, Bool-cases, arith, inl, inr,
}
use tracing.LayerFilter.{
  FilterState, Layer, LayerFilter, Stack, registry, plain, filtered, one_bit, set_state, enabled,
  event_enabled, event, set, process,
}
use tracing.LayerFilter.Bits.{set-one_bit, is_enabled-one_bit}
use tracing.LayerFilter.Passes.{
  has_id, HasIds, Decided, enabled-other, enabled-Asked, event_enabled-other, event_enabled-Decided,
}

-- The layers that are to see the event, the innermost first.
abbrev pub receivers : Stack → List ℕ
receivers registry = []
receivers (plain l rest) = receivers rest ++ (l.name ∷ [])
receivers (filtered f l rest) =
    let inner = receivers rest in
    if f.enabled && f.event_enabled then inner ++ (l.name ∷ []) else inner

-- A `Filtered` layer, given what the layers inside it have done.
abbrev called : LayerFilter → Layer → List ℕ × FilterState → List ℕ × FilterState
unfolding set
called f l r =
    if not (r.1.enabled f.id)
    then (r.0 ++ (l.name ∷ []), r.1)
    else (r.0, set_state (one_bit f.id) true r.1)

event-filtered :
    (f : LayerFilter) (l : Layer) (k : Stack) (s : FilterState)
    → f.id < 64
    → event (filtered f l k) s ≡ called f l (event k s)
unfolding event called
event-filtered f l k s h =
    ap
      (λ b.
        if◌then◌else◌ {A = List ℕ × FilterState} b ((event k s).0 ++ (l.name ∷ []), (event k s).1)
          ((event k s).0, set_state (one_bit f.id) true (event k s).1))
      (is_enabled-one_bit (event k s).1.enabled f.id h)

called-bit :
    (f : LayerFilter) (l : Layer) (r : List ℕ × FilterState) (i : ℕ)
    → (called f l r).1.enabled i ≡ (r.1.enabled i && not (f.id == i))
unfolding called set_state
called-bit f l r i = elim (Bool-cases (r.1.enabled f.id)) [
  | inl e ↦ rw e (set-one_bit r.1.enabled f.id true i ∙ ground arith)
  | inr e ↦ rw e (ground arith)
]

-- The pass of `on_event` clears the bits of the stack's filters.
event-bit :
    (k : Stack) (s : FilterState) (i : ℕ)
    → HasIds k
    → (event k s).1.enabled i ≡ (s.enabled i && not (has_id i k))
unfolding event
event-bit registry s i h = ground arith
event-bit (plain l rest) s i h = event-bit rest s i h
event-bit (filtered f l rest) s i h =
    ap (λ r. r.1.enabled i) (event-filtered f l rest s h.0)
    ∙ called-bit f l (event rest s) i
    ∙ ap (λ b. b && not (f.id == i)) (event-bit rest s i h.2)
    ∙ both_not (s.enabled i) (has_id i rest) (f.id == i)
  where
    both_not : (a b c : Bool) → ((a && not b) && not c) ≡ (a && not (c || b))
    both_not a b c = ground arith

called-receivers :
    (f : LayerFilter) (l : Layer) (r : List ℕ × FilterState) (inner : List ℕ) (b : Bool)
    → r.0 ≡ inner
    → r.1.enabled f.id ≡ not b
    → (called f l r).0 ≡ (if b then inner ++ (l.name ∷ []) else inner)
unfolding called
called-receivers f l r inner true e d = rw d (ap (λ log. log ++ (l.name ∷ [])) e)
called-receivers f l r inner false e d = rw d e

event-receivers :
    (k : Stack) (s : FilterState) → HasIds k → Decided k s → (event k s).0 ≡ receivers k
unfolding event
event-receivers registry s h d = refl
event-receivers (plain l rest) s h d = ap (λ log. log ++ (l.name ∷ [])) (event-receivers rest s h d)
event-receivers (filtered f l rest) s h d =
    ap (λ r. r.0) (event-filtered f l rest s h.0)
    ∙ called-receivers f l (event rest s) (receivers rest) (f.enabled && f.event_enabled)
        (event-receivers rest s h.2 d.1)
        (event-bit rest s f.id h.2
          ∙ ap (λ b. s.enabled f.id && not b) h.1
          ∙ and_true (s.enabled f.id)
          ∙ d.0)
  where
    and_true : (b : Bool) → (b && not false) ≡ b
    and_true b = ground arith

process-passed :
    (plf : Bool) (k : Stack) (s : FilterState)
    → (enabled plf k s).0 ≡ true
    → (event_enabled plf k (enabled plf k s).1).0 ≡ true
    → process plf k s ≡ event k (event_enabled plf k (enabled plf k s).1).1
unfolding process
process-passed plf k s e d = rw (e, d) refl

-- Where the thread's bits are clear, the filters have ids below 64 that differ, and neither the pass
-- of `enabled` nor that of `event_enabled` rejects the event as a whole, the event is given to the
-- layers without a filter and to those whose filter has enabled both its metadata and itself, each
-- once and the innermost first, and the bits are clear again.
pub process-receivers :
    (plf : Bool) (k : Stack) (s : FilterState)
    → HasIds k
    → ((i : ℕ) → s.enabled i ≡ false)
    → (enabled plf k s).0 ≡ true
    → (event_enabled plf k (enabled plf k s).1).0 ≡ true
    → ((process plf k s).0 ≡ receivers k) × ((i : ℕ) → (process plf k s).1.enabled i ≡ false)
process-receivers plf k s h clear e d =
    let t = (enabled plf k s).1 in
    let u = (event_enabled plf k t).1 in
    let q = process-passed plf k s e d in
    (
      ap (λ r. r.0) q
          ∙ event-receivers k u h (event_enabled-Decided plf k t h (enabled-Asked plf k s h e) d),
      λ i. ap (λ r. r.1.enabled i) q ∙ event-bit k u i h ∙ elim (Bool-cases (has_id i k)) [
        | inl o ↦ rw o (none_of (u.enabled i))
        | inr n ↦ rw n (
            ap (λ b. b && not false)
              (event_enabled-other plf k t i n d ∙ enabled-other plf k s i n e ∙ clear i))
      ],
    )
  where
    none_of : (b : Bool) → (b && not true) ≡ false
    none_of b = ground arith
