-- ===== src/LayerFilter/Passes.antt =====
-- The bits after the passes of `enabled` and `event_enabled` over a stack.
use tracing.Prelude.{
  ℕ, ◌<◌, ◌≡◌, refl, sym, ap, ◌∙◌, Bool, true, false, not, ◌&&◌, ◌||◌, ◌==◌, if◌then◌else◌, arith,
  subst,
}
use tracing.LayerFilter.{
  FilterState, Layer, LayerFilter, Stack, registry, plain, filtered, one_bit, set_state, enabled,
  event_enabled, set, is_enabled, clear_enabled,
}
use tracing.LayerFilter.Bits.{set-one_bit, is_enabled-one_bit}

abbrev pub has_id : ℕ → Stack → Bool
has_id id registry = false
has_id id (plain l rest) = has_id id rest
has_id id (filtered f l rest) = (f.id == id) || has_id id rest

-- The ids that the registry has given out: below 64, and all different.
abbrev pub HasIds : Stack → Type 0
HasIds registry = Unit {0}
HasIds (plain l rest) = HasIds rest
HasIds (filtered f l rest) = (f.id < 64) × (has_id f.id rest ≡ false) × HasIds rest

-- The bits after the pass of `enabled`, and of `event_enabled`.
abbrev pub Asked : Stack → FilterState → Type 0
Asked registry s = Unit {0}
Asked (plain l rest) s = Asked rest s
Asked (filtered f l rest) s = (s.enabled f.id ≡ not f.enabled) × Asked rest s

abbrev pub Decided : Stack → FilterState → Type 0
Decided registry s = Unit {0}
Decided (plain l rest) s = Decided rest s
Decided (filtered f l rest) s =
    (s.enabled f.id ≡ not (f.enabled && f.event_enabled)) × Decided rest s

taken :
    (c : Bool) (x y : Bool × FilterState)
    → y.0 ≡ false
    → (if c then x else y).0 ≡ true
    → (if c then x else y) ≡ x
taken true x y f e = refl
taken false x y f e = cc

-- A layer through which the pass goes on.
enabled-plain :
    (plf : Bool) (l : Layer) (k : Stack) (s : FilterState)
    → (enabled plf (plain l k) s).0 ≡ true
    → enabled plf (plain l k) s ≡ enabled plf k s
unfolding enabled
enabled-plain plf l k s e = taken l.enabled (enabled plf k s) (false, clear_enabled s) refl e

abbrev asked : LayerFilter → FilterState → FilterState
unfolding set
asked f s = set_state (one_bit f.id) f.enabled s

asked-bit :
    (f : LayerFilter) (s : FilterState) (id : ℕ)
    → (asked f s).enabled id ≡ (if f.id == id then not f.enabled else s.enabled id)
unfolding asked set_state
asked-bit f s id = set-one_bit s.enabled f.id f.enabled id

enabled-filtered :
    (plf : Bool) (f : LayerFilter) (l : Layer) (k : Stack) (s : FilterState)
    → (enabled plf (filtered f l k) s).0 ≡ true
    → enabled plf (filtered f l k) s ≡ enabled plf k (asked f s)
unfolding enabled
enabled-filtered plf f l k s e =
    taken (if f.enabled then l.enabled else true) (enabled plf k (asked f s))
      (false, clear_enabled (asked f s)) refl e

event_enabled-plain :
    (plf : Bool) (l : Layer) (k : Stack) (s : FilterState)
    → (event_enabled plf (plain l k) s).0 ≡ true
    → event_enabled plf (plain l k) s ≡ event_enabled plf k s
unfolding event_enabled
event_enabled-plain plf l k s e = taken l.event_enabled (event_enabled plf k s) (false, s) refl e

abbrev wanted : LayerFilter → FilterState → Bool
unfolding is_enabled
wanted f s = is_enabled s.enabled (one_bit f.id) && f.event_enabled

abbrev decided : LayerFilter → FilterState → FilterState
unfolding set is_enabled
decided f s = set_state (one_bit f.id) (wanted f s) s

decided-bit :
    (f : LayerFilter) (s : FilterState) (id : ℕ)
    → (decided f s).enabled id ≡ (if f.id == id then not (wanted f s) else s.enabled id)
unfolding decided set_state
decided-bit f s id = set-one_bit s.enabled f.id (wanted f s) id

event_enabled-filtered :
    (plf : Bool) (f : LayerFilter) (l : Layer) (k : Stack) (s : FilterState)
    → (event_enabled plf (filtered f l k) s).0 ≡ true
    → event_enabled plf (filtered f l k) s ≡ event_enabled plf k (decided f s)
unfolding event_enabled
event_enabled-filtered plf f l k s e =
    taken (if wanted f s then l.event_enabled else true) (event_enabled plf k (decided f s))
      (false, decided f s) refl e

own_bit : (id : ℕ) (x y : Bool) → (if id == id then x else y) ≡ x
own_bit id x y = ground arith

other_bit : (id other : ℕ) (x y : Bool) → (id == other) ≡ false → (if id == other then x else y) ≡ y
other_bit id other x y e = rw e refl

wanted-Asked :
    (f : LayerFilter) (s : FilterState)
    → f.id < 64
    → s.enabled f.id ≡ not f.enabled
    → wanted f s ≡ (f.enabled && f.event_enabled)
unfolding wanted
wanted-Asked f s h a = rw (is_enabled-one_bit s.enabled f.id h, a) (ground arith)

-- A pass writes no bit but those of the stack's filters.
pub enabled-other :
    (plf : Bool) (k : Stack) (s : FilterState) (id : ℕ)
    → has_id id k ≡ false
    → (enabled plf k s).0 ≡ true
    → (enabled plf k s).1.enabled id ≡ s.enabled id
unfolding enabled
enabled-other plf registry s id n e = refl
enabled-other plf (plain l rest) s id n e =
    let q = enabled-plain plf l rest s e in
    ap (λ r. r.1.enabled id) q ∙ enabled-other plf rest s id n (ap (λ r. r.0) (sym q) ∙ e)
enabled-other plf (filtered f l rest) s id n e =
    let q = enabled-filtered plf f l rest s e in
    ap (λ r. r.1.enabled id) q
    ∙ enabled-other plf rest (asked f s) id (ground arith) (ap (λ r. r.0) (sym q) ∙ e)
    ∙ asked-bit f s id
    ∙ other_bit f.id id (not f.enabled) (s.enabled id) (ground arith)

-- After the pass of `enabled` the bits say what the filters have answered.
pub enabled-Asked :
    (plf : Bool) (k : Stack) (s : FilterState)
    → HasIds k
    → (enabled plf k s).0 ≡ true
    → Asked k (enabled plf k s).1
enabled-Asked plf registry s h e = tt
enabled-Asked plf (plain l rest) s h e =
    let q = enabled-plain plf l rest s e in
    subst (λ r. Asked rest r.1) (sym q) (enabled-Asked plf rest s h (ap (λ r. r.0) (sym q) ∙ e))
enabled-Asked plf (filtered f l rest) s h e =
    let q = enabled-filtered plf f l rest s e in
    let e2 = ap (λ r. r.0) (sym q) ∙ e in
    subst (λ r. Asked (filtered f l rest) r.1) (sym q)
      (
        enabled-other plf rest (asked f s) f.id h.1 e2
            ∙ asked-bit f s f.id
            ∙ own_bit f.id (not f.enabled) (s.enabled f.id),
        enabled-Asked plf rest (asked f s) h.2 e2,
      )

Asked-other :
    (k : Stack) (s : FilterState) (id : ℕ) (b : Bool)
    → has_id id k ≡ false
    → Asked k s
    → Asked k (set_state (one_bit id) b s)
unfolding set_state
Asked-other registry s id b n a = tt
Asked-other (plain l rest) s id b n a = Asked-other rest s id b n a
Asked-other (filtered f l rest) s id b n a = (
  set-one_bit s.enabled id b f.id ∙ ground (arith, a.0),
  Asked-other rest s id b (ground arith) a.1,
)

pub event_enabled-other :
    (plf : Bool) (k : Stack) (s : FilterState) (id : ℕ)
    → has_id id k ≡ false
    → (event_enabled plf k s).0 ≡ true
    → (event_enabled plf k s).1.enabled id ≡ s.enabled id
unfolding event_enabled
event_enabled-other plf registry s id n e = refl
event_enabled-other plf (plain l rest) s id n e =
    let q = event_enabled-plain plf l rest s e in
    ap (λ r. r.1.enabled id) q ∙ event_enabled-other plf rest s id n (ap (λ r. r.0) (sym q) ∙ e)
event_enabled-other plf (filtered f l rest) s id n e =
    let q = event_enabled-filtered plf f l rest s e in
    ap (λ r. r.1.enabled id) q
    ∙ event_enabled-other plf rest (decided f s) id (ground arith) (ap (λ r. r.0) (sym q) ∙ e)
    ∙ decided-bit f s id
    ∙ other_bit f.id id (not (wanted f s)) (s.enabled id) (ground arith)

pub event_enabled-Decided :
    (plf : Bool) (k : Stack) (s : FilterState)
    → HasIds k
    → Asked k s
    → (event_enabled plf k s).0 ≡ true
    → Decided k (event_enabled plf k s).1
unfolding decided set_state
event_enabled-Decided plf registry s h a e = tt
event_enabled-Decided plf (plain l rest) s h a e =
    let q = event_enabled-plain plf l rest s e in
    subst (λ r. Decided rest r.1) (sym q)
      (event_enabled-Decided plf rest s h a (ap (λ r. r.0) (sym q) ∙ e))
event_enabled-Decided plf (filtered f l rest) s h a e =
    let q = event_enabled-filtered plf f l rest s e in
    let e2 = ap (λ r. r.0) (sym q) ∙ e in
    subst (λ r. Decided (filtered f l rest) r.1) (sym q)
      (
        event_enabled-other plf rest (decided f s) f.id h.1 e2
            ∙ decided-bit f s f.id
            ∙ own_bit f.id (not (wanted f s)) (s.enabled f.id)
            ∙ ap not (wanted-Asked f s h.0 a.0),
        event_enabled-Decided plf rest (decided f s) h.2
            (Asked-other rest s f.id (wanted f s) h.1 a.1) e2,
      )
