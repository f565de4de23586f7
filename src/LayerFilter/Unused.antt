-- ===== src/LayerFilter/Unused.antt =====
-- The pass of `enabled` while some filter id is not in use.
use tracing.Prelude.{
  ℕ, ◌<◌, ◌≡◌, refl, ◌∙◌, Bool, true, false, not, ◌&&◌, if◌then◌else◌, arith, ◌==◌,
}
use tracing.LayerFilter.{
  FilterState, Stack, registry, plain, filtered, one_bit, set_state, enabled, clear_enabled,
}
use tracing.LayerFilter.Bits.{any_enabled-clear, set-one_bit}
use tracing.LayerFilter.Passes.{has_id}

-- No layer of the stack, inside its filter if it has one, rejects the metadata for all layers.
abbrev pub lets_through : Stack → Bool
lets_through registry = true
lets_through (plain l rest) = l.enabled && lets_through rest
lets_through (filtered f l rest) = (if f.enabled then l.enabled else true) && lets_through rest

if-first :
    (c b : Bool) (x y : Bool × FilterState)
    → x.0 ≡ b
    → y.0 ≡ false
    → (if c then x else y).0 ≡ (c && b)
if-first true b x y e d = e
if-first false b x y e d = d

-- While one of the 64 filter ids is not in use, and its bit is clear, the pass of `enabled` answers
-- what the layers inside their filters say: the registry never rejects what all filters have
-- disabled.
pub enabled-unused :
    (plf : Bool) (k : Stack) (s : FilterState) (i : ℕ)
    → i < 64
    → has_id i k ≡ false
    → s.enabled i ≡ false
    → (enabled plf k s).0 ≡ lets_through k
unfolding enabled
enabled-unused true registry s i h n c = any_enabled-clear s.enabled i h c
enabled-unused false registry s i h n c = refl
enabled-unused plf (plain l rest) s i h n c =
    if-first l.enabled (lets_through rest) (enabled plf rest s) (false, clear_enabled s)
      (enabled-unused plf rest s i h n c) refl
enabled-unused plf (filtered f l rest) s i h n c =
    let t = set_state (one_bit f.id) f.enabled s in
    if-first (if f.enabled then l.enabled else true) (lets_through rest) (enabled plf rest t)
      (false, clear_enabled t)
      (enabled-unused plf rest t i h (ground arith)
        (set-one_bit s.enabled f.id f.enabled i ∙ other (f.id == i) (ground arith)))
      refl
  where
    other : (b : Bool) → b ≡ false → (if b then not f.enabled else s.enabled i) ≡ false
    other b e = rw e c
