-- ===== src/Layered/Hint.antt =====
-- The hint of a stack bounds the level of what any of its layers is to see.
use tracing.Prelude.{
  ℕ, ◌≤◌, ◌≡◌, refl, ◌⊎◌, inl, inr, Bool, true, false, not, ◌&&◌, ◌||◌, List, [], ◌∷◌, Option, none,
  some, arith, any, all, Bool-cases, All, sym, ap, ◌∙◌, subst,
}
use tracing.Level.{LevelFilter, off}
use tracing.Level.Compare.LevelFilterPair
use tracing.Filter.Soundness.{hint_verbosity}
use tracing.Filter.Max.{max_filter-ge}
use tracing.Layered.{Layer, Flags, flags, pick_level_hint, max_level_hint, is_off}

-- What is known of a layer over a rest, where the whole is to see something of verbosity `n`.
record Fits (n : ℕ) (f : Flags) (o i : Option LevelFilter)
    (inner_is_none outer_sees inner_sees : Bool) : Type 0 where
  seen : (outer_sees || inner_sees) ≡ true
  outer : (outer_sees ≡ false) ⊎ (n ≤ hint_verbosity o)
  inner : (inner_sees ≡ false) ⊎ (n ≤ hint_verbosity i)
  on_registry : (f.inner_is_registry && inner_sees) ≡ false
  global_outer : (f.has_layer_filter ≡ true) ⊎ (f.layer_is_none ≡ true) ⊎ (n ≤ hint_verbosity o)
  global_inner :
      (f.inner_has_layer_filter ≡ true)
      ⊎ (n ≤ hint_verbosity i)
      ⊎ ((inner_is_none && is_off i) ≡ true)
  none_outer : (f.layer_is_none ≡ false) ⊎ (outer_sees ≡ false)

pick_level_hint-Fits :
    (n : ℕ) (f : Flags) (o i : Option LevelFilter) (b so si : Bool)
    → n ≤ 5
    → Fits n f o i b so si
    → n ≤ hint_verbosity (pick_level_hint f o i b)
unfolding pick_level_hint
pick_level_hint-Fits n f none none b so si m h = ground arith
pick_level_hint-Fits n f none (some y) b so si m h = ground arith
pick_level_hint-Fits n f (some x) none b so si m h = ground arith
pick_level_hint-Fits n f (some x) (some y) b so si m h = ground (arith, max_filter-ge n x y)

-- A layer that is not `None` enables nothing above its hint; one that is `None` has the hint `off` and
-- no filter.
abbrev pub IsLawfulAt : ℕ → Layer → Type 0
IsLawfulAt n l =
    ((l.enabled ≡ false) ⊎ (n ≤ hint_verbosity l.hint))
    × ((l.is_none ≡ false) ⊎ ((l.hint ≡ some off) × (l.filtered ≡ false)))

-- Some layer that is not `None` enables the metadata, by its filter if it has one.
abbrev pub is_seen : List Layer → Bool
is_seen ls = any (λ l. not l.is_none && l.enabled) ls

-- Every layer that is not `None` and has no filter lets the metadata through, for all layers.
abbrev pub is_passed : List Layer → Bool
is_passed ls = all (λ l. l.is_none || (l.filtered || l.enabled)) ls

max_level_hint-cons :
    (l : Layer) (ls : List Layer)
    → max_level_hint (l ∷ ls)
      ≡ pick_level_hint (flags l ls) l.hint (max_level_hint ls) (any (λ k. k.is_none) ls)
unfolding max_level_hint
max_level_hint-cons l ls = refl

pick_level_hint-none :
    (f : Flags) (b : Bool)
    → f.has_layer_filter ≡ false
    → f.inner_has_layer_filter ≡ false
    → f.layer_is_none ≡ true
    → pick_level_hint f (some off) (some off) b ≡ some off
unfolding pick_level_hint LevelFilterPair.lt
pick_level_hint-none f b c d e = ground arith

pick_level_hint-registry :
    (f : Flags) (o i : Option LevelFilter) (b : Bool)
    → f.inner_is_registry ≡ true
    → pick_level_hint f o i b ≡ o
unfolding pick_level_hint
pick_level_hint-registry f o i b e = rw e refl

-- A layer of a stack without filters that sees nothing although all is passed is `None`.
unseen-is_none :
    (n : ℕ) (l : Layer) (ls : List Layer)
    → IsLawfulAt n l
    → is_passed (l ∷ ls) ≡ true
    → is_seen (l ∷ ls) ≡ false
    → l.filtered ≡ false
    → (l.is_none ≡ true) × (l.hint ≡ some off)
unseen-is_none n l ls h p s f = ground arith

-- A stack without filters, none of whose layers sees what passes, is made of `None`.
max_level_hint-unseen :
    (n : ℕ) (l : Layer) (ls : List Layer)
    → All (IsLawfulAt n) (l ∷ ls)
    → is_passed (l ∷ ls) ≡ true
    → is_seen (l ∷ ls) ≡ false
    → any (λ k. k.filtered) (l ∷ ls) ≡ false
    → (max_level_hint (l ∷ ls) ≡ some off) × (l.is_none ≡ true)
max_level_hint-unseen n l [] h p s f =
    let (d, e) = unseen-is_none n l [] h.0 p s (ground arith) in
    (max_level_hint-cons l [] ∙ on_registry ∙ e, d)
  where
    on_registry : pick_level_hint (flags l []) l.hint (max_level_hint []) false ≡ l.hint
    on_registry = pick_level_hint-registry (flags l []) l.hint (max_level_hint []) false refl
max_level_hint-unseen n l (k ∷ ls) h p s f =
    let (rest, _) = max_level_hint-unseen n k ls h.1 (ground arith) (ground arith) (ground arith) in
    let (d, e) = unseen-is_none n l (k ∷ ls) h.0 p s (ground arith) in
    let b = any (λ x. x.is_none) (k ∷ ls) in
    let fs = flags l (k ∷ ls) in
    (
      max_level_hint-cons l (k ∷ ls)
          ∙ ap (λ o. pick_level_hint fs o (max_level_hint (k ∷ ls)) b) e
          ∙ ap (λ i. pick_level_hint fs (some off) i b) rest
          ∙ pick_level_hint-none fs b (ground arith) (ground arith) d,
      d,
    )

-- What the rest of a stack gives the layer on it.
rest_bounds :
    (n : ℕ) (l : Layer) (ls : List Layer)
    → All (IsLawfulAt n) (l ∷ ls)
    → is_passed (l ∷ ls) ≡ true
    → (is_seen (l ∷ ls) ≡ false) ⊎ (n ≤ hint_verbosity (max_level_hint (l ∷ ls)))
    → (any (λ k. k.filtered) (l ∷ ls) ≡ true)
      ⊎ (n ≤ hint_verbosity (max_level_hint (l ∷ ls)))
      ⊎ ((any (λ k. k.is_none) (l ∷ ls) && is_off (max_level_hint (l ∷ ls))) ≡ true)
rest_bounds n l ls h p (inr b) = inr (inl b)
rest_bounds n l ls h p (inl s) = elim (Bool-cases (any (λ k. k.filtered) (l ∷ ls))) [
  | inl f ↦ inl f
  | inr f ↦ let (e, d) = max_level_hint-unseen n l ls h p s f in inr (inr (rw (e, d) refl))
]

-- The hint that a stack reports is not exceeded: if the layers without a filter let something of
-- verbosity `n` through, then no layer is to see it, or `n` is within the hint. So no layer loses
-- what its own hint and filter allow, with any mixture of layers, filters and layers that are `None`.
pub max_level_hint-seen :
    (n : ℕ) (ls : List Layer)
    → n ≤ 5
    → All (IsLawfulAt n) ls
    → is_passed ls ≡ true
    → (is_seen ls ≡ false) ⊎ (n ≤ hint_verbosity (max_level_hint ls))
max_level_hint-seen n [] m h p = inl refl
max_level_hint-seen n (l ∷ []) m h p = elim (Bool-cases (is_seen (l ∷ []))) [
  | inl s ↦ inr (
      subst (λ o. n ≤ hint_verbosity o) (sym (max_level_hint-cons l []))
        (pick_level_hint-Fits n (flags l []) l.hint (max_level_hint []) false
          (not l.is_none && l.enabled) false m
          (record {
            seen = s;
            outer = ground (arith, h.0.0);
            inner = inl refl;
            on_registry = refl;
            global_outer = ground (arith, h.0.0, p);
            global_inner = inl (ground arith);
            none_outer = ground arith;
          })))
  | inr s ↦ inl s
]
max_level_hint-seen n (l ∷ k ∷ ls) m h p = elim (Bool-cases (is_seen (l ∷ k ∷ ls))) [
  | inl s ↦
      let ih = max_level_hint-seen n (k ∷ ls) m h.1 (ground arith) in
      let rest = rest_bounds n k ls h.1 (ground arith) ih in
      inr (
        subst (λ o. n ≤ hint_verbosity o) (sym (max_level_hint-cons l (k ∷ ls)))
          (pick_level_hint-Fits n (flags l (k ∷ ls)) l.hint (max_level_hint (k ∷ ls))
            (any (λ x. x.is_none) (k ∷ ls)) (not l.is_none && l.enabled) (is_seen (k ∷ ls)) m
            (record {
              seen = s;
              outer = ground (arith, h.0.0);
              inner = ih;
              on_registry = refl;
              global_outer = ground (arith, h.0.0, p);
              global_inner = ground (arith, rest);
              none_outer = ground arith;
            })))
  | inr s ↦ inl s
]
