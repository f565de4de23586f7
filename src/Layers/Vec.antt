-- ===== src/Layers/Vec.antt =====
-- tracing-subscriber/src/layer/mod.rs: what a `Vec` of layers answers, against its layers.
use tracing.Prelude.{
  ℕ, ◌≤◌, ◌≡◌, refl, ap, Bool, false, not, ◌&&◌, ◌||◌, List, [], ◌∷◌, Option, none, some, all, any,
  In, In-all, inl, inr, if◌then◌else◌, arith, Option-cases,
}
use tracing.Level.{LevelFilter, off}
use tracing.Level.Compare.LevelFilterPair
use tracing.Level.Compare.Verbosity.{verbosity, filter_as_usize_sum}
use tracing.Interest.{Interest, never, sometimes, always, is_never, is_always}
use tracing.Filter.{Host, max_filter}
use tracing.Filter.Soundness.{hint_verbosity}
use tracing.Layers.{Layer, raise, vec_interest, vec_hint, of_vec}

hint_bound : (f : LevelFilter) → verbosity f ≤ 5
hint_bound f = omega (arith, filter_as_usize_sum f)

le-max_filter :
    (a b : LevelFilter)
    → (verbosity a ≤ verbosity (max_filter a b)) × (verbosity b ≤ verbosity (max_filter a b))
unfolding LevelFilterPair.lt
le-max_filter a b = ground (arith, filter_as_usize_sum a, filter_as_usize_sum b)

hint_verbosity_bound : (o : Option LevelFilter) → hint_verbosity o ≤ 5
hint_verbosity_bound none = omega arith
hint_verbosity_bound (some f) = hint_bound f

module _ {h : Host} where
  -- `always` if a layer says so, `never` if every one says that, and `sometimes` if not.
  abbrev pub highest : h.Meta → Interest → List (Layer h) → Interest
  highest meta i ls =
      if is_always i || any (λ l. is_always (l.register_callsite meta)) ls
      then always
      else if is_never i && all (λ l. is_never (l.register_callsite meta)) ls
      then never
      else sometimes

  vec_interest-highest :
      (meta : h.Meta) (i : Interest) (ls : List (Layer h))
      → vec_interest meta i ls ≡ highest meta i ls
  unfolding vec_interest raise
  vec_interest-highest meta never [] = refl
  vec_interest-highest meta sometimes [] = refl
  vec_interest-highest meta always [] = refl
  vec_interest-highest meta i (l ∷ ls) =
      ground (arith, vec_interest-highest meta (raise i (l.register_callsite meta)) ls)

  -- The hint after a layer with the hint `o`.
  abbrev next_hint : LevelFilter → Option LevelFilter → List (Layer h) → Option LevelFilter
  unfolding vec_hint LevelFilterPair.lt
  next_hint m none ls = none
  next_hint m (some hint) ls = vec_hint (max_filter hint m) ls

  vec_hint-cons :
      (m : LevelFilter) (l : Layer h) (ls : List (Layer h))
      → vec_hint m (l ∷ ls) ≡ next_hint m l.max_level_hint ls
  unfolding vec_hint next_hint
  vec_hint-cons m l ls = elim (Option-cases l.max_level_hint) [
    | inl e ↦ rw (vec_hint, e) refl
    | inr (f, e) ↦ rw (vec_hint, e) refl
  ]

  next_hint-ge :
      (m : LevelFilter) (o : Option LevelFilter) (ls : List (Layer h))
      → ((f : LevelFilter) → verbosity f ≤ hint_verbosity (vec_hint f ls))
      → (verbosity m ≤ hint_verbosity (next_hint m o ls))
        × (hint_verbosity o ≤ hint_verbosity (next_hint m o ls))
  unfolding next_hint
  next_hint-ge m none ls ih = (hint_bound m, omega arith)
  next_hint-ge m (some f) ls ih =
      let (a, b) = le-max_filter f m in
      let c = ih (max_filter f m) in (omega (arith, b, c), omega (arith, a, c))

  vec_hint-ge :
      (ls : List (Layer h)) (m : LevelFilter) → verbosity m ≤ hint_verbosity (vec_hint m ls)
  unfolding vec_hint
  vec_hint-ge [] m = omega arith
  vec_hint-ge (l ∷ ls) m =
      rw (vec_hint-cons m l ls) ((next_hint-ge m l.max_level_hint ls (vec_hint-ge ls)).0)

  next_hint-In :
      (m : LevelFilter) (o : Option LevelFilter) (n : ℕ) (ls : List (Layer h))
      → n ≤ 5
      → ((f : LevelFilter) → n ≤ hint_verbosity (vec_hint f ls))
      → n ≤ hint_verbosity (next_hint m o ls)
  unfolding next_hint
  next_hint-In m none n ls b ih = b
  next_hint-In m (some f) n ls b ih = ih (max_filter f m)

  vec_hint-In :
      (l : Layer h) (ls : List (Layer h)) (m : LevelFilter)
      → In l ls
      → hint_verbosity l.max_level_hint ≤ hint_verbosity (vec_hint m ls)
  vec_hint-In l [] m i = absurd (i refl)
  vec_hint-In l (k ∷ ls) m (inl e) =
      rw (vec_hint-cons m k ls, ap (λ x. x.max_level_hint) e)
        ((next_hint-ge m k.max_level_hint ls (vec_hint-ge ls)).1)
  vec_hint-In l (k ∷ ls) m (inr i) = rw (vec_hint-cons m k ls) (
      next_hint-In m k.max_level_hint _ ls (hint_verbosity_bound l.max_level_hint)
        (λ f. vec_hint-In l ls f i))

  -- What the answers of the `Vec` say of a layer in it.
  pub record Covers (v l : Layer h) (meta : h.Meta) (event : h.Event) (cx : h.Context)
      : Type 0 where
    pub on_never :
        (is_never (v.register_callsite meta) && not (is_never (l.register_callsite meta))) ≡ false
    pub on_always :
        (is_always (l.register_callsite meta) && not (is_always (v.register_callsite meta))) ≡ false
    pub on_enabled : (v.enabled meta cx && not (l.enabled meta cx)) ≡ false
    pub on_event_enabled : (v.event_enabled event cx && not (l.event_enabled event cx)) ≡ false
    pub on_hint : hint_verbosity l.max_level_hint ≤ hint_verbosity v.max_level_hint

  any-In :
      (p : Layer h → Bool) (x : Layer h) (xs : List (Layer h))
      → In x xs
      → any p xs ≡ false
      → p x ≡ false
  any-In p x [] i e = absurd (i refl)
  any-In p x (y ∷ ys) (inl i) e = rw i (ground arith)
  any-In p x (y ∷ ys) (inr i) e = any-In p x ys i (ground arith)

  -- For every layer of a `Vec`: it is `never` for a callsite only if the layer is, and `always` if
  -- the layer is; it enables metadata and events only if the layer does; and its level hint does not
  -- exclude what the layer's hint allows.
  pub of_vec-Covers :
      (ls : List (Layer h)) (l : Layer h) (meta : h.Meta) (event : h.Event) (cx : h.Context)
      → In l ls
      → Covers (of_vec ls) l meta event cx
  unfolding of_vec
  of_vec-Covers ls l meta event cx i = record {
    on_never =
        rw (vec_interest-highest meta never ls)
          (ground (arith, In-all (λ k. is_never (k.register_callsite meta)) l ls i));
    on_always =
        rw (vec_interest-highest meta never ls)
          (ground (arith, any-In (λ k. is_always (k.register_callsite meta)) l ls i));
    on_enabled = ground (arith, In-all (λ k. k.enabled meta cx) l ls i);
    on_event_enabled = ground (arith, In-all (λ k. k.event_enabled event cx) l ls i);
    on_hint = vec_hint-In l ls off i;
  }
