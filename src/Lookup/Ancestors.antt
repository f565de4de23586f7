-- ===== src/Lookup/Ancestors.antt =====
-- What a scope and the current span are, by recursion on the spans of the registry.
use tracing.Prelude.{
  ℕ, zero, suc, ◌<◌, ◌≤◌, ◌≡◌, refl, ap, ◌∙◌, sym, ◌⊎◌, inl, inr, Bool, true, false, List, [], ◌∷◌,
  Option, none, some, ◌==◌, if◌then◌else◌, All, In, In-All, length, filter, arith, Bool-cases,
  Option-cases,
}
use tracing.LayerFilter.{Mask}
use tracing.Lookup.{Data, span_data, is_enabled_for, next, collect, scope}

-- The span and its ancestors, where parents come later in the list.
abbrev pub ancestors : List Data → Option ℕ → List Data
ancestors [] id = []
ancestors (x ∷ xs) none = []
ancestors (x ∷ xs) (some id) =
    let further = ancestors xs (some id) in
    let above = ancestors xs x.parent in if x.id == id then x ∷ above else further

abbrev pub is_id : ℕ → Option ℕ → Bool
is_id id none = false
is_id id (some p) = id == p

-- Neither a span nor a newer one is the parent of a span.
abbrev pub IsNewestFirst : List Data → Type 0
IsNewestFirst [] = Unit {0}
IsNewestFirst (x ∷ xs) = All (λ y. is_id x.id y.parent ≡ false) (x ∷ xs) × IsNewestFirst xs

ancestors-none : (spans : List Data) → ancestors spans none ≡ []
ancestors-none [] = refl
ancestors-none (x ∷ xs) = refl

ancestors_skip :
    (x : Data) (xs : List Data) (p : Option ℕ)
    → is_id x.id p ≡ false
    → ancestors (x ∷ xs) p ≡ ancestors xs p
ancestors_skip x xs none e = sym (ancestors-none xs)
ancestors_skip x xs (some p) e = rw e refl

length-ancestors : (spans : List Data) (id : Option ℕ) → length (ancestors spans id) ≤ length spans
length-ancestors [] id = omega arith
length-ancestors (x ∷ xs) none = omega arith
length-ancestors (x ∷ xs) (some id) =
    ground (arith, length-ancestors xs (some id), length-ancestors xs x.parent)

if_some {ℓ} :
    {A : Type ℓ} (b : Bool) (x d : A) (o : Option A)
    → (if b then some x else o) ≡ some d
    → ((b ≡ true) × (x ≡ d)) ⊎ ((b ≡ false) × (o ≡ some d))
if_some true x d o e = inl (refl, cc)
if_some false x d o e = inr (refl, e)

if_none {ℓ} :
    {A : Type ℓ} (b : Bool) (x : A) (o : Option A)
    → (if b then some x else o) ≡ none
    → (b ≡ false) × (o ≡ none)
if_none true x o e = absurd cc
if_none false x o e = (refl, e)

span_data-In : (id : ℕ) (spans : List Data) (d : Data) → span_data id spans ≡ some d → In d spans
unfolding span_data
span_data-In id [] d e = absurd cc
span_data-In id (x ∷ xs) d e = elim (if_some (x.id == id) x d (span_data id xs) e) [
  | inl (h, k) ↦ inl (sym k)
  | inr (h, k) ↦ inr (span_data-In id xs d k)
]

ancestors_found :
    (id : ℕ) (spans : List Data) (d : Data)
    → IsNewestFirst spans
    → span_data id spans ≡ some d
    → ancestors spans (some id) ≡ d ∷ ancestors spans d.parent
unfolding span_data
ancestors_found id [] d s e = absurd cc
ancestors_found id (x ∷ xs) d s e = elim (if_some (x.id == id) x d (span_data id xs) e) [
  | inl (h, k) ↦ rw h (
      ap (λ ys. x ∷ ys) (sym (ancestors_skip x xs x.parent s.0.0))
      ∙ ap (λ y. y ∷ ancestors (x ∷ xs) y.parent) k)
  | inr (h, k) ↦ rw h (
      ancestors_found id xs d s.1 k
      ∙ ap (λ ys. d ∷ ys)
          (sym (
            ancestors_skip x xs d.parent
              (In-All (λ y. is_id x.id y.parent ≡ false) d xs (span_data-In id xs d k) s.0.1))))
]

ancestors_missing :
    (id : ℕ) (spans : List Data) → span_data id spans ≡ none → ancestors spans (some id) ≡ []
unfolding span_data
ancestors_missing id [] e = refl
ancestors_missing id (x ∷ xs) e =
    let (h, k) = if_none (x.id == id) x (span_data id xs) e in rw h (ancestors_missing id xs k)

module _ (mask : Mask) (spans : List Data) where
  -- The ancestors that the filter enabled.
  abbrev pub seen : Option ℕ → List Data
  seen id = filter (is_enabled_for mask) (ancestors spans id)

  -- What `next` does: there is no further span that is enabled, or it gives the first.
  abbrev Found : Option ℕ → Option (Option (Data × Option ℕ)) → Type 0
  Found id r =
      ((r ≡ some none) × (seen id ≡ []))
      ⊎ ((d : Data) × (r ≡ some (some (d, d.parent)))
          × (seen id ≡ d ∷ seen d.parent)
          × (length (ancestors spans d.parent) < length (ancestors spans id)))

  next-missing :
      (fuel id : ℕ) → span_data id spans ≡ none → next mask spans (suc fuel) (some id) ≡ some none
  unfolding next
  next-missing fuel id e = rw (next, e) refl

  next-enabled :
      (fuel id : ℕ) (d : Data)
      → span_data id spans ≡ some d
      → is_enabled_for mask d ≡ true
      → next mask spans (suc fuel) (some id) ≡ some (some (d, d.parent))
  unfolding next
  next-enabled fuel id d e b = rw (next, e, b) refl

  next-disabled :
      (fuel id : ℕ) (d : Data)
      → span_data id spans ≡ some d
      → is_enabled_for mask d ≡ false
      → next mask spans (suc fuel) (some id) ≡ next mask spans fuel d.parent
  unfolding next
  next-disabled fuel id d e b = rw (next, e, b) refl

  seen-enabled :
      (id : ℕ) (d : Data)
      → ancestors spans (some id) ≡ d ∷ ancestors spans d.parent
      → is_enabled_for mask d ≡ true
      → seen (some id) ≡ d ∷ seen d.parent
  seen-enabled id d f b = ap (filter (is_enabled_for mask)) f ∙ rw b refl

  seen-disabled :
      (id : ℕ) (d : Data)
      → ancestors spans (some id) ≡ d ∷ ancestors spans d.parent
      → is_enabled_for mask d ≡ false
      → seen (some id) ≡ seen d.parent
  seen-disabled id d f b = ap (filter (is_enabled_for mask)) f ∙ rw b refl

  next-Found :
      (fuel : ℕ) (id : Option ℕ)
      → IsNewestFirst spans
      → length (ancestors spans id) < fuel
      → Found id (next mask spans fuel id)
  unfolding next
  next-Found zero id s l = absurd (omega (arith, l))
  next-Found (suc fuel) none s l =
      inl (refl, ap (filter (is_enabled_for mask)) (ancestors-none spans))
  next-Found (suc fuel) (some id) s l = elim (Option-cases (span_data id spans)) [
    | inl e ↦
        inl
          (next-missing fuel id e, ap (filter (is_enabled_for mask)) (ancestors_missing id spans e))
    | inr (d, e) ↦
        let found = ancestors_found id spans d s e in
        elim (Bool-cases (is_enabled_for mask d)) [
          | inl b ↦ inr (
            d,
            next-enabled fuel id d e b,
            seen-enabled id d found b,
            omega (arith, ap length found),
          )
          | inr b ↦ elim (next-Found fuel d.parent s (omega (arith, l, ap length found))) [
            | inl (r, n) ↦ inl (next-disabled fuel id d e b ∙ r, seen-disabled id d found b ∙ n)
            | inr (k, r, n, m) ↦ inr (
              k,
              next-disabled fuel id d e b ∙ r,
              seen-disabled id d found b ∙ n,
              omega (arith, m, ap length found),
            )
          ]
        ]
  ]

  collect_end :
      (fuel : ℕ) (id : Option ℕ)
      → next mask spans (suc fuel) id ≡ some none
      → collect mask spans (suc fuel) id ≡ some []
  unfolding collect
  collect_end fuel id e = rw (collect, e) refl

  collect_more :
      (fuel : ℕ) (id : Option ℕ) (d : Data) (ds : List Data)
      → next mask spans (suc fuel) id ≡ some (some (d, d.parent))
      → collect mask spans fuel d.parent ≡ some ds
      → collect mask spans (suc fuel) id ≡ some (d ∷ ds)
  unfolding collect
  collect_more fuel id d ds e f = rw (collect, e, f) refl

  collect-seen :
      (fuel : ℕ) (id : Option ℕ)
      → IsNewestFirst spans
      → length (ancestors spans id) < fuel
      → collect mask spans fuel id ≡ some (seen id)
  collect-seen zero id s l = absurd (omega (arith, l))
  collect-seen (suc fuel) id s l = elim (next-Found (suc fuel) id s l) [
    | inl (r, n) ↦ collect_end fuel id r ∙ ap some (sym n)
    | inr (d, r, n, m) ↦
        collect_more fuel id d (seen d.parent) r
          (collect-seen fuel d.parent s (omega (arith, l, m)))
        ∙ ap some (sym n)
  ]

  -- The scope of a span ends, with more fuel than there are spans, and is the span and its ancestors,
  -- the nearest first, without those that the filter disabled, where each parent is older than its span.
  pub scope-ancestors :
      (fuel : ℕ) (d : Data)
      → IsNewestFirst spans
      → length spans < fuel
      → scope mask spans fuel d
        ≡ some (filter (is_enabled_for mask) (ancestors spans (some (d.id))))
  unfolding scope
  scope-ancestors fuel d s l =
      collect-seen fuel (some (d.id)) s (omega (arith, l, length-ancestors spans (some (d.id))))
