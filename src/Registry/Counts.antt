-- ===== src/Registry/Counts.antt =====
-- What the reference counts count: the handles that the program holds, and the live children.
pub mod Updates
use tracing.Prelude.{
  ℕ, ◌+◌, ◌-◌, ◌≤◌, ◌<◌, ◌≡◌, ◌≢◌, refl, sym, ◌∙◌, inl, inr, List, [], ◌∷◌, Option, none, some,
  ◌==◌, if◌then◌else◌, Bool-cases, arith,
}
use tracing.Registry.{Span, usize_max, get}

-- How many handles the program holds to each span.
abbrev pub Handles : Type 0
Handles = ℕ → ℕ

abbrev pub none_at : ℕ → Handles → Handles
none_at id hs i = if id == i then 0 else hs i

abbrev pub more : ℕ → Handles → Handles
more id hs i = if id == i then hs i + 1 else hs i

abbrev pub fewer : ℕ → Handles → Handles
fewer id hs i = if id == i then hs i - 1 else hs i

abbrev pub more_parent : Option ℕ → Handles → Handles
more_parent none hs = hs
more_parent (some p) hs = more p hs

abbrev pub Absent : ℕ → List Span → Type 0
Absent id [] = Unit {0}
Absent id (x ∷ xs) = (x.id ≢ id) × Absent id xs

-- Walking from the newest span to the oldest, `hs` counts the references that a span has from
-- handles and from the spans before it. That is its count, which is not 0; no older span has its
-- id; and it adds a reference to its parent. No reference is left at the end, so every handle and
-- every parent is a live span, and a parent is older than its children.
abbrev pub Counted : List Span → Handles → Type 0
Counted [] hs = (i : ℕ) → hs i ≡ 0
Counted (x ∷ xs) hs =
    (x.ref_count ≡ hs x.id)
    × (0 < x.ref_count)
    × (x.ref_count < usize_max)
    × Absent x.id xs
    × Counted xs (more_parent x.parent (none_at x.id hs))

abbrev pub tail_handles : Span → Handles → Handles
tail_handles x hs = more_parent x.parent (none_at x.id hs)

tail_handles-congr :
    (x : Span) (hs gs : Handles)
    → ((i : ℕ) → hs i ≡ gs i)
    → (i : ℕ) → tail_handles x hs i ≡ tail_handles x gs i
tail_handles-congr x hs gs e i = by_parent x.parent
  where
    by_parent :
        (p : Option ℕ) → more_parent p (none_at x.id hs) i ≡ more_parent p (none_at x.id gs) i
    by_parent none = ground (arith, e i)
    by_parent (some p) = ground (arith, e i)

-- Only the values of the handles matter.
pub Counted-congr :
    (xs : List Span) (hs gs : Handles) → ((i : ℕ) → hs i ≡ gs i) → Counted xs hs → Counted xs gs
Counted-congr [] hs gs e c = λ i. sym (e i) ∙ c i
Counted-congr (x ∷ xs) hs gs e c = (
  c.0 ∙ e x.id,
  c.1,
  c.2,
  c.3,
  Counted-congr xs (tail_handles x hs) (tail_handles x gs) (tail_handles-congr x hs gs e) c.4,
)

-- A span to which there is a reference is live.
pub get-Counted :
    (id : ℕ) (xs : List Span) (hs : Handles)
    → Counted xs hs
    → 0 < hs id
    → (x : Span) × (get id xs ≡ some x)
      × (0 < x.ref_count)
      × (x.ref_count < usize_max)
      × (hs id ≤ x.ref_count)
unfolding get
get-Counted id [] hs c h = absurd (omega (arith, c id))
get-Counted id (x ∷ xs) hs c h = elim (Bool-cases (x.id == id)) [
  | inl e ↦ rw e (x, refl, c.1, c.2, ground arith)
  | inr e ↦
      let (y, g, p, q, l) = get-Counted id xs (tail_handles x hs) c.4 (ground arith) in
      rw e (y, g, p, q, ground arith)
]
