-- ===== src/Prelude/Split.antt =====
-- `str::split`, and what it does to a text that was put together.
use Prim.Native.Nat.{ℕ}
use mathlib.Core.Path.{◌≡◌, refl, ap, ◌∙◌}
use mathlib.Core.Bool.{Bool, true, false, not, ◌&&◌}
use mathlib.Core.List.{List, [], ◌∷◌, ◌++◌}
use native.Mathlib.Omega.{arith}
use tracing.Prelude.Tests.{◌==◌, if◌then◌else◌}
use tracing.Prelude.Lists.{all}

-- Texts by which another is split: the first piece, and the ones behind it.
abbrev extend_first : ℕ → List (List ℕ) → List (List ℕ)
extend_first c [] = (c ∷ []) ∷ []
extend_first c (piece ∷ pieces) = (c ∷ piece) ∷ pieces

-- `s.split(sep)` for a byte
unfoldable pub split_on : ℕ → List ℕ → List (List ℕ)
split_on sep [] = [] ∷ []
split_on sep (c ∷ s) =
    let rest = split_on sep s in if c == sep then [] ∷ rest else extend_first c rest

-- The byte does not occur.
abbrev pub lacks : ℕ → List ℕ → Bool
lacks c s = all (λ x. not (x == c)) s

pub split_on-lacks : (sep : ℕ) (s : List ℕ) → lacks sep s ≡ true → split_on sep s ≡ s ∷ []
unfolding split_on
split_on-lacks sep [] h = refl
split_on-lacks sep (c ∷ s) h = ground (arith, split_on-lacks sep s)

pub split_on-append :
    (sep : ℕ) (s t : List ℕ)
    → lacks sep s ≡ true
    → split_on sep (s ++ (sep ∷ t)) ≡ s ∷ split_on sep t
unfolding split_on
split_on-append sep [] t h = ground arith
split_on-append sep (c ∷ s) t h = ground (arith, split_on-append sep s t)

-- `s.split(pair)` for a text of two bytes
unfoldable pub split_on_pair : ℕ → ℕ → List ℕ → List (List ℕ)
split_on_pair a b [] = [] ∷ []
split_on_pair a b (c ∷ []) = (c ∷ []) ∷ []
split_on_pair a b (c ∷ d ∷ s) =
    let after = split_on_pair a b s in
    let rest = split_on_pair a b (d ∷ s) in
    if (c == a) && (d == b) then [] ∷ after else extend_first c rest

pub split_on_pair-lacks : (a b : ℕ) (s : List ℕ) → lacks a s ≡ true → split_on_pair a b s ≡ s ∷ []
unfolding split_on_pair
split_on_pair-lacks a b [] h = refl
split_on_pair-lacks a b (c ∷ []) h = refl
split_on_pair-lacks a b (c ∷ d ∷ s) h = ground (arith, split_on_pair-lacks a b (d ∷ s))

pub split_on_pair-append :
    (a b : ℕ) (s t : List ℕ)
    → lacks a s ≡ true
    → split_on_pair a b (s ++ (a ∷ b ∷ t)) ≡ s ∷ split_on_pair a b t
unfolding split_on_pair
split_on_pair-append a b [] t h = ground arith
split_on_pair-append a b (c ∷ []) t h = ground arith
split_on_pair-append a b (c ∷ d ∷ s) t h = ground (arith, split_on_pair-append a b (d ∷ s) t)

-- `s.ends_with(pair)`
unfoldable pub ends_with_pair : ℕ → ℕ → List ℕ → Bool
ends_with_pair a b [] = false
ends_with_pair a b (c ∷ []) = false
ends_with_pair a b (c ∷ d ∷ []) = (c == a) && (d == b)
ends_with_pair a b (c ∷ d ∷ e ∷ s) = ends_with_pair a b (d ∷ e ∷ s)

pub ends_with_pair-append : (a b : ℕ) (s : List ℕ) → ends_with_pair a b (s ++ (a ∷ b ∷ [])) ≡ true
unfolding ends_with_pair
ends_with_pair-append a b [] = ground arith
ends_with_pair-append a b (c ∷ []) = ground arith
ends_with_pair-append a b (c ∷ d ∷ []) = ground arith
ends_with_pair-append a b (c ∷ d ∷ e ∷ s) = ends_with_pair-append a b (d ∷ e ∷ s)

abbrev is_just : ℕ → List ℕ → Bool
is_just b [] = false
is_just b (c ∷ []) = c == b
is_just b (c ∷ d ∷ s) = false

-- `s.trim_end_matches(pair)`: from the end, a pair that only pairs follow is taken off. The second
-- byte of a pair is left over until the first is met.
unfoldable pub trim_end_pair : ℕ → ℕ → List ℕ → List ℕ
trim_end_pair a b [] = []
trim_end_pair a b (c ∷ s) =
    let rest = trim_end_pair a b s in if (c == a) && is_just b rest then [] else c ∷ rest

pub trim_end_pair-append :
    (a b : ℕ) (s : List ℕ)
    → (b == a) ≡ false
    → lacks a s ≡ true
    → trim_end_pair a b (s ++ (a ∷ b ∷ [])) ≡ s
unfolding trim_end_pair
trim_end_pair-append a b [] d h = ground arith
trim_end_pair-append a b (c ∷ s) d h = ground (arith, trim_end_pair-append a b s)

pub lacks-append :
    (c : ℕ) (s t : List ℕ) → lacks c s ≡ true → lacks c t ≡ true → lacks c (s ++ t) ≡ true
lacks-append c [] t h k = k
lacks-append c (x ∷ s) t h k = ground (arith, lacks-append c s t)

-- The texts with the byte between them.
abbrev pub join : ℕ → List ℕ → List (List ℕ) → List ℕ
join sep first [] = first
join sep first (s ∷ rest) = first ++ (sep ∷ join sep s rest)

pub split_on-join :
    (sep : ℕ) (first : List ℕ) (rest : List (List ℕ))
    → all (lacks sep) (first ∷ rest) ≡ true
    → split_on sep (join sep first rest) ≡ first ∷ rest
split_on-join sep first [] h = split_on-lacks sep first (ground arith)
split_on-join sep first (s ∷ rest) h =
    split_on-append sep first (join sep s rest) (ground arith)
    ∙ ap (λ pieces. first ∷ pieces) (split_on-join sep s rest (ground arith))

pub lacks-join :
    (c sep : ℕ) (first : List ℕ) (rest : List (List ℕ))
    → (sep == c) ≡ false
    → all (lacks c) (first ∷ rest) ≡ true
    → lacks c (join sep first rest) ≡ true
lacks-join c sep first [] d h = ground arith
lacks-join c sep first (s ∷ rest) d h =
    lacks-append c first (sep ∷ join sep s rest) (ground arith)
      (ground (arith, lacks-join c sep s rest))
