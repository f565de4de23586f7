-- ===== src/Prelude/Result.antt =====
-- `Result`, with `?` as bind.
use mathlib.Core.List.{List, [], ◌∷◌}

pub data Result {ℓ κ} (Error : Type ℓ) (A : Type κ) : Type (ℓ ⊔ κ) where
  ok : A → Result Error A
  err : Error → Result Error A

infixl 5 ◌>>=◌
abbrev pub ◌>>=◌ {ℓ κ μ} :
    {Error : Type ℓ} {A : Type κ} {B : Type μ}
    → Result Error A
    → (A → Result Error B)
    → Result Error B
ok value >>= next = next value
err why >>= next = err why

-- `map(f).collect::<Result<_, _>>()`: the first error ends it.
abbrev pub map_collect {ℓ κ μ} :
    {Error : Type ℓ} {A : Type κ} {B : Type μ}
    → (A → Result Error B)
    → List A
    → Result Error (List B)
map_collect f [] = ok []
map_collect f (x ∷ xs) = f x >>= λ y. map_collect f xs >>= λ ys. ok (y ∷ ys)
