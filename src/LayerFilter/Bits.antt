-- ===== src/LayerFilter/Bits.antt =====
-- What the operations on masks do to the bit of one filter.
use tracing.Prelude.{
  ℕ, zero, suc, ◌<◌, ◌≡◌, refl, Bool, true, false, not, ◌&&◌, ◌||◌, ◌==◌, if◌then◌else◌, Bool-cases,
  arith, inl, inr, ltb, ◌∙◌, ap,
}
use tracing.LayerFilter.{Mask, all_below, is_max, any_enabled, one_bit, set, is_enabled}

all_below-at : (n : ℕ) (b : Mask) (i : ℕ) → all_below n b ≡ true → i < n → b i ≡ true
all_below-at zero b i h l = absurd (omega (arith, l))
all_below-at (suc n) b i h l = elim (Bool-cases (i == n)) [
  | inl e ↦ ground arith
  | inr e ↦ all_below-at n b i (ground arith) (ground arith)
]

-- No single bit is the mask that stands for no filter.
is_max-one_bit : (id : ℕ) → is_max (one_bit id) ≡ false
unfolding is_max
is_max-one_bit id = elim (Bool-cases (is_max (one_bit id))) [
  | inl e ↦ ground (
    arith,
    all_below-at 64 (one_bit id) 0 e (omega arith),
    all_below-at 64 (one_bit id) 1 e (omega arith),
  )
  | inr e ↦ e
]

-- `set` writes the bit of its filter, and no other.
pub set-one_bit :
    (map : Mask) (id : ℕ) (enabled : Bool) (i : ℕ)
    → set map (one_bit id) enabled i ≡ (if id == i then not enabled else map i)
unfolding set
set-one_bit map id enabled i = rw (is_max-one_bit id) (by_test enabled)
  where
    by_test :
        (b : Bool)
        → if◌then◌else◌ {A = Mask} b
            (λ j. map j && not (one_bit id j))
            (λ j. map j || one_bit id j)
            i
          ≡ (if id == i then not b else map i)
    by_test true = ground arith
    by_test false = ground arith

all_below-one_bit :
    (n id : ℕ) (map : Mask)
    → all_below n (λ i. not (map i && one_bit id i)) ≡ (if ltb id n then not (map id) else true)
all_below-one_bit zero id map = ground arith
all_below-one_bit (suc n) id map = ground (arith, all_below-one_bit n id map)

ltb-true : (m n : ℕ) → m < n → ltb m n ≡ true
ltb-true m n h = ground (arith, h)

-- `is_enabled` reads the bit of its filter.
pub is_enabled-one_bit :
    (map : Mask) (id : ℕ) → id < 64 → is_enabled map (one_bit id) ≡ not (map id)
unfolding is_enabled
is_enabled-one_bit map id h =
    all_below-one_bit 64 id map ∙ ap (λ b. if b then not (map id) else true) (ltb-true id 64 h)

max_at : (b : Mask) (i : ℕ) → is_max b ≡ true → i < 64 → b i ≡ true
unfolding is_max
max_at b i h l = all_below-at 64 b i h l

-- While the bit of one filter is clear, `any_enabled` holds.
pub any_enabled-clear : (map : Mask) (id : ℕ) → id < 64 → map id ≡ false → any_enabled map ≡ true
unfolding any_enabled
any_enabled-clear map id h e = elim (Bool-cases (is_max map)) [
  | inl d ↦ let bit = max_at map id d h in cc
  | inr d ↦ rw d refl
]
