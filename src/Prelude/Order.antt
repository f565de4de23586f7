-- ===== src/Prelude/Order.antt =====
-- Three-way comparisons: `Ordering` and its methods, the comparisons that the standard library
-- derives for options and sequences, and the laws of a total order.
use Prim.Native.Nat.{compare, Ordering}
use Prim.Native.Nat.Ordering.{lt, eq, gt}
use mathlib.Core.Path.{◌≡◌, refl, ap}
use mathlib.Core.Option.{Option, none, some}
use mathlib.Core.List.{List, [], ◌∷◌}
use native.Mathlib.Omega.{arith}

-- `Ordering::reverse`
abbrev pub reverse : Ordering → Ordering
reverse lt = gt
reverse eq = eq
reverse gt = lt

-- `Ordering::then_with`
abbrev pub then_with : Ordering → Ordering → Ordering
then_with eq o = o
then_with lt o = lt
then_with gt o = gt

-- What `Ord` asks of `cmp`.
pub record IsOrder {ℓ} {K : Type ℓ} (cmp : K → K → Ordering) : Type ℓ where
  pub cmp_reverse : (x y : K) → cmp y x ≡ reverse (cmp x y)
  pub eq_of_cmp : (x y : K) → cmp x y ≡ eq → x ≡ y
  pub cmp_refl : (x : K) → cmp x x ≡ eq
  pub lt_trans : (a b c : K) → cmp a b ≡ lt → cmp b c ≡ lt → cmp a c ≡ lt

pub compare-IsOrder : IsOrder compare
compare-IsOrder = record {
  cmp_refl = λ a. ground arith;
  eq_of_cmp = λ a b h. ground arith;
  cmp_reverse = λ a b. ground arith;
  lt_trans = λ a b c h k. ground arith;
}

module _ {ℓ} {K : Type ℓ} (cmp : K → K → Ordering) where
  -- `Ord for Option`: `None` is the least.
  abbrev pub option_cmp : Option K → Option K → Ordering
  option_cmp none none = eq
  option_cmp none (some b) = lt
  option_cmp (some a) none = gt
  option_cmp (some a) (some b) = cmp a b

  -- `Ord` for slices: lexicographic.
  abbrev pub slice_cmp : List K → List K → Ordering
  slice_cmp [] [] = eq
  slice_cmp [] (y ∷ ys) = lt
  slice_cmp (x ∷ xs) [] = gt
  slice_cmp (x ∷ xs) (y ∷ ys) = then_with (cmp x y) (slice_cmp xs ys)

module _ {ℓ} {K : Type ℓ} {cmp : K → K → Ordering} (o : IsOrder cmp) where
  option_cmp_trans :
      (a b c : Option K)
      → option_cmp cmp a b ≡ lt
      → option_cmp cmp b c ≡ lt
      → option_cmp cmp a c ≡ lt
  option_cmp_trans none none c h k = ground arith
  option_cmp_trans none (some b) none h k = ground arith
  option_cmp_trans none (some b) (some c) h k = refl
  option_cmp_trans (some a) none c h k = ground arith
  option_cmp_trans (some a) (some b) none h k = ground arith
  option_cmp_trans (some a) (some b) (some c) h k = o.lt_trans a b c h k

  option_cmp_refl : (a : Option K) → option_cmp cmp a a ≡ eq
  option_cmp_refl none = refl
  option_cmp_refl (some a) = o.cmp_refl a

  eq_of_option_cmp : (a b : Option K) → option_cmp cmp a b ≡ eq → a ≡ b
  eq_of_option_cmp none none h = refl
  eq_of_option_cmp none (some b) h = ground arith
  eq_of_option_cmp (some a) none h = ground arith
  eq_of_option_cmp (some a) (some b) h = cc (o.eq_of_cmp a b h)

  option_cmp-reverse : (a b : Option K) → option_cmp cmp b a ≡ reverse (option_cmp cmp a b)
  option_cmp-reverse none none = refl
  option_cmp-reverse none (some b) = refl
  option_cmp-reverse (some a) none = refl
  option_cmp-reverse (some a) (some b) = o.cmp_reverse a b

  pub option_cmp-IsOrder : IsOrder (option_cmp cmp)
  option_cmp-IsOrder = record {
    cmp_refl = option_cmp_refl;
    eq_of_cmp = eq_of_option_cmp;
    cmp_reverse = option_cmp-reverse;
    lt_trans = option_cmp_trans;
  }

  slice_cmp_refl : (a : List K) → slice_cmp cmp a a ≡ eq
  slice_cmp_refl [] = refl
  slice_cmp_refl (x ∷ xs) = ground (arith, o.cmp_refl x, slice_cmp_refl xs)

  eq_of_slice_cmp : (a b : List K) → slice_cmp cmp a b ≡ eq → a ≡ b
  eq_of_slice_cmp [] [] h = refl
  eq_of_slice_cmp [] (y ∷ ys) h = ground arith
  eq_of_slice_cmp (x ∷ xs) [] h = ground arith
  eq_of_slice_cmp (x ∷ xs) (y ∷ ys) h = ground (arith, o.eq_of_cmp x y, eq_of_slice_cmp xs ys)

  slice_cmp-reverse : (a b : List K) → slice_cmp cmp b a ≡ reverse (slice_cmp cmp a b)
  slice_cmp-reverse [] [] = refl
  slice_cmp-reverse [] (y ∷ ys) = refl
  slice_cmp-reverse (x ∷ xs) [] = refl
  slice_cmp-reverse (x ∷ xs) (y ∷ ys) = ground (arith, o.cmp_reverse x y, slice_cmp-reverse xs ys)

  slice_cmp_trans :
      (a b c : List K) → slice_cmp cmp a b ≡ lt → slice_cmp cmp b c ≡ lt → slice_cmp cmp a c ≡ lt
  slice_cmp_trans [] [] c h k = ground arith
  slice_cmp_trans [] (y ∷ ys) [] h k = ground arith
  slice_cmp_trans [] (y ∷ ys) (z ∷ zs) h k = refl
  slice_cmp_trans (x ∷ xs) [] c h k = ground arith
  slice_cmp_trans (x ∷ xs) (y ∷ ys) [] h k = ground arith
  slice_cmp_trans (x ∷ xs) (y ∷ ys) (z ∷ zs) h k =
      ground (arith, slice_cmp_trans xs ys zs, o.lt_trans x y z, o.eq_of_cmp x y, o.eq_of_cmp y z)

  pub slice_cmp-IsOrder : IsOrder (slice_cmp cmp)
  slice_cmp-IsOrder = record {
    cmp_refl = slice_cmp_refl;
    eq_of_cmp = eq_of_slice_cmp;
    cmp_reverse = slice_cmp-reverse;
    lt_trans = slice_cmp_trans;
  }

-- The laws of `Ord` where elements may be equal by `cmp` and yet differ.
pub record IsWeakOrder {ℓ} {K : Type ℓ} (cmp : K → K → Ordering) : Type ℓ where
  pub cmp_refl : (a : K) → cmp a a ≡ eq
  pub cmp_congr : (a b c : K) → cmp a b ≡ eq → cmp a c ≡ cmp b c
  pub cmp_reverse : (a b : K) → cmp b a ≡ reverse (cmp a b)
  pub lt_trans : (a b c : K) → cmp a b ≡ lt → cmp b c ≡ lt → cmp a c ≡ lt

-- Elements compared by a key.
pub by_key-IsWeakOrder {ℓ κ} :
    {A : Type ℓ} {K : Type κ} {cmp : K → K → Ordering} (key : A → K)
    → IsOrder cmp
    → IsWeakOrder {K = A} (λ a b. cmp (key a) (key b))
by_key-IsWeakOrder {cmp} key o = record {
  cmp_refl = λ a. o.cmp_refl (key a);
  cmp_congr = λ a b c h. ap (λ k. cmp k (key c)) (o.eq_of_cmp (key a) (key b) h);
  cmp_reverse = λ a b. o.cmp_reverse (key a) (key b);
  lt_trans = λ a b c. o.lt_trans (key a) (key b) (key c);
}

-- Pairs compared by `cmp` on the first parts, and then on the second.
module _ {ℓ κ} {A : Type ℓ} {B : Type κ} {f : A → A → Ordering} {g : B → B → Ordering}
    (o : IsOrder f) (q : IsOrder g) where
  pub lex-IsOrder : IsOrder {K = A × B} (λ x y. then_with (f x.0 y.0) (g x.1 y.1))
  lex-IsOrder = record {
    cmp_refl = λ x. ground (arith, o.cmp_refl x.0, q.cmp_refl x.1);
    eq_of_cmp = λ x y h. ground (arith, o.eq_of_cmp x.0 y.0, q.eq_of_cmp x.1 y.1);
    cmp_reverse = λ x y. ground (arith, o.cmp_reverse x.0 y.0, q.cmp_reverse x.1 y.1);
    lt_trans = λ x y z h k. ground (
      arith,
      o.lt_trans x.0 y.0 z.0,
      q.lt_trans x.1 y.1 z.1,
      o.eq_of_cmp x.0 y.0,
      o.eq_of_cmp y.0 z.0,
    );
  }

pub reverse-IsOrder {ℓ} :
    {K : Type ℓ} {cmp : K → K → Ordering} → IsOrder cmp → IsOrder (λ a b. reverse (cmp a b))
reverse-IsOrder {cmp} o = record {
  cmp_refl = λ a. ground (arith, o.cmp_refl a);
  eq_of_cmp = λ a b h. ground (arith, o.eq_of_cmp a b);
  cmp_reverse = λ a b. ground (arith, o.cmp_reverse a b);
  lt_trans = λ a b c h k.
      ground (arith, o.lt_trans c b a, o.cmp_reverse a b, o.cmp_reverse b c, o.cmp_reverse a c);
}
