-- ===== src/Callsite/Registration/Invariant.antt =====
-- What holds of the callsite list while threads push to it.
use tracing.Prelude.{
  ℕ, ◌≡◌, refl, sym, subst, ◌≢◌, List, [], ◌∷◌, Option, none, some, In, inl, inr, arith,
}
use tracing.Callsite.Registration.{
  unregistered, registering, registered, Pc, idle, load_head, store_next, exchange_head, finish,
  panicked, System, update, start_system,
}

-- Following `next` from `p` reads the callsites `xs` and then the null pointer.
abbrev pub Seg : (ℕ → Option ℕ) → Option ℕ → List ℕ → Type 0
Seg next none [] = Unit {0}
Seg next none (x ∷ xs) = ⊥
Seg next (some p) [] = ⊥
Seg next (some p) (x ∷ xs) = (p ≡ x) × Seg next (next x) xs

abbrev pub Distinct : List ℕ → Type 0
Distinct [] = Unit {0}
Distinct (x ∷ xs) = (¬ In x xs) × Distinct xs

-- The callsite that a thread has claimed.
abbrev pub claimed : Pc → Option ℕ
claimed idle = none
claimed (load_head c) = some c
claimed (store_next c h) = some c
claimed (exchange_head c h) = some c
claimed (finish c) = some c
claimed panicked = none

-- The callsite that it has still to push.
abbrev pub to_push : Pc → Option ℕ
to_push idle = none
to_push (load_head c) = some c
to_push (store_next c h) = some c
to_push (exchange_head c h) = some c
to_push (finish c) = none
to_push panicked = none

pub record Inv (s : System) (xs : List ℕ) : Type 0 where
  pub chain : Seg s.next s.list_head xs
  pub distinct : Distinct xs
  pub calm : (i : ℕ) → s.pc i ≢ panicked
  pub in_claim : (i c : ℕ) → claimed (s.pc i) ≡ some c → s.registration c ≡ registering
  pub alone : (i j c : ℕ) → claimed (s.pc i) ≡ some c → claimed (s.pc j) ≡ some c → i ≡ j
  pub outside : (i c : ℕ) → to_push (s.pc i) ≡ some c → ¬ In c xs
  pub seen : (i c h : ℕ) → s.pc i ≡ store_next c (some h) → In h xs
  pub stored : (i c : ℕ) (h : Option ℕ) → s.pc i ≡ exchange_head c h → s.next c ≡ h
  pub pushed : (i c : ℕ) → s.pc i ≡ finish c → In c xs
  pub inside : (c : ℕ) → s.registration c ≡ registered → In c xs
  pub fresh : (c : ℕ) → s.registration c ≡ unregistered → ¬ In c xs

pub Inv-start : Inv start_system []
Inv-start = record {
  chain = tt;
  distinct = tt;
  calm = λ i h. cc;
  in_claim = λ i c h. cc;
  alone = λ i j c h k. cc;
  outside = λ i c h. cc;
  seen = λ i c h e. cc;
  stored = λ i c h e. cc;
  pushed = λ i c e. cc;
  inside = λ c e. cc;
  fresh = λ c e m. m refl;
}

update_ne {ℓ} : {A : Type ℓ} (f : ℕ → A) (i : ℕ) (a : A) (j : ℕ) → j ≢ i → update f i a j ≡ f j
update_ne f i a j h = ground arith

-- A write to a node that is not in the segment leaves it.
pub Seg-update :
    (next : ℕ → Option ℕ) (p : Option ℕ) (xs : List ℕ) (c : ℕ) (v : Option ℕ)
    → ¬ In c xs
    → Seg next p xs
    → Seg (update next c v) p xs
Seg-update next none [] c v h g = tt
Seg-update next none (x ∷ xs) c v h g = absurd g
Seg-update next (some p) [] c v h g = absurd g
Seg-update next (some p) (x ∷ xs) c v h g =
    let apart = update_ne next c v x (λ e. h (inl (sym e))) in
    let rest = Seg-update next (next x) xs c v (λ m. h (inr m)) g.1 in
    (g.0, subst (λ q. Seg (update next c v) q xs) (sym apart) rest)

-- The head of a segment stands in it.
pub Seg-head :
    (next : ℕ → Option ℕ) (p : Option ℕ) (xs : List ℕ) (x : ℕ)
    → Seg next p xs
    → p ≡ some x
    → In x xs
Seg-head next none xs x g e = cc
Seg-head next (some p) [] x g e = absurd g
Seg-head next (some p) (y ∷ xs) x g e = inl (ground arith)
