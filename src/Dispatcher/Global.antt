-- ===== src/Dispatcher/Global.antt =====
-- tracing-core/src/dispatcher.rs: `set_global_default` called by any threads, one atomic operation to a
-- step, in sequentially consistent order.
use tracing.Prelude.{
  ℕ, ◌≡◌, refl, ap, sym, subst, ◌⊎◌, inl, inr, Bool, true, false, Option, none, some, ◌==◌,
  if◌then◌else◌, arith,
}
use tracing.Dispatcher.{Init, uninitialized, initializing, initialized}

-- Where a thread is in `set_global_default`.
pub data Pc (D : Type 0) : Type 0 where
  idle : Pc D
  called : D → Pc D
  won : D → Pc D
  written : D → Pc D
  published : D → Pc D
  returned_ok : D → Pc D
  returned_err : Pc D

-- `GLOBAL_INIT`, `GLOBAL_DISPATCH` and `EXISTS`, and the threads
pub record Shared (D : Type 0) : Type 0 where
  pub global_init : Init
  pub global_dispatch : D
  pub exists : Bool
  pub pc : ℕ → Pc D

abbrev pub at {ℓ} : {A : Type ℓ} → ℕ → A → (ℕ → A) → ℕ → A
at t x f u = if u == t then x else f u

Init-cases : (i : Init) → (i ≡ uninitialized) ⊎ ((i ≡ initializing) ⊎ (i ≡ initialized))
Init-cases uninitialized = inl refl
Init-cases initializing = inr (inl refl)
Init-cases initialized = inr (inr refl)

module _ {D : Type 0} where
  abbrev pub initial : D → Shared D
  initial NONE = record {
    global_init = uninitialized;
    global_dispatch = NONE;
    exists = false;
    pc = λ t. idle;
  }

  -- `compare_exchange(UNINITIALIZED, INITIALIZING)`
  abbrev exchange_at : Shared D → ℕ → D → Init → Shared D
  exchange_at s t d init = elim init [
    | uninitialized ↦ record s { global_init = initializing; pc = at t (won d) s.pc }
    | initializing ↦ record s { pc = at t returned_err s.pc }
    | initialized ↦ record s { pc = at t returned_err s.pc }
  ]

  unfoldable pub exchange : ℕ → D → Shared D → Shared D
  exchange t d s = exchange_at s t d s.global_init

  -- The operations of `set_global_default`.
  pub data Step : Shared D → Shared D → Type 0 where
    call :
        (s : Shared D) (t : ℕ) (d : D)
        → s.pc t ≡ idle
        → Step s (record s { pc = at t (called d) s.pc })
    compare_exchange : (s : Shared D) (t : ℕ) (d : D) → s.pc t ≡ called d → Step s (exchange t d s)
    write :
        (s : Shared D) (t : ℕ) (d : D)
        → s.pc t ≡ won d
        → Step s (record s { global_dispatch = d; pc = at t (written d) s.pc })
    publish :
        (s : Shared D) (t : ℕ) (d : D)
        → s.pc t ≡ written d
        → Step s (record s { global_init = initialized; pc = at t (published d) s.pc })
    set_exists :
        (s : Shared D) (t : ℕ) (d : D)
        → s.pc t ≡ published d
        → Step s (record s { exists = true; pc = at t (returned_ok d) s.pc })

  pub data Reach (NONE : D) : Shared D → Type 0 where
    here : Reach NONE (initial NONE)
    next : {s u : Shared D} → Reach NONE s → Step s u → Reach NONE u

  -- `get_global`
  unfoldable pub read_global : D → Shared D → D
  read_global NONE s = elim s.global_init [
    | uninitialized ↦ NONE
    | initializing ↦ NONE
    | initialized ↦ s.global_dispatch
  ]

  -- The thread has won the exchange; it has yet to publish; it has written, and what.
  abbrev is_winner : Pc D → Bool
  is_winner idle = false
  is_winner (called d) = false
  is_winner (won d) = true
  is_winner (written d) = true
  is_winner (published d) = true
  is_winner (returned_ok d) = true
  is_winner returned_err = false

  abbrev has_published : Pc D → Bool
  has_published idle = false
  has_published (called d) = false
  has_published (won d) = false
  has_published (written d) = false
  has_published (published d) = true
  has_published (returned_ok d) = true
  has_published returned_err = false

  abbrev wrote : Pc D → Option D
  wrote idle = none
  wrote (called d) = none
  wrote (won d) = none
  wrote (written d) = some d
  wrote (published d) = some d
  wrote (returned_ok d) = some d
  wrote returned_err = none

  -- At most one thread wins, none before the exchange; who has published has made the state
  -- `initialized`; the dispatcher is the one that the winner wrote.
  record IsSingle (s : Shared D) : Type 0 where
    before : s.global_init ≡ uninitialized → (t : ℕ) → is_winner (s.pc t) ≡ false
    one : (t u : ℕ) → is_winner (s.pc t) ≡ true → is_winner (s.pc u) ≡ true → t ≡ u
    done : (t : ℕ) → has_published (s.pc t) ≡ true → s.global_init ≡ initialized
    value : (t : ℕ) (d : D) → wrote (s.pc t) ≡ some d → s.global_dispatch ≡ d

  failed-IsSingle :
      (s : Shared D) (t : ℕ) (d : D)
      → s.pc t ≡ called d
      → IsSingle s
      → IsSingle (record s { pc = at t returned_err s.pc })
  failed-IsSingle s t d e i = record {
    before = λ h a. ground (arith, i.before h a);
    one = λ a b h k. ground (arith, i.one a b);
    done = λ a h. ground (arith, i.done a);
    value = λ a x h. ground (arith, i.value a x);
  }

  Step-IsSingle : {s u : Shared D} → Step s u → IsSingle s → IsSingle u
  unfolding exchange
  Step-IsSingle (call s t d e) i = record {
    before = λ h a. ground (arith, i.before h a);
    one = λ a b h k. ground (arith, i.one a b);
    done = λ a h. ground (arith, i.done a);
    value = λ a x h. ground (arith, i.value a x);
  }
  Step-IsSingle (compare_exchange s t d e) i = elim (Init-cases s.global_init) [
    | inl h ↦ subst IsSingle (sym (ap (exchange_at s t d) h)) (record {
      before = λ g a. ground arith;
      one = λ a b j k. ground (arith, i.before h a, i.before h b);
      done = λ a g. ground (arith, i.done a, i.before h a);
      value = λ a x g. ground (arith, i.value a x);
    })
    | inr (inl h) ↦ subst IsSingle (sym (ap (exchange_at s t d) h)) (failed-IsSingle s t d e i)
    | inr (inr h) ↦ subst IsSingle (sym (ap (exchange_at s t d) h)) (failed-IsSingle s t d e i)
  ]
  Step-IsSingle (write s t d e) i = record {
    before = λ h a. ground (arith, i.before h a, i.before h t);
    one = λ a b h k. ground (arith, i.one a b, i.one a t, i.one t b);
    done = λ a h. ground (arith, i.done a);
    value = λ a x h. ground (arith, i.value a x, i.one a t);
  }
  Step-IsSingle (publish s t d e) i = record {
    before = λ h a. ground arith;
    one = λ a b h k. ground (arith, i.one a b, i.one a t, i.one t b);
    done = λ a h. refl;
    value = λ a x h. ground (arith, i.value a x, i.value t d);
  }
  Step-IsSingle (set_exists s t d e) i = record {
    before = λ h a. ground (arith, i.before h a, i.before h t);
    one = λ a b h k. ground (arith, i.one a b, i.one a t, i.one t b);
    done = λ a h. ground (arith, i.done a, i.done t);
    value = λ a x h. ground (arith, i.value a x, i.value t d);
  }

  Reach-IsSingle : {NONE : D} {s : Shared D} → Reach NONE s → IsSingle s
  Reach-IsSingle here = record {
    before = λ h a. refl;
    one = λ a b h k. ground arith;
    done = λ a h. ground arith;
    value = λ a x h. ground arith;
  }
  Reach-IsSingle (next r p) = Step-IsSingle p (Reach-IsSingle r)

  -- In whatever order the threads' operations come, at most one call of `set_global_default` returns
  -- `Ok`, and when it has, `get_global` gives its dispatcher.
  pub Reach-returned_ok :
      (NONE : D) (s : Shared D) (t u : ℕ) (d e : D)
      → Reach NONE s
      → s.pc t ≡ returned_ok d
      → s.pc u ≡ returned_ok e
      → (t ≡ u) × (read_global NONE s ≡ d)
  unfolding read_global
  Reach-returned_ok NONE s t u d e r h k =
      let i = Reach-IsSingle r in
      (
        i.one t u (ap is_winner h) (ap is_winner k),
        ground (arith, i.done t (ap has_published h), i.value t d (ap wrote h)),
      )
