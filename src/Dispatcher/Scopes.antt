-- ===== src/Dispatcher/Scopes.antt =====
-- The dispatchers that a thread is given, against lexical scopes.
use tracing.Prelude.{
  ℕ, ◌+◌, ◌-◌, ◌%◌, ◌^◌, ◌<◌, ◌≡◌, refl, ap, sym, subst, inl, inr, Bool-cases, ◌∙◌, Bool, true,
  false, not, ◌&&◌, List, [], ◌∷◌, ◌++◌, Option, some, ◌==◌, if◌then◌else◌, max, arith,
}
use tracing.Dispatcher.{
  System, Program, finished, scope, dispatch, or_else, get_global, set_default, drop_guard, leave,
  begin, exec, current, with_state,
}

module _ {D : Type 0} where
  -- No scope is opened in it.
  abbrev pub is_plain : Program D → Bool
  is_plain finished = true
  is_plain (scope d body rest) = false
  is_plain (dispatch body rest) = is_plain body && is_plain rest

  -- No scope is opened while a dispatcher is called.
  abbrev pub is_flat : Program D → Bool
  is_flat finished = true
  is_flat (scope d body rest) = is_flat body && is_flat rest
  is_flat (dispatch body rest) = is_plain body && is_flat rest

  -- How many scopes are open at once.
  abbrev pub depth : Program D → ℕ
  depth finished = 0
  depth (scope d body rest) = max (depth body + 1) (depth rest)
  depth (dispatch body rest) = depth rest

module _ {D : Type 0} (NONE : D) (global : D) where
  -- What a closure is given, where `scoped` says whether any thread has a scope.
  abbrev chosen : Bool → Option D → D
  chosen scoped default = if scoped then or_else default global else global

  -- Within the call of a dispatcher there is none if there are scopes.
  abbrev pub nested : Bool → Program D → List D
  nested scoped finished = []
  nested scoped (scope d body rest) = []
  nested scoped (dispatch body rest) =
      (if scoped then NONE else global) ∷ (nested scoped body ++ nested scoped rest)

  -- What a program is given by the scopes around each place.
  abbrev pub lexical : Bool → Option D → Program D → List D
  lexical scoped default finished = []
  lexical scoped default (scope d body rest) =
      lexical true (some d) body ++ lexical scoped default rest
  lexical scoped default (dispatch body rest) =
      chosen scoped default ∷ (nested scoped body ++ lexical scoped default rest)

  -- A state of the thread, outside any call of a dispatcher if `can_enter`.
  pub record IsAt (thread : ℕ) (count : ℕ) (default : Option D) (can_enter : Bool) (s : System D)
      : Type 0 where
    pub on_count : s.scoped_count ≡ count
    pub on_default : (s.current_state thread).default ≡ default
    pub on_can_enter : (s.current_state thread).can_enter ≡ can_enter
    pub on_global : get_global NONE s ≡ global

  begin-nested :
      (thread count : ℕ) (default : Option D) (can_enter : Bool) (s : System D)
      → (can_enter && not (count == 0)) ≡ false
      → IsAt thread count default can_enter s
      → begin NONE thread s ≡ (if not (count == 0) then NONE else global, (false, s))
  unfolding begin
  begin-nested thread count default can_enter s h a =
      ground (arith, a.on_count, a.on_can_enter, a.on_global)

  -- A call of `get_default`, from what its parts do.
  exec-dispatch :
      (thread : ℕ) (body rest : Program D) (s : System D) (d : D) (entered : Bool)
      (s1 s2 : System D)
      → begin NONE thread s ≡ (d, (entered, s1))
      → (exec NONE thread body s1).1 ≡ s2
      → exec NONE thread (dispatch body rest) s ≡ (
        d ∷ ((exec NONE thread body s1).0 ++ (exec NONE thread rest (leave thread entered s2)).0),
        (exec NONE thread rest (leave thread entered s2)).1,
      )
  unfolding exec
  exec-dispatch thread body rest s d entered s1 s2 b e =
      ap (λ q. after q.0 q.1.0 (exec NONE thread body q.1.1)) b
      ∙ ap (λ t. after d entered ((exec NONE thread body s1).0, t)) e
    where
      after : D → Bool → List D × System D → List D × System D
      after d entered r =
          let q = exec NONE thread rest (leave thread entered r.1) in (d ∷ (r.0 ++ q.0), q.1)

  exec-nested :
      (thread : ℕ) (p : Program D) (count : ℕ) (default : Option D) (can_enter : Bool)
      (s : System D)
      → is_plain p ≡ true
      → (can_enter && not (count == 0)) ≡ false
      → IsAt thread count default can_enter s
      → ((exec NONE thread p s).0 ≡ nested (not (count == 0)) p) × ((exec NONE thread p s).1 ≡ s)
  unfolding exec
  exec-nested thread finished count default can_enter s h k a = (refl, refl)
  exec-nested thread (scope d body rest) count default can_enter s h k a = ground arith
  exec-nested thread (dispatch body rest) count default can_enter s h k a =
      let b = begin-nested thread count default can_enter s k a in
      let (x, y) = exec-nested thread body count default can_enter s (ground arith) k a in
      let (z, w) = exec-nested thread rest count default can_enter s (ground arith) k a in
      (
        ap (λ q. q.0) (exec-dispatch thread body rest s _ false s s b y)
            ∙ (ap
                  (λ ds.
                    (if not (count == 0) then NONE else global)
                    ∷ (ds ++ (exec NONE thread rest s).0))
                  x
                ∙ ap
                    (λ ds.
                      (if not (count == 0) then NONE else global)
                      ∷ (nested (not (count == 0)) body ++ ds))
                    z),
        ap (λ q. q.1) (exec-dispatch thread body rest s _ false s s b y) ∙ w,
      )

  -- Entering and leaving the state of a thread around a call.
  begin-IsAt :
      (thread count : ℕ) (default : Option D) (s : System D)
      → (count == 0) ≡ false
      → IsAt thread count default true s
      → (s1 : System D) × (begin NONE thread s ≡ (or_else default global, (true, s1)))
        × IsAt thread count default false s1
        × IsAt thread count default true (leave thread true s1)
  unfolding begin current get_global
  begin-IsAt thread count default s h a = (
    with_state thread (record (s.current_state thread) { can_enter = false }) s,
    ground (arith, a.on_count, a.on_can_enter, a.on_global, a.on_default),
    record {
      on_count = a.on_count;
      on_default = ground (arith, a.on_default);
      on_can_enter = ground arith;
      on_global = a.on_global;
    },
    record {
      on_count = a.on_count;
      on_default = ground (arith, a.on_default);
      on_can_enter = ground arith;
      on_global = a.on_global;
    },
  )

  set_default-IsAt :
      (thread count : ℕ) (default : Option D) (d : D) (s : System D)
      → count + 1 < 2 ^ 64
      → IsAt thread count default true s
      → IsAt thread (count + 1) (some d) true (set_default thread d s).1
        × ((set_default thread d s).0 ≡ default)
  unfolding set_default get_global
  set_default-IsAt thread count default d s h a = (
    record {
      on_count = ap (λ n. (n + 1) % 2 ^ 64) a.on_count ∙ omega (arith, h);
      on_default = ground arith;
      on_can_enter = ground arith;
      on_global = a.on_global;
    },
    a.on_default,
  )

  drop_guard-IsAt :
      (thread count : ℕ) (default prior : Option D) (s : System D)
      → count + 1 < 2 ^ 64
      → IsAt thread (count + 1) default true s
      → IsAt thread count prior true (drop_guard thread prior s)
  unfolding drop_guard get_global
  drop_guard-IsAt thread count default prior s h a = record {
    on_count = ap (λ n. (n + (2 ^ 64 - 1)) % 2 ^ 64) a.on_count ∙ omega (arith, h);
    on_default = ground arith;
    on_can_enter = ground (arith, a.on_can_enter);
    on_global = a.on_global;
  }

  exec-call :
      (thread : ℕ) (body rest : Program D) (count : ℕ) (default : Option D) (s s1 : System D)
      (entered : Bool)
      → begin NONE thread s ≡ (chosen (not (count == 0)) default, (entered, s1))
      → ((exec NONE thread body s1).0 ≡ nested (not (count == 0)) body)
        × ((exec NONE thread body s1).1 ≡ s1)
      → (exec NONE thread rest (leave thread entered s1)).0
        ≡ lexical (not (count == 0)) default rest
      → ((exec NONE thread (dispatch body rest) s).0
          ≡ lexical (not (count == 0)) default (dispatch body rest))
        × ((exec NONE thread (dispatch body rest) s).1
            ≡ (exec NONE thread rest (leave thread entered s1)).1)
  exec-call thread body rest count default s s1 entered b n z =
      let first = chosen (not (count == 0)) default in
      let e = exec-dispatch thread body rest s first entered s1 s1 b n.1 in
      (
        ap (λ q. q.0) e
            ∙ (ap (λ ds. first ∷ (ds ++ (exec NONE thread rest (leave thread entered s1)).0)) n.0
                ∙ ap (λ ds. first ∷ (nested (not (count == 0)) body ++ ds)) z),
        ap (λ q. q.1) e,
      )

  -- A program that opens no scope while a dispatcher is called is given, at each call of
  -- `get_default`, the dispatcher of the innermost scope around it or else the global one, and none
  -- within the call of a dispatcher, unless there are no scopes at all. At its end the default and the
  -- count of scopes are as at its start. The count has room for the scopes that it opens.
  pub exec-lexical :
      (thread : ℕ) (p : Program D) (count : ℕ) (default : Option D) (s : System D)
      → is_flat p ≡ true
      → count + depth p < 2 ^ 64
      → IsAt thread count default true s
      → ((exec NONE thread p s).0 ≡ lexical (not (count == 0)) default p)
        × IsAt thread count default true (exec NONE thread p s).1
  unfolding exec
  exec-lexical thread finished count default s f h a = (refl, a)
  exec-lexical thread (scope d body rest) count default s f h a =
      let room : count + 1 < 2 ^ 64 = omega (arith, h) in
      let (b, g) = set_default-IsAt thread count default d s room a in
      let (x, y) =
        exec-lexical thread body (count + 1) (some d) (set_default thread d s).1 (ground arith)
          (omega (arith, h)) b in
      let inside = (exec NONE thread body (set_default thread d s).1).1 in
      let ended = drop_guard thread (set_default thread d s).0 inside in
      let left = drop_guard-IsAt thread count (some d) (set_default thread d s).0 inside room y in
      let (z, w) =
        exec-lexical thread rest count default ended (ground arith) (omega (arith, h))
          (subst (λ o. IsAt thread count o true ended) g left) in
      (ap2 (x ∙ ap (λ o. lexical o (some d) body) (open_count count)) z, w)
    where
      open_count : (n : ℕ) → not ((n + 1) == 0) ≡ true
      open_count n = ground arith

      ap2 : {xs ys zs ws : List D} → xs ≡ ys → zs ≡ ws → xs ++ zs ≡ ys ++ ws
      ap2 h k = cc
  exec-lexical thread (dispatch body rest) count default s f h a = elim (Bool-cases (count == 0)) [
    | inl e ↦
        let k : (true && not (count == 0)) ≡ false = ground arith in
        let b : begin NONE thread s ≡ (chosen (not (count == 0)) default, (false, s)) =
          begin-nested thread count default true s k a ∙ ap (λ d. (d, (false, s))) (ground arith) in
        let (z, w) = exec-lexical thread rest count default s (ground arith) h a in
        let r =
          exec-call thread body rest count default s s false b
            (exec-nested thread body count default true s (ground arith) k a) z in
        (r.0, subst (IsAt thread count default true) (sym r.1) w)
    | inr e ↦
        let (s1, b, inside, outside) = begin-IsAt thread count default s e a in
        let c : begin NONE thread s ≡ (chosen (not (count == 0)) default, (true, s1)) =
          b ∙ ap (λ d. (d, (true, s1))) (ground arith) in
        let (z, w) =
          exec-lexical thread rest count default (leave thread true s1) (ground arith) h outside in
        let r =
          exec-call thread body rest count default s s1 true c
            (exec-nested thread body count default false s1 (ground arith) refl inside) z in
        (r.0, subst (IsAt thread count default true) (sym r.1) w)
  ]
