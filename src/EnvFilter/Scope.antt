-- ===== src/EnvFilter/Scope.antt =====
-- The levels of a thread's scope while spans are entered and exited in a nested order.
use tracing.Prelude.{
  ℕ, ◌≤◌, ◌≡◌, refl, sym, ap, ◌∙◌, subst, inl, inr, Bool, true, false, not, ◌&&◌, List, [], ◌∷◌,
  ◌++◌, Option, none, some, ◌==◌, Bool-cases, Option-cases, any, arith,
}
use tracing.Level.{LevelFilter}
use tracing.Level.Compare.Verbosity.{level_verbosity, verbosity}
use tracing.Metadata.{Metadata}
use tracing.FieldMatch.{Values}
use tracing.EnvDirective.{
  CallsiteMatcher, SpanMatcher, matcher, span_level, to_span_matcher, record_update,
}
use tracing.EnvFilter.{
  EnvFilter, get, insert, contains_key, on_enter, on_exit, on_close, on_new_span, on_record,
  register_callsite, is_enabled, enabled_by_scope, matched_interest, static_interest,
}
use tracing.EnvFilter.History.{
  Op, register, open_span, enter_span, exit_span, close_span, record_span, step, run, get-remove,
  run-Follows,
}
use tracing.EnvFilter.Interests.{verbosity-ge}

-- The callbacks of a while in which what is entered on one thread is exited again, in the reverse
-- order; between these there are other callbacks.
pub data Nested (v : Values) : Type 0 where
  done : Nested v
  other : Op v → Nested v → Nested v
  around : ℕ → Nested v → Nested v → Nested v

module _ {v : Values} where
  abbrev pub callbacks : ℕ → Nested v → List (Op v)
  callbacks thread done = []
  callbacks thread (other op rest) = op ∷ callbacks thread rest
  callbacks thread (around id inner rest) =
      enter_span thread id
      ∷ (callbacks thread inner ++ (exit_span thread id ∷ callbacks thread rest))

  -- The callback enters or exits a span on the thread; it opens or closes the span.
  abbrev pub moves : ℕ → Op v → Bool
  moves thread (enter_span t id) = t == thread
  moves thread (exit_span t id) = t == thread
  moves thread op = false

  abbrev pub touches : ℕ → Op v → Bool
  touches id (open_span i meta attrs) = i == id
  touches id (close_span i) = i == id
  touches id op = false

  -- No other callback moves on the thread, and no span is opened or closed while it is entered.
  abbrev pub is_nested : ℕ → Nested v → Bool
  is_nested thread done = true
  is_nested thread (other op rest) = not (moves thread op) && is_nested thread rest
  is_nested thread (around id inner rest) =
      not (any (touches id) (callbacks thread inner))
      && (is_nested thread inner && is_nested thread rest)

  run-append : (a b : List (Op v)) (f : EnvFilter v) → run (a ++ b) f ≡ run b (run a f)
  unfolding run
  run-append [] b f = refl
  run-append (op ∷ a) b f = run-append a b (step op f)

  -- Registering a callsite changes neither the scope nor the spans.
  register-rest :
      (meta : Metadata) (f : EnvFilter v)
      → ((step (register meta) f).scope ≡ f.scope) × ((step (register meta) f).by_id ≡ f.by_id)
  unfolding step register_callsite static_interest
  register-rest meta f = ground (arith, by_match (matcher f.dynamics meta))
    where
      by_match :
          (m : Option (CallsiteMatcher v))
          → ((matched_interest meta m f).1.scope ≡ f.scope)
            × ((matched_interest meta m f).1.by_id ≡ f.by_id)
      by_match none = (refl, refl)
      by_match (some m) = (refl, refl)

  step-scope :
      (thread : ℕ) (op : Op v) (f : EnvFilter v)
      → moves thread op ≡ false
      → (step op f).scope thread ≡ f.scope thread
  unfolding step on_enter on_exit on_close on_new_span on_record register_callsite static_interest
  step-scope thread (register meta) f h = ap (λ s. s thread) (register-rest meta f).0
  step-scope thread (open_span id meta attrs) f h = ground arith
  step-scope thread (enter_span t id) f h = ground arith
  step-scope thread (exit_span t id) f h = ground arith
  step-scope thread (close_span id) f h = ground arith
  step-scope thread (record_span id values) f h = ground arith

  contains_key-insert_other :
      (k j : ℕ) (x : SpanMatcher v) (m : List (ℕ × SpanMatcher v))
      → (j == k) ≡ false
      → contains_key k (insert j x m) ≡ contains_key k m
  contains_key-insert_other k j x m h = ground (arith, get-remove k j m)

  contains_key-insert_known :
      (k j : ℕ) (x y : SpanMatcher v) (m : List (ℕ × SpanMatcher v))
      → get j m ≡ some y
      → contains_key k (insert j x m) ≡ contains_key k m
  contains_key-insert_known k j x y m h = elim (Bool-cases (j == k)) [
    | inl e ↦ ground arith
    | inr e ↦ contains_key-insert_other k j x m e
  ]

  step-contains_key :
      (id : ℕ) (op : Op v) (f : EnvFilter v)
      → touches id op ≡ false
      → contains_key id (step op f).by_id ≡ contains_key id f.by_id
  unfolding step on_enter on_exit on_close on_new_span on_record register_callsite static_interest
  step-contains_key id (register meta) f h = ap (contains_key id) (register-rest meta f).1
  step-contains_key id (open_span i meta attrs) f h =
      elim (Option-cases (get meta.fields.callsite f.by_cs)) [
        | inl e ↦ ground arith
        | inr (cs, e) ↦
            ground (arith, contains_key-insert_other id i (to_span_matcher cs attrs) f.by_id h)
      ]
  step-contains_key id (enter_span t i) f h = elim (Option-cases (get i f.by_id)) [
    | inl e ↦ ground arith
    | inr (m, e) ↦ ground (arith, contains_key-insert_known id i (span_level m).1 m f.by_id e)
  ]
  step-contains_key id (exit_span t i) f h = ground arith
  step-contains_key id (close_span i) f h = ground (arith, get-remove id i f.by_id)
  step-contains_key id (record_span i values) f h = elim (Option-cases (get i f.by_id)) [
    | inl e ↦ ground arith
    | inr (m, e) ↦
        ground (arith, contains_key-insert_known id i (record_update values m) m f.by_id e)
  ]

  run-contains_key :
      (id : ℕ) (ops : List (Op v)) (f : EnvFilter v)
      → any (touches id) ops ≡ false
      → contains_key id (run ops f).by_id ≡ contains_key id f.by_id
  unfolding run
  run-contains_key id [] f h = refl
  run-contains_key id (op ∷ ops) f h =
      run-contains_key id ops (step op f) (ground arith) ∙ step-contains_key id op f (ground arith)

  -- What entering a span does, and what exiting it does where it is still known or still is not.
  enter-exit :
      (thread id : ℕ) (f g : EnvFilter v)
      → g.scope thread ≡ (step (enter_span thread id) f).scope thread
      → g.has_dynamics ≡ f.has_dynamics
      → contains_key id g.by_id ≡ contains_key id f.by_id
      → (step (exit_span thread id) g).scope thread ≡ f.scope thread
  unfolding step on_enter on_exit
  enter-exit thread id f g s d k = elim (Option-cases (get id f.by_id)) [
    | inl e ↦ ground arith
    | inr (m, e) ↦ ground arith
  ]

  -- Callbacks in which the spans that the thread enters are exited in the reverse order, and none of
  -- them is opened or closed meanwhile, leave the levels in the thread's scope as they were, whatever
  -- other callbacks and threads do between them.
  pub run-nested :
      (thread : ℕ) (n : Nested v) (f : EnvFilter v)
      → is_nested thread n ≡ true
      → (run (callbacks thread n) f).scope thread ≡ f.scope thread
  unfolding run
  run-nested thread done f h = refl
  run-nested thread (other op rest) f h =
      run-nested thread rest (step op f) (ground arith) ∙ step-scope thread op f (ground arith)
  run-nested thread (around id inner rest) f h =
      let entered = step (enter_span thread id) f in
      let middle = run (callbacks thread inner) entered in
      ap (λ g. g.scope thread)
        (run-append (callbacks thread inner) (exit_span thread id ∷ callbacks thread rest) entered)
      ∙ (run-nested thread rest (step (exit_span thread id) middle) (ground arith)
          ∙ enter-exit thread id f middle (run-nested thread inner entered (ground arith))
              (run-Follows (enter_span thread id ∷ callbacks thread inner) f).same_has
              (run-contains_key id (enter_span thread id ∷ callbacks thread inner) f
                (ground arith)))

  enter_span-scope :
      (thread id : ℕ) (span : SpanMatcher v) (f : EnvFilter v)
      → f.has_dynamics ≡ true
      → get id f.by_id ≡ some span
      → (step (enter_span thread id) f).scope thread ≡ (span_level span).0 ∷ f.scope thread
  unfolding step on_enter
  enter_span-scope thread id span f d g = ground arith

  enabled_in_scope :
      (thread : ℕ) (g : EnvFilter v) (meta : Metadata) (level : LevelFilter)
      (levels : List LevelFilter)
      → g.has_dynamics ≡ true
      → level_verbosity meta.level ≤ verbosity g.dynamics.max_level
      → g.scope thread ≡ level ∷ levels
      → level_verbosity meta.level ≤ verbosity level
      → is_enabled thread g meta ≡ true
  unfolding is_enabled enabled_by_scope
  enabled_in_scope thread g meta level levels d k s l =
      ground
        (arith, verbosity-ge g.dynamics.max_level meta.level k, verbosity-ge level meta.level l)

  -- While a span that has a matcher is entered, and after such nested callbacks in it, the filter
  -- enables what is not more verbose than the span's level was when it was entered, and not more
  -- verbose than all dynamic directives.
  pub is_enabled-entered :
      (thread id : ℕ) (span : SpanMatcher v) (n : Nested v) (f : EnvFilter v) (meta : Metadata)
      → f.has_dynamics ≡ true
      → get id f.by_id ≡ some span
      → is_nested thread n ≡ true
      → level_verbosity meta.level ≤ verbosity (span_level span).0
      → level_verbosity meta.level ≤ verbosity f.dynamics.max_level
      → is_enabled thread (run (enter_span thread id ∷ callbacks thread n) f) meta ≡ true
  unfolding run
  is_enabled-entered thread id span n f meta d g h l k =
      let entered = step (enter_span thread id) f in
      let after = run-Follows (enter_span thread id ∷ callbacks thread n) f in
      enabled_in_scope thread (run (callbacks thread n) entered) meta (span_level span).0
        (f.scope thread) (after.same_has ∙ d)
        (subst (λ x. level_verbosity meta.level ≤ verbosity x.max_level) (sym after.same_dynamics)
          k)
        (run-nested thread n entered h ∙ enter_span-scope thread id span f d g) l
