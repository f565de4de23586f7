-- ===== src/EnvFilter/History.antt =====
-- The callbacks of an `EnvFilter` in any order, and what none of them changes.
use tracing.Prelude.{ℕ, ◌≡◌, refl, ◌∙◌, true, false, List, [], ◌∷◌, Option, none, some, ◌==◌, arith}
use tracing.Metadata.{Metadata}
use tracing.FieldMatch.{Values}
use tracing.FieldMatch.Span.{Value}
use tracing.EnvDirective.{CallsiteMatcher, matcher}
use tracing.EnvFilter.{
  EnvFilter, get, remove, insert, contains_key, register_callsite, on_new_span, on_enter, on_exit,
  on_close, on_record, matched_interest, static_interest,
}

-- A callback, with the thread where that matters.
pub data Op (v : Values) : Type 0 where
  register : Metadata → Op v
  open_span : ℕ → Metadata → List (ℕ × Value v) → Op v
  enter_span exit_span : ℕ → ℕ → Op v
  close_span : ℕ → Op v
  record_span : ℕ → List (ℕ × Value v) → Op v

pub get-remove {ℓ} :
    {A : Type ℓ} (k j : ℕ) (m : List (ℕ × A)) → (j == k) ≡ false → get k (remove j m) ≡ get k m
get-remove k j [] h = refl
get-remove k j ((i, x) ∷ m) h = ground (arith, get-remove k j m)

pub contains_key-insert {ℓ} :
    {A : Type ℓ} (k j : ℕ) (x : A) (m : List (ℕ × A))
    → contains_key k m ≡ true
    → contains_key k (insert j x m) ≡ true
contains_key-insert k j x m h = ground (arith, get-remove k j m)

module _ {v : Values} where
  unfoldable pub step : Op v → EnvFilter v → EnvFilter v
  unfolding register_callsite on_new_span on_enter on_exit on_close on_record
  step (register meta) f = (register_callsite meta f).1
  step (open_span id meta attrs) f = on_new_span id meta attrs f
  step (enter_span thread id) f = on_enter thread id f
  step (exit_span thread id) f = on_exit thread id f
  step (close_span id) f = on_close id f
  step (record_span id values) f = on_record id values f

  unfoldable pub run : List (Op v) → EnvFilter v → EnvFilter v
  unfolding step
  run [] f = f
  run (op ∷ ops) f = run ops (step op f)

  -- `g` comes after `f`: it has the same directives, and knows the callsites that `f` knows.
  pub record Follows (f g : EnvFilter v) : Type 0 where
    pub same_statics : g.statics ≡ f.statics
    pub same_dynamics : g.dynamics ≡ f.dynamics
    pub same_has : g.has_dynamics ≡ f.has_dynamics
    pub knows : (k : ℕ) → contains_key k f.by_cs ≡ true → contains_key k g.by_cs ≡ true

  Follows-refl : (f : EnvFilter v) → Follows f f
  Follows-refl f = record {
    same_statics = refl;
    same_dynamics = refl;
    same_has = refl;
    knows = λ k h. h;
  }

  matched_interest-Follows :
      (meta : Metadata) (m : Option (CallsiteMatcher v)) (f : EnvFilter v)
      → Follows f (matched_interest meta m f).1
  unfolding static_interest
  matched_interest-Follows meta none f = Follows-refl f
  matched_interest-Follows meta (some m) f = record {
    same_statics = refl;
    same_dynamics = refl;
    same_has = refl;
    knows = λ k h. contains_key-insert k meta.fields.callsite m f.by_cs h;
  }

  step-Follows : (op : Op v) (f : EnvFilter v) → Follows f (step op f)
  unfolding step register_callsite on_new_span on_enter on_exit on_close on_record
  step-Follows (register meta) f =
      ground (arith, matched_interest-Follows meta (matcher f.dynamics meta) f)
  step-Follows (open_span id meta attrs) f = ground arith
  step-Follows (enter_span thread id) f = ground arith
  step-Follows (exit_span thread id) f = ground arith
  step-Follows (close_span id) f = ground arith
  step-Follows (record_span id values) f = ground arith

  pub run-Follows : (ops : List (Op v)) (f : EnvFilter v) → Follows f (run ops f)
  unfolding run
  run-Follows [] f = Follows-refl f
  run-Follows (op ∷ ops) f =
      let s = step-Follows op f in
      let r = run-Follows ops (step op f) in
      record {
        same_statics = r.same_statics ∙ s.same_statics;
        same_dynamics = r.same_dynamics ∙ s.same_dynamics;
        same_has = r.same_has ∙ s.same_has;
        knows = λ k h. r.knows k (s.knows k h);
      }
