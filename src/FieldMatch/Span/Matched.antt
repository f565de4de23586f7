-- ===== src/FieldMatch/Span/Matched.antt =====
-- When a span has matched: the flags and their cache against what was recorded.
use tracing.Prelude.{
  ℕ, ◌≡◌, refl, ap, ◌∙◌, Bool, true, false, ◌&&◌, List, [], ◌∷◌, map, any, all, ◌==◌, arith,
}
use tracing.FieldMatch.{Values, ValueMatch}
use tracing.FieldMatch.Span.{
  Value, CallsiteMatch, SpanMatch, matches, to_span_match, store_matched, record_value,
  record_values, is_matched,
}

-- What happens to a span's match: values are recorded, or it is asked whether it has matched.
pub data Op (v : Values) : Type 0 where
  record_update : List (ℕ × Value v) → Op v
  ask : Op v

module _ {v : Values} where
  abbrev pub run : List (Op v) → SpanMatch v → SpanMatch v
  unfolding record_values is_matched
  run [] m = m
  run (record_update xs ∷ ops) m = run ops (record_values xs m)
  run (ask ∷ ops) m = run ops (is_matched m).1

  abbrev prepend : List (ℕ × Value v) → List (ℕ × Value v) → List (ℕ × Value v)
  prepend [] seen = seen
  prepend (x ∷ xs) seen = prepend xs (x ∷ seen)

  -- The values that were recorded, the last first, before those that had been.
  abbrev pub recorded : List (Op v) → List (ℕ × Value v) → List (ℕ × Value v)
  recorded [] seen = seen
  recorded (record_update xs ∷ ops) seen = recorded ops (prepend xs seen)
  recorded (ask ∷ ops) seen = recorded ops seen

  -- The field `f` has had a value that it asks for.
  unfoldable pub is_hit : List (ℕ × Value v) → ℕ × ValueMatch v → Bool
  unfolding matches
  is_hit seen f = any (λ x. (f.0 == x.0) && matches f.1 x.1) seen

  abbrev flagged : List (ℕ × Value v) → List (ℕ × ValueMatch v) → List (ℕ × (ValueMatch v × Bool))
  flagged seen [] = []
  flagged seen (f ∷ fs) = (f.0, (f.1, is_hit seen f)) ∷ flagged seen fs

  store_matched-flagged :
      (x : ℕ × Value v) (seen : List (ℕ × Value v)) (fs : List (ℕ × ValueMatch v))
      → store_matched x.0 x.1 (flagged seen fs) ≡ flagged (x ∷ seen) fs
  unfolding is_hit
  store_matched-flagged x seen [] = refl
  store_matched-flagged x seen (f ∷ fs) = ground (arith, store_matched-flagged x seen fs)

  all-flagged :
      (seen : List (ℕ × Value v)) (fs : List (ℕ × ValueMatch v))
      → all (λ f. f.1.1) (flagged seen fs) ≡ all (is_hit seen) fs
  all-flagged seen [] = refl
  all-flagged seen (f ∷ fs) = ground (arith, all-flagged seen fs)

  all-hit :
      (x : ℕ × Value v) (seen : List (ℕ × Value v)) (fs : List (ℕ × ValueMatch v))
      → all (is_hit seen) fs ≡ true
      → all (is_hit (x ∷ seen)) fs ≡ true
  unfolding is_hit
  all-hit x seen [] h = refl
  all-hit x seen (f ∷ fs) h = ground (arith, all-hit x seen fs)

  -- The flags are those of the values that were recorded, and the cache is set only if all are.
  record IsTrue (c : CallsiteMatch v) (seen : List (ℕ × Value v)) (m : SpanMatch v) : Type 0 where
    flags : m.fields ≡ flagged seen c.fields
    cache : m.has_matched ≡ true → all (is_hit seen) c.fields ≡ true

  record_value-IsTrue :
      (c : CallsiteMatch v) (x : ℕ × Value v) (seen : List (ℕ × Value v)) (m : SpanMatch v)
      → IsTrue c seen m
      → IsTrue c (x ∷ seen) (record_value x m)
  unfolding record_value
  record_value-IsTrue c x seen m t = record {
    flags = ap (store_matched x.0 x.1) t.flags ∙ store_matched-flagged x seen c.fields;
    cache = λ h. all-hit x seen c.fields (t.cache h);
  }

  record_values-IsTrue :
      (c : CallsiteMatch v) (xs : List (ℕ × Value v)) (seen : List (ℕ × Value v)) (m : SpanMatch v)
      → IsTrue c seen m
      → IsTrue c (prepend xs seen) (record_values xs m)
  unfolding record_values
  record_values-IsTrue c [] seen m t = t
  record_values-IsTrue c (x ∷ xs) seen m t =
      record_values-IsTrue c xs (x ∷ seen) (record_value x m) (record_value-IsTrue c x seen m t)

  all-IsTrue :
      (c : CallsiteMatch v) (seen : List (ℕ × Value v)) (m : SpanMatch v)
      → IsTrue c seen m
      → all (λ f. f.1.1) m.fields ≡ all (is_hit seen) c.fields
  all-IsTrue c seen m t = ap (all (λ f. f.1.1)) t.flags ∙ all-flagged seen c.fields

  is_matched-IsTrue :
      (c : CallsiteMatch v) (seen : List (ℕ × Value v)) (m : SpanMatch v)
      → IsTrue c seen m
      → IsTrue c seen (is_matched m).1 × ((is_matched m).0 ≡ all (is_hit seen) c.fields)
  unfolding is_matched
  is_matched-IsTrue c seen m t = (
    record {
      flags = ground (arith, t.flags);
      cache = λ h. ground (arith, t.cache, all-IsTrue c seen m t);
    },
    ground (arith, t.cache, all-IsTrue c seen m t),
  )

  run-IsTrue :
      (c : CallsiteMatch v) (ops : List (Op v)) (seen : List (ℕ × Value v)) (m : SpanMatch v)
      → IsTrue c seen m
      → IsTrue c (recorded ops seen) (run ops m)
  unfolding run
  run-IsTrue c [] seen m t = t
  run-IsTrue c (record_update xs ∷ ops) seen m t =
      run-IsTrue c ops (prepend xs seen) (record_values xs m) (record_values-IsTrue c xs seen m t)
  run-IsTrue c (ask ∷ ops) seen m t =
      run-IsTrue c ops seen (is_matched m).1 (is_matched-IsTrue c seen m t).0

  to_span_match-IsTrue : (c : CallsiteMatch v) → IsTrue c [] (to_span_match c)
  unfolding is_hit
  to_span_match-IsTrue c = record { flags = unflagged c.fields; cache = λ h. ground arith }
    where
      unflagged : (fs : List (ℕ × ValueMatch v)) → map (λ f. (f.0, (f.1, false))) fs ≡ flagged [] fs
      unflagged [] = refl
      unflagged (f ∷ fs) = ap (λ r. (f.0, (f.1, false)) ∷ r) (unflagged fs)

  -- However often it was asked before, a span's match says that it has matched exactly if each field
  -- that is asked for was recorded with a value that matches.
  pub is_matched-run :
      (c : CallsiteMatch v) (ops : List (Op v))
      → (is_matched (run ops (to_span_match c))).0 ≡ all (is_hit (recorded ops [])) c.fields
  is_matched-run c ops =
      (is_matched-IsTrue c (recorded ops []) (run ops (to_span_match c))
        (run-IsTrue c ops [] (to_span_match c) (to_span_match-IsTrue c))).1
