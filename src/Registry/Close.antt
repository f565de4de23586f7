-- ===== src/Registry/Close.antt =====
-- `try_close` of a whole stack of layers.
use tracing.Prelude.{
  ℕ, zero, suc, ◌+◌, ◌-◌, ◌<◌, ◌≡◌, refl, sym, ap, ◌∙◌, inl, inr, Bool, true, false, Option, none,
  some, ◌==◌, Bool-cases, arith, length,
}
use tracing.Registry.{
  this_stack, Span, Registry, usize_max, get, remove, clear_parent, try_close, ◌>>=◌,
}
use tracing.Registry.Layers.{held, layered_try_close-outer, drop_guard-kept, drop_guard-closed}
use tracing.Registry.Counts.{more_parent, Handles, fewer, more, Counted, Counted-congr, get-Counted}
use tracing.Registry.Counts.Updates.{
  set_ref_count-Counted, remove-Counted, length-remove, get-set_ref_count,
}

-- What `try_close` of the stack returns, for a handle to a live span.
pub record Closed (out : Option (Bool × Registry)) (id : ℕ) (hs : Handles) (r : Registry)
    : Type 0 where
  pub span : Span
  pub after : Registry
  pub found : get id r.spans ≡ some span
  pub returns : out ≡ some (span.ref_count == 1, after)
  pub counted : Counted after.spans (fewer id hs)
  pub idle : after.close_count ≡ 0

Closed-kept :
    (fuel layer id : ℕ) (r : Registry) (hs : Handles) (x : Span)
    → Counted r.spans hs
    → 0 < hs id
    → r.close_count ≡ 0
    → get id r.spans ≡ some x
    → 0 < x.ref_count
    → x.ref_count < usize_max
    → (x.ref_count == 1) ≡ false
    → Closed (try_close this_stack (suc fuel) (suc layer) id r) id hs r
unfolding try_close
Closed-kept fuel layer id r hs x c h k g p q e = record {
  span = x;
  after = record (held false layer id (x.ref_count - 1) r) { close_count = r.close_count + 1 - 1 };
  found = g;
  returns =
      layered_try_close-outer (try_close this_stack fuel (suc layer)) layer id r x false g p q e
      ∙ ap (λ s. s >>= λ u. some (false, u))
          (drop_guard-kept (try_close this_stack fuel (suc layer)) id
            (held false layer id (x.ref_count - 1) r))
      ∙ ap
          (λ f. some (
            f,
            record (held false layer id (x.ref_count - 1) r) {
              close_count = r.close_count + 1 - 1;
            },
          ))
          (sym e);
  counted =
      set_ref_count-Counted id (x.ref_count - 1) r.spans hs (fewer id hs) x c g (ground arith)
        (omega arith) (λ i d. ground arith) (ground arith);
  idle = omega (arith, k);
}

-- What holds of every call that has that much fuel.
abbrev Closes : ℕ → ℕ → Type 0
Closes fuel layer =
    (id : ℕ) (r : Registry) (hs : Handles)
    → Counted r.spans hs
    → 0 < hs id
    → length r.spans < fuel
    → r.close_count ≡ 0
    → Closed (try_close this_stack fuel (suc layer) id r) id hs r

clear_parent-Closes :
    (fuel layer : ℕ) (p : Option ℕ) (s : Registry) (hs : Handles)
    → Closes fuel layer
    → Counted s.spans (more_parent p hs)
    → length s.spans < fuel
    → s.close_count ≡ 0
    → (after : Registry) × (clear_parent (try_close this_stack fuel (suc layer)) p s ≡ some after)
      × Counted after.spans hs
      × (after.close_count ≡ 0)
clear_parent-Closes fuel layer none s hs ih c l k = (s, refl, c, k)
clear_parent-Closes fuel layer (some q) s hs ih c l k =
    let closed = ih q s (more q hs) c (ground arith) l k in
    (
      closed.after,
      ap (λ o. o >>= λ w. some w.1) closed.returns,
      Counted-congr closed.after.spans (fewer q (more q hs)) hs (λ i. ground arith) closed.counted,
      closed.idle,
    )

Closed-gone :
    (fuel layer id : ℕ) (r : Registry) (hs : Handles) (x : Span)
    → Closes fuel layer
    → Counted r.spans hs
    → 0 < hs id
    → length r.spans < suc fuel
    → r.close_count ≡ 0
    → get id r.spans ≡ some x
    → 0 < x.ref_count
    → x.ref_count < usize_max
    → (x.ref_count == 1) ≡ true
    → Closed (try_close this_stack (suc fuel) (suc layer) id r) id hs r
unfolding try_close
Closed-gone fuel layer id r hs x ih c h l k g p q e =
    let dispatch = try_close this_stack fuel (suc layer) in
    let s = held true layer id (x.ref_count - 1) r in
    let (g2, m) = get-set_ref_count id (x.ref_count - 1) r.spans x g in
    let gone = record s { spans = remove id r.spans; close_count = 0 } in
    let (after, f, counted, idle) =
      clear_parent-Closes fuel layer x.parent gone (fewer id hs) ih
        (remove-Counted id r.spans hs x c g (ground arith) h)
        (omega (arith, length-remove id r.spans x g, l)) refl in
    record {
      span = x;
      after = after;
      found = g;
      returns =
          layered_try_close-outer dispatch layer id r x true g p q e
          ∙ ap (λ o. o >>= λ u. some (true, u))
              (drop_guard-closed dispatch id s (record x { ref_count = x.ref_count - 1 })
                  (omega (arith, k)) g2
                ∙ ap
                    (λ spans.
                      clear_parent dispatch x.parent (record s { spans = spans; close_count = 0 }))
                    m
                ∙ f)
          ∙ ap (λ b. some (b, after)) (sym e);
      counted = counted;
      idle = idle;
    }

try_close-Closes : (fuel layer : ℕ) → Closes fuel layer
try_close-Closes zero layer id r hs c h l k = absurd (omega (arith, l))
try_close-Closes (suc fuel) layer id r hs c h l k =
    let (x, g, p, q, m) = get-Counted id r.spans hs c h in
    elim (Bool-cases (x.ref_count == 1)) [
      | inl e ↦ Closed-gone fuel layer id r hs x (try_close-Closes fuel layer) c h l k g p q e
      | inr e ↦ Closed-kept fuel layer id r hs x c h k g p q e
    ]

-- In a stack of at least one layer, where the counts agree with the handles, on a thread that is
-- closing no other span and whose default dispatcher is that of the stack: dropping a handle to a
-- span returns, with more fuel than there are live spans: it does not panic, answers whether that
-- was the span's last reference, releases the guards, and leaves counts that agree with the handles
-- that remain, so every ancestor whose last reference went is closed as well, and no other span is.
pub try_close-Closed :
    (fuel layer id : ℕ) (r : Registry) (hs : Handles)
    → Counted r.spans hs
    → 0 < hs id
    → length r.spans < fuel
    → r.close_count ≡ 0
    → Closed (try_close this_stack fuel (suc layer) id r) id hs r
try_close-Closed = try_close-Closes
