-- ===== src/Facade/Balance.antt =====
-- tracing/src/span.rs: the handles and guards that live are those that were opened and not closed.
use tracing.Prelude.{
  ℕ, zero, suc, ◌+◌, ◌≡◌, ◌&&◌, List, [], ◌∷◌, Option, none, some, ◌==◌, if◌then◌else◌, arith,
}
use tracing.Facade.{
  Call, new_span, clone_span, try_close, enter, exit, record_values, History, Inner, Span, do_enter,
  do_exit, drop_span, record_all, follows_from, call_inner, follows,
}
use tracing.Facade.Program.{
  Slot, moved, span, entered_span, forgotten_span, forgotten_entered, forgotten_guard,
}

unfoldable pub total {ℓ} : {A : Type ℓ} → (A → ℕ) → List A → ℕ
total f [] = 0
total f (x ∷ xs) = f x + total f xs

abbrev pub times : ℕ → ℕ → ℕ
times zero n = 0
times (suc m) n = n + times m n

module _ (d id : ℕ) where
  -- 1 for the span `id` of the dispatcher `d`, and 0 for another.
  abbrev pub hit : ℕ → ℕ → ℕ
  hit dispatch x = if (dispatch == d) && (x == id) then 1 else 0

  abbrev pub opens : ℕ × Call → ℕ
  opens (dispatch, new_span attrs x) = hit dispatch x
  opens (dispatch, clone_span of x) = hit dispatch x
  opens _ = 0

  abbrev pub closes : ℕ × Call → ℕ
  closes (dispatch, try_close x) = hit dispatch x
  closes _ = 0

  abbrev pub enters : ℕ × Call → ℕ
  enters (dispatch, enter x) = hit dispatch x
  enters _ = 0

  abbrev pub exits : ℕ × Call → ℕ
  exits (dispatch, exit x) = hit dispatch x
  exits _ = 0

  abbrev pub of_inner : Option Inner → ℕ
  of_inner none = 0
  of_inner (some i) = hit i.subscriber i.id

  -- The handle, and the guards, of a variable.
  abbrev pub handles : Slot → ℕ
  handles moved = 0
  handles (span s guards) = of_inner s.inner
  handles (entered_span s guards) = of_inner s.inner
  handles (forgotten_span s) = of_inner s.inner
  handles (forgotten_entered s) = of_inner s.inner
  handles (forgotten_guard s) = 0

  abbrev pub guards : Slot → ℕ
  guards moved = 0
  guards (span s m) = times m (of_inner s.inner)
  guards (entered_span s m) = times (suc m) (of_inner s.inner)
  guards (forgotten_span s) = 0
  guards (forgotten_entered s) = of_inner s.inner
  guards (forgotten_guard s) = of_inner s.inner

  -- The entry of an `Entered` that was forgotten.
  abbrev pub forgotten_entries : Slot → ℕ
  forgotten_entries (forgotten_guard s) = of_inner s.inner
  forgotten_entries _ = 0

  -- What the calls from `h` to `t` add.
  pub record Adds (h t : History) (o c n x : ℕ) : Type 0 where
    pub on_opens : total opens t ≡ total opens h + o
    pub on_closes : total closes t ≡ total closes h + c
    pub on_enters : total enters t ≡ total enters h + n
    pub on_exits : total exits t ≡ total exits h + x

  pub none-Adds : (h : History) → Adds h h 0 0 0 0
  none-Adds h = record {
    on_opens = omega arith;
    on_closes = omega arith;
    on_enters = omega arith;
    on_exits = omega arith;
  }

  pub Adds-trans :
      {h k l : History} {o c n x o' c' n' x' : ℕ}
      → Adds h k o c n x
      → Adds k l o' c' n' x'
      → Adds h l (o + o') (c + c') (n + n') (x + x')
  Adds-trans a b = record {
    on_opens = omega (arith, a.on_opens, b.on_opens);
    on_closes = omega (arith, a.on_closes, b.on_closes);
    on_enters = omega (arith, a.on_enters, b.on_enters);
    on_exits = omega (arith, a.on_exits, b.on_exits);
  }

  pub do_enter-Adds : (s : Span) (h : History) → Adds h (do_enter s h) 0 0 (of_inner s.inner) 0
  unfolding do_enter total
  do_enter-Adds s h = by_inner s.inner
    where
      by_inner : (o : Option Inner) → Adds h (call_inner enter o h) 0 0 (of_inner o) 0
      by_inner none = none-Adds h
      by_inner (some i) = record {
        on_opens = omega arith;
        on_closes = omega arith;
        on_enters = omega arith;
        on_exits = omega arith;
      }

  pub do_exit-Adds : (s : Span) (h : History) → Adds h (do_exit s h) 0 0 0 (of_inner s.inner)
  unfolding do_exit total
  do_exit-Adds s h = by_inner s.inner
    where
      by_inner : (o : Option Inner) → Adds h (call_inner exit o h) 0 0 0 (of_inner o)
      by_inner none = none-Adds h
      by_inner (some i) = record {
        on_opens = omega arith;
        on_closes = omega arith;
        on_enters = omega arith;
        on_exits = omega arith;
      }

  pub drop_span-Adds : (s : Span) (h : History) → Adds h (drop_span s h) 0 (of_inner s.inner) 0 0
  unfolding drop_span total
  drop_span-Adds s h = by_inner s.inner
    where
      by_inner : (o : Option Inner) → Adds h (call_inner try_close o h) 0 (of_inner o) 0 0
      by_inner none = none-Adds h
      by_inner (some i) = record {
        on_opens = omega arith;
        on_closes = omega arith;
        on_enters = omega arith;
        on_exits = omega arith;
      }

  pub record_all-Adds :
      (values : List (List ℕ)) (s : Span) (h : History) → Adds h (record_all values s h) 0 0 0 0
  unfolding record_all total
  record_all-Adds values s h = by_inner s.inner
    where
      by_inner :
          (o : Option Inner) → Adds h (call_inner (λ id. record_values id values) o h) 0 0 0 0
      by_inner none = none-Adds h
      by_inner (some i) = record {
        on_opens = omega arith;
        on_closes = omega arith;
        on_enters = omega arith;
        on_exits = omega arith;
      }

  pub follows_from-Adds :
      (from : Option ℕ) (s : Span) (h : History) → Adds h (follows_from from s h) 0 0 0 0
  unfolding follows_from total
  follows_from-Adds from s h = by_inner s.inner from
    where
      by_inner : (o : Option Inner) (from : Option ℕ) → Adds h (follows o from h) 0 0 0 0
      by_inner none from = none-Adds h
      by_inner (some i) none = none-Adds h
      by_inner (some i) (some f) = record {
        on_opens = omega arith;
        on_closes = omega arith;
        on_enters = omega arith;
        on_exits = omega arith;
      }
