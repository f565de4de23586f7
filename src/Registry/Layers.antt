-- ===== src/Registry/Layers.antt =====
-- What a stack of layers does with a span that is found, up to its leaving the pool.
use mathlib.Core.List.{append_assoc, append-nil}
use tracing.Prelude.{
  ℕ, zero, suc, ◌+◌, ◌-◌, ◌<◌, ◌≡◌, refl, sym, ap, ◌∙◌, Bool, true, false, List, [], ◌∷◌, ◌++◌,
  Option, some, ◌==◌, if◌then◌else◌, arith, subst,
}
use tracing.Registry.{
  Span, Registry, usize_max, get, set_ref_count, remove, clear_parent, clear, drop_guard,
  registry_try_close, layered_try_close, ◌>>=◌,
}

-- The calls of `on_close` for a span: each layer's, the innermost first.
pub notices : ℕ → ℕ → List (ℕ × ℕ)
notices zero id = []
notices (suc layer) id = notices layer id ++ ((layer, id) ∷ [])

abbrev pub notices_if : Bool → ℕ → ℕ → List (ℕ × ℕ)
notices_if true layers id = notices layers id
notices_if false layers id = []

-- What the inner layers do, while an outer one holds its guard.
abbrev pub dropped : Bool → ℕ → ℕ → ℕ → Registry → Registry
dropped closing layers id n r = record r {
  spans = set_ref_count id n r.spans;
  closed = r.closed ++ notices_if closing layers id;
}

registry_try_close-found :
    (id : ℕ) (r : Registry) (x : Span)
    → get id r.spans ≡ some x
    → 0 < x.ref_count
    → x.ref_count < usize_max
    → registry_try_close id r
      ≡ some (x.ref_count == 1, record r { spans = set_ref_count id (x.ref_count - 1) r.spans })
unfolding registry_try_close
registry_try_close-found id r x g p q = rw g (ground arith)

abbrev pub Dispatch : Type 0
Dispatch = ℕ → Registry → Option (Bool × Registry)

-- `on_close` of one layer.
abbrev pub notify : ℕ → ℕ → Bool → Registry → Registry
notify layer id closing s =
    if closing then record s { closed = s.closed ++ ((layer, id) ∷ []) } else s

-- A layer, given what the layers inside it do.
layered_try_close-suc :
    (dispatch : Dispatch) (layer id : ℕ) (r s : Registry) (b : Bool)
    → layered_try_close dispatch layer id (record r { close_count = r.close_count + 1 })
      ≡ some (b, s)
    → layered_try_close dispatch (suc layer) id r
      ≡ (drop_guard dispatch id b (notify layer id b s) >>= λ u. some (b, u))
unfolding layered_try_close
layered_try_close-suc dispatch layer id r s b e = rw e refl

notify-dropped :
    (layer id n : ℕ) (b : Bool) (r : Registry)
    → notify layer id b (dropped b layer id n r) ≡ dropped b (suc layer) id n r
unfolding notices
notify-dropped layer id n true r =
    ap (λ l. record r { spans = set_ref_count id n r.spans; closed = l })
      (append_assoc r.closed (notices layer id) ((layer, id) ∷ []))
notify-dropped layer id n false r = refl

drop_guard-inner :
    (dispatch : Dispatch) (id : ℕ) (b : Bool) (r : Registry)
    → 1 < r.close_count
    → drop_guard dispatch id b r ≡ some (record r { close_count = r.close_count - 1 })
unfolding drop_guard
drop_guard-inner dispatch id b r h = ground arith

dropped-none :
    (b : Bool) (id n : ℕ) (r : Registry)
    → dropped b 0 id n r ≡ record r { spans = set_ref_count id n r.spans }
unfolding notices
dropped-none true id n r =
    ap (λ l. record r { spans = set_ref_count id n r.spans; closed = l }) (append-nil r.closed)
dropped-none false id n r =
    ap (λ l. record r { spans = set_ref_count id n r.spans; closed = l }) (append-nil r.closed)

-- While a guard is already held on the thread, as in a layer of the stack that is not the outermost or
-- in the `on_close` of another span, `try_close` of a live span with a reference counts it down and,
-- if that was the last one, calls `on_close` of each layer. The span stays in the pool, and no other
-- span changes.
pub layered_try_close-inner :
    (dispatch : Dispatch) (layers id : ℕ) (r : Registry) (x : Span)
    → get id r.spans ≡ some x
    → 0 < x.ref_count
    → x.ref_count < usize_max
    → 0 < r.close_count
    → layered_try_close dispatch layers id r
      ≡ some (x.ref_count == 1, dropped (x.ref_count == 1) layers id (x.ref_count - 1) r)
unfolding layered_try_close
layered_try_close-inner dispatch zero id r x g p q k =
    registry_try_close-found id r x g p q
    ∙ ap (λ s. some (x.ref_count == 1, s))
        (sym (dropped-none (x.ref_count == 1) id (x.ref_count - 1) r))
layered_try_close-inner dispatch (suc layer) id r x g p q k =
    let b = x.ref_count == 1 in
    let n = x.ref_count - 1 in
    let outer = record r { close_count = r.close_count + 1 } in
    layered_try_close-suc dispatch layer id r _ b
      (layered_try_close-inner dispatch layer id outer x g p q (ground arith))
    ∙ ap (λ s. drop_guard dispatch id b s >>= λ u. some (b, u)) (notify-dropped layer id n b outer)
    ∙ ap (λ s. s >>= λ u. some (b, u))
        (drop_guard-inner dispatch id b (dropped b (suc layer) id n outer) (ground arith))
    ∙ ap (λ c. some (b, record (dropped b (suc layer) id n r) { close_count = c })) (omega arith)

-- The outermost layer, which holds the first guard.
abbrev pub held : Bool → ℕ → ℕ → ℕ → Registry → Registry
held b layer id n r = dropped b (suc layer) id n (record r { close_count = r.close_count + 1 })

pub layered_try_close-outer :
    (dispatch : Dispatch) (layer id : ℕ) (r : Registry) (x : Span) (b : Bool)
    → get id r.spans ≡ some x
    → 0 < x.ref_count
    → x.ref_count < usize_max
    → (x.ref_count == 1) ≡ b
    → layered_try_close dispatch (suc layer) id r
      ≡ (drop_guard dispatch id b (held b layer id (x.ref_count - 1) r) >>= λ u. some (b, u))
layered_try_close-outer dispatch layer id r x b g p q e =
    let outer = record r { close_count = r.close_count + 1 } in
    let inner =
      subst
        (λ f.
          layered_try_close dispatch layer id outer
          ≡ some (f, dropped f layer id (x.ref_count - 1) outer))
        e (layered_try_close-inner dispatch layer id outer x g p q (omega arith)) in
    layered_try_close-suc dispatch layer id r _ b inner
    ∙ ap (λ s. drop_guard dispatch id b s >>= λ u. some (b, u))
        (notify-dropped layer id (x.ref_count - 1) b outer)

pub drop_guard-kept :
    (dispatch : Dispatch) (id : ℕ) (r : Registry)
    → drop_guard dispatch id false r ≡ some (record r { close_count = r.close_count - 1 })
unfolding drop_guard
drop_guard-kept dispatch id r = ground arith

pub drop_guard-closed :
    (dispatch : Dispatch) (id : ℕ) (r : Registry) (x : Span)
    → r.close_count ≡ 1
    → get id r.spans ≡ some x
    → drop_guard dispatch id true r
      ≡ clear_parent dispatch x.parent (record r { spans = remove id r.spans; close_count = 0 })
unfolding drop_guard clear
drop_guard-closed dispatch id r x k g = rw (k, g) refl
