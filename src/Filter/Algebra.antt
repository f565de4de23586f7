-- ===== src/Filter/Algebra.antt =====
-- The interests that the combinators cache, as minimum, maximum and reversal of an order.
use tracing.Prelude.{ℕ, ◌-◌, ◌≡◌, min, max, arith}
use tracing.Interest.{Interest, never, sometimes, always}
use tracing.Filter.{Host, Filter, and, or, negate}

-- How interested: `never`, then `sometimes`, then `always`.
abbrev pub interest_rank : Interest → ℕ
interest_rank never = 0
interest_rank sometimes = 1
interest_rank always = 2

module _ {h : Host} where
  -- `and` caches the lesser interest of its parts, `or` the greater, and `not` the opposite.
  pub interest_rank-combinators :
      (f g : Filter h) (meta : h.Meta)
      → (interest_rank ((and f g).callsite_enabled meta)
          ≡ min (interest_rank (f.callsite_enabled meta)) (interest_rank (g.callsite_enabled meta)))
        × (interest_rank ((or f g).callsite_enabled meta)
            ≡ max
                (interest_rank (f.callsite_enabled meta))
                (interest_rank (g.callsite_enabled meta)))
        × (interest_rank ((negate f).callsite_enabled meta)
            ≡ 2 - interest_rank (f.callsite_enabled meta))
  unfolding and or negate
  interest_rank-combinators f g meta = ground arith

  -- De Morgan's law holds for decisions and for cached interests, in every context.
  pub negate-and :
      (f g : Filter h) (meta : h.Meta) (cx : h.Context)
      → ((negate (and f g)).enabled meta cx ≡ (or (negate f) (negate g)).enabled meta cx)
        × ((negate (and f g)).callsite_enabled meta
            ≡ (or (negate f) (negate g)).callsite_enabled meta)
  unfolding and or negate
  negate-and f g meta cx = ground arith
