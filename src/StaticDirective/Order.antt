-- ===== src/StaticDirective/Order.antt =====
-- `cmp` is a total order that puts the more specific directive first.
use Prim.Native.Nat.Ordering.{lt, eq}
use tracing.Prelude.{ℕ, suc, ◌≤◌, ◌<◌, ◌↔◌, ◌≢◌, ◌≡◌, ◌⊎◌, List, Option, none, some, length, arith}
use tracing.Prelude.Order.{
  option_cmp, slice_cmp, IsOrder, IsWeakOrder, by_key-IsWeakOrder, lex-IsOrder, reverse-IsOrder,
  compare-IsOrder, option_cmp-IsOrder, slice_cmp-IsOrder,
}
use tracing.StaticDirective.{StaticDirective, cmp, target_len, str_cmp, statics}

str_cmp-IsOrder : IsOrder str_cmp
str_cmp-IsOrder = slice_cmp-IsOrder compare-IsOrder

-- What `cmp` reads of a directive.
abbrev Key : Type 0
Key = (Option ℕ × ℕ) × (Option (List ℕ) × List (List ℕ))

abbrev key : StaticDirective → Key
key d = ((target_len d.target, length d.field_names), (d.target, d.field_names))

-- `cmp` keeps the laws of `Ord` (it leaves the level out, so directives that it finds equal may
-- differ in that).
pub cmp-IsWeakOrder : IsWeakOrder statics.cmp
unfolding cmp
cmp-IsWeakOrder = by_key-IsWeakOrder key (
    reverse-IsOrder (
      lex-IsOrder (lex-IsOrder (option_cmp-IsOrder compare-IsOrder) compare-IsOrder)
        (lex-IsOrder (option_cmp-IsOrder str_cmp-IsOrder) (slice_cmp-IsOrder str_cmp-IsOrder))))

eq_of_target_cmp : (a b : Option (List ℕ)) → option_cmp str_cmp a b ≡ eq → a ≡ b
eq_of_target_cmp a b = (option_cmp-IsOrder str_cmp-IsOrder).eq_of_cmp a b

eq_of_names_cmp : (a b : List (List ℕ)) → slice_cmp str_cmp a b ≡ eq → a ≡ b
eq_of_names_cmp a b = (slice_cmp-IsOrder str_cmp-IsOrder).eq_of_cmp a b

-- How long the target of a directive is; less than every length if there is none.
abbrev pub target_rank : StaticDirective → ℕ
target_rank d = elim (target_len d.target) [ none ↦ 0 | some n ↦ suc n ]

-- Equality by `cmp` is equality of target and field names: the invariant that the code asserts.
-- Before another directive stands one whose target is longer, or is as long with no fewer fields.
pub cmp-specific :
    (a b : StaticDirective)
    → ((cmp a b ≡ eq) ↔ ((a.target ≡ b.target) × (a.field_names ≡ b.field_names)))
      × ((cmp a b ≢ lt)
          ⊎ (target_rank b < target_rank a)
          ⊎ ((target_rank b ≡ target_rank a) × (length b.field_names ≤ length a.field_names)))
unfolding cmp
cmp-specific a b = ground (
  arith,
  eq_of_target_cmp a.target b.target,
  eq_of_names_cmp a.field_names b.field_names,
  (option_cmp-IsOrder str_cmp-IsOrder).cmp_refl a.target,
  (slice_cmp-IsOrder str_cmp-IsOrder).cmp_refl a.field_names,
)
