-- ===== src/Interest.antt =====
-- tracing-core/src/subscriber.rs: `Interest`, what a subscriber says of a callsite.
use tracing.Prelude.{◌≡◌, refl, Bool, true, false, if◌then◌else◌, arith}

-- `enum InterestKind`, and `struct Interest` around it
pub data Interest : Type 0 where
  never sometimes always : Interest

abbrev pub is_never : Interest → Bool
is_never never = true
is_never _ = false

abbrev pub is_sometimes : Interest → Bool
is_sometimes sometimes = true
is_sometimes _ = false

abbrev pub is_always : Interest → Bool
is_always always = true
is_always _ = false

-- the derived `PartialEq` of `InterestKind`
abbrev kind_eq : Interest → Interest → Bool
kind_eq never i = is_never i
kind_eq sometimes i = is_sometimes i
kind_eq always i = is_always i

-- `Interest::and`
unfoldable pub and : Interest → Interest → Interest
and self rhs = if kind_eq self rhs then self else sometimes

pub and_assoc : (a b c : Interest) → and (and a b) c ≡ and a (and b c)
unfolding and
and_assoc never b c = ground arith
and_assoc sometimes b c = ground arith
and_assoc always b c = ground arith

pub and_comm : (a b : Interest) → and a b ≡ and b a
unfolding and
and_comm never b = ground arith
and_comm sometimes b = ground arith
and_comm always b = ground arith

pub and_self : (a : Interest) → and a a ≡ a
unfolding and
and_self never = refl
and_self sometimes = refl
and_self always = refl
