-- ===== src/Metadata.antt =====
-- tracing-core/src/metadata.rs: `Metadata` and `Kind`; tracing-core/src/field.rs: the part of
-- `FieldSet` that filters read. A callsite's address is a number.
use Prim.Native.Nat.{bit_and, bit_or}
use tracing.Prelude.{ℕ, suc, Bool, List, [], ◌∷◌, Option, none, some, ◌==◌, beq, if◌then◌else◌}
use tracing.Level.{Level}

-- `struct FieldSet`
pub record FieldSet : Type 0 where
  pub names : List (List ℕ)
  pub callsite : ℕ

-- `names.iter().position(|f| f == name)`, counting on from `i`
position : List ℕ → List (List ℕ) → ℕ → Option ℕ
position name [] i = none
position name (f ∷ fs) i = if beq f name then some i else position name fs (suc i)

-- `FieldSet::field`: the index of the field
unfoldable pub field : FieldSet → List ℕ → Option ℕ
unfolding position
field self name = position name self.names 0

-- `struct Metadata`
pub record Metadata : Type 0 where
  pub name : List ℕ
  pub target : List ℕ
  pub level : Level
  pub module_path : Option (List ℕ)
  pub file : Option (List ℕ)
  pub line : Option ℕ
  pub fields : FieldSet
  pub kind : ℕ

abbrev pub event_bit : ℕ
event_bit = 1

abbrev pub span_bit : ℕ
span_bit = 2

abbrev pub hint_bit : ℕ
hint_bit = 4

-- `Kind::is_span`, `is_event`, `is_hint`
unfoldable pub is_span : ℕ → Bool
is_span kind = bit_and kind span_bit == span_bit

unfoldable pub is_event : ℕ → Bool
is_event kind = bit_and kind event_bit == event_bit

unfoldable pub is_hint : ℕ → Bool
is_hint kind = bit_and kind hint_bit == hint_bit

-- `Kind::hint`
unfoldable pub hint : ℕ → ℕ
hint kind = bit_or kind hint_bit
