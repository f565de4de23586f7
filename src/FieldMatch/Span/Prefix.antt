-- ===== src/FieldMatch/Span/Prefix.antt =====
-- What `MatchDebug` accepts.
use tracing.Prelude.{
  ℕ, ◌≡◌, ◌<◌, refl, true, false, List, [], ◌∷◌, ◌++◌, length, drop, starts_with, inl, inr,
  Bool-cases, ltb, arith,
}
use tracing.FieldMatch.Span.{debug_matches}

-- The pieces in a row.
abbrev pub concat : List (List ℕ) → List ℕ
concat [] = []
concat (s ∷ ss) = s ++ concat ss

starts_with-length : (s p : List ℕ) → length s < length p → starts_with s p ≡ false
starts_with-length s [] h = ground arith
starts_with-length [] (c ∷ p) h = refl
starts_with-length (d ∷ s) (c ∷ p) h = ground (arith, starts_with-length s p)

-- A text starts with two texts in a row if it starts with the first, and what is left with the
-- second.
starts_with-append :
    (s p q : List ℕ)
    → starts_with s p ≡ true
    → starts_with s (p ++ q) ≡ starts_with (drop (length p) s) q
starts_with-append s [] q h = refl
starts_with-append [] (c ∷ p) q h = ground arith
starts_with-append (d ∷ s) (c ∷ p) q h = ground (arith, starts_with-append s p q)

starts_with-append_false :
    (s p q : List ℕ) → starts_with s p ≡ false → starts_with s (p ++ q) ≡ false
starts_with-append_false s [] q h = ground arith
starts_with-append_false [] (c ∷ p) q h = refl
starts_with-append_false (d ∷ s) (c ∷ p) q h = ground (arith, starts_with-append_false s p q)

-- A `MatchDebug` accepts what a `fmt::Debug` writes, in whatever pieces, exactly if the pattern
-- starts with it.
pub debug_matches-prefix :
    (pattern : List ℕ) (pieces : List (List ℕ))
    → debug_matches pattern pieces ≡ starts_with pattern (concat pieces)
unfolding debug_matches
debug_matches-prefix pattern [] = refl
debug_matches-prefix pattern (s ∷ ss) = elim (Bool-cases (starts_with pattern s)) [
  | inl h ↦ elim (Bool-cases (ltb (length pattern) (length s))) [
    | inl l ↦ ground (arith, starts_with-length pattern s)
    | inr l ↦ ground (
      arith,
      starts_with-append pattern s (concat ss),
      debug_matches-prefix (drop (length s) pattern) ss,
    )
  ]
  | inr h ↦ ground (arith, starts_with-append_false pattern s (concat ss))
]
