-- ===== src/Rolling/Affix.antt =====
-- tracing-appender/src/rolling.rs: what it says of a name that it starts or ends with a text.
use tracing.Prelude.{
  ℕ, ◌≡◌, refl, sym, ap, ◌∙◌, true, List, [], ◌∷◌, ◌++◌, starts_with, ◌==◌, arith,
}
use tracing.Rolling.Files.{reversed, ends_with}

pub starts_with-split : (s p : List ℕ) → starts_with s p ≡ true → (rest : List ℕ) × (s ≡ p ++ rest)
starts_with-split s [] h = (s, refl)
starts_with-split [] (p ∷ ps) h = ground arith
starts_with-split (c ∷ s) (p ∷ ps) h =
    let (rest, e) = starts_with-split s ps (ground arith) in
    (rest, ap (λ x. x ∷ s) (eq_lem c p (ground arith)) ∙ ap (λ t. p ∷ t) e)
  where
    eq_lem : (a b : ℕ) → (a == b) ≡ true → a ≡ b
    eq_lem a b e = ground arith

pub starts_with-append : (p rest : List ℕ) → starts_with (p ++ rest) p ≡ true
starts_with-append [] rest = refl
starts_with-append (p ∷ ps) rest = ground (arith, starts_with-append ps rest)

reversed-append : (a b d : List ℕ) → reversed (a ++ b) d ≡ reversed b (reversed a d)
reversed-append [] b d = refl
reversed-append (x ∷ a) b d = reversed-append a b (x ∷ d)

reversed_lem : (s d : List ℕ) → reversed s d ≡ reversed s [] ++ d
reversed_lem [] d = refl
reversed_lem (x ∷ s) d =
    reversed_lem s (x ∷ d)
    ∙ sym (ap (λ t. t ++ d) (reversed_lem s (x ∷ [])) ∙ assoc (reversed s []))
  where
    assoc : (a : List ℕ) → (a ++ (x ∷ [])) ++ d ≡ a ++ (x ∷ d)
    assoc [] = refl
    assoc (y ∷ a) = ap (λ t. y ∷ t) (assoc a)

reversed-reversed : (s d e : List ℕ) → reversed (reversed s d) e ≡ reversed d (s ++ e)
reversed-reversed [] d e = refl
reversed-reversed (x ∷ s) d e = reversed-reversed s (x ∷ d) e

append_nil : (s : List ℕ) → s ++ [] ≡ s
append_nil [] = refl
append_nil (x ∷ s) = ap (λ t. x ∷ t) (append_nil s)

reversed_twice : (s : List ℕ) → reversed (reversed s []) [] ≡ s
reversed_twice s = reversed-reversed s [] [] ∙ append_nil s

pub ends_with-split :
    (s suffix : List ℕ) → ends_with s suffix ≡ true → (front : List ℕ) × (s ≡ front ++ suffix)
ends_with-split s suffix h =
    let (rest, e) = starts_with-split (reversed s []) (reversed suffix []) h in
    (
      reversed rest [],
      sym (reversed_twice s)
          ∙ ap (λ t. reversed t []) e
          ∙ reversed-append (reversed suffix []) rest []
          ∙ ap (reversed rest) (reversed_twice suffix)
          ∙ reversed_lem rest suffix,
    )

pub ends_with-append : (front suffix : List ℕ) → ends_with (front ++ suffix) suffix ≡ true
ends_with-append front suffix =
    ap (λ t. starts_with t (reversed suffix []))
      (reversed-append front suffix [] ∙ reversed_lem suffix (reversed front []))
    ∙ starts_with-append (reversed suffix []) (reversed front [])
