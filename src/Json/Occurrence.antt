-- ===== src/Json/Occurrence.antt =====
-- What the search for a root in a text finds (app/policy.py).
use codex_gate.Prelude.{
  ◌≡◌, refl, ℕ, true, ◌&&◌, Option, none, some, List, [], ◌∷◌, ◌++◌, ◌↔◌, arith, Bool-cases, inl,
  inr, some-injective, ap, sym, subst, ◌==◌,
}
use codex_gate.Json.Forbidden.{ends_ok, before_ok, after_ok, after, occurs}

-- `normalized[start - 1]` behind the front part of a text.
unfoldable pub last_of : Option ℕ → List ℕ → Option ℕ
last_of previous [] = previous
last_of previous (c ∷ s) = last_of (some c) s

-- The needle stands somewhere in the text, between a boundary and a boundary.
pub data IsBounded (needle : List ℕ) (previous : Option ℕ) (s : List ℕ) : Type 0 where
  bounded :
      (front back : List ℕ)
      → s ≡ front ++ (needle ++ back)
      → before_ok (last_of previous front) ≡ true
      → after_ok back ≡ true
      → IsBounded needle previous s

after-append : (needle back : List ℕ) → after needle (needle ++ back) ≡ some back
unfolding after
after-append [] back = refl
after-append (n ∷ needle) back = let rest = after-append needle back in ground arith

append-after : (needle s back : List ℕ) → after needle s ≡ some back → s ≡ needle ++ back
unfolding after
append-after [] s back e = some-injective e
append-after (n ∷ needle) [] back e = absurd (ground arith)
append-after (n ∷ needle) (c ∷ s) back e = elim (Bool-cases (n == c)) [
  | inl hit ↦ let rest = append-after needle s back (ground arith) in ground arith
  | inr miss ↦ absurd (ground arith)
]

starts-IsBounded :
    (needle : List ℕ) (previous : Option ℕ) (s : List ℕ)
    → (before_ok previous && ends_ok (after needle s)) ≡ true
    → IsBounded needle previous s
unfolding last_of
starts-IsBounded needle previous s h = by_after (after needle s) refl
  where
    by_after : (rest : Option (List ℕ)) → after needle s ≡ rest → IsBounded needle previous s
    by_after none e = absurd (ground arith)
    by_after (some back) e =
        bounded [] back (append-after needle s back e) (ground arith) (ground arith)

further-IsBounded :
    (needle : List ℕ) (previous : Option ℕ) (c : ℕ) (s : List ℕ)
    → IsBounded needle (some c) s
    → IsBounded needle previous (c ∷ s)
unfolding last_of
further-IsBounded needle previous c s (bounded front back e before behind) =
    bounded (c ∷ front) back (ap (λ t. c ∷ t) e) before behind

pub occurs-IsBounded :
    (needle : List ℕ) (previous : Option ℕ) (s : List ℕ)
    → occurs needle previous s ≡ true
    → IsBounded needle previous s
unfolding occurs
occurs-IsBounded needle previous [] h = starts-IsBounded needle previous [] h
occurs-IsBounded needle previous (c ∷ s) h =
    elim (Bool-cases (before_ok previous && ends_ok (after needle (c ∷ s)))) [
      | inl hit ↦ starts-IsBounded needle previous (c ∷ s) hit
      | inr miss ↦
          further-IsBounded needle previous c s (occurs-IsBounded needle (some c) s (ground arith))
    ]

here-occurs :
    (needle : List ℕ) (previous : Option ℕ) (s back : List ℕ)
    → s ≡ needle ++ back
    → before_ok previous ≡ true
    → after_ok back ≡ true
    → occurs needle previous s ≡ true
unfolding occurs
here-occurs needle previous [] back e before behind =
    let found : after needle [] ≡ some back =
      subst (λ t. after needle t ≡ some back) (sym e) (after-append needle back) in
    ground arith
here-occurs needle previous (c ∷ s) back e before behind =
    let found : after needle (c ∷ s) ≡ some back =
      subst (λ t. after needle t ≡ some back) (sym e) (after-append needle back) in
    ground arith

split-occurs :
    (needle : List ℕ) (previous : Option ℕ) (front back : List ℕ)
    → before_ok (last_of previous front) ≡ true
    → after_ok back ≡ true
    → occurs needle previous (front ++ (needle ++ back)) ≡ true
unfolding occurs last_of
split-occurs needle previous [] back before behind =
    here-occurs needle previous (needle ++ back) back refl before behind
split-occurs needle previous (c ∷ front) back before behind =
    let rest = split-occurs needle (some c) front back before behind in ground arith

-- The loop finds a needle in a text exactly when the text has the needle somewhere between two boundaries.
pub occurs_iff :
    (needle : List ℕ) (previous : Option ℕ) (s : List ℕ)
    → (occurs needle previous s ≡ true) ↔ IsBounded needle previous s
occurs_iff needle previous s = (occurs-IsBounded needle previous s, back_again)
  where
    back_again : IsBounded needle previous s → occurs needle previous s ≡ true
    back_again (bounded front back e before behind) =
        subst (λ t. occurs needle previous t ≡ true) (sym e)
          (split-occurs needle previous front back before behind)
