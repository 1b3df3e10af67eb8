-- ===== src/Canary/Found.antt =====
-- The row that a SELECT by a unique key finds, after an UPDATE and after an INSERT.
use codex_gate.Prelude.{
  ◌≡◌, refl, Bool, true, false, some, List, [], ◌∷◌, ◌++◌, find, if◌then◌else◌, Bool-cases, inl,
  inr, arith, ◌∙◌, subst, some-injective,
}
use codex_gate.Canary.Rows.{update_where}

module _ {A : Type 0} where
  pub find-append :
      (q : A → Bool) (xs ys : List A) {x : A} → find q xs ≡ some x → find q (xs ++ ys) ≡ some x
  find-append q [] ys e = absurd (ground arith)
  find-append q (y ∷ xs) ys {x} e = elim (Bool-cases (q y)) [
    | inl hit ↦ ground arith
    | inr miss ↦ let rest = find-append q xs ys {x = x} (ground arith) in ground arith
  ]

  same-after :
      (q test : A → Bool) (change : A → A)
      → ((x : A) → test x ≡ true → q (change x) ≡ q x)
      → (x : A) → q (if test x then change x else x) ≡ q x
  same-after q test change same x = by_test (test x) refl
    where
      by_test : (b : Bool) → test x ≡ b → q (if b then change x else x) ≡ q x
      by_test true on = same x on
      by_test false off = refl

  pub find-update_where :
      (q test : A → Bool) (change : A → A)
      → ((x : A) → test x ≡ true → q (change x) ≡ q x)
      → (xs : List A) {x : A} → find q xs ≡ some x
      → find q (update_where test change xs) ≡ some (if test x then change x else x)
  unfolding update_where
  find-update_where q test change same [] e = absurd (ground arith)
  find-update_where q test change same (y ∷ xs) {x} e = elim (Bool-cases (q y)) [
    | inl hit ↦
        let kept = same-after q test change same y in
        let found : some y ≡ some x = ground arith in
        subst
          (λ z. find q (update_where test change (y ∷ xs)) ≡ some (if test z then change z else z))
          (some-injective found) (ground arith)
    | inr miss ↦
        let rest = find-update_where q test change same xs {x = x} (ground arith) in
        let kept = same-after q test change same y in ground arith
  ]

  pub find-updated :
      (q test : A → Bool) (change : A → A) (xs : List A) (x : A)
      → ((y : A) → test y ≡ true → q (change y) ≡ q y)
      → find q xs ≡ some x
      → test x ≡ true
      → find q (update_where test change xs) ≡ some (change x)
  find-updated q test change xs x same e t =
      find-update_where q test change same xs e ∙ picked (test x) t
    where
      picked : (b : Bool) → b ≡ true → some (if b then change x else x) ≡ some (change x)
      picked true on = refl
      picked false on = absurd (ground arith)
