-- ===== src/Prelude/Lists.antt =====
-- Lists: Boolean quantifiers, membership with its witness, and the searches of `next(...)`.
use Prim.Native.Nat.{ℕ, suc, ◌+◌}
use mathlib.Core.Path.{◌≡◌, refl}
use mathlib.Core.Logic.{inl, inr}
use mathlib.Core.Bool.{Bool, true, false, ◌&&◌, ◌||◌}
use mathlib.Core.Option.{Option, none, some}
use mathlib.Core.List.{List, [], ◌∷◌, ◌++◌, Memᴰ}
use native.Mathlib.Omega.{arith}
use codex_gate.Prelude.Tests.{if◌then◌else◌, Bool-cases}

module _ {ℓ} {A : Type ℓ} where
  abbrev pub length : List A → ℕ
  length [] = 0
  length (x ∷ xs) = suc (length xs)

  -- `all(test(x) for x in xs)`.
  abbrev pub all : (A → Bool) → List A → Bool
  all p [] = true
  all p (x ∷ xs) = p x && all p xs

  -- `any(test(x) for x in xs)`.
  abbrev pub any : (A → Bool) → List A → Bool
  any p [] = false
  any p (x ∷ xs) = p x || any p xs

  -- `[x for x in xs if test(x)]`.
  abbrev pub keep : (A → Bool) → List A → List A
  keep p [] = []
  keep p (x ∷ xs) = if p x then x ∷ keep p xs else keep p xs

  -- `next((x for x in xs if test(x)), None)`.
  abbrev pub find : (A → Bool) → List A → Option A
  find p [] = none
  find p (x ∷ xs) = if p x then some x else find p xs

  pub some-injective : {x y : A} → some x ≡ some y → x ≡ y
  some-injective {x} {y} e = ground arith

  pub length-append : (xs ys : List A) → length (xs ++ ys) ≡ length xs + length ys
  length-append [] ys = omega arith
  length-append (x ∷ xs) ys = omega (arith, length-append xs ys)

  mem-keep_step :
      (b : Bool) (p : A → Bool) (y : A) (kept xs : List A) {x : A}
      → p y ≡ b
      → ((n : Memᴰ x kept) → Memᴰ x xs × (p x ≡ true))
      → Memᴰ x (if b then y ∷ kept else kept)
      → Memᴰ x (y ∷ xs) × (p x ≡ true)
  mem-keep_step true p y kept xs e rest (Memᴰ.head q) = (Memᴰ.head q, rw q e)
  mem-keep_step true p y kept xs e rest (Memᴰ.tail n) =
      let (inside, ok) = rest n in (Memᴰ.tail inside, ok)
  mem-keep_step false p y kept xs e rest n = let (inside, ok) = rest n in (Memᴰ.tail inside, ok)

  pub mem-keep :
      (p : A → Bool) (xs : List A) {x : A} → Memᴰ x (keep p xs) → Memᴰ x xs × (p x ≡ true)
  mem-keep p [] m = elim m [ ]
  mem-keep p (y ∷ xs) m = mem-keep_step (p y) p y (keep p xs) xs refl (mem-keep p xs) m

  pub mem-find :
      (p : A → Bool) (xs : List A) {x : A} → find p xs ≡ some x → Memᴰ x xs × (p x ≡ true)
  mem-find p [] e = absurd (ground arith)
  mem-find p (y ∷ xs) {x} e = elim (Bool-cases (p y)) [
    | inl hit ↦ (Memᴰ.head (ground arith), ground arith)
    | inr miss ↦ let (inside, ok) = mem-find p xs {x = x} (ground arith) in (Memᴰ.tail inside, ok)
  ]

  pub any-find : (p : A → Bool) (xs : List A) → any p xs ≡ false → find p xs ≡ none
  any-find p [] h = refl
  any-find p (x ∷ xs) h = let rest = any-find p xs (ground arith) in ground arith
