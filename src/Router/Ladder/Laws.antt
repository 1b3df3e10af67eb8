-- ===== src/Router/Ladder/Laws.antt =====
-- The ladder of app/router.py: the models that it collects, and their grades.

use codex_gate.Prelude.{
  ℕ, ◌≤◌, ◌≡◌, refl, Bool, true, false, ◌&&◌, not, some, List, [], ◌∷◌, ◌++◌, Memᴰ, arith, any,
  if◌then◌else◌, Option-cases, inl, inr, ◌⊎◌, &&-true,
}
use codex_gate.Router.Types.{TaskClass, Family, CatalogModel, task_min_grade}
use codex_gate.Router.Ladder.{families_for, same_model, fits, scan_family, scan_families, ladder}

-- The grade of a model lies within the class's minimum and the ceiling.
abbrev pub InRange : TaskClass → ℕ → CatalogModel → Type 0
InRange tc maximum m = (g : ℕ) × (m.grade ≡ some g) × (task_min_grade tc ≤ g) × (g ≤ maximum)

fits_lem :
    (tc : TaskClass) (maximum : ℕ) (f : Family) (m : CatalogModel)
    → fits tc maximum f m ≡ true
    → InRange tc maximum m
unfolding fits
fits_lem tc maximum f m h = elim (Option-cases m.grade) [
  | inl missing ↦ absurd (ground arith)
  | inr (g, found) ↦ (g, found, ground arith, ground arith)
]

mem-snoc {ℓ} :
    {A : Type ℓ} (xs : List A) (y : A) {x : A} → Memᴰ x (xs ++ y ∷ []) → Memᴰ x xs ⊎ (x ≡ y)
mem-snoc [] y (Memᴰ.head e) = inr e
mem-snoc [] y (Memᴰ.tail m) = elim m [ ]
mem-snoc (z ∷ xs) y (Memᴰ.head e) = inl (Memᴰ.head e)
mem-snoc (z ∷ xs) y (Memᴰ.tail m) = elim (mem-snoc xs y m) [
  | inl inside ↦ inl (Memᴰ.tail inside)
  | inr e ↦ inr e
]

-- Every model of the result is of the catalog, with its grade in range.
abbrev Sound : List CatalogModel → TaskClass → ℕ → List CatalogModel → Type 0
Sound catalog tc maximum result =
    (m : CatalogModel) → Memᴰ m result → Memᴰ m catalog × InRange tc maximum m

add-Sound :
    (catalog : List CatalogModel) (tc : TaskClass) (maximum : ℕ) (f : Family) (m : CatalogModel)
    (result : List CatalogModel) (b : Bool)
    → (b ≡ true → fits tc maximum f m ≡ true)
    → Memᴰ m catalog
    → Sound catalog tc maximum result
    → Sound catalog tc maximum (if b then result ++ m ∷ [] else result)
add-Sound catalog tc maximum f m result false fit inside sound x h = sound x h
add-Sound catalog tc maximum f m result true fit inside sound x h = elim (mem-snoc result m h) [
  | inl old ↦ sound x old
  | inr e ↦ rw e (inside, fits_lem tc maximum f m (fit refl))
]

scan_family-Sound :
    (catalog : List CatalogModel) (tc : TaskClass) (maximum : ℕ) (f : Family)
    (ms result : List CatalogModel)
    → ((m : CatalogModel) → Memᴰ m ms → Memᴰ m catalog)
    → Sound catalog tc maximum result
    → Sound catalog tc maximum (scan_family tc maximum f ms result)
unfolding scan_family
scan_family-Sound catalog tc maximum f [] result within sound = sound
scan_family-Sound catalog tc maximum f (m ∷ ms) result within sound =
    scan_family-Sound catalog tc maximum f ms
      (if fits tc maximum f m && not (any (same_model m) result) then result ++ m ∷ [] else result)
      (λ x h. within x (Memᴰ.tail h))
      (add-Sound catalog tc maximum f m result
        (fits tc maximum f m && not (any (same_model m) result))
        (λ h. (&&-true (fits tc maximum f m) (not (any (same_model m) result)) h).0)
        (within m (Memᴰ.head refl)) sound)

scan_families-Sound :
    (catalog : List CatalogModel) (tc : TaskClass) (maximum : ℕ) (fs : List Family)
    (result : List CatalogModel)
    → Sound catalog tc maximum result
    → Sound catalog tc maximum (scan_families tc maximum catalog fs result)
unfolding scan_families
scan_families-Sound catalog tc maximum [] result sound = sound
scan_families-Sound catalog tc maximum (f ∷ fs) result sound =
    scan_families-Sound catalog tc maximum fs (scan_family tc maximum f catalog result)
      (scan_family-Sound catalog tc maximum f catalog result (λ x h. h) sound)

-- Every model of the ladder is a model of the catalog whose grade is at least the class's minimum
-- and at most the ceiling.
pub ladder-Sound :
    (catalog : List CatalogModel) (tc : TaskClass) (maximum : ℕ) (m : CatalogModel)
    → Memᴰ m (ladder catalog tc maximum)
    → Memᴰ m catalog × InRange tc maximum m
unfolding ladder
ladder-Sound catalog tc maximum m h =
    scan_families-Sound catalog tc maximum (families_for tc) [] (λ x none_of. elim none_of [ ]) m h
