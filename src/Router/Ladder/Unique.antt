-- ===== src/Router/Ladder/Unique.antt =====
-- The test `model not in result` of the ladder of app/router.py.
use codex_gate.Prelude.{
  ℕ, ◌≡◌, refl, Bool, true, false, ◌&&◌, not, List, [], ◌∷◌, ◌++◌, arith, any, all, if◌then◌else◌,
}
use codex_gate.Router.Types.{TaskClass, Family, CatalogModel}
use codex_gate.Router.Ladder.{families_for, same_model, fits, scan_family, scan_families, ladder}

-- No model of the list equals an earlier one.
unfoldable pub is_unique : List CatalogModel → Bool
is_unique [] = true
is_unique (m ∷ ms) = let rest = is_unique ms in all (λ n. not (same_model n m)) ms && rest

all-snoc :
    (f : CatalogModel → Bool) (ms : List CatalogModel) (n : CatalogModel)
    → all f ms ≡ true
    → f n ≡ true
    → all f (ms ++ n ∷ []) ≡ true
all-snoc f [] n h e = ground arith
all-snoc f (m ∷ ms) n h e = let rest = all-snoc f ms n (ground arith) e in ground arith

is_unique-snoc :
    (ms : List CatalogModel) (n : CatalogModel)
    → is_unique ms ≡ true
    → any (same_model n) ms ≡ false
    → is_unique (ms ++ n ∷ []) ≡ true
unfolding is_unique
is_unique-snoc [] n h e = refl
is_unique-snoc (m ∷ ms) n h e =
    let rest = is_unique-snoc ms n (ground arith) (ground arith) in
    let front = all-snoc (λ x. not (same_model x m)) ms n (ground arith) (ground arith) in
    ground arith

add-is_unique :
    (fit : Bool) (m : CatalogModel) (result : List CatalogModel)
    → is_unique result ≡ true
    → is_unique (if fit && not (any (same_model m) result) then result ++ m ∷ [] else result) ≡ true
add-is_unique fit m result h = by_tests fit (any (same_model m) result) refl
  where
    by_tests :
        (fit seen : Bool)
        → any (same_model m) result ≡ seen
        → is_unique (if fit && not seen then result ++ m ∷ [] else result) ≡ true
    by_tests false seen e = h
    by_tests true true e = h
    by_tests true false e = is_unique-snoc result m h e

scan_family-is_unique :
    (tc : TaskClass) (maximum : ℕ) (f : Family) (ms result : List CatalogModel)
    → is_unique result ≡ true
    → is_unique (scan_family tc maximum f ms result) ≡ true
unfolding scan_family
scan_family-is_unique tc maximum f [] result h = h
scan_family-is_unique tc maximum f (m ∷ ms) result h =
    scan_family-is_unique tc maximum f ms _ (add-is_unique (fits tc maximum f m) m result h)

scan_families-is_unique :
    (tc : TaskClass) (maximum : ℕ) (catalog : List CatalogModel) (fs : List Family)
    (result : List CatalogModel)
    → is_unique result ≡ true
    → is_unique (scan_families tc maximum catalog fs result) ≡ true
unfolding scan_families
scan_families-is_unique tc maximum catalog [] result h = h
scan_families-is_unique tc maximum catalog (f ∷ fs) result h =
    scan_families-is_unique tc maximum catalog fs _
      (scan_family-is_unique tc maximum f catalog result h)

-- No model of the ladder equals an earlier one, whatever the catalog repeats.
pub ladder-is_unique :
    (catalog : List CatalogModel) (tc : TaskClass) (maximum : ℕ)
    → is_unique (ladder catalog tc maximum) ≡ true
unfolding ladder is_unique
ladder-is_unique catalog tc maximum =
    scan_families-is_unique tc maximum catalog (families_for tc) [] refl
