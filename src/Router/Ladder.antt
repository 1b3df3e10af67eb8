-- ===== src/Router/Ladder.antt =====
-- The candidate ladder of app/router.py: the class's families first, in the server's order inside each.
pub mod Laws
pub mod Unique
use codex_gate.Prelude.{
  ℕ, String, Bool, true, false, ◌&&◌, Option, none, some, List, [], ◌∷◌, ◌++◌, str_eq, leb, not,
  ◌==◌, any, if◌then◌else◌,
}
use codex_gate.Router.Types.{
  TaskClass, Family, spark, mini, luna, terra, sol, five_five, five_four, ModelStatus, available,
  limited, depleted, disabled, CatalogModel, task_families, task_min_grade, same_family, in_family,
}

append_missing : List Family → List Family → List Family
append_missing families [] = families
append_missing families (f ∷ fs) =
    append_missing (if any (same_family f) families then families else families ++ f ∷ []) fs

unfoldable pub families_for : TaskClass → List Family
unfolding append_missing
families_for tc =
    append_missing (task_families tc)
      (sol ∷ five_five ∷ terra ∷ five_four ∷ luna ∷ mini ∷ spark ∷ [])

abbrev status_rank : ModelStatus → ℕ
status_rank available = 0
status_rank limited = 1
status_rank depleted = 2
status_rank ModelStatus.unknown = 3
status_rank disabled = 4

abbrev same_texts : List String → List String → Bool
same_texts [] [] = true
same_texts (a ∷ as') (b ∷ bs) = str_eq a b && same_texts as' bs
same_texts _ _ = false

abbrev same_grade : Option ℕ → Option ℕ → Bool
same_grade none none = true
same_grade (some a) (some b) = a == b
same_grade _ _ = false

abbrev same_maybe_family : Option Family → Option Family → Bool
same_maybe_family none none = true
same_maybe_family (some a) (some b) = same_family a b
same_maybe_family _ _ = false

-- `==` of the frozen dataclass: field by field.
unfoldable pub same_model : CatalogModel → CatalogModel → Bool
same_model a b =
    str_eq a.id b.id
    && str_eq a.name b.name
    && same_maybe_family a.family b.family
    && same_grade a.grade b.grade
    && same_texts a.efforts b.efforts
    && status_rank a.status == status_rank b.status

-- The test of the inner loop, but for `model not in result`.
unfoldable pub fits : TaskClass → ℕ → Family → CatalogModel → Bool
fits tc maximum f m =
    in_family f m.family
    && elim m.grade [ none ↦ false | some g ↦ leb (task_min_grade tc) g && leb g maximum ]

unfoldable pub scan_family :
    TaskClass → ℕ → Family → List CatalogModel → List CatalogModel → List CatalogModel
scan_family tc maximum f [] result = result
scan_family tc maximum f (m ∷ ms) result =
    scan_family tc maximum f ms
      (if fits tc maximum f m && not (any (same_model m) result) then result ++ m ∷ [] else result)

unfoldable pub scan_families :
    TaskClass → ℕ → List CatalogModel → List Family → List CatalogModel → List CatalogModel
scan_families tc maximum catalog [] result = result
scan_families tc maximum catalog (f ∷ fs) result =
    scan_families tc maximum catalog fs (scan_family tc maximum f catalog result)

unfoldable pub ladder : List CatalogModel → TaskClass → ℕ → List CatalogModel
ladder catalog tc maximum = scan_families tc maximum catalog (families_for tc) []
