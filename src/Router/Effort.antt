-- ===== src/Router/Effort.antt =====
-- Effort literals and their semantic stages (app/router.py).
pub mod Bounds
pub mod Literals
use codex_gate.Prelude.{
  ℕ, String, Bool, true, false, ◌&&◌, ◌||◌, Option, none, some, List, [], ◌∷◌, codes, strip,
  casefold, replace, same_codes, leb, ltb, ◌==◌, if◌then◌else◌, is_some, max,
}
use mathlib.Core.List.{reverse}
use codex_gate.Router.Types.{
  TaskClass, CatalogModel, Family, sol, terra, luna, five_five, t3, t5, in_family, ultra_stage,
  task_min_effort_stage,
}

-- EFFORT_STAGE.
abbrev effort_table : List (String × ℕ)
effort_table =
    ("low", 0)
    ∷ ("medium", 1)
    ∷ ("high", 2)
    ∷ ("xhigh", 3)
    ∷ ("x-high", 3)
    ∷ ("veryhigh", 3)
    ∷ ("very-high", 3)
    ∷ ("매우높음", 3)
    ∷ ("매우-높음", 3)
    ∷ ("max", 4)
    ∷ ("ultra", 5)
    ∷ []

lookup_codes : List ℕ → List (String × ℕ) → Option ℕ
unfolding same_codes
lookup_codes s [] = none
lookup_codes s ((k, v) ∷ rest) = if same_codes s (codes k) then some v else lookup_codes s rest

unfoldable pub effort_stage : String → Option ℕ
unfolding lookup_codes strip casefold replace
effort_stage value =
    lookup_codes (replace b' ' b'-' (replace b'_' b'-' (casefold (strip (codes value)))))
      effort_table

unfoldable pub is_ultra : CatalogModel → String → Bool
unfolding casefold same_codes
is_ultra m effort =
    same_codes (casefold (codes effort)) (codes "ultra")
    && (in_family sol m.family || in_family terra m.family || in_family luna m.family)

-- `advertised`: the stages below Ultra, in the server's order.
unfoldable pub advertised_stages : List String → List ℕ
advertised_stages [] = []
advertised_stages (e ∷ es) = elim (effort_stage e) [
  | none ↦ advertised_stages es
  | some s ↦ if ltb s ultra_stage then s ∷ advertised_stages es else advertised_stages es
]

unfoldable pub max_stage : List ℕ → Option ℕ
max_stage [] = none
max_stage (s ∷ ss) = elim (max_stage ss) [ none ↦ some s | some t ↦ some (max s t) ]

-- The rest of `_minimum_effort_stage`, past the test for the family 5.5.
unfoldable pub class_minimum : TaskClass → ℕ → ℕ
class_minimum t3 files = if leb 4 files then 3 else 2
class_minimum tc files = task_min_effort_stage tc

abbrev is_t5 : TaskClass → Bool
is_t5 t5 = true
is_t5 tc = false

unfoldable pub minimum_effort_stage : TaskClass → ℕ → Option CatalogModel → ℕ
unfolding class_minimum
minimum_effort_stage tc files none = class_minimum tc files
minimum_effort_stage tc files (some m) =
    if is_t5 tc && in_family five_five m.family
    then elim (max_stage (advertised_stages m.efforts)) [
      | none ↦ class_minimum tc files
      | some s ↦ s
    ]
    else class_minimum tc files

unfoldable pub has_stage : ℕ → String → Bool
has_stage stage effort = elim (effort_stage effort) [ none ↦ false | some s ↦ s == stage ]

unfoldable pub literal_in : List String → ℕ → Option String
literal_in [] stage = none
literal_in (e ∷ es) stage = if has_stage stage e then some e else literal_in es stage

unfoldable pub literal_at_stage : CatalogModel → ℕ → Option String
unfolding literal_in
literal_at_stage m stage = literal_in m.efforts stage

-- The test of the loop in `_select_effort`.
unfoldable pub suits : ℕ → ℕ → String → Bool
suits lo hi effort = elim (effort_stage effort) [
  | none ↦ false
  | some s ↦ leb lo s && leb s hi && ltb s ultra_stage
]

unfoldable pub first_suiting : List String → ℕ → ℕ → Option String
first_suiting [] lo hi = none
first_suiting (e ∷ es) lo hi = if suits lo hi e then some e else first_suiting es lo hi

unfoldable pub select_effort : CatalogModel → ℕ → Option ℕ → Option String
unfolding first_suiting
select_effort m lo none = none
select_effort m lo (some hi) = if ltb hi lo then none else first_suiting m.efforts lo hi

unfoldable pub is_below_ultra : String → Bool
is_below_ultra effort = elim (effort_stage effort) [ none ↦ false | some s ↦ ltb s ultra_stage ]

unfoldable pub first_below_ultra : List String → Option String
first_below_ultra [] = none
first_below_ultra (e ∷ es) = if is_below_ultra e then some e else first_below_ultra es

unfoldable pub highest_non_ultra_effort : CatalogModel → Option String
unfolding first_below_ultra
highest_non_ultra_effort m = first_below_ultra (reverse m.efforts)
