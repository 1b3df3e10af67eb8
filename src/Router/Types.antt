-- ===== src/Router/Types.antt =====
-- The policy tables and the records of app/router.py.
use codex_gate.Prelude.{
  ℕ, String, ◌≡◌, ◌↔◌, Bool, true, false, Option, none, some, List, [], ◌∷◌, arith, str_eq, ◌==◌,
  if◌then◌else◌,
}

pub data TaskClass : Type 0 where
  t0 t1 t2 t3 t4 t5 : TaskClass

-- The families "spark", "mini", "luna", "5.4", "terra", "5.5" and "sol".
pub data Family : Type 0 where
  spark mini luna five_four terra five_five sol : Family

pub data ModelStatus : Type 0 where
  available limited depleted unknown disabled : ModelStatus

abbrev pub task_families : TaskClass → List Family
task_families t0 = spark ∷ []
task_families t1 = spark ∷ mini ∷ []
task_families t2 = mini ∷ luna ∷ []
task_families t3 = five_four ∷ terra ∷ []
task_families t4 = terra ∷ five_four ∷ []
task_families t5 = sol ∷ five_five ∷ []

abbrev pub task_min_grade : TaskClass → ℕ
task_min_grade t0 = 0
task_min_grade t1 = 0
task_min_grade t2 = 1
task_min_grade t3 = 3
task_min_grade t4 = 3
task_min_grade t5 = 5

abbrev pub task_min_effort_stage : TaskClass → ℕ
task_min_effort_stage t0 = 1
task_min_effort_stage t1 = 2
task_min_effort_stage t2 = 2
task_min_effort_stage t3 = 2
task_min_effort_stage t4 = 3
task_min_effort_stage t5 = 4

abbrev pub family_grade : Family → ℕ
family_grade spark = 0
family_grade mini = 1
family_grade luna = 2
family_grade five_four = 3
family_grade terra = 4
family_grade five_five = 5
family_grade sol = 6

-- Equality of families: no two have one grade.
abbrev pub same_family : Family → Family → Bool
same_family a b = family_grade a == family_grade b

pub same_family_iff : (a b : Family) → (same_family a b ≡ true) ↔ (a ≡ b)
same_family_iff a b = ground arith

abbrev pub in_family : Family → Option Family → Bool
in_family f none = false
in_family f (some g) = same_family g f

-- EFFORT_LABEL, the text of `minimum_effort`.
abbrev pub effort_label : ℕ → Option String
effort_label s =
    if s == 1
    then some "Medium"
    else if s == 2
    then some "High"
    else if s == 3
    then some "Very High"
    else if s == 4
    then some "Max"
    else none

abbrev pub ultra_stage : ℕ
ultra_stage = 5

pub record CatalogModel : Type 0 where
  pub id : String
  pub name : String
  pub family : Option Family
  pub grade : Option ℕ
  pub efforts : List String
  pub status : ModelStatus

-- An entry of `models`, with the fields that Store.router_models gives it.
pub record ModelEntry : Type 0 where
  pub id : String
  pub model : String
  pub display_name : String
  pub hidden : Bool
  pub efforts : List String
  pub manual_status : String

-- The web recommendation as it is posted, and the pair that `_recommendation` makes of it.
pub record WebRecommendation : Type 0 where
  pub model : Option String
  pub model_id : Option String
  pub effort : Option String
  pub reasoning_effort : Option String

pub record Recommendation : Type 0 where
  pub model : Option String
  pub effort : Option String

-- A text or `None`, as a truth value.
abbrev pub is_truthy : Option String → Bool
is_truthy none = false
is_truthy (some s) = if str_eq s "" then false else true
