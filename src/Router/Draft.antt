-- ===== src/Router/Draft.antt =====
-- The arguments of route_preview (app/router.py), what its returns share, and its first tests. Each
-- return is a `Draft`, the arguments of `_result` that differ from one return to the next.
use codex_gate.Prelude.{
  ℕ, String, Bool, true, false, ◌&&◌, ◌||◌, Option, none, some, List, [], ◌∷◌, not, leb, ltb,
  if◌then◌else◌,
}
use codex_gate.Account.Windows.{AccountState, conserve, critical, blocked, StateDetails}
use codex_gate.Router.Types.{
  TaskClass, t3, t4, t5, CatalogModel, ModelEntry, WebRecommendation, task_min_grade,
}
use codex_gate.Router.Policy.{
  Reason, account_blocked, account_critical, grade_below_minimum, UltraConditions, PreviewStatus,
  hold, preview, scale_hold_reason,
}

-- The arguments of route_preview. `file_count` and `independent_axes` are counts.
pub record Request : Type 0 where
  pub models : List ModelEntry
  pub model_statuses : List (String × String)
  pub task_class : String
  pub risk : String
  pub read_only : Bool
  pub file_count : ℕ
  pub has_tests : Bool
  pub web_recommendation : Option WebRecommendation
  pub account_state : String
  pub account_usage : Option StateDetails
  pub parallel_audit : Bool
  pub independent_axes : ℕ
  pub explicit_ultra_approval : Bool

pub record Draft : Type 0 where
  pub status : PreviewStatus
  pub ladder : List CatalogModel
  pub minimum_effort : Option ℕ
  pub final : Option (CatalogModel × String)
  pub downgrade_reasons : List Reason
  pub hold_reasons : List Reason
  pub warnings : List Reason
  pub ultra_conditions : Option UltraConditions

unfoldable pub held : List CatalogModel → ℕ → Reason → List Reason → Draft
held models minimum reason warnings = record {
  status = hold;
  ladder = models;
  minimum_effort = some minimum;
  final = none;
  downgrade_reasons = [];
  hold_reasons = reason ∷ [];
  warnings = warnings;
  ultra_conditions = none;
}

unfoldable pub chosen :
    List CatalogModel → ℕ → CatalogModel → String → List Reason → List Reason → Draft
chosen models minimum m effort reasons warnings = record {
  status = preview;
  ladder = models;
  minimum_effort = some minimum;
  final = some (m, effort);
  downgrade_reasons = reasons;
  hold_reasons = [];
  warnings = warnings;
  ultra_conditions = none;
}

-- What the later returns share: the class, the recommended model with its grade, the ladder that is
-- displayed, the minimum effort and the recommended effort with its stage.
pub record Scene : Type 0 where
  pub request : Request
  pub tc : TaskClass
  pub account : AccountState
  pub warnings : List Reason
  pub recommended : CatalogModel
  pub grade : ℕ
  pub models : List CatalogModel
  pub display : List CatalogModel
  pub minimum : ℕ
  pub effort : String

abbrev is_state : AccountState → AccountState → Bool
is_state blocked blocked = true
is_state critical critical = true
is_state conserve conserve = true
is_state _ _ = false

abbrev pub is_heavy : TaskClass → Bool
is_heavy t3 = true
is_heavy t4 = true
is_heavy t5 = true
is_heavy _ = false

-- The four tests before the effort is read.
unfoldable pub early_hold : Scene → Option Reason
early_hold s =
    if is_state s.account blocked
    then some account_blocked
    else if is_state s.account critical && is_heavy s.tc
    then some account_critical
    else elim (scale_hold_reason s.tc s.request.file_count) [
      | some reason ↦ some reason
      | none ↦ if ltb s.grade (task_min_grade s.tc) then some grade_below_minimum else none
    ]

unfoldable pub ultra_conditions_of : Scene → UltraConditions
ultra_conditions_of s = record {
  read_only = s.request.read_only;
  parallel_audit = s.request.parallel_audit;
  independent_axes = leb 3 s.request.independent_axes;
  explicit_ultra_approval = s.request.explicit_ultra_approval;
  account_allows_ultra = not (is_state s.account conserve || is_state s.account critical);
}

unfoldable pub all_hold : UltraConditions → Bool
all_hold c =
    c.read_only && c.parallel_audit && c.independent_axes && c.explicit_ultra_approval
    && c.account_allows_ultra
