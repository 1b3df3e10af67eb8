-- ===== src/Router/Policy.antt =====
-- The downgrade policy, the scale limits and the records of a preview (app/router.py). The messages
-- are constructors that hold the values which the source formats into the text.
use codex_gate.Prelude.{
  ℕ, String, Bool, true, false, ◌&&◌, ◌||◌, Option, none, some, List, codes, strip, casefold,
  same_codes, ltb, not, if◌then◌else◌,
}
use codex_gate.Account.Windows.{AccountState, conserve, StateDetails}
use codex_gate.Router.Types.{
  TaskClass, t0, t1, t2, t3, t4, Family, ModelStatus, limited, available, CatalogModel,
  Recommendation,
}

pub data Reason : Type 0 where
  -- hold_reasons
  unknown_task_class : String → Reason
  recommendation_required not_in_catalog account_blocked account_critical : Reason
  too_many_files : TaskClass → ℕ → ℕ → TaskClass → Reason
  grade_below_minimum effort_not_advertised stage_without_literal effort_below_minimum : Reason
  ultra_without_fallback : Reason
  status_or_effort : ModelStatus → Reason
  -- the reasons of the downgrade policy
  risk_not_low conserve_low_risk_only tests_required tests_required_t2 write_two_grades : Reason
  -- downgrade_reasons
  ultra_unavailable lower_model_selected : Reason
  model_downgrade : String → String → Reason
  effort_downgrade : ℕ → ℕ → String → String → Reason
  effort_mapping : String → String → Option ℕ → Reason
  -- warnings
  account_unknown selected_limited recommended_limited : Reason

pub data SelectionReason : Type 0 where
  selected_by_policy : SelectionReason
  excluded_by_status : ModelStatus → SelectionReason
  eligible_after_available no_suitable_effort eligible : SelectionReason

pub record Candidate : Type 0 where
  pub model : String
  pub name : String
  pub family : Option Family
  pub effort : Option String
  pub status : ModelStatus
  pub selection_reason : SelectionReason

-- The conditions in `ultra_conditions`.
pub record UltraConditions : Type 0 where
  pub read_only : Bool
  pub parallel_audit : Bool
  pub independent_axes : Bool
  pub explicit_ultra_approval : Bool
  pub account_allows_ultra : Bool

pub record PolicyInput : Type 0 where
  pub task_class : Option TaskClass
  pub file_count : ℕ
  pub has_tests : Bool
  pub read_only : Bool
  pub risk : String
  pub minimum_effort : Option String

pub data PreviewStatus : Type 0 where
  hold preview : PreviewStatus

-- The dictionary that `_result` returns.
pub record Preview : Type 0 where
  pub status : PreviewStatus
  pub task_class : Option TaskClass
  pub recommendation : Recommendation
  pub final : Option Candidate
  pub candidate_ladder : List Candidate
  pub downgrade_reasons : List Reason
  pub hold_reasons : List Reason
  pub warnings : List Reason
  pub account_state : AccountState
  pub account_usage_evidence : StateDetails
  pub policy_input : PolicyInput
  pub ultra_conditions : Option UltraConditions
  pub preview_only : Bool
  pub execution_rpc_called : Bool

-- `_candidate`.
abbrev pub is_excluded : ModelStatus → Bool
is_excluded available = false
is_excluded limited = false
is_excluded _ = true

abbrev pub is_limited : ModelStatus → Bool
is_limited limited = true
is_limited _ = false

abbrev effort_reason : Option String → SelectionReason
effort_reason none = no_suitable_effort
effort_reason (some e) = eligible

unfoldable pub selection_reason_of : CatalogModel → Option String → Bool → SelectionReason
selection_reason_of m effort selected =
    if selected
    then selected_by_policy
    else if is_excluded m.status
    then excluded_by_status m.status
    else if is_limited m.status
    then eligible_after_available
    else effort_reason effort

unfoldable pub candidate : CatalogModel → Option String → Bool → Candidate
unfolding selection_reason_of
candidate m effort selected = record {
  model = m.id;
  name = m.name;
  family = m.family;
  effort = effort;
  status = m.status;
  selection_reason = selection_reason_of m effort selected;
}

-- `_scale_hold_reason`.
scale_limit : TaskClass → ℕ → TaskClass → ℕ → Option Reason
scale_limit tc limit next files =
    if ltb limit files then some (too_many_files tc limit files next) else none

unfoldable pub scale_hold_reason : TaskClass → ℕ → Option Reason
unfolding scale_limit
scale_hold_reason t1 files = scale_limit t1 2 t2 files
scale_hold_reason t2 files = scale_limit t2 5 t3 files
scale_hold_reason t3 files = scale_limit t3 10 t4 files
scale_hold_reason tc files = none

-- LOW_RISK.
unfoldable pub is_low_risk : String → Bool
unfolding strip casefold same_codes
is_low_risk risk =
    let text = casefold (strip (codes risk)) in
    same_codes text (codes "low")
    || same_codes text (codes "safe")
    || same_codes text (codes "minimal")

-- `_downgrade_policy`: automatic, the grade limit of a write, and the reason.
pub record Downgrade : Type 0 where
  pub automatic : Bool
  pub write_limit : Option ℕ
  pub reason : Option Reason

abbrev is_conserve : AccountState → Bool
is_conserve conserve = true
is_conserve _ = false

abbrev is_t2_or_above : TaskClass → Bool
is_t2_or_above t0 = false
is_t2_or_above t1 = false
is_t2_or_above _ = true

refused : Reason → Downgrade
refused reason = record { automatic = false; write_limit = none; reason = some reason }

unfoldable pub downgrade_policy : TaskClass → String → Bool → Bool → AccountState → Downgrade
unfolding refused
downgrade_policy tc risk read_only has_tests account =
    if not (is_low_risk risk)
    then refused risk_not_low
    else if is_conserve account && not (is_low_risk risk)
    then refused conserve_low_risk_only
    else if read_only
    then record { automatic = true; write_limit = none; reason = none }
    else if not has_tests
    then refused tests_required
    else if is_t2_or_above tc && not has_tests
    then refused tests_required_t2
    else record { automatic = true; write_limit = some 2; reason = some write_two_grades }
