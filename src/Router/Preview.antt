-- ===== src/Router/Preview.antt =====
-- route_preview of app/router.py, and the dictionary that `_result` makes of each return.
pub mod Scenes
pub mod Ceiling
pub mod Lowering
pub mod Holds
pub mod Ultra
use codex_gate.Prelude.{
  ℕ, ◌-◌, String, Bool, true, false, ◌&&◌, ◌||◌, Option, none, some, List, [], ◌∷◌, ◌++◌, not, map,
  str_eq, leb, ltb, find, keep, if◌then◌else◌,
}
use mathlib.Core.Option
use codex_gate.Account.Windows.{AccountState, conserve, critical, blocked, StateDetails}
use codex_gate.Router.Types.{
  TaskClass, t3, t4, t5, ModelStatus, available, limited, CatalogModel, ModelEntry,
  WebRecommendation, Recommendation, task_min_grade, effort_label, is_truthy,
}
use codex_gate.Router.Effort.{
  effort_stage, is_ultra, minimum_effort_stage, literal_at_stage, select_effort,
  highest_non_ultra_effort,
}
use codex_gate.Router.Catalog.{
  normalized_task_class, normalized_account, catalog_of, recommendation_of,
}
use codex_gate.Router.Ladder.{ladder}
use codex_gate.Router.Policy.{
  Reason, unknown_task_class, recommendation_required, not_in_catalog, account_blocked,
  account_critical, grade_below_minimum, effort_not_advertised, stage_without_literal,
  effort_below_minimum, ultra_without_fallback, status_or_effort, ultra_unavailable,
  lower_model_selected, model_downgrade, effort_downgrade, effort_mapping, account_unknown,
  selected_limited, recommended_limited, Candidate, candidate, UltraConditions, PreviewStatus, hold,
  preview, Preview, is_excluded, is_limited, scale_hold_reason, Downgrade, downgrade_policy,
}
use codex_gate.Router.Draft.{
  Request, Draft, held, chosen, Scene, is_heavy, early_hold, ultra_conditions_of, all_hold,
}
use codex_gate.Router.Choice.{ultra_draft, automatic_draft, warn_if}

-- The tests on the recommended effort, once its stage is known.
unfoldable pub staged_draft : Scene → ℕ → Draft
staged_draft s stage = elim (literal_at_stage s.recommended stage) [
  | none ↦ held s.display s.minimum stage_without_literal s.warnings
  | some literal ↦
      if ltb stage s.minimum
      then held s.display s.minimum effort_below_minimum s.warnings
      else if is_ultra s.recommended s.effort
      then ultra_draft s literal
      else automatic_draft s stage
          (downgrade_policy s.tc s.request.risk s.request.read_only s.request.has_tests s.account)
]

unfoldable pub scene_draft : Scene → Draft
scene_draft s = elim (early_hold s) [
  | some reason ↦ held s.display s.minimum reason s.warnings
  | none ↦ elim (effort_stage s.effort) [
    | none ↦ held s.display s.minimum effort_not_advertised s.warnings
    | some stage ↦ staged_draft s stage
  ]
]

unfoldable pub has_id : String → CatalogModel → Bool
has_id id m = str_eq m.id id

unfoldable pub scene_of :
    Request
    → TaskClass
    → AccountState
    → List Reason
    → List CatalogModel
    → CatalogModel
    → ℕ
    → String
    → Scene
scene_of r tc account warnings catalog m grade effort =
    let models = ladder catalog tc grade in
    record {
      request = r;
      tc = tc;
      account = account;
      warnings = warnings;
      recommended = m;
      grade = grade;
      models = models;
      display = m ∷ keep (λ c. not (has_id m.id c)) models;
      minimum = minimum_effort_stage tc r.file_count (some m);
      effort = effort;
    }

-- `not recommended or recommended.grade is None`.
recommended_draft :
    Request
    → TaskClass
    → AccountState
    → List Reason
    → List CatalogModel
    → Option CatalogModel
    → String
    → Draft
recommended_draft r tc account warnings catalog none effort =
    held [] (minimum_effort_stage tc r.file_count none) not_in_catalog warnings
recommended_draft r tc account warnings catalog (some m) effort = elim m.grade [
  | none ↦ held [] (minimum_effort_stage tc r.file_count none) not_in_catalog warnings
  | some grade ↦ scene_draft (scene_of r tc account warnings catalog m grade effort)
]

-- `not recommendation_model or not recommendation_effort`.
unfoldable pub classed_draft :
    Request
    → TaskClass
    → AccountState
    → List Reason
    → List CatalogModel
    → Option String
    → Option String
    → Draft
unfolding recommended_draft
classed_draft r tc account warnings catalog (some model) (some effort) =
    if is_truthy (some model) && is_truthy (some effort)
    then recommended_draft r tc account warnings catalog (find (has_id model) catalog) effort
    else held [] (minimum_effort_stage tc r.file_count none) recommendation_required warnings
classed_draft r tc account warnings catalog model effort =
    held [] (minimum_effort_stage tc r.file_count none) recommendation_required warnings

abbrev is_unknown : AccountState → Bool
is_unknown AccountState.unknown = true
is_unknown _ = false

unfoldable pub draft_of : Request → Option TaskClass → Draft
draft_of r none = record {
  status = hold;
  ladder = [];
  minimum_effort = none;
  final = none;
  downgrade_reasons = [];
  hold_reasons = unknown_task_class r.task_class ∷ [];
  warnings = warn_if (is_unknown (normalized_account r.account_state)) account_unknown;
  ultra_conditions = none;
}
draft_of r (some tc) =
    let account = normalized_account r.account_state in
    let wanted = recommendation_of r.web_recommendation in
    classed_draft r tc account (warn_if (is_unknown account) account_unknown)
      (catalog_of r.model_statuses r.models) wanted.model wanted.effort

-- The stage that `_result` computes from the recommended effort.
unfoldable pub stage_of : Option String → Option ℕ
stage_of none = none
stage_of (some e) = if str_eq e "" then none else effort_stage e

-- The two tests on `final` that add a downgrade reason.
unfoldable pub model_reasons : Option String → CatalogModel → List Reason
model_reasons none m = []
model_reasons (some model) m =
    if is_truthy (some model) && not (str_eq m.id model)
    then model_downgrade model m.id ∷ []
    else []

abbrev stage_reason : Option ℕ → Option ℕ → String → String → Reason
stage_reason (some final) (some wanted) from to =
    if ltb final wanted
    then effort_downgrade wanted final from to
    else effort_mapping from to (some wanted)
stage_reason _ wanted from to = effort_mapping from to wanted

unfoldable pub effort_reasons : Option String → String → List Reason
effort_reasons none effort = []
effort_reasons (some wanted) effort =
    if is_truthy (some wanted) && not (str_eq effort wanted)
    then stage_reason (effort_stage effort) (stage_of (some wanted)) wanted effort ∷ []
    else []

unfoldable pub final_reasons : Recommendation → Option (CatalogModel × String) → List Reason
final_reasons wanted none = []
final_reasons wanted (some (m, effort)) =
    model_reasons wanted.model m ++ effort_reasons wanted.effort effort

-- An entry of `candidate_ladder`. With no class the ladder is empty.
abbrev ladder_entry :
    TaskClass → ℕ → Option ℕ → Option (CatalogModel × String) → CatalogModel → Candidate
ladder_entry tc files stage none m =
    candidate m (select_effort m (minimum_effort_stage tc files (some m)) stage) false
ladder_entry tc files stage (some (chosen_model, effort)) m =
    if str_eq m.id chosen_model.id
    then candidate m (some effort) true
    else candidate m (select_effort m (minimum_effort_stage tc files (some m)) stage) false

unfoldable pub ladder_entries :
    Option TaskClass
    → ℕ
    → Option ℕ
    → Option (CatalogModel × String)
    → List CatalogModel
    → List Candidate
ladder_entries none files stage final models = []
ladder_entries (some tc) files stage final models = map (ladder_entry tc files stage final) models

abbrev final_candidate : CatalogModel × String → Candidate
final_candidate (m, effort) = candidate m (some effort) true

-- `_account_evidence`.
unfoldable pub account_evidence : Option StateDetails → StateDetails
account_evidence none = record {
  status = AccountState.unknown;
  maximum_used_percent = none;
  maximum_window = none;
  windows = [];
  blocking_reason = none;
}
account_evidence (some evidence) = evidence

unfoldable pub result : Request → Option TaskClass → Draft → Preview
unfolding final_reasons model_reasons effort_reasons ladder_entries account_evidence stage_of
result r tc d =
    let wanted = recommendation_of r.web_recommendation in
    record {
      status = d.status;
      task_class = tc;
      recommendation = wanted;
      final = Option.map final_candidate d.final;
      candidate_ladder = ladder_entries tc r.file_count (stage_of wanted.effort) d.final d.ladder;
      downgrade_reasons = d.downgrade_reasons ++ final_reasons wanted d.final;
      hold_reasons = d.hold_reasons;
      warnings = d.warnings;
      account_state = normalized_account r.account_state;
      account_usage_evidence = account_evidence r.account_usage;
      policy_input = record {
        task_class = tc;
        file_count = r.file_count;
        has_tests = r.has_tests;
        read_only = r.read_only;
        risk = r.risk;
        minimum_effort = Option.bind d.minimum_effort effort_label;
      };
      ultra_conditions = d.ultra_conditions;
      preview_only = true;
      execution_rpc_called = false;
    }

unfoldable pub route_preview : Request → Preview
unfolding result draft_of
route_preview r = let tc = normalized_task_class r.task_class in result r tc (draft_of r tc)
