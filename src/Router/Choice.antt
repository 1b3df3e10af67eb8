-- ===== src/Router/Choice.antt =====
-- The choice of a model in route_preview (app/router.py): the branch of a request for Ultra, and the
-- branch of the downgrade policy.
pub mod Sound
pub mod Consistent
pub mod Gate
pub mod Rounds
use codex_gate.Prelude.{
  ℕ, ◌-◌, String, Bool, true, false, ◌&&◌, ◌||◌, Option, none, some, List, [], ◌∷◌, ◌++◌, not, map,
  str_eq, leb, ltb, find, keep, if◌then◌else◌,
}
use mathlib.Core.Option
use codex_gate.Account.Windows.{AccountState, conserve, critical, blocked, StateDetails}
use codex_gate.Router.Types.{
  TaskClass, t3, t4, t5, ModelStatus, available, limited, CatalogModel, ModelEntry,
  WebRecommendation, Recommendation, task_min_grade, effort_label, is_truthy,
}
use codex_gate.Router.Effort.{
  effort_stage, is_ultra, minimum_effort_stage, literal_at_stage, select_effort,
  highest_non_ultra_effort,
}
use codex_gate.Router.Catalog.{
  normalized_task_class, normalized_account, catalog_of, recommendation_of,
}
use codex_gate.Router.Ladder.{ladder}
use codex_gate.Router.Policy.{
  Reason, unknown_task_class, recommendation_required, not_in_catalog, account_blocked,
  account_critical, grade_below_minimum, effort_not_advertised, stage_without_literal,
  effort_below_minimum, ultra_without_fallback, status_or_effort, ultra_unavailable,
  lower_model_selected, model_downgrade, effort_downgrade, effort_mapping, account_unknown,
  selected_limited, recommended_limited, Candidate, candidate, UltraConditions, PreviewStatus, hold,
  preview, Preview, is_excluded, is_limited, scale_hold_reason, Downgrade, downgrade_policy,
}
use codex_gate.Router.Draft.{
  Request, Draft, held, chosen, Scene, is_heavy, early_hold, ultra_conditions_of, all_hold,
}

-- `fallback and ... >= minimum_effort`.
unfoldable pub is_safe_fallback : String → ℕ → Bool
is_safe_fallback effort minimum =
    is_truthy (some effort) && elim (effort_stage effort) [ none ↦ false | some s ↦ leb minimum s ]

fallback_draft : Scene → Option String → Draft
fallback_draft s none = held s.display s.minimum ultra_without_fallback s.warnings
fallback_draft s (some fallback) =
    if is_safe_fallback fallback s.minimum && not (is_excluded s.recommended.status)
    then chosen s.display s.minimum s.recommended fallback (ultra_unavailable ∷ []) s.warnings
    else held s.display s.minimum ultra_without_fallback s.warnings

-- The branch of a request for Ultra; `literal` is the literal at the recommended stage.
unfoldable pub ultra_draft : Scene → String → Draft
unfolding fallback_draft
ultra_draft s literal =
    let conditions = ultra_conditions_of s in
    let d =
      if all_hold conditions && not (is_excluded s.recommended.status)
      then chosen s.display s.minimum s.recommended literal [] s.warnings
      else fallback_draft s (highest_non_ultra_effort s.recommended) in
    record d { ultra_conditions = some conditions }

-- The test of `lower_candidates`.
unfoldable pub is_lower : CatalogModel → ℕ → Option ℕ → CatalogModel → Bool
is_lower recommended grade write_limit m = not (str_eq m.id recommended.id) && elim m.grade [
  | none ↦ false
  | some g ↦ ltb g grade && elim write_limit [ none ↦ true | some n ↦ leb (grade - g) n ]
]

abbrev pub is_available : ModelStatus → Bool
is_available available = true
is_available _ = false

abbrev when_truthy : CatalogModel → Option String → Option (CatalogModel × String)
when_truthy m none = none
when_truthy m (some e) = if str_eq e "" then none else some (m, e)

-- A candidate of the loop over the states, with the effort that is selected for it.
unfoldable pub offer :
    (ModelStatus → Bool) → TaskClass → ℕ → ℕ → CatalogModel → Option (CatalogModel × String)
offer in_states tc files stage m =
    if in_states m.status
    then when_truthy m (select_effort m (minimum_effort_stage tc files (some m)) (some stage))
    else none

unfoldable pub first_offer :
    (ModelStatus → Bool) → TaskClass → ℕ → ℕ → List CatalogModel → Option (CatalogModel × String)
first_offer in_states tc files stage [] = none
first_offer in_states tc files stage (m ∷ ms) = elim (offer in_states tc files stage m) [
  | some found ↦ some found
  | none ↦ first_offer in_states tc files stage ms
]

-- The loop over (("AVAILABLE",), ("LIMITED",)).
unfoldable pub select_lower : TaskClass → ℕ → ℕ → List CatalogModel → Option (CatalogModel × String)
select_lower tc files stage candidates = elim (first_offer is_available tc files stage candidates) [
  | some found ↦ some found
  | none ↦ first_offer is_limited tc files stage candidates
]

abbrev pub to_list {ℓ} : {A : Type ℓ} → Option A → List A
to_list none = []
to_list (some a) = a ∷ []

abbrev pub warn_if : Bool → Reason → List Reason
warn_if test reason = if test then reason ∷ [] else []

abbrev final_reason : Option Reason → ModelStatus → Reason
final_reason (some reason) status = reason
final_reason none status = status_or_effort status

-- The returns after the loop: the recommended model itself, or HOLD.
unfoldable pub own_draft : Scene → Option Reason → Option String → Draft
own_draft s reason none =
    held s.display s.minimum (final_reason reason s.recommended.status) s.warnings
own_draft s reason (some effort) =
    if not (is_excluded s.recommended.status) && is_truthy (some effort)
    then chosen s.display s.minimum s.recommended effort []
        (s.warnings ++ warn_if (is_limited s.recommended.status) recommended_limited)
    else held s.display s.minimum (final_reason reason s.recommended.status) s.warnings

-- `recommended_effort_value`.
unfoldable pub own_effort : Scene → ℕ → Bool → Option String
own_effort s stage automatic =
    if automatic
    then select_effort s.recommended s.minimum (some stage)
    else literal_at_stage s.recommended stage

lower_draft : Scene → Option Reason → CatalogModel × String → Draft
lower_draft s reason (m, effort) =
    chosen s.display s.minimum m effort (lower_model_selected ∷ to_list reason)
      (s.warnings ++ warn_if (is_limited m.status) selected_limited)

unfoldable pub lower_candidates : Scene → Option ℕ → List CatalogModel
lower_candidates s limit = keep (is_lower s.recommended s.grade limit) s.models

-- `selected`, over both rounds of the loop.
unfoldable pub lower_pick : Scene → ℕ → Downgrade → Option (CatalogModel × String)
lower_pick s stage policy =
    if policy.automatic
    then select_lower s.tc s.request.file_count stage (lower_candidates s policy.write_limit)
    else none

unfoldable pub automatic_draft : Scene → ℕ → Downgrade → Draft
unfolding lower_draft
automatic_draft s stage policy = elim (lower_pick s stage policy) [
  | some pick ↦ lower_draft s policy.reason pick
  | none ↦ own_draft s policy.reason (own_effort s stage policy.automatic)
]
