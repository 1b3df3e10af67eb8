-- ===== src/Router/Tests.antt =====
-- Runs of the route preview, and its theorems at concrete requests.
use codex_gate.Prelude.{
  ◌≡◌, refl, String, Bool, true, false, none, some, List, [], ◌∷◌, ◌⊎◌, inl, is_some, Memᴰ,
}
use codex_gate.Account.Windows.{AccountState}
use codex_gate.Router.Types.{
  Family, sol, terra, five_five, mini, t1, t4, ModelStatus, available, limited, CatalogModel,
  ModelEntry, WebRecommendation,
}
use codex_gate.Router.Effort.{
  effort_stage, is_ultra, minimum_effort_stage, advertised_stages, max_stage, has_stage,
  literal_at_stage, suits, select_effort, is_below_ultra, highest_non_ultra_effort,
}
use codex_gate.Router.Catalog.{
  normalized_task_class, family_for, status_of, normalized_account, catalog_model, catalog_of,
  recommendation_of,
}
use codex_gate.Router.Ladder.{families_for, same_model, fits, scan_family, scan_families, ladder}
use codex_gate.Router.Ladder.Laws.{InRange, ladder-Sound}
use codex_gate.Router.Ladder.Unique.{is_unique, ladder-is_unique}
use codex_gate.Router.Policy.{
  Candidate, candidate, hold, preview, scale_hold_reason, is_low_risk, downgrade_policy, Reason,
  selected_by_policy,
}
use codex_gate.Router.Draft.{Request, held, chosen, early_hold, ultra_conditions_of, all_hold}
use codex_gate.Router.Choice.{
  is_safe_fallback, ultra_draft, is_lower, is_available, offer, first_offer, select_lower,
  own_draft, own_effort, lower_candidates, lower_pick, automatic_draft,
}
use codex_gate.Router.Choice.Rounds.{select_lower-prefers_available}
use codex_gate.Router.Preview.{
  staged_draft, scene_draft, has_id, scene_of, classed_draft, route_preview,
}
use codex_gate.Router.Preview.Ceiling.{IsWithinCeiling, route_preview-IsWithinCeiling}
use codex_gate.Router.Preview.Lowering.{IsLowered, route_preview-IsLowered}
use codex_gate.Router.Preview.Holds.{route_preview-held, route_preview-status}
use codex_gate.Router.Preview.Ultra.{IsUltraAllowed, IsUngated, route_preview-ultra}

-- Unfolding `Run` unfolds all that a preview calls.
Run : Request → Candidate → Type 0
unfolding route_preview classed_draft scene_draft staged_draft scene_of has_id early_hold
    ultra_conditions_of all_hold ultra_draft is_safe_fallback is_lower offer first_offer
    select_lower own_draft own_effort lower_candidates lower_pick automatic_draft held chosen
    effort_stage is_ultra minimum_effort_stage advertised_stages max_stage has_stage
    literal_at_stage suits select_effort is_below_ultra highest_non_ultra_effort
    normalized_task_class family_for status_of normalized_account catalog_model catalog_of
    recommendation_of families_for same_model fits scan_family scan_families ladder
    scale_hold_reason is_low_risk downgrade_policy candidate
Run r c = (route_preview r).final ≡ some c

abbrev entry : String → String → List String → String → ModelEntry
entry id name efforts status = record {
  id = id;
  model = id;
  display_name = name;
  hidden = false;
  efforts = efforts;
  manual_status = status;
}

abbrev server_models : List ModelEntry
server_models =
    entry "gpt-5.6-sol" "Sol" ("low" ∷ "high" ∷ "xhigh" ∷ "max" ∷ "ultra" ∷ []) "AVAILABLE"
    ∷ entry "gpt-5.5" "GPT 5.5" ("high" ∷ "xhigh" ∷ "ultra" ∷ []) "AVAILABLE"
    ∷ entry "gpt-5.6-terra" "Terra" ("medium" ∷ "high" ∷ "xhigh" ∷ []) "LIMITED"
    ∷ entry "gpt-5.4-mini" "Mini" ("medium" ∷ "high" ∷ []) "AVAILABLE"
    ∷ []

abbrev ask : String → String → WebRecommendation
ask model effort = record {
  model = some model;
  model_id = none;
  effort = some effort;
  reasoning_effort = none;
}

abbrev request : String → String → Bool → String → String → String → Request
request tc risk read_only model effort account = record {
  models = server_models;
  model_statuses = [];
  task_class = tc;
  risk = risk;
  read_only = read_only;
  file_count = 2;
  has_tests = false;
  web_recommendation = some (ask model effort);
  account_state = account;
  account_usage = none;
  parallel_audit = false;
  independent_axes = 0;
  explicit_ultra_approval = false;
}

abbrev shown : String → String → Family → String → ModelStatus → Candidate
shown id name family effort status = record {
  model = id;
  name = name;
  family = some family;
  effort = some effort;
  status = status;
  selection_reason = selected_by_policy;
}

-- A read-only low-risk T1 task falls from Sol to Mini.
abbrev reading : Request
reading = request " t1" "low" true "gpt-5.6-sol" "x-high" "NORMAL"

abbrev reading_shown : Candidate
reading_shown = shown "gpt-5.4-mini" "Mini" mini "high" available

reading_runs : (route_preview reading).final ≡ some reading_shown
unfolding Run
reading_runs = refl

route_preview-IsWithinCeiling_example : IsWithinCeiling reading reading_shown
route_preview-IsWithinCeiling_example =
    route_preview-IsWithinCeiling reading reading_shown reading_runs

route_preview-IsLowered_example :
    ((recommendation_of reading.web_recommendation).model ≡ some reading_shown.model)
    ⊎ IsLowered reading reading_shown
route_preview-IsLowered_example = route_preview-IsLowered reading reading_shown reading_runs

abbrev stopped : Request
stopped = request "PATCH" "low" true "gpt-5.6-sol" "high" "blocked "

stopped_class : normalized_task_class stopped.task_class ≡ some t1
unfolding Run
stopped_class = refl

stopped_account : normalized_account stopped.account_state ≡ AccountState.blocked
unfolding Run
stopped_account = refl

route_preview-held_example : (route_preview stopped).final ≡ none
route_preview-held_example = route_preview-held stopped t1 stopped_class (inl stopped_account)

route_preview-status_example :
    (((route_preview reading).status ≡ preview)
      × (is_some (route_preview reading).final ≡ true)
      × ((route_preview reading).hold_reasons ≡ []))
    ⊎ (((route_preview reading).status ≡ hold)
        × (is_some (route_preview reading).final ≡ false)
        × ((reason : Reason) × ((route_preview reading).hold_reasons ≡ reason ∷ [])))
route_preview-status_example = route_preview-status reading

-- A writing T5 task under CONSERVE, with no approval, is previewed at the literal "ultra" of 5.5.
abbrev ungated : Request
ungated = request "T5" "high" false "gpt-5.5" "ultra" "CONSERVE"

abbrev ungated_shown : Candidate
ungated_shown = shown "gpt-5.5" "GPT 5.5" five_five "ultra" available

ungated_runs : (route_preview ungated).final ≡ some ungated_shown
unfolding Run
ungated_runs = refl

-- So is Sol, if a blank follows the effort.
ungated_blank_runs :
    (route_preview (request "T5" "high" false "gpt-5.6-sol" "ultra " "CONSERVE")).final
    ≡ some (shown "gpt-5.6-sol" "Sol" sol "ultra" available)
unfolding Run
ungated_blank_runs = refl

ultra_is_top : effort_stage "ultra" ≡ some 5
unfolding Run
ultra_is_top = refl

route_preview-ultra_example : IsUltraAllowed ungated ⊎ IsUngated ungated
route_preview-ultra_example =
    route_preview-ultra ungated ungated_shown "ultra" ungated_runs refl ultra_is_top

abbrev terra_model : CatalogModel
terra_model = record {
  id = "gpt-5.6-terra";
  name = "Terra";
  family = some terra;
  grade = some 4;
  efforts = "medium" ∷ "high" ∷ "xhigh" ∷ [];
  status = limited;
}

terra_picked : select_lower t4 1 4 (terra_model ∷ []) ≡ some (terra_model, "xhigh")
unfolding Run
terra_picked = refl

select_lower-prefers_available_example :
    Memᴰ terra_model (terra_model ∷ [])
    × ((terra_model.status ≡ available)
        ⊎ ((terra_model.status ≡ limited)
            × ((n : CatalogModel)
                → Memᴰ n (terra_model ∷ [])
                → offer is_available t4 1 4 n ≡ none)))
select_lower-prefers_available_example =
    select_lower-prefers_available t4 1 4 (terra_model ∷ []) terra_model "xhigh" terra_picked

terra_listed : Memᴰ terra_model (ladder (terra_model ∷ []) t4 6)
unfolding Run
terra_listed = Memᴰ.head refl

ladder-Sound_example : Memᴰ terra_model (terra_model ∷ []) × InRange t4 6 terra_model
ladder-Sound_example = ladder-Sound (terra_model ∷ []) t4 6 terra_model terra_listed

ladder-is_unique_example : is_unique (ladder (terra_model ∷ terra_model ∷ []) t4 6) ≡ true
ladder-is_unique_example = ladder-is_unique (terra_model ∷ terra_model ∷ []) t4 6
