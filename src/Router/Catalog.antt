-- ===== src/Router/Catalog.antt =====
-- The catalog of app/router.py: server entries normalised to CatalogModel.
use codex_gate.Prelude.{
  String, Bool, true, false, Option, none, some, List, [], ◌∷◌, ◌||◌, codes, casefold, strip, upper,
  same_codes, contains_codes, join_space, str_eq, if◌then◌else◌,
}
use mathlib.Core.Option
use codex_gate.Account.Windows.{AccountState, normal, conserve, critical, blocked}
use codex_gate.Router.Types.{
  TaskClass, t0, t1, t2, t3, t4, t5, Family, spark, mini, luna, terra, sol, five_five, five_four,
  ModelStatus, available, limited, depleted, disabled, family_grade, CatalogModel, ModelEntry,
  WebRecommendation, Recommendation, is_truthy,
}

unfoldable pub normalized_task_class : String → Option TaskClass
unfolding strip upper same_codes
normalized_task_class value =
    let candidate = upper (strip (codes value)) in
    let named = λ (s : String). same_codes candidate (codes s) in
    if named "T0" || named "INSPECT" || named "READ" || named "DOCS"
    then some t0
    else if named "T1" || named "PATCH"
    then some t1
    else if named "T2" || named "TEST"
    then some t2
    else if named "T3" || named "REFACTOR"
    then some t3
    else if named "T4" || named "ARCHITECTURE"
    then some t4
    else if named "T5" || named "CRITICAL"
    then some t5
    else none

-- `display_name` under its second spelling is absent from the entries, so the text ends in a space.
unfoldable pub family_for : ModelEntry → Option Family
unfolding casefold join_space contains_codes
family_for e =
    let text =
      casefold (join_space (codes e.id ∷ codes e.model ∷ codes e.display_name ∷ codes "" ∷ [])) in
    let has = λ (s : String). contains_codes text (codes s) in
    if has "spark"
    then some spark
    else if has "mini"
    then some mini
    else if has "luna"
    then some luna
    else if has "terra"
    then some terra
    else if has "sol"
    then some sol
    else if has "5.5"
    then some five_five
    else if has "5.4"
    then some five_four
    else none

-- MODEL_STATES, and UNKNOWN for any other text.
unfoldable pub status_of : String → ModelStatus
unfolding upper same_codes
status_of raw =
    let named = λ (s : String). same_codes (upper (codes raw)) (codes s) in
    if named "AVAILABLE"
    then available
    else if named "LIMITED"
    then limited
    else if named "DEPLETED"
    then depleted
    else if named "DISABLED"
    then disabled
    else ModelStatus.unknown

-- ACCOUNT_STATES, likewise.
unfoldable pub normalized_account : String → AccountState
unfolding upper strip same_codes
normalized_account state =
    let named = λ (s : String). same_codes (upper (strip (codes state))) (codes s) in
    if named "NORMAL"
    then normal
    else if named "CONSERVE"
    then conserve
    else if named "CRITICAL"
    then critical
    else if named "BLOCKED"
    then blocked
    else AccountState.unknown

lookup_or : String → String → List (String × String) → String
lookup_or k default [] = default
lookup_or k default ((j, v) ∷ rest) = if str_eq j k then v else lookup_or k default rest

unfoldable pub catalog_model : List (String × String) → ModelEntry → CatalogModel
unfolding lookup_or
catalog_model statuses e = record {
  id = e.id;
  name = e.display_name;
  family = family_for e;
  grade = Option.map family_grade (family_for e);
  efforts = e.efforts;
  status = status_of (lookup_or e.id e.manual_status statuses);
}

abbrev pub is_listed : ModelEntry → Bool
is_listed e =
    if str_eq e.id "" || e.hidden then false else elim e.efforts [ [] ↦ false | _ ∷ _ ↦ true ]

unfoldable pub catalog_of : List (String × String) → List ModelEntry → List CatalogModel
catalog_of statuses [] = []
catalog_of statuses (e ∷ es) =
    if is_listed e
    then catalog_model statuses e ∷ catalog_of statuses es
    else catalog_of statuses es

-- `a or b` on texts.
unfoldable pub or_else : Option String → Option String → Option String
or_else a b = if is_truthy a then a else b

unfoldable pub recommendation_of : Option WebRecommendation → Recommendation
unfolding or_else
recommendation_of none = record { model = none; effort = none }
recommendation_of (some w) = record {
  model = or_else w.model w.model_id;
  effort = or_else w.effort w.reasoning_effort;
}
