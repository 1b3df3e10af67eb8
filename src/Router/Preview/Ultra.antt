-- ===== src/Router/Preview/Ultra.antt =====
-- When route_preview (app/router.py) previews an Ultra effort.
use codex_gate.Prelude.{◌≤◌, ◌≡◌, ◌≢◌, refl, String, true, false, some, Memᴰ, arith, inl, inr, ◌⊎◌}
use codex_gate.Account.Windows.{conserve, critical}
use codex_gate.Router.Types.{TaskClass, CatalogModel, ultra_stage}
use codex_gate.Router.Effort.{effort_stage, is_ultra}
use codex_gate.Router.Catalog.{
  catalog_of, recommendation_of, normalized_account, normalized_task_class,
}
use codex_gate.Router.Policy.{Candidate, candidate, downgrade_policy}
use codex_gate.Router.Draft.{Request, Scene, ultra_conditions_of, all_hold}
use codex_gate.Router.Preview.{scene_of, route_preview}
use codex_gate.Router.Preview.Scenes.{IsRouted}
use codex_gate.Router.Preview.Ceiling.{route_preview-IsRouted}

-- The conditions for Ultra, as the request states them.
pub record IsUltraAllowed (r : Request) : Type 0 where
  pub read_only : r.read_only ≡ true
  pub parallel_audit : r.parallel_audit ≡ true
  pub independent_axes : 3 ≤ r.independent_axes
  pub approved : r.explicit_ultra_approval ≡ true
  pub account_calm :
      (normalized_account r.account_state ≢ conserve)
      × (normalized_account r.account_state ≢ critical)

-- The way past the conditions: the recommended effort is no request for Ultra, by its spelling or by
-- the family of the model that the recommendation names, and no automatic downgrade applies.
pub record IsUngated (r : Request) : Type 0 where
  pub tc : TaskClass
  pub classed : normalized_task_class r.task_class ≡ some tc
  pub recommended : CatalogModel
  pub listed : Memᴰ recommended (catalog_of r.model_statuses r.models)
  pub named : (recommendation_of r.web_recommendation).model ≡ some recommended.id
  pub wanted : String
  pub wanted_named : (recommendation_of r.web_recommendation).effort ≡ some wanted
  pub not_ultra : is_ultra recommended wanted ≡ false
  pub manual :
      (downgrade_policy tc r.risk r.read_only r.has_tests
        (normalized_account r.account_state)).automatic
      ≡ false

all_hold-IsUltraAllowed :
    (s : Scene)
    → s.account ≡ normalized_account s.request.account_state
    → all_hold (ultra_conditions_of s) ≡ true
    → IsUltraAllowed s.request
unfolding all_hold ultra_conditions_of
all_hold-IsUltraAllowed s same h = record {
  read_only = ground arith;
  parallel_audit = ground arith;
  independent_axes = ground arith;
  approved = ground arith;
  account_calm = (λ e. ground arith, λ e. ground arith);
}

-- When route_preview ends with an effort at the stage of Ultra, the request is a read-only parallel
-- audit over at least three independent axes with explicit approval while the account is neither
-- CONSERVE nor CRITICAL; or the recommendation names a model of the catalog, and an effort that is
-- not a request for Ultra by its spelling or by the family of that model, and no automatic downgrade
-- applies.
pub route_preview-ultra :
    (r : Request) (c : Candidate) (e : String)
    → (route_preview r).final ≡ some c
    → c.effort ≡ some e
    → effort_stage e ≡ some ultra_stage
    → IsUltraAllowed r ⊎ IsUngated r
unfolding candidate scene_of
route_preview-ultra r c e found named top =
    let (tc, m, x, classed, shown, d) = route_preview-IsRouted r c found in
    place tc m x classed d (d.passed.gate (ground arith))
  where
    place :
        (tc : TaskClass) (m : CatalogModel) (x : String)
        → normalized_task_class r.task_class ≡ some tc
        → (d : IsRouted r tc m x)
        → (all_hold (
              ultra_conditions_of (
                scene_of r tc
                  (normalized_account r.account_state)
                  d.warnings
                  (catalog_of r.model_statuses r.models)
                  d.recommended
                  d.grade
                  d.wanted))
            ≡ true)
          ⊎ ((is_ultra d.recommended d.wanted ≡ false)
              × ((downgrade_policy tc r.risk r.read_only r.has_tests
                    (normalized_account r.account_state)).automatic
                  ≡ false))
        → IsUltraAllowed r ⊎ IsUngated r
    place tc m x classed d (inl met) = inl (all_hold-IsUltraAllowed _ refl met)
    place tc m x classed d (inr (plain, manual)) = inr (record {
      tc = tc;
      classed = classed;
      recommended = d.recommended;
      listed = d.listed;
      named = rw d.named d.model_given;
      wanted = d.wanted;
      wanted_named = d.effort_given;
      not_ultra = plain;
      manual = manual;
    })
