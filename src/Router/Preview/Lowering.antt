-- ===== src/Router/Preview/Lowering.antt =====
-- When route_preview (app/router.py) may end with another model than the recommended one.
use codex_gate.Prelude.{
  ℕ, ◌≤◌, ◌<◌, ◌-◌, ◌≡◌, String, Bool, true, Option, none, some, arith, Option-cases, inl, inr, ◌⊎◌,
  Memᴰ, mem-keep,
}
use codex_gate.Account.Windows.{AccountState}
use codex_gate.Router.Types.{TaskClass, CatalogModel}
use codex_gate.Router.Catalog.{catalog_of, recommendation_of, normalized_account}
use codex_gate.Router.Ladder.Laws.{ladder-Sound}
use codex_gate.Router.Policy.{Candidate, candidate, is_low_risk, downgrade_policy}
use codex_gate.Router.Draft.{Request, Scene}
use codex_gate.Router.Choice.{is_lower, lower_candidates}
use codex_gate.Router.Choice.Sound.{Origin}
use codex_gate.Router.Preview.{scene_of, route_preview}
use codex_gate.Router.Preview.Scenes.{IsRouted, policy_of}
use codex_gate.Router.Preview.Ceiling.{route_preview-IsRouted}

-- The policy allows an automatic downgrade: the risk is low, and the task is read-only or has tests;
-- a task that is not read-only may fall by two grades.
pub downgrade_policy-automatic :
    (tc : TaskClass) (risk : String) (read_only has_tests : Bool) (account : AccountState)
    → (downgrade_policy tc risk read_only has_tests account).automatic ≡ true
    → (is_low_risk risk ≡ true)
      × ((read_only ≡ true)
          ⊎ ((has_tests ≡ true)
              × ((downgrade_policy tc risk read_only has_tests account).write_limit ≡ some 2)))
unfolding downgrade_policy
downgrade_policy-automatic tc risk read_only has_tests account h = ground arith

is_lower_lem :
    (recommended : CatalogModel) (grade : ℕ) (limit : Option ℕ) (m : CatalogModel)
    → is_lower recommended grade limit m ≡ true
    → (g : ℕ) × (m.grade ≡ some g) × (g < grade) × ((n : ℕ) → limit ≡ some n → grade - g ≤ n)
unfolding is_lower
is_lower_lem recommended grade none m h = elim (Option-cases m.grade) [
  | inl missing ↦ absurd (ground arith)
  | inr (g, found) ↦ (g, found, ground arith, λ n e. absurd (ground arith))
]
is_lower_lem recommended grade (some k) m h = elim (Option-cases m.grade) [
  | inl missing ↦ absurd (ground arith)
  | inr (g, found) ↦ (g, found, ground arith, λ n e. ground arith)
]

-- The model of `c`, of the catalog, stands below the recommended one there, and the request allows it.
pub record IsLowered (r : Request) (c : Candidate) : Type 0 where
  pub recommended : CatalogModel
  pub recommended_listed : Memᴰ recommended (catalog_of r.model_statuses r.models)
  pub named : (recommendation_of r.web_recommendation).model ≡ some recommended.id
  pub ceiling : ℕ
  pub ceiling_graded : recommended.grade ≡ some ceiling
  pub model : CatalogModel
  pub listed : Memᴰ model (catalog_of r.model_statuses r.models)
  pub shown : c.model ≡ model.id
  pub grade : ℕ
  pub graded : model.grade ≡ some grade
  pub below : grade < ceiling
  pub low_risk : is_low_risk r.risk ≡ true
  pub covered : (r.read_only ≡ true) ⊎ ((r.has_tests ≡ true) × (ceiling - grade ≤ 2))

-- When route_preview ends with a model, its id is the recommended one; or it is the id of a model of
-- the catalog whose grade is strictly lower than that of the recommended model, which is in the
-- catalog too, and then the risk is low, and the request is read-only, or has tests and the model
-- stands at most two grades lower.
pub route_preview-IsLowered :
    (r : Request) (c : Candidate)
    → (route_preview r).final ≡ some c
    → ((recommendation_of r.web_recommendation).model ≡ some c.model) ⊎ IsLowered r c
unfolding scene_of lower_candidates candidate
route_preview-IsLowered r c h =
    let (tc, m, e, classed, shown, d) = route_preview-IsRouted r c h in
    place tc m e shown d d.passed.origin
  where
    scene : (tc : TaskClass) (m : CatalogModel) (e : String) → IsRouted r tc m e → Scene
    scene tc m e d =
        scene_of r tc (normalized_account r.account_state) d.warnings
          (catalog_of r.model_statuses r.models) d.recommended d.grade d.wanted

    covered :
        (ceiling g : ℕ) (limit : Option ℕ)
        → ((n : ℕ) → limit ≡ some n → ceiling - g ≤ n)
        → (r.read_only ≡ true) ⊎ ((r.has_tests ≡ true) × (limit ≡ some 2))
        → (r.read_only ≡ true) ⊎ ((r.has_tests ≡ true) × (ceiling - g ≤ 2))
    covered ceiling g limit within (inl read) = inl read
    covered ceiling g limit within (inr (tests, two)) = inr (tests, within 2 two)

    place :
        (tc : TaskClass) (m : CatalogModel) (e : String)
        → c ≡ candidate m (some e) true
        → (d : IsRouted r tc m e) → Origin (scene tc m e d) (policy_of (scene tc m e d)) m
        → ((recommendation_of r.web_recommendation).model ≡ some c.model) ⊎ IsLowered r c
    place tc m e shown d (inl same) = inl (rw (shown, same, d.named) d.model_given)
    place tc m e shown d (inr (auto, lower)) =
        let (inside, ok) = mem-keep (is_lower d.recommended d.grade _) _ lower in
        let (listed, range) =
          ladder-Sound (catalog_of r.model_statuses r.models) tc d.grade m inside in
        let (g, graded, below, within) = is_lower_lem d.recommended d.grade _ m ok in
        let (low, allowed) =
          downgrade_policy-automatic tc r.risk r.read_only r.has_tests
            (normalized_account r.account_state) auto in
        inr (record {
          recommended = d.recommended;
          recommended_listed = d.listed;
          named = rw d.named d.model_given;
          ceiling = d.grade;
          ceiling_graded = d.graded;
          model = m;
          listed = listed;
          shown = rw shown;
          grade = g;
          graded = graded;
          below = below;
          low_risk = low;
          covered = covered d.grade g _ within allowed;
        })
