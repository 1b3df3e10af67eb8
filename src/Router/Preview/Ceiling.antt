-- ===== src/Router/Preview/Ceiling.antt =====
-- The ceiling of route_preview (app/router.py): what a previewed model and effort satisfy.
use codex_gate.Prelude.{
  ℕ, ◌≤◌, ◌≡◌, refl, String, true, false, Option, none, some, Memᴰ, arith, Option-cases, inl, inr,
  mem-keep,
}
use mathlib.Core.Option
use codex_gate.Router.Types.{TaskClass, CatalogModel, task_min_grade}
use codex_gate.Router.Effort.{effort_stage, minimum_effort_stage}
use codex_gate.Router.Effort.Bounds.{IsAdvertised}
use codex_gate.Router.Catalog.{
  catalog_of, recommendation_of, normalized_account, normalized_task_class,
}
use codex_gate.Router.Ladder.Laws.{ladder-Sound}
use codex_gate.Router.Policy.{Candidate, candidate, is_excluded, scale_hold_reason}
use codex_gate.Router.Draft.{Request, Scene, early_hold}
use codex_gate.Router.Choice.{is_lower, lower_candidates}
use codex_gate.Router.Choice.Sound.{Origin}
use codex_gate.Router.Preview.{scene_of, draft_of, result, route_preview, final_candidate}
use codex_gate.Router.Preview.Scenes.{IsRouted, draft_of-IsRouted, policy_of}

-- A preview that ends with a model has a class, and its draft is routed.
pub route_preview-IsRouted :
    (r : Request) (c : Candidate)
    → (route_preview r).final ≡ some c
    → (tc : TaskClass) × (m : CatalogModel) × (e : String) × (normalized_task_class r.task_class
        ≡ some tc)
      × (c ≡ candidate m (some e) true)
      × IsRouted r tc m e
unfolding route_preview result
route_preview-IsRouted r c h = go (normalized_task_class r.task_class) refl h
  where
    pick :
        (tc : TaskClass) (o : Option (CatalogModel × String))
        → normalized_task_class r.task_class ≡ some tc
        → (draft_of r (some tc)).final ≡ o
        → Option.map final_candidate o ≡ some c
        → (tc : TaskClass) × (m : CatalogModel) × (e : String) × (normalized_task_class r.task_class
            ≡ some tc)
          × (c ≡ candidate m (some e) true)
          × IsRouted r tc m e
    pick tc none classed q k = absurd (ground arith)
    pick tc (some (m, e)) classed q k =
        (tc, m, e, classed, ground arith, draft_of-IsRouted r tc m e q)

    go :
        (o : Option TaskClass)
        → normalized_task_class r.task_class ≡ o
        → Option.map final_candidate (draft_of r o).final ≡ some c
        → (tc : TaskClass) × (m : CatalogModel) × (e : String) × (normalized_task_class r.task_class
            ≡ some tc)
          × (c ≡ candidate m (some e) true)
          × IsRouted r tc m e
    go none classed k = absurd (unfold draft_of in ground arith)
    go (some tc) classed k = pick tc (draft_of r (some tc)).final classed refl k

early_hold-grade : (s : Scene) → early_hold s ≡ none → task_min_grade s.tc ≤ s.grade
unfolding early_hold
early_hold-grade s h = elim (Option-cases (scale_hold_reason s.tc s.request.file_count)) [
  | inl small ↦ ground arith
  | inr (reason, large) ↦ absurd (ground arith)
]

-- The previewed candidate `c` is a model of the catalog that the recommendation allows.
pub record IsWithinCeiling (r : Request) (c : Candidate) : Type 0 where
  pub tc : TaskClass
  pub classed : normalized_task_class r.task_class ≡ some tc
  -- the recommended model and its stage
  pub recommended : CatalogModel
  pub recommended_listed : Memᴰ recommended (catalog_of r.model_statuses r.models)
  pub recommended_named : (recommendation_of r.web_recommendation).model ≡ some recommended.id
  pub ceiling : ℕ
  pub ceiling_graded : recommended.grade ≡ some ceiling
  pub wanted : String
  pub wanted_named : (recommendation_of r.web_recommendation).effort ≡ some wanted
  pub limit : ℕ
  pub limit_staged : effort_stage wanted ≡ some limit
  -- the model that is previewed
  pub model : CatalogModel
  pub listed : Memᴰ model (catalog_of r.model_statuses r.models)
  pub effort : String
  pub shown : c ≡ candidate model (some effort) true
  pub grade : ℕ
  pub graded : model.grade ≡ some grade
  pub grade_enough : task_min_grade tc ≤ grade
  pub grade_within : grade ≤ ceiling
  pub usable : is_excluded model.status ≡ false
  -- the effort that is previewed
  pub stage : ℕ
  pub advertised : IsAdvertised model.efforts effort stage
  pub stage_enough : minimum_effort_stage tc r.file_count (some model) ≤ stage
  pub stage_within : stage ≤ limit

IsRouted-IsWithinCeiling :
    (r : Request) (c : Candidate) (tc : TaskClass) (m : CatalogModel) (e : String)
    → normalized_task_class r.task_class ≡ some tc
    → c ≡ candidate m (some e) true
    → IsRouted r tc m e
    → IsWithinCeiling r c
unfolding scene_of lower_candidates
IsRouted-IsWithinCeiling r c tc m e classed shown d =
    let (inside, g, graded, above, below) = place d.passed.origin in
    record {
      tc = tc;
      classed = classed;
      recommended = d.recommended;
      recommended_listed = d.listed;
      recommended_named = rw d.named d.model_given;
      ceiling = d.grade;
      ceiling_graded = d.graded;
      wanted = d.wanted;
      wanted_named = d.effort_given;
      limit = d.passed.stage;
      limit_staged = d.passed.staged;
      model = m;
      listed = inside;
      effort = e;
      shown = shown;
      grade = g;
      graded = graded;
      grade_enough = above;
      grade_within = below;
      usable = d.passed.safe.usable;
      stage = d.passed.safe.stage;
      advertised = d.passed.safe.advertised;
      stage_enough = d.passed.safe.enough;
      stage_within = d.passed.safe.within;
    }
  where
    scene : Scene
    scene =
        scene_of r tc (normalized_account r.account_state) d.warnings
          (catalog_of r.model_statuses r.models) d.recommended d.grade d.wanted

    place :
        Origin scene (policy_of scene) m
        → Memᴰ m (catalog_of r.model_statuses r.models)
          × (g : ℕ) × (m.grade ≡ some g)
          × (task_min_grade tc ≤ g)
          × (g ≤ d.grade)
    place (inl same) = (
      rw same d.listed,
      d.grade,
      rw same d.graded,
      early_hold-grade scene d.passed.early,
      omega arith,
    )
    place (inr (auto, lower)) =
        let (inside, ok) = mem-keep (is_lower d.recommended d.grade _) _ lower in
        let (listed, range) =
          ladder-Sound (catalog_of r.model_statuses r.models) tc d.grade m inside in
        let (g, graded, above, below) = range in (listed, g, graded, above, below)

-- When route_preview ends with a model, that model is in the catalog with status AVAILABLE or
-- LIMITED; its grade is at least the class's minimum and at most the grade of the recommended model,
-- which is in the catalog too; and its effort is one that the model advertises, at a stage that is at
-- least the minimum for this class, file count and model, and at most the recommended stage.
pub route_preview-IsWithinCeiling :
    (r : Request) (c : Candidate) → (route_preview r).final ≡ some c → IsWithinCeiling r c
route_preview-IsWithinCeiling r c h =
    let (tc, m, e, classed, shown, routed) = route_preview-IsRouted r c h in
    IsRouted-IsWithinCeiling r c tc m e classed shown routed
