-- ===== src/Router/Preview/Scenes.antt =====
-- What has happened when route_preview (app/router.py) ends with a model: it passed every test.
use codex_gate.Prelude.{
  ℕ, ◌≤◌, ◌≡◌, refl, String, true, false, ◌&&◌, Option, none, some, List, Memᴰ, arith, eq_iff,
  Bool-cases, Option-cases, inl, inr, ◌⊎◌, find, mem-find,
}
use codex_gate.Router.Types.{TaskClass, CatalogModel, is_truthy, ultra_stage}
use codex_gate.Router.Effort.{effort_stage, minimum_effort_stage, literal_at_stage, is_ultra}
use codex_gate.Router.Effort.Literals.{is_ultra_stage}
use codex_gate.Router.Catalog.{catalog_of, recommendation_of, normalized_account}
use codex_gate.Router.Policy.{Reason, Downgrade, downgrade_policy}
use codex_gate.Router.Draft.{Request, Scene, held, early_hold, ultra_conditions_of, all_hold}
use codex_gate.Router.Choice.Gate.{ultra_draft-gated, automatic_draft-gated}
use codex_gate.Router.Choice.{automatic_draft}
use codex_gate.Router.Choice.Sound.{Origin, IsSafeChoice, automatic_draft_safe, ultra_draft_safe}
use codex_gate.Router.Preview.{
  staged_draft, scene_draft, has_id, scene_of, recommended_draft, classed_draft, draft_of,
}

-- The policy that applies in a scene.
abbrev pub policy_of : Scene → Downgrade
policy_of s = downgrade_policy s.tc s.request.risk s.request.read_only s.request.has_tests s.account

-- A scene that ends with a model: the tests it passed, and the choice.
pub record IsPassed (s : Scene) (m : CatalogModel) (effort : String) : Type 0 where
  pub stage : ℕ
  pub staged : effort_stage s.effort ≡ some stage
  pub early : early_hold s ≡ none
  pub enough : s.minimum ≤ stage
  pub literal : String
  pub literal_found : literal_at_stage s.recommended stage ≡ some literal
  pub origin : Origin s (policy_of s) m
  pub safe : IsSafeChoice s stage m effort
  pub gate :
      effort_stage effort ≡ some ultra_stage
      → (all_hold (ultra_conditions_of s) ≡ true)
        ⊎ ((is_ultra s.recommended s.effort ≡ false) × ((policy_of s).automatic ≡ false))

module _ (s : Scene)
    (minimum : s.minimum
      ≡ minimum_effort_stage s.tc s.request.file_count (some s.recommended)) where
  staged_draft-IsPassed :
      (stage : ℕ) (m : CatalogModel) (e : String)
      → effort_stage s.effort ≡ some stage
      → early_hold s ≡ none
      → (staged_draft s stage).final ≡ some (m, e)
      → IsPassed s m e
  unfolding staged_draft held
  staged_draft-IsPassed stage m e staged early h =
      elim (Option-cases (literal_at_stage s.recommended stage)) [
        | inl missing ↦ absurd (ground arith)
        | inr (literal, found) ↦
            let enough : s.minimum ≤ stage = ground arith in
            let (origin, safe, gate) =
              pick literal found enough (Bool-cases (is_ultra s.recommended s.effort)) in
            record {
              stage = stage;
              staged = staged;
              early = early;
              enough = enough;
              literal = literal;
              literal_found = found;
              origin = origin;
              safe = safe;
              gate = gate;
            }
      ]
    where
      pick :
          (literal : String)
          → literal_at_stage s.recommended stage ≡ some literal
          → s.minimum ≤ stage
          → (is_ultra s.recommended s.effort ≡ true) ⊎ (is_ultra s.recommended s.effort ≡ false)
          → Origin s (policy_of s) m
            × IsSafeChoice s stage m e
            × (effort_stage e ≡ some ultra_stage
                → (all_hold (ultra_conditions_of s) ≡ true)
                  ⊎ ((is_ultra s.recommended s.effort ≡ false) × ((policy_of s).automatic ≡ false)))
      pick literal found enough (inl ultra) =
          let top = is_ultra_stage s.recommended s.effort ultra in
          let (same, safe) =
            ultra_draft_safe s minimum stage literal m e enough (ground arith) found
              (ground arith) in
          (
            inl same,
            rw same safe,
            λ top'. inl (ultra_draft-gated s literal m e (ground arith) top'),
          )
      pick literal found enough (inr plain) =
          let ended : (automatic_draft s stage (policy_of s)).final ≡ some (m, e) = ground arith in
          let (origin, safe) =
            automatic_draft_safe s minimum stage (policy_of s) m e enough ended in
          (
            origin,
            safe,
            λ top'. inr (plain, automatic_draft-gated s stage (policy_of s) m e ended top'),
          )

  scene_draft-IsPassed :
      (m : CatalogModel) (e : String) → (scene_draft s).final ≡ some (m, e) → IsPassed s m e
  unfolding scene_draft held
  scene_draft-IsPassed m e h = elim (Option-cases (early_hold s)) [
    | inr (reason, stopped) ↦ absurd (ground arith)
    | inl early ↦ elim (Option-cases (effort_stage s.effort)) [
      | inl missing ↦ absurd (ground arith)
      | inr (stage, staged) ↦ staged_draft-IsPassed stage m e staged early (ground arith)
    ]
  ]

-- A request whose draft ends with a model: the recommended model is in the catalog, and the scene
-- that it makes passed.
pub record IsRouted (r : Request) (tc : TaskClass) (m : CatalogModel) (effort : String)
    : Type 0 where
  pub model : String
  pub wanted : String
  pub model_given : (recommendation_of r.web_recommendation).model ≡ some model
  pub effort_given : (recommendation_of r.web_recommendation).effort ≡ some wanted
  pub recommended : CatalogModel
  pub grade : ℕ
  pub listed : Memᴰ recommended (catalog_of r.model_statuses r.models)
  pub named : recommended.id ≡ model
  pub graded : recommended.grade ≡ some grade
  pub warnings : List Reason
  pub passed :
      IsPassed
        (scene_of r tc
          (normalized_account r.account_state)
          warnings
          (catalog_of r.model_statuses r.models)
          recommended
          grade
          wanted)
        m
        effort

has_id_lem : (id : String) (m : CatalogModel) → has_id id m ≡ true → m.id ≡ id
unfolding has_id
has_id_lem id m h = (eq_iff m.id id).0 h

module _ (r : Request) (tc : TaskClass) (warnings : List Reason) (model wanted : String)
    (m : CatalogModel) (e : String)
    (model_given : (recommendation_of r.web_recommendation).model ≡ some model)
    (effort_given : (recommendation_of r.web_recommendation).effort ≡ some wanted) where
  recommended_draft-IsRouted :
      (found : Option CatalogModel)
      → find (has_id model) (catalog_of r.model_statuses r.models) ≡ found
      → (recommended_draft r tc
          (normalized_account r.account_state)
          warnings
          (catalog_of r.model_statuses r.models)
          found
          wanted).final
        ≡ some (m, e)
      → IsRouted r tc m e
  unfolding recommended_draft held
  recommended_draft-IsRouted none search h = absurd (ground arith)
  recommended_draft-IsRouted (some n) search h = elim (Option-cases n.grade) [
    | inl missing ↦ absurd (ground arith)
    | inr (grade, graded) ↦
        let catalog = catalog_of r.model_statuses r.models in
        let (inside, hit) = mem-find (has_id model) catalog {x = n} search in
        record {
          model = model;
          wanted = wanted;
          model_given = model_given;
          effort_given = effort_given;
          recommended = n;
          grade = grade;
          listed = inside;
          named = has_id_lem model n hit;
          graded = graded;
          warnings = warnings;
          passed =
              scene_draft-IsPassed
                (scene_of r tc (normalized_account r.account_state) warnings catalog n grade wanted)
                (unfold scene_of in refl) m e (rw (graded, recommended_draft) at h);
        }
  ]

classed_draft-IsRouted :
    (r : Request) (tc : TaskClass) (warnings : List Reason) (m : CatalogModel) (e : String)
    (model wanted : Option String)
    → (recommendation_of r.web_recommendation).model ≡ model
    → (recommendation_of r.web_recommendation).effort ≡ wanted
    → (classed_draft r tc
        (normalized_account r.account_state)
        warnings
        (catalog_of r.model_statuses r.models)
        model
        wanted).final
      ≡ some (m, e)
    → IsRouted r tc m e
unfolding classed_draft held
classed_draft-IsRouted r tc warnings m e (some model) (some wanted) p q h =
    elim (Bool-cases (is_truthy (some model) && is_truthy (some wanted))) [
      | inr empty ↦ absurd (ground arith)
      | inl given ↦
          recommended_draft-IsRouted r tc warnings model wanted m e p q
            (find (has_id model) (catalog_of r.model_statuses r.models)) refl
            (rw (given, classed_draft) at h)
    ]
classed_draft-IsRouted r tc warnings m e (some model) none p q h = absurd (ground arith)
classed_draft-IsRouted r tc warnings m e none wanted p q h = absurd (ground arith)

pub draft_of-IsRouted :
    (r : Request) (tc : TaskClass) (m : CatalogModel) (e : String)
    → (draft_of r (some tc)).final ≡ some (m, e)
    → IsRouted r tc m e
unfolding draft_of
draft_of-IsRouted r tc m e h =
    classed_draft-IsRouted r tc _ m e (recommendation_of r.web_recommendation).model
      (recommendation_of r.web_recommendation).effort refl refl h
