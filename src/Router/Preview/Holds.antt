-- ===== src/Router/Preview/Holds.antt =====
-- When route_preview (app/router.py) holds.
use codex_gate.Prelude.{
  ℕ, ◌<◌, ◌≡◌, refl, String, true, false, ◌&&◌, Option, none, some, List, [], ◌∷◌, arith, ltb,
  if◌then◌else◌, Option-cases, inl, inr, ◌⊎◌, find, is_some, subst,
}
use codex_gate.Account.Windows.{AccountState, blocked, critical}
use codex_gate.Router.Types.{TaskClass, t1, t2, t3, CatalogModel, is_truthy}
use codex_gate.Router.Catalog.{normalized_account, normalized_task_class}
use codex_gate.Router.Effort.{effort_stage, literal_at_stage, is_ultra, minimum_effort_stage}
use codex_gate.Router.Policy.{
  hold, preview, scale_hold_reason, Reason, stage_without_literal, effort_below_minimum,
  effort_not_advertised, not_in_catalog, Downgrade, downgrade_policy,
}
use codex_gate.Router.Draft.{Request, Scene, held, is_heavy, early_hold}
use codex_gate.Router.Choice.{ultra_draft, automatic_draft}
use codex_gate.Router.Choice.Consistent.{
  IsConsistent, held-IsConsistent, if-IsConsistent, ultra_draft-IsConsistent,
  automatic_draft-IsConsistent,
}
use codex_gate.Router.Preview.{
  staged_draft, scene_draft, scene_of, recommended_draft, classed_draft, draft_of, result,
  route_preview, has_id,
}
use codex_gate.Router.Preview.Scenes.{IsRouted}
use codex_gate.Router.Preview.Ceiling.{route_preview-IsRouted}

-- The file counts past which a class asks to be reclassified.
abbrev pub IsOversized : TaskClass → ℕ → Type 0
IsOversized t1 files = 2 < files
IsOversized t2 files = 5 < files
IsOversized t3 files = 10 < files
IsOversized _ files = ⊥

early_hold-oversized : (s : Scene) → early_hold s ≡ none → IsOversized s.tc s.request.file_count → ⊥
early_hold-oversized s h big = go s.tc s.request.file_count big (small s h)
  where
    small : (s : Scene) → early_hold s ≡ none → scale_hold_reason s.tc s.request.file_count ≡ none
    small s h = unfold early_hold in ground arith

    go : (tc : TaskClass) (files : ℕ) → IsOversized tc files → scale_hold_reason tc files ≡ none → ⊥
    go t1 files big none_of = unfold scale_hold_reason in ground arith
    go t2 files big none_of = unfold scale_hold_reason in ground arith
    go t3 files big none_of = unfold scale_hold_reason in ground arith
    go _ files big none_of = big

early_hold-account :
    (s : Scene)
    → early_hold s ≡ none
    → (s.account ≡ blocked) ⊎ ((s.account ≡ critical) × (is_heavy s.tc ≡ true))
    → ⊥
unfolding early_hold
early_hold-account s h p = ground arith

-- A request of a known class is held, with no final model, while the account is BLOCKED; while it is
-- CRITICAL, if the class is T3 to T5; and if T1, T2 or T3 counts more than 2, 5 or 10 files.
pub route_preview-held :
    (r : Request) (tc : TaskClass)
    → normalized_task_class r.task_class ≡ some tc
    → (normalized_account r.account_state ≡ blocked)
      ⊎ ((normalized_account r.account_state ≡ critical) × (is_heavy tc ≡ true))
      ⊎ IsOversized tc r.file_count
    → (route_preview r).final ≡ none
unfolding scene_of
route_preview-held r tc classed why = elim (Option-cases (route_preview r).final) [
  | inl none_of ↦ none_of
  | inr (c, found) ↦
      let (tc', m, e, classed', shown, d) = route_preview-IsRouted r c found in
      absurd (refuse tc' m e (ground arith) d why)
]
  where
    refuse :
        (tc' : TaskClass) (m : CatalogModel) (e : String)
        → tc ≡ tc'
        → IsRouted r tc' m e
        → (normalized_account r.account_state ≡ blocked)
          ⊎ ((normalized_account r.account_state ≡ critical) × (is_heavy tc ≡ true))
          ⊎ IsOversized tc r.file_count
        → ⊥
    refuse tc' m e same d (inl stopped) = early_hold-account _ d.passed.early (inl stopped)
    refuse tc' m e same d (inr (inl (stopped, heavy))) =
        early_hold-account _ d.passed.early (inr (stopped, rw (← same) heavy))
    refuse tc' m e same d (inr (inr big)) =
        early_hold-oversized _ d.passed.early (subst (λ t. IsOversized t r.file_count) same big)

staged_draft-IsConsistent : (s : Scene) (stage : ℕ) → IsConsistent (staged_draft s stage)
unfolding staged_draft
staged_draft-IsConsistent s stage = go (literal_at_stage s.recommended stage)
  where
    policy : Downgrade
    policy = downgrade_policy s.tc s.request.risk s.request.read_only s.request.has_tests s.account

    go :
        (o : Option String)
        → IsConsistent (elim o [
          | none ↦ held s.display s.minimum stage_without_literal s.warnings
          | some literal ↦
              if ltb stage s.minimum
              then held s.display s.minimum effort_below_minimum s.warnings
              else if is_ultra s.recommended s.effort
              then ultra_draft s literal
              else automatic_draft s stage policy
        ])
    go none = held-IsConsistent _ _ _ _
    go (some literal) = if-IsConsistent (ltb stage s.minimum) _ _ (held-IsConsistent _ _ _ _) (
        if-IsConsistent (is_ultra s.recommended s.effort) _ _ (ultra_draft-IsConsistent s literal)
          (automatic_draft-IsConsistent s stage policy))

scene_draft-IsConsistent : (s : Scene) → IsConsistent (scene_draft s)
unfolding scene_draft
scene_draft-IsConsistent s = go (early_hold s) (effort_stage s.effort)
  where
    later :
        (o : Option ℕ)
        → IsConsistent (elim o [
          | none ↦ held s.display s.minimum effort_not_advertised s.warnings
          | some stage ↦ staged_draft s stage
        ])
    later none = held-IsConsistent _ _ _ _
    later (some stage) = staged_draft-IsConsistent s stage

    go :
        (early : Option Reason) (o : Option ℕ)
        → IsConsistent (elim early [
          | some reason ↦ held s.display s.minimum reason s.warnings
          | none ↦ elim o [
            | none ↦ held s.display s.minimum effort_not_advertised s.warnings
            | some stage ↦ staged_draft s stage
          ]
        ])
    go (some reason) o = held-IsConsistent _ _ _ _
    go none o = later o

recommended_draft-IsConsistent :
    (r : Request) (tc : TaskClass) (account : AccountState) (warnings : List Reason)
    (catalog : List CatalogModel) (found : Option CatalogModel) (effort : String)
    → IsConsistent (recommended_draft r tc account warnings catalog found effort)
unfolding recommended_draft
recommended_draft-IsConsistent r tc account warnings catalog none effort = held-IsConsistent _ _ _ _
recommended_draft-IsConsistent r tc account warnings catalog (some m) effort = go m.grade
  where
    go :
        (o : Option ℕ)
        → IsConsistent (elim o [
          | none ↦ held [] (minimum_effort_stage tc r.file_count none) not_in_catalog warnings
          | some grade ↦ scene_draft (scene_of r tc account warnings catalog m grade effort)
        ])
    go none = held-IsConsistent _ _ _ _
    go (some grade) = scene_draft-IsConsistent _

classed_draft-IsConsistent :
    (r : Request) (tc : TaskClass) (account : AccountState) (warnings : List Reason)
    (catalog : List CatalogModel) (model effort : Option String)
    → IsConsistent (classed_draft r tc account warnings catalog model effort)
unfolding classed_draft
classed_draft-IsConsistent r tc account warnings catalog (some model) (some effort) =
    if-IsConsistent (is_truthy (some model) && is_truthy (some effort)) _ _
      (recommended_draft-IsConsistent r tc account warnings catalog (find (has_id model) catalog)
        effort)
      (held-IsConsistent _ _ _ _)
classed_draft-IsConsistent r tc account warnings catalog (some model) none =
    held-IsConsistent _ _ _ _
classed_draft-IsConsistent r tc account warnings catalog none effort = held-IsConsistent _ _ _ _

draft_of-IsConsistent : (r : Request) (tc : Option TaskClass) → IsConsistent (draft_of r tc)
unfolding draft_of
draft_of-IsConsistent r none = inr (refl, refl, (_, refl))
draft_of-IsConsistent r (some tc) = classed_draft-IsConsistent _ _ _ _ _ _ _

-- Every preview has status PREVIEW, a final model and no hold reason, or status HOLD, no final model
-- and exactly one hold reason.
pub route_preview-status :
    (r : Request)
    → (((route_preview r).status ≡ preview)
        × (is_some (route_preview r).final ≡ true)
        × ((route_preview r).hold_reasons ≡ []))
      ⊎ (((route_preview r).status ≡ hold)
          × (is_some (route_preview r).final ≡ false)
          × ((reason : Reason) × ((route_preview r).hold_reasons ≡ reason ∷ [])))
unfolding route_preview result
route_preview-status r =
    let tc = normalized_task_class r.task_class in
    go (draft_of r tc).final refl (draft_of-IsConsistent r tc)
  where
    go :
        (o : Option (CatalogModel × String))
        → (draft_of r (normalized_task_class r.task_class)).final ≡ o
        → IsConsistent (draft_of r (normalized_task_class r.task_class))
        → (((route_preview r).status ≡ preview)
            × (is_some (route_preview r).final ≡ true)
            × ((route_preview r).hold_reasons ≡ []))
          ⊎ (((route_preview r).status ≡ hold)
              × (is_some (route_preview r).final ≡ false)
              × ((reason : Reason) × ((route_preview r).hold_reasons ≡ reason ∷ [])))
    go none e (inl (a, b, k)) = absurd (ground arith)
    go none e (inr (a, b, k)) = inr (a, rw e, k)
    go (some (m, x)) e (inl (a, b, k)) = inl (a, rw e, k)
    go (some (m, x)) e (inr (a, b, k)) = absurd (ground arith)
