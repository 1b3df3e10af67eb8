-- ===== src/Router/Choice/Gate.antt =====
-- When a branch of route_preview (app/router.py) ends with an effort at the stage of Ultra.
use codex_gate.Prelude.{
  ℕ, ◌≡◌, refl, String, true, false, ◌&&◌, not, Option, none, some, arith, Bool-cases, Option-cases,
  inl, inr, &&-true,
}
use codex_gate.Router.Types.{CatalogModel, ultra_stage}
use codex_gate.Router.Effort.{
  effort_stage, minimum_effort_stage, select_effort, highest_non_ultra_effort,
}
use codex_gate.Router.Effort.Bounds.{select_effort_bounds, highest_non_ultra_effort_lem}
use codex_gate.Router.Policy.{Downgrade, is_excluded}
use codex_gate.Router.Draft.{Scene, held, chosen, ultra_conditions_of, all_hold}
use codex_gate.Router.Choice.{
  fallback_draft, ultra_draft, lower_draft, own_draft, own_effort, automatic_draft, lower_pick,
  lower_candidates,
}
use codex_gate.Router.Choice.Sound.{select_lower_lem, lower_pick_lem}

fallback_draft-plain :
    (s : Scene) (o : Option String) (m : CatalogModel) (e : String)
    → highest_non_ultra_effort s.recommended ≡ o
    → (fallback_draft s o).final ≡ some (m, e)
    → effort_stage e ≡ some ultra_stage
    → ⊥
unfolding fallback_draft held chosen
fallback_draft-plain s none m e q h top = ground arith
fallback_draft-plain s (some x) m e q h top =
    let (t, listed, plain) = highest_non_ultra_effort_lem s.recommended x q in
    ground (arith, listed.staged)

-- The branch of a request for Ultra ends there only if all conditions hold.
pub ultra_draft-gated :
    (s : Scene) (literal : String) (m : CatalogModel) (e : String)
    → (ultra_draft s literal).final ≡ some (m, e)
    → effort_stage e ≡ some ultra_stage
    → all_hold (ultra_conditions_of s) ≡ true
unfolding ultra_draft
ultra_draft-gated s literal m e h top =
    elim (Bool-cases (all_hold (ultra_conditions_of s) && not (is_excluded s.recommended.status))) [
      | inl met ↦ (&&-true _ _ met).0
      | inr unmet ↦ absurd (
          fallback_draft-plain s (highest_non_ultra_effort s.recommended) m e refl
            (rw (unmet, ultra_draft) at h) top)
    ]

own_draft-plain :
    (s : Scene) (stage : ℕ) (policy : Downgrade) (m : CatalogModel) (e : String)
    → (own_draft s policy.reason (own_effort s stage policy.automatic)).final ≡ some (m, e)
    → effort_stage e ≡ some ultra_stage
    → policy.automatic ≡ false
unfolding own_draft own_effort held chosen
own_draft-plain s stage policy m e h top = elim (Bool-cases policy.automatic) [
  | inr manual ↦ manual
  | inl auto ↦ elim (Option-cases (select_effort s.recommended s.minimum (some stage))) [
    | inl missing ↦ absurd (ground arith)
    | inr (x, found) ↦
        let (t, listed, above, below, plain) =
          select_effort_bounds s.recommended s.minimum stage e (ground arith) in
        absurd (ground (arith, listed.staged))
  ]
]

-- The other branch ends there only if no automatic downgrade applies.
pub automatic_draft-gated :
    (s : Scene) (stage : ℕ) (policy : Downgrade) (m : CatalogModel) (e : String)
    → (automatic_draft s stage policy).final ≡ some (m, e)
    → effort_stage e ≡ some ultra_stage
    → policy.automatic ≡ false
unfolding automatic_draft lower_draft chosen
automatic_draft-gated s stage policy m e h top = elim (Option-cases (lower_pick s stage policy)) [
  | inl missing ↦ own_draft-plain s stage policy m e (rw (missing, automatic_draft) at h) top
  | inr ((n, x), found) ↦
      let (auto, pick) = lower_pick_lem s stage policy m e (ground arith) in
      let (inside, usable, effort) =
        select_lower_lem s.tc s.request.file_count stage (lower_candidates s policy.write_limit) m e
          pick in
      let (t, listed, above, below, plain) =
        select_effort_bounds m (minimum_effort_stage s.tc s.request.file_count (some m)) stage e
          effort in
      absurd (ground (arith, listed.staged))
]
