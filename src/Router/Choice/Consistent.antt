-- ===== src/Router/Choice/Consistent.antt =====
-- A return of route_preview (app/router.py) either previews a final model or holds with one reason.
use codex_gate.Prelude.{
  ℕ, ◌≡◌, refl, String, Bool, true, false, ◌&&◌, not, Option, none, some, List, [], ◌∷◌, ◌⊎◌, inl,
  inr, if◌then◌else◌, is_some,
}
use codex_gate.Router.Types.{CatalogModel, is_truthy}
use codex_gate.Router.Effort.{highest_non_ultra_effort}
use codex_gate.Router.Policy.{hold, preview, Reason, is_excluded, Downgrade}
use codex_gate.Router.Draft.{Scene, Draft, held, chosen, ultra_conditions_of, all_hold}
use codex_gate.Router.Choice.{
  is_safe_fallback, fallback_draft, ultra_draft, lower_draft, own_draft, own_effort,
  automatic_draft, lower_pick,
}

abbrev pub IsConsistent : Draft → Type 0
IsConsistent d =
    ((d.status ≡ preview) × (is_some d.final ≡ true) × (d.hold_reasons ≡ []))
    ⊎ ((d.status ≡ hold)
        × (is_some d.final ≡ false)
        × ((reason : Reason) × (d.hold_reasons ≡ reason ∷ [])))

pub held-IsConsistent :
    (models : List CatalogModel) (n : ℕ) (reason : Reason) (warnings : List Reason)
    → IsConsistent (held models n reason warnings)
unfolding held
held-IsConsistent models n reason warnings = inr (refl, refl, (reason, refl))

chosen-IsConsistent :
    (models : List CatalogModel) (n : ℕ) (m : CatalogModel) (e : String)
    (reasons warnings : List Reason)
    → IsConsistent (chosen models n m e reasons warnings)
unfolding chosen
chosen-IsConsistent models n m e reasons warnings = inl (refl, refl, refl)

pub if-IsConsistent :
    (b : Bool) (d d' : Draft)
    → IsConsistent d
    → IsConsistent d'
    → IsConsistent (if b then d else d')
if-IsConsistent true d d' h h' = h
if-IsConsistent false d d' h h' = h'

fallback_draft-IsConsistent : (s : Scene) (o : Option String) → IsConsistent (fallback_draft s o)
unfolding fallback_draft
fallback_draft-IsConsistent s none = held-IsConsistent _ _ _ _
fallback_draft-IsConsistent s (some e) =
    if-IsConsistent (is_safe_fallback e s.minimum && not (is_excluded s.recommended.status)) _ _
      (chosen-IsConsistent _ _ _ _ _ _) (held-IsConsistent _ _ _ _)

pub ultra_draft-IsConsistent : (s : Scene) (literal : String) → IsConsistent (ultra_draft s literal)
unfolding ultra_draft
ultra_draft-IsConsistent s literal =
    if-IsConsistent (all_hold (ultra_conditions_of s) && not (is_excluded s.recommended.status)) _ _
      (chosen-IsConsistent s.display s.minimum s.recommended literal [] s.warnings)
      (fallback_draft-IsConsistent s (highest_non_ultra_effort s.recommended))

own_draft-IsConsistent :
    (s : Scene) (reason : Option Reason) (o : Option String) → IsConsistent (own_draft s reason o)
unfolding own_draft
own_draft-IsConsistent s reason none = held-IsConsistent _ _ _ _
own_draft-IsConsistent s reason (some e) =
    if-IsConsistent (not (is_excluded s.recommended.status) && is_truthy (some e)) _ _
      (chosen-IsConsistent _ _ _ _ _ _) (held-IsConsistent _ _ _ _)

pub automatic_draft-IsConsistent :
    (s : Scene) (stage : ℕ) (policy : Downgrade) → IsConsistent (automatic_draft s stage policy)
unfolding automatic_draft
automatic_draft-IsConsistent s stage policy = go (lower_pick s stage policy)
  where
    go :
        (o : Option (CatalogModel × String))
        → IsConsistent (elim o [
          | some pick ↦ lower_draft s policy.reason pick
          | none ↦ own_draft s policy.reason (own_effort s stage policy.automatic)
        ])
    go none = own_draft-IsConsistent s policy.reason (own_effort s stage policy.automatic)
    go (some (m, e)) = chosen-IsConsistent _ _ _ _ _ _
