-- ===== src/Router/Choice/Sound.antt =====
-- Every choice of app/router.py is safe: advertised, within the minimum and the recommended stage, of
-- a usable model, and either the recommended model or a lower one that the policy allows.
use codex_gate.Prelude.{
  ℕ, ◌≤◌, ◌≡◌, refl, sym, String, Bool, true, false, ◌&&◌, not, Option, none, some, List, [], ◌∷◌,
  Memᴰ, arith, Bool-cases, Option-cases, inl, inr, ◌⊎◌,
}
use codex_gate.Router.Types.{TaskClass, CatalogModel, ModelStatus, ultra_stage}
use codex_gate.Router.Effort.{
  minimum_effort_stage, literal_at_stage, select_effort, highest_non_ultra_effort,
}
use codex_gate.Router.Effort.Bounds.{
  IsAdvertised, select_effort_bounds, literal_at_stage_lem, highest_non_ultra_effort_lem,
}
use codex_gate.Router.Policy.{Reason, Downgrade, is_excluded, is_limited}
use codex_gate.Router.Draft.{Scene, held, chosen, ultra_conditions_of, all_hold}
use codex_gate.Router.Choice.{
  is_available, is_safe_fallback, fallback_draft, ultra_draft, offer, first_offer, select_lower,
  lower_candidates, lower_pick, own_draft, own_effort, automatic_draft,
}

-- Where the chosen model comes from.
abbrev pub Origin : Scene → Downgrade → CatalogModel → Type 0
Origin s policy m =
    (m ≡ s.recommended)
    ⊎ ((policy.automatic ≡ true) × Memᴰ m (lower_candidates s policy.write_limit))

-- A usable choice at a stage up to the recommended one.
pub record IsSafeChoice (s : Scene) (limit : ℕ) (m : CatalogModel) (effort : String) : Type 0 where
  pub stage : ℕ
  pub advertised : IsAdvertised m.efforts effort stage
  pub within : stage ≤ limit
  pub enough : minimum_effort_stage s.tc s.request.file_count (some m) ≤ stage
  pub usable : is_excluded m.status ≡ false

offer_lem :
    (p : ModelStatus → Bool) (tc : TaskClass) (files stage : ℕ) (m n : CatalogModel) (e : String)
    → offer p tc files stage m ≡ some (n, e)
    → (m ≡ n)
      × (p n.status ≡ true)
      × (select_effort n (minimum_effort_stage tc files (some n)) (some stage) ≡ some e)
unfolding offer
offer_lem p tc files stage m n e h =
    elim (Option-cases (select_effort m (minimum_effort_stage tc files (some m)) (some stage))) [
      | inl missing ↦ absurd (ground arith)
      | inr (x, found) ↦
          let same : m ≡ n = ground arith in (same, ground arith, rw (← same) (ground arith))
    ]

pub first_offer_lem :
    (p : ModelStatus → Bool) (tc : TaskClass) (files stage : ℕ) (ms : List CatalogModel)
    (n : CatalogModel) (e : String)
    → first_offer p tc files stage ms ≡ some (n, e)
    → Memᴰ n ms
      × (p n.status ≡ true)
      × (select_effort n (minimum_effort_stage tc files (some n)) (some stage) ≡ some e)
unfolding first_offer
first_offer_lem p tc files stage [] n e h = absurd (ground arith)
first_offer_lem p tc files stage (m ∷ ms) n e h = elim (Option-cases (offer p tc files stage m)) [
  | inl missed ↦
      let (inside, state, effort) = first_offer_lem p tc files stage ms n e (ground arith) in
      (Memᴰ.tail inside, state, effort)
  | inr ((k, x), found) ↦
      let (same, state, effort) = offer_lem p tc files stage m n e (ground arith) in
      (Memᴰ.head (sym same), state, effort)
]

-- A candidate of either round: its status is usable and its effort is the selected one.
pub select_lower_lem :
    (tc : TaskClass) (files stage : ℕ) (ms : List CatalogModel) (n : CatalogModel) (e : String)
    → select_lower tc files stage ms ≡ some (n, e)
    → Memᴰ n ms
      × (is_excluded n.status ≡ false)
      × (select_effort n (minimum_effort_stage tc files (some n)) (some stage) ≡ some e)
unfolding select_lower
select_lower_lem tc files stage ms n e h =
    elim (Option-cases (first_offer is_available tc files stage ms)) [
      | inl missed ↦
          let (inside, state, effort) =
            first_offer_lem is_limited tc files stage ms n e (ground arith) in
          (inside, ground arith, effort)
      | inr ((k, x), found) ↦
          let (inside, state, effort) =
            first_offer_lem is_available tc files stage ms n e (ground arith) in
          (inside, ground arith, effort)
    ]

pub lower_pick_lem :
    (s : Scene) (stage : ℕ) (policy : Downgrade) (m : CatalogModel) (e : String)
    → lower_pick s stage policy ≡ some (m, e)
    → (policy.automatic ≡ true)
      × (select_lower s.tc s.request.file_count stage (lower_candidates s policy.write_limit)
          ≡ some (m, e))
unfolding lower_pick
lower_pick_lem s stage policy m e h = (ground arith, ground arith)

module _ (s : Scene)
    (minimum : s.minimum
      ≡ minimum_effort_stage s.tc s.request.file_count (some s.recommended)) where
  own_draft_safe :
      (stage : ℕ) (automatic : Bool) (reason : Option Reason) (m : CatalogModel) (e : String)
      → s.minimum ≤ stage
      → (own_draft s reason (own_effort s stage automatic)).final ≡ some (m, e)
      → (m ≡ s.recommended) × IsSafeChoice s stage s.recommended e
  unfolding own_draft own_effort held chosen
  own_draft_safe stage true reason m e k h =
      elim (Option-cases (select_effort s.recommended s.minimum (some stage))) [
        | inl missing ↦ absurd (ground arith)
        | inr (x, found) ↦
            let (t, listed, above, below, plain) =
              select_effort_bounds s.recommended s.minimum stage e (ground arith) in
            (
              ground arith,
              record {
                stage = t;
                advertised = listed;
                within = below;
                enough = rw (← minimum) above;
                usable = ground arith;
              },
            )
      ]
  own_draft_safe stage false reason m e k h =
      elim (Option-cases (literal_at_stage s.recommended stage)) [
        | inl missing ↦ absurd (ground arith)
        | inr (x, found) ↦ (
          ground arith,
          record {
            stage = stage;
            advertised = literal_at_stage_lem s.recommended stage e (ground arith);
            within = omega arith;
            enough = rw (← minimum) k;
            usable = ground arith;
          },
        )
      ]

  lower_draft_safe :
      (stage : ℕ) (policy : Downgrade) (m : CatalogModel) (e : String)
      → lower_pick s stage policy ≡ some (m, e)
      → Origin s policy m × IsSafeChoice s stage m e
  lower_draft_safe stage policy m e h =
      let (auto, found) = lower_pick_lem s stage policy m e h in
      let (inside, usable, effort) =
        select_lower_lem s.tc s.request.file_count stage (lower_candidates s policy.write_limit) m e
          found in
      let (t, listed, above, below, plain) =
        select_effort_bounds m (minimum_effort_stage s.tc s.request.file_count (some m)) stage e
          effort in
      (
        inr (auto, inside),
        record { stage = t; advertised = listed; within = below; enough = above; usable = usable },
      )

  -- The branch of the downgrade policy chooses safely.
  pub automatic_draft_safe :
      (stage : ℕ) (policy : Downgrade) (m : CatalogModel) (e : String)
      → s.minimum ≤ stage
      → (automatic_draft s stage policy).final ≡ some (m, e)
      → Origin s policy m × IsSafeChoice s stage m e
  unfolding automatic_draft chosen
  automatic_draft_safe stage policy m e k h = elim (Option-cases (lower_pick s stage policy)) [
    | inr ((n, x), found) ↦ lower_draft_safe stage policy m e (ground arith)
    | inl missing ↦
        let (same, safe) =
          own_draft_safe stage policy.automatic policy.reason m e k
            (rw (missing, automatic_draft) at h) in
        (inl same, rw same safe)
  ]

  fallback_draft_safe :
      (stage : ℕ) (o : Option String) (m : CatalogModel) (e : String)
      → s.minimum ≤ stage
      → ultra_stage ≤ stage
      → highest_non_ultra_effort s.recommended ≡ o
      → (fallback_draft s o).final ≡ some (m, e)
      → (m ≡ s.recommended) × IsSafeChoice s stage s.recommended e
  unfolding fallback_draft held chosen is_safe_fallback
  fallback_draft_safe stage none m e k top q h = absurd (ground arith)
  fallback_draft_safe stage (some x) m e k top q h =
      let (t, listed, plain) = highest_non_ultra_effort_lem s.recommended x q in
      let same : x ≡ e = ground arith in
      (
        ground arith,
        record {
          stage = t;
          advertised = rw (← same) listed;
          within = omega arith;
          enough = rw (← minimum) (ground (arith, listed.staged));
          usable = ground arith;
        },
      )

  -- The branch of a request for Ultra chooses the recommended model, safely.
  pub ultra_draft_safe :
      (stage : ℕ) (literal : String) (m : CatalogModel) (e : String)
      → s.minimum ≤ stage
      → ultra_stage ≤ stage
      → literal_at_stage s.recommended stage ≡ some literal
      → (ultra_draft s literal).final ≡ some (m, e)
      → (m ≡ s.recommended) × IsSafeChoice s stage s.recommended e
  unfolding ultra_draft chosen
  ultra_draft_safe stage literal m e k top q h =
      elim (Bool-cases
        (all_hold (ultra_conditions_of s) && not (is_excluded s.recommended.status))) [
          | inl met ↦ (
            ground arith,
            record {
              stage = stage;
              advertised = literal_at_stage_lem s.recommended stage e (ground arith);
              within = omega arith;
              enough = rw (← minimum) k;
              usable = ground arith;
            },
          )
          | inr unmet ↦
              fallback_draft_safe stage (highest_non_ultra_effort s.recommended) m e k top refl
                (rw (unmet, ultra_draft) at h)
        ]
