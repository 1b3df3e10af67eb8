-- ===== src/Router/Choice/Rounds.antt =====
-- The two rounds over the lower candidates (app/router.py): LIMITED models come second.
use codex_gate.Prelude.{
  ℕ, ◌≡◌, String, Bool, none, some, List, [], ◌∷◌, Memᴰ, arith, Option-cases, inl, inr, ◌⊎◌,
}
use codex_gate.Router.Types.{TaskClass, CatalogModel, ModelStatus, available, limited}
use codex_gate.Router.Choice.{is_available, offer, first_offer, select_lower}
use codex_gate.Router.Policy.{is_limited}
use codex_gate.Router.Choice.Sound.{first_offer_lem}

first_offer-none :
    (p : ModelStatus → Bool) (tc : TaskClass) (files stage : ℕ) (ms : List CatalogModel)
    (n : CatalogModel)
    → first_offer p tc files stage ms ≡ none
    → Memᴰ n ms
    → offer p tc files stage n ≡ none
unfolding first_offer
first_offer-none p tc files stage [] n h m = elim m [ ]
first_offer-none p tc files stage (x ∷ ms) n h (Memᴰ.head e) =
    elim (Option-cases (offer p tc files stage x)) [
      | inl missed ↦ rw e missed
      | inr (y, found) ↦ absurd (ground arith)
    ]
first_offer-none p tc files stage (x ∷ ms) n h (Memᴰ.tail m) =
    elim (Option-cases (offer p tc files stage x)) [
      | inl missed ↦ first_offer-none p tc files stage ms n (ground arith) m
      | inr (y, found) ↦ absurd (ground arith)
    ]

-- What the loop over the states picks is a candidate in status AVAILABLE, or a candidate in status
-- LIMITED when no AVAILABLE candidate has a suitable effort.
pub select_lower-prefers_available :
    (tc : TaskClass) (files stage : ℕ) (ms : List CatalogModel) (m : CatalogModel) (e : String)
    → select_lower tc files stage ms ≡ some (m, e)
    → Memᴰ m ms
      × ((m.status ≡ available)
          ⊎ ((m.status ≡ limited)
              × ((n : CatalogModel) → Memᴰ n ms → offer is_available tc files stage n ≡ none)))
unfolding select_lower
select_lower-prefers_available tc files stage ms m e h =
    elim (Option-cases (first_offer is_available tc files stage ms)) [
      | inr ((k, x), found) ↦
          let (inside, state, effort) =
            first_offer_lem is_available tc files stage ms m e (ground arith) in
          (inside, inl (ground arith))
      | inl missed ↦
          let (inside, state, effort) =
            first_offer_lem is_limited tc files stage ms m e (ground arith) in
          (
            inside,
            inr (
              ground arith,
              λ n here. first_offer-none is_available tc files stage ms n missed here,
            ),
          )
    ]
