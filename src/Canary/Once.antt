-- ===== src/Canary/Once.antt =====
-- Claims (app/storage.py) before and after other calls.
use codex_gate.Prelude.{ℕ, ◌≡◌, refl, sym, subst, ◌⊎◌, inl, inr, String, some, List}
use codex_gate.Canary.Rows.{Binding, ClaimRow, Db}
use codex_gate.Canary.Tx.{ok, err, transaction}
use codex_gate.Canary.Binding.{Hashes, Surroundings}
use codex_gate.Canary.Claims.{claim_codex_canary_one_shot_execution}
use codex_gate.Canary.Outcome.{ByResult, refused}
use codex_gate.Canary.Spent.{
  IsPermitSpent, IsWindowSpent, IsPermitSpent-Stable, IsWindowSpent-Stable,
}
use codex_gate.Canary.Ops.{run}
use codex_gate.Canary.Ops.{Op}
use codex_gate.Canary.Histories.{run-Keeps}
use codex_gate.Canary.Replay.{IsClaimed, claim-IsClaimed, claim-refused, Spent}

-- A claim that returns a row has found both nonces with ARMED capabilities that were in time and had
-- the caller's identities, has left both CONSUMED, and has added the row, which is the new claim.
pub claim-records :
    (h : Hashes) (s : Surroundings) (permit_text canary_text : String) (b : Binding) (now : ℕ)
    (id : String) (db db' : Db) (row : ClaimRow)
    → transaction
        (claim_codex_canary_one_shot_execution h s (some permit_text) (some canary_text) b now id)
        db
      ≡ (ok row, db')
    → IsClaimed h permit_text canary_text s b now id db row db'
claim-records h s permit_text canary_text b now id db db' row e =
    subst (λ r. ByResult r (IsClaimed h permit_text canary_text s b now id db) (λ _ _. Unit {0})) e
      (claim-IsClaimed h permit_text canary_text s b now id db)

-- After a claim that returns, and after any calls that follow it, a claim with the same permit nonce
-- or the same canary nonce is refused, and changes nothing.
pub claim-once :
    (h : Hashes) (s : Surroundings) (permit_text canary_text : String) (b : Binding) (now : ℕ)
    (id : String) (db db' : Db) (row : ClaimRow)
    → transaction
        (claim_codex_canary_one_shot_execution h s (some permit_text) (some canary_text) b now id)
        db
      ≡ (ok row, db')
    → (ops : List Op) (s' : Surroundings) (permit_text' canary_text' : String) (b' : Binding)
      (now' : ℕ) (id' : String)
    → (permit_text' ≡ permit_text) ⊎ (canary_text' ≡ canary_text)
    → (code : String) × (transaction
          (claim_codex_canary_one_shot_execution h s'
            (some permit_text')
            (some canary_text')
            b'
            now'
            id')
          (run h ops db')
        ≡ (err code, run h ops db'))
claim-once h s permit_text canary_text b now id db db' row e ops s' permit_text' canary_text' b'
      now' id' same =
    refused _ _
      (claim-refused h permit_text' canary_text' s' b' now' id' (run h ops db') (spent same))
  where
    done : IsClaimed h permit_text canary_text s b now id db row db'
    done = claim-records h s permit_text canary_text b now id db db' row e

    spent :
        (permit_text' ≡ permit_text) ⊎ (canary_text' ≡ canary_text)
        → Spent h permit_text' canary_text' (run h ops db')
    spent (inl p) = inl (
        subst (λ t. IsPermitSpent (h.digest t) (run h ops db')) (sym p)
          (run-Keeps (IsPermitSpent-Stable (h.digest permit_text)) h ops db'
            (record { row = _; found = done.permit_consumed; not_armed = refl })))
    spent (inr p) = inr (
        subst (λ t. IsWindowSpent (h.digest t) (run h ops db')) (sym p)
          (run-Keeps (IsWindowSpent-Stable (h.digest canary_text)) h ops db'
            (record { row = _; found = done.window_consumed; not_armed = refl })))
