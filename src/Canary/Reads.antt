-- ===== src/Canary/Reads.antt =====
-- The reads of windows, permits and claims (app/storage.py): the newest row, or the row of an identifier,
-- and the seconds that an ARMED capability has left. The other fields of a public view are columns of
-- the row.
use codex_gate.Prelude.{
  ℕ, ◌+◌, ◌-◌, ◌*◌, ◌/◌, String, Option, none, some, List, [], ◌∷◌, ltb, ◌==◌, if◌then◌else◌,
}
use codex_gate.Canary.Rows.{CapabilityStatus, armed, WindowRow, PermitRow, ClaimRow, Db}
use codex_gate.Canary.Tx.{Tx, ◌>>◌, require}
use codex_gate.Canary.Binding.{is_row_id}
use codex_gate.Canary.Executor.{claim_by_id}

abbrev later {ℓ} : {A : Type ℓ} → (A → ℕ) → A → Option A → Option A
later time x none = some x
later time x (some y) = if ltb (time x) (time y) then some y else some x

-- `ORDER BY ... DESC LIMIT 1`; of equal times, the first row is taken.
unfoldable newest {ℓ} : {A : Type ℓ} → (A → ℕ) → List A → Option A
newest time [] = none
newest time (x ∷ xs) = later time x (newest time xs)

-- `round` of a number of microseconds to seconds, half to even.
abbrev rounded : ℕ → ℕ
rounded n =
    let q = n / 1000000 in
    let rest = 2 * (n - q * 1000000) in
    if ltb rest 1000000 then q else if rest == 1000000 then 2 * ((q + 1) / 2) else q + 1

-- `remaining_seconds`, which only an ARMED record has.
unfoldable remaining_seconds : CapabilityStatus → ℕ → ℕ → Option ℕ
remaining_seconds armed expires now = some (rounded (expires - now))
remaining_seconds _ expires now = none

abbrev view_window : ℕ → Option WindowRow → Option (WindowRow × Option ℕ)
view_window now none = none
view_window now (some w) = some (w, remaining_seconds w.status w.expires_at now)

abbrev view_permit : ℕ → Option PermitRow → Option (PermitRow × Option ℕ)
view_permit now none = none
view_permit now (some p) = some (p, remaining_seconds p.status p.expires_at now)

-- `none` is the answer DISABLED.
unfoldable codex_process_canary_window : ℕ → Db → Option (WindowRow × Option ℕ)
codex_process_canary_window now db = view_window now (newest (λ w. w.issued_at) db.windows)

unfoldable codex_canary_execution_permit : ℕ → Db → Option (PermitRow × Option ℕ)
codex_canary_execution_permit now db = view_permit now (newest (λ p. p.issued_at) db.permits)

unfoldable codex_canary_execution_claim : Db → Option ClaimRow
codex_canary_execution_claim db = newest (λ r. r.claimed_at) db.claims

unfoldable codex_canary_execution_claim_by_id : String → Tx ClaimRow
codex_canary_execution_claim_by_id id =
    require (is_row_id id) "canary_execution_claim_invalid" >> claim_by_id id
