-- ===== src/Canary/Executor.antt =====
-- The life of an execution claim after it is created (app/storage.py): its start, the reservation and
-- the record of its one spawn, its end, and the recovery of interrupted claims.
use codex_gate.Prelude.{
  ℕ, suc, String, Bool, true, false, ◌&&◌, ◌||◌, not, Option, none, some, List, [], ◌∷◌, map, ◌==◌,
  str_eq, find, keep, if◌then◌else◌,
}
use codex_gate.Canary.Rows.{
  ClaimStatus, claimed, running, error, Binding, ClaimRow, Db, is_claimed, is_running, count_where,
}
use codex_gate.Canary.Tx.{Tx, Result, ok, err, ◌>>=◌, ◌>>◌, pure, require, found, get, transaction}
use codex_gate.Canary.Binding.{Hashes, Surroundings, is_current, is_error_code, same_texts}
use codex_gate.Canary.Permits.{validated}
use codex_gate.Canary.Claims.{update_claims, permit_identity, claim_identity}

-- `WHERE execution_claim_id=?`.
abbrev pub claim_has : String → ClaimRow → Bool
claim_has id r = str_eq r.execution_claim_id id

abbrev pub claim_by_id : String → Tx ClaimRow
claim_by_id id = do db ← get; found (find (claim_has id) db.claims) "canary_execution_claim_invalid"

-- The writes to a claim, with the conditions of their UPDATE statements.
abbrev pub startable : String → ClaimRow → Bool
startable id r = claim_has id r && is_claimed r.status

abbrev pub start_claim : ℕ → ClaimRow → ClaimRow
start_claim now r = record r { status = running; started_at = some now }

abbrev pub reservable : String → ClaimRow → Bool
reservable id r =
    claim_has id r && is_running r.status && r.spawn_attempted == 0 && r.spawn_count == 0

abbrev pub reserve_spawn : ClaimRow → ClaimRow
reserve_spawn r = record r { spawn_attempted = 1 }

abbrev pub spawnable : String → ClaimRow → Bool
spawnable id r =
    claim_has id r && is_running r.status && r.spawn_attempted == 1 && r.spawn_count == 0

abbrev pub record_spawn : ClaimRow → ClaimRow
record_spawn r = record r { spawn_count = 1 }

abbrev pub is_open : ClaimRow → Bool
is_open r = is_claimed r.status || is_running r.status

abbrev pub finishable : String → ClaimRow → Bool
finishable id r = claim_has id r && is_open r

abbrev pub close_claim : ClaimStatus → Option String → ℕ → ClaimRow → ClaimRow
close_claim status code now r = record r {
  status = status;
  finished_at = some now;
  error_code = code;
}

unfoldable pub begin_codex_canary_execution_claim : Hashes → String → Binding → ℕ → Tx ClaimRow
begin_codex_canary_execution_claim h id b now = do
  validated h b
  row ← claim_by_id id
  require (is_claimed row.status && row.spawn_count == 0 && row.spawn_attempted == 0)
      "canary_execution_claim_reused"
  require (same_texts (claim_identity row) (permit_identity b)) "execution_binding_changed"
  db ← get
  update_claims (startable id) (start_claim now)
  require (count_where (startable id) db.claims == 1) "canary_execution_claim_reused"
  pure (start_claim now row)

-- `_running_codex_canary_claim_for_executor`; its `require_unspawned` is set by every caller.
abbrev pub running_claim_for_executor : Surroundings → String → Binding → Bool → ℕ → Tx ClaimRow
running_claim_for_executor s id b require_unattempted now = do
  row ← claim_by_id id
  require (is_running row.status) "canary_execution_claim_not_runnable"
  require (row.spawn_count == 0) "canary_execution_claim_reused"
  require (not require_unattempted || row.spawn_attempted == 0) "canary_execution_claim_reused"
  require (same_texts (claim_identity row) (permit_identity b)) "execution_binding_changed"
  require (is_current s b now) "execution_binding_changed"
  pure row

unfoldable pub validate_running_codex_canary_execution_claim :
    Hashes → Surroundings → String → Binding → ℕ → Tx ClaimRow
validate_running_codex_canary_execution_claim h s id b now = do
  validated h b
  running_claim_for_executor s id b true now

unfoldable pub reserve_codex_canary_supervisor_spawn :
    Hashes → Surroundings → String → Binding → ℕ → Tx ClaimRow
reserve_codex_canary_supervisor_spawn h s id b now = do
  validated h b
  row ← running_claim_for_executor s id b true now
  db ← get
  update_claims (reservable id) reserve_spawn
  require (count_where (reservable id) db.claims == 1) "canary_execution_claim_reused"
  pure (reserve_spawn row)

unfoldable pub mark_codex_canary_supervisor_spawned :
    Hashes → Surroundings → String → Binding → ℕ → Tx ClaimRow
mark_codex_canary_supervisor_spawned h s id b now = do
  validated h b
  row ← running_claim_for_executor s id b false now
  require (row.spawn_attempted == 1) "canary_execution_claim_reused"
  db ← get
  update_claims (spawnable id) record_spawn
  require (count_where (spawnable id) db.claims == 1) "canary_execution_claim_reused"
  pure (record_spawn row)

abbrev pub is_final : ClaimStatus → Bool
is_final claimed = false
is_final running = false
is_final _ = true

abbrev is_code_or_none : Option String → Bool
is_code_or_none none = true
is_code_or_none (some code) = is_error_code code

abbrev pub close : String → ClaimStatus → Option String → ℕ → ClaimRow → Tx ClaimRow
close id status code now row = do
  update_claims (finishable id) (close_claim status code now)
  pure (close_claim status code now row)

unfoldable pub finish_codex_canary_execution_claim :
    String → ClaimStatus → Option String → ℕ → Tx ClaimRow
finish_codex_canary_execution_claim id status code now = do
  require (is_final status) "canary_execution_claim_invalid"
  require (is_code_or_none code) "canary_execution_claim_invalid"
  row ← claim_by_id id
  if is_open row then close id status code now row else pure row

-- The loop of the recovery: one transaction for each claim, an exception ends it.
abbrev pub count_one : Result ClaimRow → Result ℕ × Db → Db → Result ℕ × Db
count_one (err code) rest db = (err code, db)
count_one (ok row) (ok n, last) db = (ok (suc n), last)
count_one (ok row) (err code, last) db = (err code, last)

unfoldable pub finish_all : List String → ℕ → Db → Result ℕ × Db
finish_all [] now db = (ok 0, db)
finish_all (id ∷ ids) now db =
    let (r, db') =
      transaction (finish_codex_canary_execution_claim id error (some "canary_interrupted") now)
        db in
    let rest = finish_all ids now db' in count_one r rest db'

unfoldable pub recover_interrupted_codex_canary_execution_claims : ℕ → Db → Result ℕ × Db
unfolding finish_all
recover_interrupted_codex_canary_execution_claims now db =
    finish_all (map (λ r. r.execution_claim_id) (keep is_open db.claims)) now db
