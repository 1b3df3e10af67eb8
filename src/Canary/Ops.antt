-- ===== src/Canary/Ops.antt =====
-- The calls that change the capability tables (app/storage.py), each in its own transaction, and the
-- sequences of calls. What a call reads of other tables is an argument of it.
use codex_gate.Prelude.{ℕ, String, Option, List, [], ◌∷◌}
use codex_gate.Canary.Rows.{ClaimStatus, Binding, Db}
use codex_gate.Canary.Tx.{Tx, transaction}
use codex_gate.Canary.Binding.{Hashes, Surroundings}
use codex_gate.Canary.Windows.{
  issue_codex_process_canary_window, consume_codex_process_canary_window,
  mark_codex_process_canary_window_blocked, recover_armed_codex_process_canary_windows,
}
use codex_gate.Canary.Permits.{
  issue_codex_canary_execution_permit, recover_armed_codex_canary_execution_permits,
  validate_codex_canary_execution_permit, invalidate_codex_canary_execution_permit,
  abort_codex_canary_execution_permit, mark_codex_canary_execution_permit_blocked,
}
use codex_gate.Canary.Claims.{
  consume_codex_canary_execution_permit_and_window, claim_codex_canary_one_shot_execution,
}
use codex_gate.Canary.Executor.{
  begin_codex_canary_execution_claim, validate_running_codex_canary_execution_claim,
  reserve_codex_canary_supervisor_spawn, mark_codex_canary_supervisor_spawned,
  finish_codex_canary_execution_claim, recover_interrupted_codex_canary_execution_claims,
}

pub data Op : Type 0 where
  issue_window : Binding → ℕ → ℕ → String → String → Op
  use_window : Option String → ℕ → Op
  block_window : String → String → Op
  recover_windows : Op
  issue_permit : Binding → ℕ → ℕ → String → String → Op
  recover_permits : Op
  validate_permit : Option String → Binding → ℕ → Op
  invalidate_permit : Option String → String → ℕ → Op
  abort_execution_permit : String → String → ℕ → Op
  block_permit : String → String → Op
  use_both : Option String → Option String → ℕ → Op
  claim : Surroundings → Option String → Option String → Binding → ℕ → String → Op
  begin : String → Binding → ℕ → Op
  validate_running : Surroundings → String → Binding → ℕ → Op
  reserve : Surroundings → String → Binding → ℕ → Op
  spawned : Surroundings → String → Binding → ℕ → Op
  finish : String → ClaimStatus → Option String → ℕ → Op
  recover_claims : ℕ → Op

abbrev pub after : {A : Type 0} → Tx A → Db → Db
after m db = (transaction m db).1

unfoldable pub apply : Hashes → Op → Db → Db
apply h (issue_window b ttl now id nonce) =
    after (issue_codex_process_canary_window h b ttl now id nonce)
apply h (use_window nonce now) = after (consume_codex_process_canary_window h nonce now)
apply h (block_window id code) = after (mark_codex_process_canary_window_blocked id code)
apply h recover_windows = after recover_armed_codex_process_canary_windows
apply h (issue_permit b ttl now id nonce) =
    after (issue_codex_canary_execution_permit h b ttl now id nonce)
apply h recover_permits = after recover_armed_codex_canary_execution_permits
apply h (validate_permit nonce b now) = after (validate_codex_canary_execution_permit h nonce b now)
apply h (invalidate_permit nonce code now) =
    after (invalidate_codex_canary_execution_permit h nonce code now)
apply h (abort_execution_permit id code now) =
    after (abort_codex_canary_execution_permit id code now)
apply h (block_permit id code) = after (mark_codex_canary_execution_permit_blocked id code)
apply h (use_both pn cn now) = after (consume_codex_canary_execution_permit_and_window h pn cn now)
apply h (claim s pn cn b now id) = after (claim_codex_canary_one_shot_execution h s pn cn b now id)
apply h (begin id b now) = after (begin_codex_canary_execution_claim h id b now)
apply h (validate_running s id b now) =
    after (validate_running_codex_canary_execution_claim h s id b now)
apply h (reserve s id b now) = after (reserve_codex_canary_supervisor_spawn h s id b now)
apply h (spawned s id b now) = after (mark_codex_canary_supervisor_spawned h s id b now)
apply h (finish id status code now) = after (finish_codex_canary_execution_claim id status code now)
apply h (recover_claims now) = λ db. (recover_interrupted_codex_canary_execution_claims now db).1

unfoldable pub run : Hashes → List Op → Db → Db
run h [] db = db
run h (op ∷ ops) db = run h ops (apply h op db)
