-- ===== src/Canary/Histories.antt =====
-- Sequences of calls on the capability tables (app/storage.py) keep what their writes keep.
use codex_gate.Prelude.{List, [], ◌∷◌}
use codex_gate.Canary.Rows.{Db}
use codex_gate.Canary.Binding.{Hashes}
use codex_gate.Canary.Steps.{Stable, transaction-Keeps}
use codex_gate.Canary.Ops.{
  Op, issue_window, use_window, block_window, recover_windows, issue_permit, recover_permits,
  validate_permit, invalidate_permit, abort_execution_permit, block_permit, use_both, claim, begin,
  validate_running, reserve, spawned, finish, recover_claims, apply, run,
}
use codex_gate.Canary.Calls.Windows.{
  issue_window-Keeps, use_window-Keeps, block_window-Keeps, recover_windows-Keeps,
}
use codex_gate.Canary.Calls.Permits.{
  issue_permit-Keeps, recover_permits-Keeps, validate_permit-Keeps, invalidate_permit-Keeps,
  abort_permit-Keeps, block_permit-Keeps,
}
use codex_gate.Canary.Calls.Claims.{use_both-Keeps, claim-Keeps}
use codex_gate.Canary.Calls.Executor.{
  begin-Keeps, validate_running-Keeps, reserve-Keeps, spawned-Keeps, finish-Keeps,
  recover_claims-Keeps,
}

module _ {P : Db → Type 0} (stable : Stable P) (h : Hashes) where
  pub apply-Keeps : (op : Op) (db : Db) → P db → P (apply h op db)
  unfolding apply
  apply-Keeps (issue_window b ttl now id nonce) =
      transaction-Keeps (issue_window-Keeps stable h b ttl now id nonce)
  apply-Keeps (use_window nonce now) = transaction-Keeps (use_window-Keeps stable h nonce now)
  apply-Keeps (block_window id code) = transaction-Keeps (block_window-Keeps stable id code)
  apply-Keeps recover_windows = transaction-Keeps (recover_windows-Keeps stable)
  apply-Keeps (issue_permit b ttl now id nonce) =
      transaction-Keeps (issue_permit-Keeps stable h b ttl now id nonce)
  apply-Keeps recover_permits = transaction-Keeps (recover_permits-Keeps stable)
  apply-Keeps (validate_permit nonce b now) =
      transaction-Keeps (validate_permit-Keeps stable h nonce b now)
  apply-Keeps (invalidate_permit nonce code now) =
      transaction-Keeps (invalidate_permit-Keeps stable h nonce code now)
  apply-Keeps (abort_execution_permit id code now) =
      transaction-Keeps (abort_permit-Keeps stable id code now)
  apply-Keeps (block_permit id code) = transaction-Keeps (block_permit-Keeps stable id code)
  apply-Keeps (use_both pn cn now) = transaction-Keeps (use_both-Keeps stable h pn cn now)
  apply-Keeps (claim s pn cn b now id) = transaction-Keeps (claim-Keeps stable h s pn cn b now id)
  apply-Keeps (begin id b now) = transaction-Keeps (begin-Keeps stable h id b now)
  apply-Keeps (validate_running s id b now) =
      transaction-Keeps (validate_running-Keeps stable h s id b now)
  apply-Keeps (reserve s id b now) = transaction-Keeps (reserve-Keeps stable h s id b now)
  apply-Keeps (spawned s id b now) = transaction-Keeps (spawned-Keeps stable h s id b now)
  apply-Keeps (finish id status code now) =
      transaction-Keeps (finish-Keeps stable id status code now)
  apply-Keeps (recover_claims now) = recover_claims-Keeps stable now

  pub run-Keeps : (ops : List Op) (db : Db) → P db → P (run h ops db)
  unfolding run
  run-Keeps [] db k = k
  run-Keeps (op ∷ ops) db k = run-Keeps ops (apply h op db) (apply-Keeps op db k)
