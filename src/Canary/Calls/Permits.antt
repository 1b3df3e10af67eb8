-- ===== src/Canary/Calls/Permits.antt =====
-- The calls on execution permits (app/storage.py) keep what their writes keep.
use codex_gate.Prelude.{ℕ, String, Option, refl}
use codex_gate.Canary.Rows.{Binding, PermitRow, Db}
use codex_gate.Canary.Binding.{Hashes}
use codex_gate.Canary.Permits.{
  issue_codex_canary_execution_permit, recover_armed_codex_canary_execution_permits,
  validate_codex_canary_execution_permit, invalidate_codex_canary_execution_permit,
  abort_codex_canary_execution_permit, mark_codex_canary_execution_permit_blocked,
  expire_permit_then_raise, burn_permit_then_raise,
}
use codex_gate.Canary.Steps.{
  Stable, Keeps, pure-Keeps, raise-Keeps, get-Keeps, commit-Keeps, found-Keeps, bind-Keeps,
  seq-Keeps, require-Keeps, test-Keeps,
}
use codex_gate.Canary.Calls.{
  branch-Keeps, nonce-Keeps, validated-Keeps, step-note, step-abort, update_permits-Keeps,
  arm_permit-Keeps, permit-expires, permit-consumed, and-left, and-right, and-middle,
}

module _ {P : Db → Type 0} (stable : Stable P) where
  pub issue_permit-Keeps :
      (h : Hashes) (b : Binding) (ttl now : ℕ) (id nonce : String)
      → Keeps P (issue_codex_canary_execution_permit h b ttl now id nonce)
  unfolding issue_codex_canary_execution_permit
  issue_permit-Keeps h b ttl now id nonce = seq-Keeps (validated-Keeps h b) (
      require-Keeps _ _ (λ _.
        seq-Keeps (update_permits-Keeps stable _ _ (λ p t. permit-expires p _ (and-left _ _ t)))
          (seq-Keeps (arm_permit-Keeps stable _) (pure-Keeps _))))

  pub recover_permits-Keeps : Keeps P recover_armed_codex_canary_execution_permits
  unfolding recover_armed_codex_canary_execution_permits
  recover_permits-Keeps = bind-Keeps get-Keeps (λ db.
      seq-Keeps (update_permits-Keeps stable _ _ (λ p t. permit-expires p _ t)) (pure-Keeps _))

  expire_permit-Keeps : (row : PermitRow) → Keeps P (expire_permit_then_raise row)
  expire_permit-Keeps row =
      seq-Keeps (update_permits-Keeps stable _ _ (λ p t. permit-expires p _ (and-right _ _ t)))
        (raise-Keeps _)

  burn_permit-Keeps : (now : ℕ) (row : PermitRow) → Keeps P (burn_permit_then_raise now row)
  burn_permit-Keeps now row =
      seq-Keeps
        (update_permits-Keeps stable _ _ (λ p t. permit-consumed p _ _ (and-middle _ _ _ t)))
        (raise-Keeps _)

  pub validate_permit-Keeps :
      (h : Hashes) (nonce : Option String) (b : Binding) (now : ℕ)
      → Keeps P (validate_codex_canary_execution_permit h nonce b now)
  unfolding validate_codex_canary_execution_permit
  validate_permit-Keeps h nonce b now = bind-Keeps (nonce-Keeps nonce _) (λ text.
      seq-Keeps (validated-Keeps h b) (
        bind-Keeps get-Keeps (λ db. bind-Keeps (found-Keeps _ _) (λ row. require-Keeps _ _ (λ _.
          branch-Keeps _ (expire_permit-Keeps row)
            (branch-Keeps _ (burn_permit-Keeps now row) (pure-Keeps row)))))))

  pub invalidate_permit-Keeps :
      (h : Hashes) (nonce : Option String) (code : String) (now : ℕ)
      → Keeps P (invalidate_codex_canary_execution_permit h nonce code now)
  unfolding invalidate_codex_canary_execution_permit
  invalidate_permit-Keeps h nonce code now = bind-Keeps (nonce-Keeps nonce _) (λ text.
      require-Keeps _ _ (λ _. bind-Keeps get-Keeps (λ db.
        seq-Keeps
          (update_permits-Keeps stable _ _ (λ p t. permit-consumed p _ _ (and-middle _ _ _ t)))
          (seq-Keeps commit-Keeps (test-Keeps _ _)))))

  pub abort_permit-Keeps :
      (id code : String) (now : ℕ) → Keeps P (abort_codex_canary_execution_permit id code now)
  unfolding abort_codex_canary_execution_permit
  abort_permit-Keeps id code now = require-Keeps _ _ (λ _. require-Keeps _ _ (λ _.
      bind-Keeps get-Keeps (λ db.
        seq-Keeps
          (update_permits-Keeps stable _ _ (λ p t. record {
            same_id = refl;
            same_nonce = refl;
            moves = step-abort p.status (and-right _ _ t);
          }))
          (seq-Keeps commit-Keeps (test-Keeps _ _)))))

  pub block_permit-Keeps :
      (id code : String) → Keeps P (mark_codex_canary_execution_permit_blocked id code)
  unfolding mark_codex_canary_execution_permit_blocked
  block_permit-Keeps id code = require-Keeps _ _ (λ _. update_permits-Keeps stable _ _ (λ p t.
      record { same_id = refl; same_nonce = refl; moves = step-note p.status (and-right _ _ t) }))
