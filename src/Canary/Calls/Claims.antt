-- ===== src/Canary/Calls/Claims.antt =====
-- The calls that consume a permit and a window together (app/storage.py) keep what their writes keep.
use codex_gate.Prelude.{ℕ, String, Option, refl}
use codex_gate.Canary.Rows.{Binding, WindowRow, PermitRow, Db}
use codex_gate.Canary.Binding.{Hashes, Surroundings}
use codex_gate.Canary.Claims.{
  lookup_pair, consume_pair, expire_one_permit, expire_one_window, burn_pair, claim_checked,
  consume_codex_canary_execution_permit_and_window, claim_codex_canary_one_shot_execution,
}
use codex_gate.Canary.Steps.{
  Stable, Keeps, pure-Keeps, raise-Keeps, get-Keeps, found-Keeps, bind-Keeps, seq-Keeps,
  require-Keeps, test-Keeps, committed-Keeps,
}
use codex_gate.Canary.Calls.{
  branch-Keeps, nonce-Keeps, validated-Keeps, update_windows-Keeps, update_permits-Keeps,
  insert_claim-Keeps, window-expires, window-consumed, permit-expires, permit-consumed, and-right,
  and-middle,
}

module _ {P : Db → Type 0} (stable : Stable P) where
  lookup_pair-Keeps : (h : Hashes) (p c : String) → Keeps P (lookup_pair h p c)
  lookup_pair-Keeps h p c = bind-Keeps get-Keeps (λ db. bind-Keeps (found-Keeps _ _) (λ permit.
      bind-Keeps (found-Keeps _ _)
        (λ window. require-Keeps _ _ (λ _. require-Keeps _ _ (λ _. pure-Keeps _)))))

  consume_pair-Keeps :
      (permit : PermitRow) (window : WindowRow) (now : ℕ) → Keeps P (consume_pair permit window now)
  consume_pair-Keeps permit window now = bind-Keeps get-Keeps (λ db.
      seq-Keeps
        (update_permits-Keeps stable _ _ (λ p t. permit-consumed p _ _ (and-middle _ _ _ t)))
        (seq-Keeps
          (update_windows-Keeps stable _ _ (λ w t. window-consumed w _ _ (and-middle _ _ _ t)))
          (test-Keeps _ _)))

  expire_one_permit-Keeps : (p : PermitRow) → Keeps P (expire_one_permit p)
  expire_one_permit-Keeps p =
      update_permits-Keeps stable _ _ (λ q t. permit-expires q _ (and-right _ _ t))

  expire_one_window-Keeps : (w : WindowRow) → Keeps P (expire_one_window w)
  expire_one_window-Keeps w =
      update_windows-Keeps stable _ _ (λ v t. window-expires v _ (and-right _ _ t))

  burn_pair-Keeps :
      (permit : PermitRow) (window : WindowRow) (now : ℕ) → Keeps P (burn_pair permit window now)
  burn_pair-Keeps permit window now =
      seq-Keeps (update_permits-Keeps stable _ _ (λ p t. permit-consumed p _ _ (and-right _ _ t)))
        (update_windows-Keeps stable _ _ (λ w t. window-consumed w _ _ (and-right _ _ t)))

  pub use_both-Keeps :
      (h : Hashes) (pn cn : Option String) (now : ℕ)
      → Keeps P (consume_codex_canary_execution_permit_and_window h pn cn now)
  unfolding consume_codex_canary_execution_permit_and_window
  use_both-Keeps h pn cn now = bind-Keeps (nonce-Keeps pn _) (λ permit_text.
      bind-Keeps (nonce-Keeps cn _) (λ canary_text.
        bind-Keeps (lookup_pair-Keeps h permit_text canary_text) (λ pair.
          branch-Keeps _ (seq-Keeps (expire_one_permit-Keeps pair.0) (raise-Keeps _)) (
            branch-Keeps _ (seq-Keeps (expire_one_window-Keeps pair.1) (raise-Keeps _)) (
              branch-Keeps _ (seq-Keeps (burn_pair-Keeps pair.0 pair.1 now) (raise-Keeps _))
                (seq-Keeps (consume_pair-Keeps pair.0 pair.1 now) (pure-Keeps _)))))))

  claim_checked-Keeps :
      (b : Binding) (now : ℕ) (id : String) (permit : PermitRow) (window : WindowRow)
      → Keeps P (claim_checked b now id permit window)
  claim_checked-Keeps b now id permit window =
      seq-Keeps (consume_pair-Keeps permit window now)
        (seq-Keeps (insert_claim-Keeps stable _ refl refl) (pure-Keeps _))

  pub claim-Keeps :
      (h : Hashes) (s : Surroundings) (pn cn : Option String) (b : Binding) (now : ℕ) (id : String)
      → Keeps P (claim_codex_canary_one_shot_execution h s pn cn b now id)
  unfolding claim_codex_canary_one_shot_execution
  claim-Keeps h s pn cn b now id = seq-Keeps (validated-Keeps h b) (
      bind-Keeps (nonce-Keeps pn _) (λ permit_text. bind-Keeps (nonce-Keeps cn _) (λ canary_text.
        bind-Keeps (lookup_pair-Keeps h permit_text canary_text) (λ pair.
          branch-Keeps _ (committed-Keeps _ (expire_one_permit-Keeps pair.0)) (
            branch-Keeps _ (committed-Keeps _ (expire_one_window-Keeps pair.1)) (
              branch-Keeps _ (committed-Keeps _ (burn_pair-Keeps pair.0 pair.1 now))
                (claim_checked-Keeps b now id pair.0 pair.1)))))))
