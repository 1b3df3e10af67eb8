-- ===== src/Canary/Calls/Windows.antt =====
-- The calls on canary windows (app/storage.py) keep what their writes keep.
use codex_gate.Prelude.{ℕ, String, Option, refl}
use codex_gate.Canary.Rows.{Binding, WindowRow, Db}
use codex_gate.Canary.Binding.{Hashes}
use codex_gate.Canary.Windows.{
  expire_consumed, take_window, issue_codex_process_canary_window,
  consume_codex_process_canary_window, mark_codex_process_canary_window_blocked,
  recover_armed_codex_process_canary_windows,
}
use codex_gate.Canary.Steps.{
  Stable, Keeps, pure-Keeps, raise-Keeps, get-Keeps, found-Keeps, bind-Keeps, seq-Keeps,
  require-Keeps,
}
use codex_gate.Canary.Calls.{
  branch-Keeps, nonce-Keeps, step-note, update_windows-Keeps, arm_window-Keeps, window-expires,
  window-consumed, and-left, and-right, and-middle,
}

module _ {P : Db → Type 0} (stable : Stable P) where
  pub issue_window-Keeps :
      (h : Hashes) (b : Binding) (ttl now : ℕ) (id nonce : String)
      → Keeps P (issue_codex_process_canary_window h b ttl now id nonce)
  unfolding issue_codex_process_canary_window
  issue_window-Keeps h b ttl now id nonce = require-Keeps _ _ (λ _. require-Keeps _ _ (λ _.
      seq-Keeps (update_windows-Keeps stable _ _ (λ w t. window-expires w _ (and-left _ _ t)))
        (seq-Keeps (arm_window-Keeps stable _) (pure-Keeps _))))

  expire_consumed-Keeps : (h : Hashes) (text : String) → Keeps P (expire_consumed h text)
  expire_consumed-Keeps h text =
      seq-Keeps (update_windows-Keeps stable _ _ (λ w t. window-expires w _ (and-right _ _ t)))
        (raise-Keeps _)

  take_window-Keeps :
      (h : Hashes) (text : String) (now : ℕ) (row : WindowRow)
      → Keeps P (take_window h text now row)
  take_window-Keeps h text now row = bind-Keeps get-Keeps (λ db.
      seq-Keeps
        (update_windows-Keeps stable _ _ (λ w t. window-consumed w _ _ (and-middle _ _ _ t)))
        (require-Keeps _ _ (λ _. pure-Keeps _)))

  pub use_window-Keeps :
      (h : Hashes) (nonce : Option String) (now : ℕ)
      → Keeps P (consume_codex_process_canary_window h nonce now)
  unfolding consume_codex_process_canary_window
  use_window-Keeps h nonce now = bind-Keeps (nonce-Keeps nonce _) (λ text.
      bind-Keeps get-Keeps (λ db. bind-Keeps (found-Keeps _ _) (λ row.
        require-Keeps _ _
          (λ _. branch-Keeps _ (expire_consumed-Keeps h text) (take_window-Keeps h text now row)))))

  pub block_window-Keeps :
      (id code : String) → Keeps P (mark_codex_process_canary_window_blocked id code)
  unfolding mark_codex_process_canary_window_blocked
  block_window-Keeps id code = require-Keeps _ _ (λ _. update_windows-Keeps stable _ _ (λ w t.
      record { same_id = refl; same_nonce = refl; moves = step-note w.status (and-right _ _ t) }))

  pub recover_windows-Keeps : Keeps P recover_armed_codex_process_canary_windows
  unfolding recover_armed_codex_process_canary_windows
  recover_windows-Keeps = bind-Keeps get-Keeps (λ db.
      seq-Keeps (update_windows-Keeps stable _ _ (λ w t. window-expires w _ t)) (pure-Keeps _))
