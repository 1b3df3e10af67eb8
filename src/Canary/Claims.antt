-- ===== src/Canary/Claims.antt =====
-- The execution claim of a canary run (app/storage.py): the call that consumes a permit and a window
-- together, and the life of the claim that it leaves.
use codex_gate.Prelude.{
  ℕ, String, Bool, ◌&&◌, ◌||◌, not, Option, none, List, [], ◌∷◌, ◌++◌, leb, ◌==◌, str_eq, any, find,
  is_some, if◌then◌else◌,
}
use codex_gate.Canary.Rows.{
  claimed, Binding, WindowRow, PermitRow, ClaimRow, Db, is_armed, update_where, count_where,
}
use codex_gate.Canary.Tx.{Tx, ◌>>=◌, ◌>>◌, pure, raise, require, found, get, modify, commit}
use codex_gate.Canary.Binding.{Hashes, Surroundings, is_current, same_binding, same_texts}
use codex_gate.Canary.Windows.{
  require_nonce, window_nonce, armed_window, fresh_window, expire_window, consume_window,
  burn_window, update_windows,
}
use codex_gate.Canary.Permits.{
  validated, permit_nonce, armed_permit, fresh_permit, expire_permit, consume_permit, burn_permit,
  update_permits,
}

abbrev pub on_claims : (List ClaimRow → List ClaimRow) → Db → Db
on_claims f db = record db { claims = f db.claims }

abbrev pub update_claims : (ClaimRow → Bool) → (ClaimRow → ClaimRow) → Tx (Unit {0})
update_claims test change = modify (on_claims (update_where test change))

-- The two rows that the nonces select, still usable.
abbrev pub lookup_pair : Hashes → String → String → Tx (PermitRow × WindowRow)
lookup_pair h permit_text canary_text = do
  db ← get
  permit ←
      found (find (permit_nonce (h.digest permit_text)) db.permits) "codex_canary_permit_invalid"
  window ←
      found (find (window_nonce (h.digest canary_text)) db.windows) "codex_canary_nonce_invalid"
  require (is_armed permit.status && not (is_some permit.consumed_at)) "codex_canary_permit_reused"
  require (is_armed window.status && not (is_some window.consumed_at)) "codex_canary_nonce_reused"
  pure (permit, window)

-- The two conditional updates, and the check of both row counts.
abbrev pub consume_pair : PermitRow → WindowRow → ℕ → Tx (Unit {0})
consume_pair permit window now = do
  db ← get
  update_permits (fresh_permit permit.permit_id) (consume_permit now)
  update_windows (fresh_window window.window_id) (consume_window now)
  require
      (count_where (fresh_permit permit.permit_id) db.permits == 1
        && count_where (fresh_window window.window_id) db.windows == 1)
      "codex_canary_nonce_reused"

-- The writes of the refusals; whether a commit comes before the exception is the callers' difference.
abbrev pub expire_one_permit : PermitRow → Tx (Unit {0})
expire_one_permit p =
    update_permits (armed_permit p.permit_id) (expire_permit "codex_canary_permit_expired")

abbrev pub expire_one_window : WindowRow → Tx (Unit {0})
expire_one_window w =
    update_windows (armed_window w.window_id) (expire_window "canary_window_expired")

abbrev pub burn_pair : PermitRow → WindowRow → ℕ → Tx (Unit {0})
burn_pair permit window now = do
  update_permits (armed_permit permit.permit_id) (burn_permit now "execution_binding_changed")
  update_windows (armed_window window.window_id) (burn_window now)

abbrev pub permit_identity : Binding → List String
permit_identity b =
    b.binding_hash ∷ b.contract_hash ∷ b.canary_runner_kind ∷ b.canary_runner_version
    ∷ b.implementation_hash ∷ []

abbrev pub window_identity : WindowRow → List String
window_identity w =
    w.binding_hash ∷ w.contract_hash ∷ w.runner_kind ∷ w.runner_version
    ∷ w.runner_implementation_hash ∷ []

abbrev pub claim_identity : ClaimRow → List String
claim_identity r =
    r.binding_hash ∷ r.contract_hash ∷ r.runner_kind ∷ r.runner_version
    ∷ r.runner_implementation_hash ∷ []

abbrev pub consume_checked : PermitRow → WindowRow → ℕ → Tx (PermitRow × WindowRow)
consume_checked permit window now = do
  consume_pair permit window now
  pure (consume_permit now permit, consume_window now window)

unfoldable pub consume_codex_canary_execution_permit_and_window :
    Hashes → Option String → Option String → ℕ → Tx (PermitRow × WindowRow)
consume_codex_canary_execution_permit_and_window h permit_nonce canary_nonce now = do
  permit_text ← require_nonce permit_nonce "codex_canary_permit_required"
  canary_text ← require_nonce canary_nonce "codex_canary_nonce_required"
  pair ← lookup_pair h permit_text canary_text
  let (permit, window) = pair
  if leb permit.expires_at now
      then expire_one_permit permit >> raise "codex_canary_permit_expired"
      else if leb window.expires_at now
      then expire_one_window window >> raise "codex_canary_window_expired"
      else if not (same_texts (permit_identity permit.binding) (window_identity window))
      then burn_pair permit window now >> raise "execution_binding_changed"
      else consume_checked permit window now

-- INSERT: the primary key, the permit and the window are unique.
abbrev pub claim_clash : ClaimRow → ClaimRow → Bool
claim_clash new r =
    str_eq r.execution_claim_id new.execution_claim_id
    || str_eq r.permit_id new.permit_id
    || str_eq r.window_id new.window_id

abbrev pub insert_claim : ClaimRow → Tx (Unit {0})
insert_claim new = do
  db ← get
  require (not (any (claim_clash new) db.claims)) "sqlite3.IntegrityError"
  modify (on_claims (λ rows. rows ++ new ∷ []))

abbrev pub new_claim : Binding → ℕ → String → PermitRow → WindowRow → ClaimRow
new_claim b now id permit window = record {
  execution_claim_id = id;
  permit_id = permit.permit_id;
  window_id = window.window_id;
  binding_hash = b.binding_hash;
  contract_hash = b.contract_hash;
  runner_kind = b.canary_runner_kind;
  runner_version = b.canary_runner_version;
  runner_implementation_hash = b.implementation_hash;
  spawn_count = 0;
  spawn_attempted = 0;
  status = claimed;
  claimed_at = now;
  started_at = none;
  finished_at = none;
  error_code = none;
}

abbrev pub claim_matches : Surroundings → Binding → ℕ → PermitRow → WindowRow → Bool
claim_matches s b now permit window =
    same_binding permit.binding b
    && same_texts (permit_identity permit.binding) (window_identity window)
    && same_texts (window_identity window) (permit_identity b)
    && is_current s b now

abbrev pub claim_checked : Binding → ℕ → String → PermitRow → WindowRow → Tx ClaimRow
claim_checked b now id permit window = do
  consume_pair permit window now
  insert_claim (new_claim b now id permit window)
  pure (new_claim b now id permit window)

unfoldable pub claim_codex_canary_one_shot_execution :
    Hashes → Surroundings → Option String → Option String → Binding → ℕ → String → Tx ClaimRow
claim_codex_canary_one_shot_execution h s permit_nonce canary_nonce b now id = do
  validated h b
  permit_text ← require_nonce permit_nonce "codex_canary_permit_required"
  canary_text ← require_nonce canary_nonce "codex_canary_nonce_required"
  pair ← lookup_pair h permit_text canary_text
  let (permit, window) = pair
  if leb permit.expires_at now
      then expire_one_permit permit >> commit >> raise "codex_canary_permit_expired"
      else if leb window.expires_at now
      then expire_one_window window >> commit >> raise "codex_canary_window_expired"
      else if not (claim_matches s b now permit window)
      then burn_pair permit window now >> commit >> raise "execution_binding_changed"
      else claim_checked b now id permit window
