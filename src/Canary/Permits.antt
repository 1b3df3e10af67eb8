-- ===== src/Canary/Permits.antt =====
-- The operations on execution permits (app/storage.py). The identifier and the nonce that the source
-- draws at random are arguments, and so is the current time.
use codex_gate.Prelude.{
  ℕ, ◌+◌, String, Bool, ◌&&◌, ◌||◌, not, Option, none, some, List, [], ◌∷◌, ◌++◌, leb, ◌==◌, str_eq,
  any, find, is_some, if◌then◌else◌,
}
use codex_gate.Canary.Rows.{
  armed, consumed, expired, aborted, Binding, PermitRow, Db, is_armed, is_consumed, update_where,
  count_where, coalesce,
}
use codex_gate.Canary.Tx.{Tx, ◌>>=◌, ◌>>◌, pure, raise, require, found, get, modify, commit}
use codex_gate.Canary.Binding.{Hashes, is_error_code, is_row_id, binding_problem, same_binding}
use codex_gate.Canary.Windows.{require_nonce, ttl}

abbrev pub on_permits : (List PermitRow → List PermitRow) → Db → Db
on_permits f db = record db { permits = f db.permits }

abbrev pub update_permits : (PermitRow → Bool) → (PermitRow → PermitRow) → Tx (Unit {0})
update_permits test change = modify (on_permits (update_where test change))

-- `WHERE nonce_hash=?`.
abbrev pub permit_nonce : String → PermitRow → Bool
permit_nonce h p = str_eq p.nonce_hash h

-- `WHERE permit_id=? AND status='ARMED'`, and with `consumed_at IS NULL`.
abbrev pub armed_permit : String → PermitRow → Bool
armed_permit id p = str_eq p.permit_id id && is_armed p.status

abbrev pub fresh_permit : String → PermitRow → Bool
fresh_permit id p = str_eq p.permit_id id && is_armed p.status && not (is_some p.consumed_at)

abbrev pub permit_is_armed : PermitRow → Bool
permit_is_armed p = is_armed p.status

abbrev pub permit_overdue : ℕ → PermitRow → Bool
permit_overdue now p = is_armed p.status && leb p.expires_at now

abbrev pub expire_permit : String → PermitRow → PermitRow
expire_permit code p = record p { status = expired; error_code = some code }

-- `error_code=COALESCE(error_code, ?)`.
abbrev pub lapse_permit : String → PermitRow → PermitRow
lapse_permit code p = record p { status = expired; error_code = coalesce p.error_code code }

abbrev pub consume_permit : ℕ → PermitRow → PermitRow
consume_permit now p = record p { status = consumed; consumed_at = some now }

abbrev pub burn_permit : ℕ → String → PermitRow → PermitRow
burn_permit now code p = record p {
  status = consumed;
  consumed_at = some now;
  error_code = some code;
}

abbrev pub abort_permit : ℕ → String → PermitRow → PermitRow
abort_permit now code p = record p {
  status = aborted;
  consumed_at = coalesce p.consumed_at now;
  error_code = some code;
}

abbrev pub no_problem : Option String → Tx (Unit {0})
no_problem none = pure tt
no_problem (some code) = raise code

-- The binding as it is validated, or the exception.
abbrev pub validated : Hashes → Binding → Tx (Unit {0})
validated h b = no_problem (binding_problem h b)

-- INSERT: the primary key and the nonce are unique.
abbrev pub permit_clash : PermitRow → PermitRow → Bool
permit_clash new p = str_eq p.permit_id new.permit_id || str_eq p.nonce_hash new.nonce_hash

abbrev pub insert_permit : PermitRow → Tx (Unit {0})
insert_permit new = do
  db ← get
  require (not (any (permit_clash new) db.permits)) "sqlite3.IntegrityError"
  modify (on_permits (λ rows. rows ++ new ∷ []))

-- `SELECT 1 ... WHERE status='ARMED'`, and the INSERT.
abbrev pub arm_permit : PermitRow → Tx (Unit {0})
arm_permit new = do
  db ← get
  require (not (any permit_is_armed db.permits)) "codex_canary_permit_already_armed"
  insert_permit new

abbrev pub new_permit : Hashes → Binding → ℕ → String → String → PermitRow
new_permit h b now id nonce = record {
  permit_id = id;
  nonce_hash = h.digest nonce;
  binding = b;
  status = armed;
  issued_at = now;
  expires_at = now + ttl;
  consumed_at = none;
  error_code = none;
}

unfoldable pub issue_codex_canary_execution_permit :
    Hashes → Binding → ℕ → ℕ → String → String → Tx PermitRow
issue_codex_canary_execution_permit h b ttl_seconds now id nonce = do
  validated h b
  require (ttl_seconds == 120) "codex_canary_permit_ttl_invalid"
  update_permits (permit_overdue now) (lapse_permit "codex_canary_permit_expired")
  arm_permit (new_permit h b now id nonce)
  pure (new_permit h b now id nonce)

-- The number of rows that were updated is the result.
unfoldable pub recover_armed_codex_canary_execution_permits : Tx ℕ
recover_armed_codex_canary_execution_permits = do
  db ← get
  update_permits permit_is_armed (lapse_permit "codex_canary_permit_restart_expired")
  pure (count_where permit_is_armed db.permits)

-- An update whose exception follows inside the same `with` block.
abbrev pub expire_permit_then_raise : PermitRow → Tx PermitRow
expire_permit_then_raise row = do
  update_permits (armed_permit row.permit_id) (expire_permit "codex_canary_permit_expired")
  raise "codex_canary_permit_expired"

abbrev pub burn_permit_then_raise : ℕ → PermitRow → Tx PermitRow
burn_permit_then_raise now row = do
  update_permits (fresh_permit row.permit_id) (burn_permit now "execution_binding_changed")
  raise "execution_binding_changed"

unfoldable pub validate_codex_canary_execution_permit :
    Hashes → Option String → Binding → ℕ → Tx PermitRow
validate_codex_canary_execution_permit h nonce b now = do
  text ← require_nonce nonce "codex_canary_permit_required"
  validated h b
  db ← get
  row ← found (find (permit_nonce (h.digest text)) db.permits) "codex_canary_permit_invalid"
  require (is_armed row.status && not (is_some row.consumed_at)) "codex_canary_permit_reused"
  if leb row.expires_at now
      then expire_permit_then_raise row
      else if not (same_binding row.binding b)
      then burn_permit_then_raise now row
      else pure row

unfoldable pub invalidate_codex_canary_execution_permit :
    Hashes → Option String → String → ℕ → Tx (Unit {0})
invalidate_codex_canary_execution_permit h nonce code now = do
  text ← require_nonce nonce "codex_canary_permit_required"
  require (is_error_code code) "codex_canary_permit_invalid"
  db ← get
  let test = λ (p : PermitRow).
      permit_nonce (h.digest text) p && is_armed p.status && not (is_some p.consumed_at)
  update_permits test (burn_permit now code)
  commit
  require (count_where test db.permits == 1) "codex_canary_permit_reused"

-- `WHERE permit_id=? AND status IN ('ARMED', 'CONSUMED')`.
abbrev pub abortable : String → PermitRow → Bool
abortable id p = str_eq p.permit_id id && (is_armed p.status || is_consumed p.status)

unfoldable pub abort_codex_canary_execution_permit : String → String → ℕ → Tx (Unit {0})
abort_codex_canary_execution_permit id code now = do
  require (is_row_id id) "codex_canary_permit_invalid"
  require (is_error_code code) "codex_canary_permit_invalid"
  db ← get
  update_permits (abortable id) (abort_permit now code)
  commit
  require (count_where (abortable id) db.permits == 1) "codex_canary_permit_reused"

unfoldable pub mark_codex_canary_execution_permit_blocked : String → String → Tx (Unit {0})
mark_codex_canary_execution_permit_blocked id code = do
  require (is_row_id id && is_error_code code) "codex_canary_permit_invalid"
  update_permits (λ p. str_eq p.permit_id id && is_consumed p.status)
      (λ p. record p { error_code = some code })
