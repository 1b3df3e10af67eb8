-- ===== src/Canary/Windows.antt =====
-- The operations on canary windows (app/storage.py). The identifier and the nonce that the source
-- draws at random are arguments, and so is the current time.
use codex_gate.Prelude.{
  ℕ, ◌+◌, String, Bool, ◌&&◌, ◌||◌, not, Option, none, some, List, [], ◌∷◌, ◌++◌, leb, ◌==◌, str_eq,
  any, find, is_some, if◌then◌else◌,
}
use codex_gate.Canary.Rows.{
  armed, consumed, expired, Binding, WindowRow, Db, is_armed, is_consumed, update_where,
  count_where, coalesce,
}
use codex_gate.Canary.Tx.{Tx, ◌>>=◌, ◌>>◌, pure, raise, require, found, get, modify}
use codex_gate.Canary.Binding.{Hashes, is_nonce, is_error_code, is_row_id}

-- timedelta(seconds=120), in microseconds.
abbrev pub ttl : ℕ
ttl = 120000000

abbrev pub on_windows : (List WindowRow → List WindowRow) → Db → Db
on_windows f db = record db { windows = f db.windows }

-- `WHERE nonce_hash=?`.
abbrev pub window_nonce : String → WindowRow → Bool
window_nonce h w = str_eq w.nonce_hash h

-- `WHERE window_id=? AND status='ARMED'`, and with `consumed_at IS NULL`.
abbrev pub armed_window : String → WindowRow → Bool
armed_window id w = str_eq w.window_id id && is_armed w.status

abbrev pub fresh_window : String → WindowRow → Bool
fresh_window id w = str_eq w.window_id id && is_armed w.status && not (is_some w.consumed_at)

abbrev pub window_is_armed : WindowRow → Bool
window_is_armed w = is_armed w.status

abbrev pub window_overdue : ℕ → WindowRow → Bool
window_overdue now w = is_armed w.status && leb w.expires_at now

abbrev pub expire_window : String → WindowRow → WindowRow
expire_window code w = record w { status = expired; error_code = some code }

-- `error_code=COALESCE(error_code, ?)`.
abbrev pub lapse_window : String → WindowRow → WindowRow
lapse_window code w = record w { status = expired; error_code = coalesce w.error_code code }

abbrev pub consume_window : ℕ → WindowRow → WindowRow
consume_window now w = record w { status = consumed; consumed_at = some now }

abbrev pub burn_window : ℕ → WindowRow → WindowRow
burn_window now w = record w {
  status = consumed;
  consumed_at = some now;
  error_code = some "execution_binding_changed";
}

abbrev pub update_windows : (WindowRow → Bool) → (WindowRow → WindowRow) → Tx (Unit {0})
update_windows test change = modify (on_windows (update_where test change))

-- `_require_codex_canary_nonce`.
abbrev pub require_nonce : Option String → String → Tx String
require_nonce none code = raise code
require_nonce (some nonce) code = if is_nonce nonce then pure nonce else raise code

-- INSERT: the primary key and the nonce are unique.
abbrev pub window_clash : WindowRow → WindowRow → Bool
window_clash new w = str_eq w.window_id new.window_id || str_eq w.nonce_hash new.nonce_hash

abbrev pub insert_window : WindowRow → Tx (Unit {0})
insert_window new = do
  db ← get
  require (not (any (window_clash new) db.windows)) "sqlite3.IntegrityError"
  modify (on_windows (λ rows. rows ++ new ∷ []))

-- `SELECT 1 ... WHERE status='ARMED'`, and the INSERT.
abbrev pub arm_window : WindowRow → Tx (Unit {0})
arm_window new = do
  db ← get
  require (not (any window_is_armed db.windows)) "codex_canary_window_already_armed"
  insert_window new

abbrev pub nonempty : String → Bool
nonempty s = not (str_eq s "")

abbrev has_window_fields : Binding → Bool
has_window_fields b =
    nonempty b.binding_hash
    && nonempty b.contract_hash
    && nonempty b.canary_runner_kind
    && nonempty b.canary_runner_version
    && nonempty b.implementation_hash

abbrev pub new_window : Hashes → Binding → ℕ → String → String → WindowRow
new_window h b now id nonce = record {
  window_id = id;
  nonce_hash = h.digest nonce;
  binding_hash = b.binding_hash;
  contract_hash = b.contract_hash;
  runner_kind = b.canary_runner_kind;
  runner_version = b.canary_runner_version;
  runner_implementation_hash = b.implementation_hash;
  status = armed;
  issued_at = now;
  expires_at = now + ttl;
  consumed_at = none;
  error_code = none;
}

unfoldable pub issue_codex_process_canary_window :
    Hashes → Binding → ℕ → ℕ → String → String → Tx WindowRow
issue_codex_process_canary_window h b ttl_seconds now id nonce = do
  require (has_window_fields b) "codex_canary_binding_invalid"
  require (ttl_seconds == 120) "codex_canary_window_ttl_invalid"
  update_windows (window_overdue now) (lapse_window "canary_window_expired")
  arm_window (new_window h b now id nonce)
  pure (new_window h b now id nonce)

-- The two ends of the consumption: the update of an overdue window, which is then refused, and the
-- conditional update.
abbrev pub expire_consumed : Hashes → String → Tx WindowRow
expire_consumed h text = do
  update_windows (λ w. window_nonce (h.digest text) w && is_armed w.status)
      (expire_window "canary_window_expired")
  raise "codex_canary_window_expired"

abbrev pub take_window : Hashes → String → ℕ → WindowRow → Tx WindowRow
take_window h text now row = do
  let test = λ (w : WindowRow).
      window_nonce (h.digest text) w && is_armed w.status && not (is_some w.consumed_at)
  db ← get
  update_windows test (consume_window now)
  require (count_where test db.windows == 1) "codex_canary_nonce_reused"
  pure (consume_window now row)

unfoldable pub consume_codex_process_canary_window : Hashes → Option String → ℕ → Tx WindowRow
consume_codex_process_canary_window h nonce now = do
  text ← require_nonce nonce "codex_canary_nonce_required"
  db ← get
  row ← found (find (window_nonce (h.digest text)) db.windows) "codex_canary_nonce_invalid"
  require (is_armed row.status && not (is_some row.consumed_at)) "codex_canary_nonce_reused"
  if leb row.expires_at now then expire_consumed h text else take_window h text now row

unfoldable pub mark_codex_process_canary_window_blocked : String → String → Tx (Unit {0})
mark_codex_process_canary_window_blocked id code = do
  require (is_row_id id && is_error_code code) "codex_canary_window_invalid"
  update_windows (λ w. str_eq w.window_id id && is_consumed w.status)
      (λ w. record w { error_code = some code })

-- The number of rows that were updated is the result.
unfoldable pub recover_armed_codex_process_canary_windows : Tx ℕ
recover_armed_codex_process_canary_windows = do
  db ← get
  update_windows window_is_armed (lapse_window "canary_window_restart_expired")
  pure (count_where window_is_armed db.windows)
