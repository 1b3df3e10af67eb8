-- ===== src/Arms/Windows.antt =====
-- The execution windows of the egress harness and the arms that are issued with them (app/storage.py). A
-- block of the connection that raises leaves the tables as they were. The identifiers and nonces that
-- are drawn and the time are arguments; SHA-256 of a text and of the canonical JSON of a binding are
-- parameters.
pub mod Branches
pub mod Spent
pub mod Once
pub mod Lifetime
use codex_gate.Prelude.{
  ℕ, ◌+◌, ◌*◌, ◌-◌, ◌/◌, String, Bool, true, false, ◌&&◌, ◌||◌, not, Option, none, some, List, [],
  ◌∷◌, ◌++◌, any, all, find, length, codes, leb, ◌==◌, str_eq, is_some, if◌then◌else◌, Result, ok,
  err,
}
use codex_gate.Canary.Rows.{update_where, count_where, coalesce}
use codex_gate.Canary.Binding.{is_digest, is_nonce, is_error_code, is_row_id, same_texts}
use codex_gate.Arms.Table.{
  Identity, Arm, of_nonce, unconsumed, consume_arm, identity_texts, issue_egress_harness_arm,
  consume_egress_harness_arm,
}

pub data WindowStatus : Type 0 where
  armed consumed expired : WindowStatus

abbrev pub is_armed : WindowStatus → Bool
is_armed armed = true
is_armed _ = false

abbrev pub is_consumed : WindowStatus → Bool
is_consumed consumed = true
is_consumed _ = false

-- The fields of _execution_window_binding. The first, the contract's identifier and the versions may be
-- names; `identity` has the contract's hash and the runner.
pub record Binding : Type 0 where
  pub binding_hash : String
  pub contract_id : String
  pub identity : Identity
  pub isolation_config_hash : String
  pub tool_fingerprint : String
  pub isolation_cache_key : String
  pub repro_version : String
  pub repro_key : String
  pub repro_result_hash : String

pub record Window : Type 0 where
  pub window_id : String
  pub nonce_hash : String
  pub binding : Binding
  pub status : WindowStatus
  pub issued_at : ℕ
  pub expires_at : ℕ
  pub consumed_at : Option ℕ
  pub error_code : Option String

pub record Db : Type 0 where
  pub windows : List Window
  pub arms : List Arm

pub record Hashes : Type 0 where
  pub digest : String → String
  pub binding_digest : Binding → String

abbrev is_name_code : ℕ → Bool
is_name_code c =
    (leb b'a' c && leb c b'z')
    || (leb b'A' c && leb c b'Z')
    || (leb b'0' c && leb c b'9')
    || c == b'.'
    || c == b'_'
    || c == b'-'

-- re.fullmatch(r"[A-Za-z0-9._-]{1,128}", text), or the digest that is tried first.
abbrev is_name : String → Bool
is_name s =
    is_digest s
    || (leb 1 (length (codes s)) && leb (length (codes s)) 128 && all is_name_code (codes s))

-- _execution_window_binding, on a mapping with the right keys.
unfoldable pub is_sealed : Hashes → Binding → Bool
is_sealed h b =
    is_digest b.binding_hash
    && is_name b.contract_id
    && is_digest b.identity.contract_hash
    && is_name b.identity.runner_kind
    && is_name b.identity.runner_version
    && is_digest b.identity.runner_implementation_hash
    && is_digest b.isolation_config_hash
    && is_digest b.tool_fingerprint
    && is_digest b.isolation_cache_key
    && is_name b.repro_version
    && is_digest b.repro_key
    && is_digest b.repro_result_hash
    && str_eq b.identity.runner_kind "WSL_SUPERVISOR"
    && str_eq b.binding_hash (h.binding_digest b)

abbrev pub lifetime : ℕ
lifetime = 120 * 1000000

abbrev pub new_window : Hashes → Binding → ℕ → String → String → Window
new_window h b now id nonce = record {
  window_id = id;
  nonce_hash = h.digest nonce;
  binding = b;
  status = armed;
  issued_at = now;
  expires_at = now + lifetime;
  consumed_at = none;
  error_code = none;
}

abbrev pub window_arm : Hashes → Binding → ℕ → String → String → Arm
window_arm h b now id arm_nonce = record {
  nonce_hash = h.digest arm_nonce;
  execution_window_id = some id;
  identity = b.identity;
  issued_at = now;
  expires_at = now + lifetime;
  consumed_at = none;
}

-- `WHERE status='ARMED' AND expires_at<=?`.
abbrev pub overdue : ℕ → Window → Bool
overdue now w = is_armed w.status && leb w.expires_at now

abbrev pub lapse : String → Window → Window
lapse code w = record w { status = expired; error_code = coalesce w.error_code code }

abbrev pub window_is_armed : Window → Bool
window_is_armed w = is_armed w.status

-- The primary key and the unique nonce.
abbrev pub clash : Window → Window → Bool
clash new w = str_eq w.window_id new.window_id || str_eq w.nonce_hash new.nonce_hash

-- The two INSERTs, behind the expiry of what is overdue.
abbrev pub insert_pair : Window → Arm → Db → List Window → Result Window × Db
insert_pair w a db current =
    if any window_is_armed current
    then (err "execution_window_already_armed", db)
    else if any (clash w) current
    then (err "sqlite3.IntegrityError", db)
    else if any (of_nonce a.nonce_hash) db.arms
    then (err "sqlite3.IntegrityError", db)
    else (ok w, record { windows = current ++ w ∷ []; arms = db.arms ++ a ∷ [] })

unfoldable pub issue_egress_execution_window :
    Hashes → Binding → ℕ → ℕ → String → String → String → Db → Result Window × Db
issue_egress_execution_window h b ttl_seconds now id nonce arm_nonce db =
    if not (is_sealed h b)
    then (err "execution_window_binding_invalid", db)
    else if not (ttl_seconds == 120)
    then (err "execution_window_ttl_invalid", db)
    else insert_pair (new_window h b now id nonce) (window_arm h b now id arm_nonce) db
        (update_where (overdue now) (lapse "execution_window_expired") db.windows)

abbrev pub of_window : String → Window → Bool
of_window h w = str_eq w.nonce_hash h

-- `WHERE nonce_hash=? AND status='ARMED' AND consumed_at IS NULL`.
abbrev pub takeable : String → Window → Bool
takeable h w = of_window h w && is_armed w.status && not (is_some w.consumed_at)

abbrev pub take : WindowStatus → ℕ → Option String → Window → Window
take next now failure w = record w { status = next; consumed_at = some now; error_code = failure }

abbrev pub outcome : Option String → Window → Result Window
outcome none w = ok w
outcome (some code) w = err code

-- The two updates, which stay also when the call raises after them.
abbrev pub take_pair :
    String → String → WindowStatus → Option String → ℕ → Window → Db → Result Window × Db
take_pair hash arm_hash next failure now w db = (
  outcome failure (take next now failure w),
  record {
    windows = update_where (takeable hash) (take next now failure) db.windows;
    arms = update_where (unconsumed arm_hash) (consume_arm now) db.arms;
  },
)

abbrev pub is_window_id : Option String → String → Bool
is_window_id none id = false
is_window_id (some x) id = str_eq x id

-- The arm belongs to the window.
abbrev pub belongs : Window → Arm → Bool
belongs w a =
    is_window_id a.execution_window_id w.window_id
    && same_texts (identity_texts a.identity) (identity_texts w.binding.identity)

abbrev pub consume_pair : String → String → ℕ → Window → Arm → Db → Result Window × Db
consume_pair hash arm_hash now w a db =
    if not (belongs w a)
    then (err "execution_window_arm_binding_changed", db)
    else if not (is_armed w.status) || is_some w.consumed_at
    then (err "execution_window_reused", db)
    else if is_some a.consumed_at
    then (err "arm_reused", db)
    else if leb w.expires_at now
    then take_pair hash arm_hash expired (some "execution_window_expired") now w db
    else if leb a.expires_at now
    then take_pair hash arm_hash consumed (some "arm_expired") now w db
    else take_pair hash arm_hash consumed none now w db

abbrev pub consume_rows : String → String → ℕ → Option Window → Option Arm → Db → Result Window × Db
consume_rows hash arm_hash now none a db = (err "execution_window_invalid", db)
consume_rows hash arm_hash now (some w) none db = (err "arm_invalid", db)
consume_rows hash arm_hash now (some w) (some a) db = consume_pair hash arm_hash now w a db

unfoldable pub consume_egress_execution_window :
    Hashes → String → String → ℕ → Db → Result Window × Db
consume_egress_execution_window h nonce arm_nonce now db =
    if not (is_nonce nonce)
    then (err "execution_window_required", db)
    else if not (is_nonce arm_nonce)
    then (err "arm_required", db)
    else consume_rows (h.digest nonce) (h.digest arm_nonce) now
        (find (of_window (h.digest nonce)) db.windows)
        (find (of_nonce (h.digest arm_nonce)) db.arms) db

abbrev pub blockable : String → Window → Bool
blockable id w = str_eq w.window_id id && is_consumed w.status

unfoldable pub mark_egress_execution_window_blocked : String → String → Db → Result (Unit {0}) × Db
mark_egress_execution_window_blocked id code db =
    if not (is_row_id id)
    then (err "execution_window_invalid", db)
    else if not (is_error_code code)
    then (err "execution_window_invalid", db)
    else (
      ok tt,
      record db {
        windows = update_where (blockable id) (λ w. record w { error_code = some code }) db.windows;
      },
    )

unfoldable pub recover_armed_egress_execution_windows : Db → Result ℕ × Db
recover_armed_egress_execution_windows db = (
  ok (count_where window_is_armed db.windows),
  record db {
    windows = update_where window_is_armed (lapse "execution_window_restart_expired") db.windows;
  },
)

pub data Call : Type 0 where
  issue_arm : Identity → ℕ → ℕ → String → Call
  consume_arm_of : Option String → Identity → ℕ → Call
  issue : Binding → ℕ → ℕ → String → String → String → Call
  consume : String → String → ℕ → Call
  block : String → String → Call
  recover : Call

unfoldable pub step : Hashes → Call → Db → Db
step h (issue_arm i ttl_seconds now nonce) db = record db {
  arms = (issue_egress_harness_arm h.digest i ttl_seconds now nonce db.arms).1;
}
step h (consume_arm_of nonce i now) db = record db {
  arms = (consume_egress_harness_arm h.digest nonce i now db.arms).1;
}
step h (issue b ttl_seconds now id nonce arm_nonce) db =
    (issue_egress_execution_window h b ttl_seconds now id nonce arm_nonce db).1
step h (consume nonce arm_nonce now) db =
    (consume_egress_execution_window h nonce arm_nonce now db).1
step h (block id code) db = (mark_egress_execution_window_blocked id code db).1
step h recover db = (recover_armed_egress_execution_windows db).1

unfoldable pub run_calls : Hashes → List Call → Db → Db
run_calls h [] db = db
run_calls h (call ∷ calls) db = run_calls h calls (step h call db)

-- _execution_window_public: what the window is at a time, in whole seconds.
pub record PublicWindow : Type 0 where
  pub window_id : String
  pub status : WindowStatus
  pub binding_hash : String
  pub identity : Identity
  pub issued_at : ℕ
  pub expires_at : ℕ
  pub remaining_seconds : ℕ
  pub error_code : Option String

abbrev pub status_at : ℕ → Window → WindowStatus
status_at now w = if overdue now w then expired else w.status

unfoldable pub execution_window_public : ℕ → Window → PublicWindow
execution_window_public now w = record {
  window_id = w.window_id;
  status = status_at now w;
  binding_hash = w.binding.binding_hash;
  identity = w.binding.identity;
  issued_at = w.issued_at;
  expires_at = w.expires_at;
  remaining_seconds = if is_armed (status_at now w) then (w.expires_at - now) / 1000000 else 0;
  error_code = w.error_code;
}

abbrev newer : Window → Option Window → Option Window
newer w none = some w
newer w (some q) = if leb q.issued_at w.issued_at then some w else some q

-- `ORDER BY issued_at DESC LIMIT 1`.
unfoldable pub latest : List Window → Option Window
latest [] = none
latest (w ∷ ws) = newer w (latest ws)

-- The DISABLED answer without a row is `none`.
unfoldable pub egress_execution_window : ℕ → Db → Option PublicWindow
egress_execution_window now db = elim (latest db.windows) [
  | none ↦ none
  | some w ↦ some (execution_window_public now w)
]
