-- ===== src/Arms/Table.antt =====
-- issue_egress_harness_arm and consume_egress_harness_arm (app/storage.py). The nonce that is drawn and
-- the time are arguments, SHA-256 is a parameter; a time is a number of microseconds. Every exception
-- comes before the write, or rolls it back.
use codex_gate.Prelude.{
  ℕ, ◌+◌, ◌*◌, String, Bool, ◌&&◌, ◌||◌, not, Option, none, some, List, [], ◌∷◌, ◌++◌, any, all,
  find, length, codes, leb, ◌==◌, str_eq, is_some, if◌then◌else◌, Result, ok, err,
}
use codex_gate.Canary.Rows.{update_where, count_where}
use codex_gate.Canary.Binding.{is_digest, is_nonce, same_texts}

-- The identity that an arm is bound to.
pub record Identity : Type 0 where
  pub contract_hash : String
  pub runner_kind : String
  pub runner_version : String
  pub runner_implementation_hash : String

pub record Arm : Type 0 where
  pub nonce_hash : String
  pub execution_window_id : Option String
  pub identity : Identity
  pub issued_at : ℕ
  pub expires_at : ℕ
  pub consumed_at : Option ℕ

abbrev is_version_code : ℕ → Bool
is_version_code c =
    (leb b'a' c && leb c b'z') || (leb b'0' c && leb c b'9') || c == b'.' || c == b'_' || c == b'-'

-- re.fullmatch(r"[a-z0-9._-]{1,80}", text)
abbrev is_version : String → Bool
is_version s =
    leb 1 (length (codes s)) && leb (length (codes s)) 80 && all is_version_code (codes s)

abbrev pub of_nonce : String → Arm → Bool
of_nonce h a = str_eq a.nonce_hash h

abbrev pub new_arm : String → Identity → ℕ → ℕ → Arm
new_arm hash identity ttl_seconds now = record {
  nonce_hash = hash;
  execution_window_id = none;
  identity = identity;
  issued_at = now;
  expires_at = now + ttl_seconds * 1000000;
  consumed_at = none;
}

unfoldable pub issue_egress_harness_arm :
    (String → String) → Identity → ℕ → ℕ → String → List Arm → Result Arm × List Arm
issue_egress_harness_arm digest i ttl_seconds now nonce arms =
    if not (is_digest i.contract_hash)
    then (err "arm_contract_invalid", arms)
    else if not (str_eq i.runner_kind "WSL_SUPERVISOR" && is_version i.runner_version)
    then (err "arm_runner_invalid", arms)
    else if not (is_digest i.runner_implementation_hash)
    then (err "arm_runner_invalid", arms)
    else if not (leb 1 ttl_seconds && leb ttl_seconds 300)
    then (err "arm_ttl_invalid", arms)
    else if any (of_nonce (digest nonce)) arms
    then (err "sqlite3.IntegrityError", arms)
    else (
      ok (new_arm (digest nonce) i ttl_seconds now),
      arms ++ new_arm (digest nonce) i ttl_seconds now ∷ [],
    )

abbrev pub identity_texts : Identity → List String
identity_texts i =
    i.contract_hash ∷ i.runner_kind ∷ i.runner_version ∷ i.runner_implementation_hash ∷ []

-- `WHERE nonce_hash=? AND consumed_at IS NULL`.
abbrev pub unconsumed : String → Arm → Bool
unconsumed h a = of_nonce h a && not (is_some a.consumed_at)

abbrev pub consume_arm : ℕ → Arm → Arm
consume_arm now a = record a { consumed_at = some now }

abbrev pub consume_found : String → Identity → ℕ → List Arm → Option Arm → Result Arm × List Arm
consume_found hash i now arms none = (err "arm_invalid", arms)
consume_found hash i now arms (some a) =
    if not (same_texts (identity_texts a.identity) (identity_texts i))
    then (err "arm_binding_changed", arms)
    else if is_some a.consumed_at
    then (err "arm_reused", arms)
    else if leb a.expires_at now
    then (err "arm_expired", arms)
    else if not (count_where (unconsumed hash) arms == 1)
    then (err "arm_reused", arms)
    else (ok (consume_arm now a), update_where (unconsumed hash) (consume_arm now) arms)

unfoldable pub consume_egress_harness_arm :
    (String → String) → Option String → Identity → ℕ → List Arm → Result Arm × List Arm
consume_egress_harness_arm digest none i now arms = (err "arm_required", arms)
consume_egress_harness_arm digest (some nonce) i now arms =
    if not (is_nonce nonce)
    then (err "arm_required", arms)
    else consume_found (digest nonce) i now arms (find (of_nonce (digest nonce)) arms)

pub data Call : Type 0 where
  issue : Identity → ℕ → ℕ → String → Call
  consume : Option String → Identity → ℕ → Call

unfoldable pub step : (String → String) → Call → List Arm → List Arm
step digest (issue i ttl_seconds now nonce) arms =
    (issue_egress_harness_arm digest i ttl_seconds now nonce arms).1
step digest (consume nonce i now) arms = (consume_egress_harness_arm digest nonce i now arms).1

unfoldable pub run_calls : (String → String) → List Call → List Arm → List Arm
run_calls digest [] arms = arms
run_calls digest (call ∷ calls) arms = run_calls digest calls (step digest call arms)
