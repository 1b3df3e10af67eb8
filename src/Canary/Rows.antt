-- ===== src/Canary/Rows.antt =====
-- The rows of codex_process_canary_windows, codex_canary_execution_permits and
-- codex_canary_execution_claims (app/storage.py). A time is a number of microseconds: the texts that
-- are compared are UTC times from `isoformat`, which are in the order of the instants.
use codex_gate.Prelude.{
  ℕ, suc, String, Bool, true, false, Option, none, some, List, [], ◌∷◌, if◌then◌else◌,
}

pub data CapabilityStatus : Type 0 where
  armed consumed expired aborted : CapabilityStatus

pub data ClaimStatus : Type 0 where
  claimed running passed failed policy_violation error : ClaimStatus

-- The keys of _CODEX_CANARY_PERMIT_FIELDS, in their order.
pub record Binding : Type 0 where
  pub binding_hash : String
  pub contract_id : String
  pub contract_hash : String
  pub runtime_identity_version : String
  pub runtime_fingerprint : String
  pub launch_spec_hash : String
  pub binary_sha256 : String
  pub isolation_config_hash : String
  pub tool_fingerprint : String
  pub isolation_cache_key : String
  pub harness_runner_kind : String
  pub harness_runner_version : String
  pub harness_implementation_hash : String
  pub canary_runner_kind : String
  pub canary_runner_version : String
  pub implementation_hash : String
  pub repro_version : String
  pub repro_key : String
  pub repro_result_hash : String

pub record WindowRow : Type 0 where
  pub window_id : String
  pub nonce_hash : String
  pub binding_hash : String
  pub contract_hash : String
  pub runner_kind : String
  pub runner_version : String
  pub runner_implementation_hash : String
  pub status : CapabilityStatus
  pub issued_at : ℕ
  pub expires_at : ℕ
  pub consumed_at : Option ℕ
  pub error_code : Option String

-- `binding.implementation_hash` is the column canary_implementation_hash.
pub record PermitRow : Type 0 where
  pub permit_id : String
  pub nonce_hash : String
  pub binding : Binding
  pub status : CapabilityStatus
  pub issued_at : ℕ
  pub expires_at : ℕ
  pub consumed_at : Option ℕ
  pub error_code : Option String

-- The payload repeats the columns, and every write keeps the two in step; a payload that was changed
-- behind the program's back is refused when it is read, and does not occur here.
pub record ClaimRow : Type 0 where
  pub execution_claim_id : String
  pub permit_id : String
  pub window_id : String
  pub binding_hash : String
  pub contract_hash : String
  pub runner_kind : String
  pub runner_version : String
  pub runner_implementation_hash : String
  pub spawn_count : ℕ
  pub spawn_attempted : ℕ
  pub status : ClaimStatus
  pub claimed_at : ℕ
  pub started_at : Option ℕ
  pub finished_at : Option ℕ
  pub error_code : Option String

pub record Db : Type 0 where
  pub windows : List WindowRow
  pub permits : List PermitRow
  pub claims : List ClaimRow

abbrev pub is_armed : CapabilityStatus → Bool
is_armed armed = true
is_armed _ = false

abbrev pub is_consumed : CapabilityStatus → Bool
is_consumed consumed = true
is_consumed _ = false

abbrev pub is_claimed : ClaimStatus → Bool
is_claimed claimed = true
is_claimed _ = false

abbrev pub is_running : ClaimStatus → Bool
is_running running = true
is_running _ = false

-- UPDATE ... WHERE, and the row count of its cursor.
module _ {ℓ} {A : Type ℓ} where
  unfoldable pub update_where : (A → Bool) → (A → A) → List A → List A
  update_where test change [] = []
  update_where test change (x ∷ xs) = (if test x then change x else x) ∷ update_where test change xs

  unfoldable pub count_where : (A → Bool) → List A → ℕ
  count_where test [] = 0
  count_where test (x ∷ xs) = let rest = count_where test xs in if test x then suc rest else rest

-- COALESCE(a, b).
abbrev pub coalesce {ℓ} : {A : Type ℓ} → Option A → A → Option A
coalesce none b = some b
coalesce (some a) b = some a
