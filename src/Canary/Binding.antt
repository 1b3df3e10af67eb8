-- ===== src/Canary/Binding.antt =====
-- The sealed binding of a permit (app/storage.py): its validation, its comparison, and the check that
-- every sealed identity is still current.
use codex_gate.Prelude.{
  ℕ, ◌+◌, String, Bool, true, false, ◌&&◌, ◌||◌, not, Option, none, some, List, [], ◌∷◌, codes, leb,
  length, ◌==◌, str_eq, all, if◌then◌else◌,
}
use codex_gate.Canary.Rows.{Binding}

-- What is taken from the standard library: SHA-256 of a text, SHA-256 of the canonical JSON of a
-- binding without its `binding_hash`, and whether `uuid.UUID` accepts a text.
pub record Hashes : Type 0 where
  pub digest : String → String
  pub binding_digest : Binding → String
  pub is_uuid : String → Bool

abbrev is_hex : ℕ → Bool
is_hex c = (leb b'0' c && leb c b'9') || (leb b'a' c && leb c b'f')

-- re.fullmatch(r"[0-9a-f]{64}", text)
unfoldable pub is_digest : String → Bool
is_digest s = length (codes s) == 64 && all is_hex (codes s)

abbrev is_nonce_code : ℕ → Bool
is_nonce_code c =
    (leb b'0' c && leb c b'9')
    || (leb b'a' c && leb c b'z')
    || (leb b'A' c && leb c b'Z')
    || c == b'_'
    || c == b'-'

-- re.fullmatch(r"[A-Za-z0-9_-]{32,128}", text)
unfoldable pub is_nonce : String → Bool
is_nonce s = leb 32 (length (codes s)) && leb (length (codes s)) 128 && all is_nonce_code (codes s)

abbrev is_code_code : ℕ → Bool
is_code_code c = (leb b'0' c && leb c b'9') || (leb b'a' c && leb c b'z') || c == b'_'

-- re.fullmatch(r"[a-z0-9_]{1,80}", text)
unfoldable pub is_error_code : String → Bool
is_error_code s =
    leb 1 (length (codes s)) && leb (length (codes s)) 80 && all is_code_code (codes s)

abbrev is_id_code : ℕ → Bool
is_id_code c = is_hex c || c == b'-'

-- re.fullmatch(r"[0-9a-f-]{36}", text)
unfoldable pub is_row_id : String → Bool
is_row_id s = length (codes s) == 36 && all is_id_code (codes s)

abbrev pub fields : Binding → List String
fields b =
    b.binding_hash ∷ b.contract_id ∷ b.contract_hash ∷ b.runtime_identity_version
    ∷ b.runtime_fingerprint ∷ b.launch_spec_hash ∷ b.binary_sha256 ∷ b.isolation_config_hash
    ∷ b.tool_fingerprint ∷ b.isolation_cache_key ∷ b.harness_runner_kind ∷ b.harness_runner_version
    ∷ b.harness_implementation_hash ∷ b.canary_runner_kind ∷ b.canary_runner_version
    ∷ b.implementation_hash ∷ b.repro_version ∷ b.repro_key ∷ b.repro_result_hash ∷ []

-- _CODEX_CANARY_PERMIT_HASH_FIELDS.
abbrev hash_fields : Binding → List String
hash_fields b =
    b.binding_hash ∷ b.contract_hash ∷ b.runtime_fingerprint ∷ b.launch_spec_hash ∷ b.binary_sha256
    ∷ b.isolation_config_hash ∷ b.tool_fingerprint ∷ b.isolation_cache_key
    ∷ b.harness_implementation_hash ∷ b.implementation_hash ∷ b.repro_key ∷ b.repro_result_hash ∷ []

abbrev is_nonempty : String → Bool
is_nonempty s = not (str_eq s "")

-- `_validate_codex_canary_execution_permit_binding`: the code that is raised, if any. The fields of a
-- binding are texts.
unfoldable pub binding_problem : Hashes → Binding → Option String
unfolding is_digest
binding_problem h b =
    if not (all is_nonempty (fields b))
    then some "codex_canary_permit_binding_invalid"
    else if not (str_eq b.binding_hash (h.binding_digest b))
    then some "codex_canary_permit_binding_invalid"
    else if not (all is_digest (hash_fields b))
    then some "codex_canary_permit_binding_invalid"
    else if not (h.is_uuid b.contract_id)
    then some "codex_canary_permit_binding_invalid"
    else if not (str_eq b.runtime_identity_version "runtime-identity-v1")
    then some "codex_canary_permit_binding_invalid"
    else if not (str_eq b.canary_runner_kind "WSL_CODEX_CANARY")
    then some "actual_runner_policy_violation"
    else none

abbrev pub same_texts : List String → List String → Bool
same_texts [] [] = true
same_texts (a ∷ as') (b ∷ bs) = str_eq a b && same_texts as' bs
same_texts _ _ = false

-- All fields agree.
unfoldable pub same_binding : Binding → Binding → Bool
same_binding a b = same_texts (fields a) (fields b)

-- The rows that `_codex_canary_claim_binding_is_current` reads: the singletons of the runtime and of
-- the isolation probe, and the rows found for the binding's keys. `intact` says that a payload has
-- its stored hash.
pub record Runtime : Type 0 where
  pub intact : Bool
  pub identity_version : String
  pub status : String
  pub runtime_fingerprint : String
  pub launch_spec_hash : String
  pub binary_sha256 : String
  pub isolation_cache_key : String
  pub egress_blocked : Bool
  pub start_allowed : Bool

pub record Isolation : Type 0 where
  pub intact : Bool
  pub status : String
  pub config_hash : String
  pub tool_fingerprint : String
  pub cache_key : String
  pub expires_at : Option ℕ

pub record Repro : Type 0 where
  pub intact : Bool
  pub status : String
  pub config_hash : String
  pub tool_fingerprint : String
  pub result_hash : String
  pub requested_runs : ℕ
  pub completed_runs : ℕ
  pub success_count : ℕ

pub record Surroundings : Type 0 where
  pub runtime : Option Runtime
  pub isolation : Option Isolation
  -- the status of the contract instance with this id and hash
  pub contract_status : String → String → Option String
  pub repro : String → Option Repro
  -- the status of the harness run for this contract and runner
  pub harness_status : String → String → String → String → Option String

abbrev runtime_current : Runtime → Binding → Bool
runtime_current r b =
    r.intact
    && str_eq r.identity_version b.runtime_identity_version
    && str_eq r.status "EGRESS_UNCONFIGURED"
    && str_eq r.runtime_fingerprint b.runtime_fingerprint
    && str_eq r.launch_spec_hash b.launch_spec_hash
    && str_eq r.binary_sha256 b.binary_sha256
    && str_eq r.isolation_cache_key b.isolation_cache_key
    && r.egress_blocked
    && not r.start_allowed

-- timedelta(seconds=300), in microseconds.
abbrev pub isolation_reserve : ℕ
isolation_reserve = 300000000

abbrev lasts_until : Option ℕ → ℕ → Bool
lasts_until none now = false
lasts_until (some expires) now = leb (now + isolation_reserve) expires

abbrev isolation_current : Isolation → Binding → ℕ → Bool
isolation_current i b now =
    i.intact
    && str_eq i.status "SAFE_CANDIDATE"
    && str_eq i.config_hash b.isolation_config_hash
    && str_eq i.tool_fingerprint b.tool_fingerprint
    && str_eq i.cache_key b.isolation_cache_key
    && lasts_until i.expires_at now

abbrev repro_current : Repro → Binding → Bool
repro_current r b =
    r.intact
    && str_eq r.status "SAFE_REPRODUCIBLE"
    && str_eq r.config_hash b.isolation_config_hash
    && str_eq r.tool_fingerprint b.tool_fingerprint
    && str_eq r.result_hash b.repro_result_hash
    && r.requested_runs == 10
    && r.completed_runs == 10
    && r.success_count == 10

abbrev is_just : Option String → String → Bool
is_just none s = false
is_just (some t) s = str_eq t s

abbrev on {ℓ} : {A : Type ℓ} → Option A → (A → Bool) → Bool
on none test = false
on (some a) test = test a

unfoldable pub is_current : Surroundings → Binding → ℕ → Bool
is_current s b now =
    on s.runtime (λ r. runtime_current r b)
    && on s.isolation (λ i. isolation_current i b now)
    && is_just (s.contract_status b.contract_id b.contract_hash) "AUTH_UNCONFIGURED"
    && on (s.repro b.repro_key) (λ r. repro_current r b)
    && is_just
        (s.harness_status b.contract_hash b.harness_runner_kind b.harness_runner_version
          b.harness_implementation_hash)
        "PASSED"
