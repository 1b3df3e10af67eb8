-- ===== src/Canary/Tests.antt =====
-- Runs of the one-shot capabilities, and their theorems at concrete tables. SHA-256 is replaced by
-- functions that the runs can compute.
use codex_gate.Prelude.{
  ℕ, ◌≡◌, refl, String, true, false, none, some, List, [], ◌∷◌, inl, all, find, arith,
}
use codex_gate.Canary.Rows.{
  passed, Binding, WindowRow, PermitRow, ClaimRow, Db, update_where, count_where,
}
use codex_gate.Canary.Tx.{
  Result, ok, err, ◌>>=◌, ◌>>◌, pure, raise, require, found, get, modify, commit, transaction,
}
use codex_gate.Canary.Binding.{
  Hashes, Surroundings, is_digest, is_nonce, is_error_code, is_row_id, binding_problem,
  same_binding, is_current,
}
use codex_gate.Canary.Windows.{new_window, consume_window}
use codex_gate.Canary.Permits.{new_permit, consume_permit}
use codex_gate.Canary.Claims.{
  new_claim, claim_codex_canary_one_shot_execution,
  consume_codex_canary_execution_permit_and_window,
}
use codex_gate.Canary.Executor.{
  start_claim, reserve_spawn, close_claim, claim_has, begin_codex_canary_execution_claim,
  reserve_codex_canary_supervisor_spawn,
}
use codex_gate.Canary.Ops.{
  Op, recover_windows, recover_permits, begin, reserve, spawned, finish, run,
}
use codex_gate.Canary.Replay.{IsClaimed}
use codex_gate.Canary.Once.{claim-records, claim-once}
use codex_gate.Canary.Lives.{has_one_spawn, run-has_one_spawn, finished-IsFrozen}
use codex_gate.Canary.Single.{IsSingle, run-IsSingle}
use codex_gate.Canary.Reserve.{reserve-once}

abbrev digit : String
digit = "0123456789abcdef0123456789abcdef0123456789abcdef0123456789abcdef"

abbrev hashes : Hashes
hashes = record { digest = λ s. s; binding_digest = λ b. digit; is_uuid = λ s. true }

abbrev sealed : Binding
sealed = record {
  binding_hash = digit;
  contract_id = "contract";
  contract_hash = digit;
  runtime_identity_version = "runtime-identity-v1";
  runtime_fingerprint = digit;
  launch_spec_hash = digit;
  binary_sha256 = digit;
  isolation_config_hash = digit;
  tool_fingerprint = digit;
  isolation_cache_key = digit;
  harness_runner_kind = "WSL";
  harness_runner_version = "1";
  harness_implementation_hash = digit;
  canary_runner_kind = "WSL_CODEX_CANARY";
  canary_runner_version = "1";
  implementation_hash = digit;
  repro_version = "1";
  repro_key = digit;
  repro_result_hash = digit;
}

abbrev surroundings : Surroundings
surroundings = record {
  runtime = some (record {
    intact = true;
    identity_version = "runtime-identity-v1";
    status = "EGRESS_UNCONFIGURED";
    runtime_fingerprint = digit;
    launch_spec_hash = digit;
    binary_sha256 = digit;
    isolation_cache_key = digit;
    egress_blocked = true;
    start_allowed = false;
  });
  isolation = some (record {
    intact = true;
    status = "SAFE_CANDIDATE";
    config_hash = digit;
    tool_fingerprint = digit;
    cache_key = digit;
    expires_at = some 900000000;
  });
  contract_status = λ id hash. some "AUTH_UNCONFIGURED";
  repro = λ key. some (record {
    intact = true;
    status = "SAFE_REPRODUCIBLE";
    config_hash = digit;
    tool_fingerprint = digit;
    result_hash = digit;
    requested_runs = 10;
    completed_runs = 10;
    success_count = 10;
  });
  harness_status = λ hash kind version implementation. some "PASSED";
}

abbrev permit_text : String
permit_text = "permit_nonce_0123456789_ABCDEFGH"

abbrev canary_text : String
canary_text = "canary_nonce_0123456789_ABCDEFGH"

abbrev window : WindowRow
window = new_window hashes sealed 10 "w" canary_text

abbrev permit : PermitRow
permit = new_permit hashes sealed 20 "p" permit_text

abbrev issued : Db
issued = record { windows = window ∷ []; permits = permit ∷ []; claims = [] }

abbrev row : ClaimRow
row = new_claim sealed 30 "c" permit window

abbrev spent : Db
spent = record {
  windows = consume_window 30 window ∷ [];
  permits = consume_permit 30 permit ∷ [];
  claims = row ∷ [];
}

-- Unfolding `Computes` unfolds all that these calls use.
Computes : {A : Type 0} → A → A → Type 0
unfolding transaction ◌>>=◌ ◌>>◌ pure raise require found get modify commit update_where count_where
    is_digest is_nonce is_error_code is_row_id binding_problem same_binding is_current
    claim_codex_canary_one_shot_execution begin_codex_canary_execution_claim
    reserve_codex_canary_supervisor_spawn consume_codex_canary_execution_permit_and_window
Computes x y = x ≡ y

claim_runs :
    transaction
      (claim_codex_canary_one_shot_execution hashes surroundings
        (some permit_text)
        (some canary_text)
        sealed
        30
        "c")
      issued
    ≡ (ok row, spent)
unfolding Computes
claim_runs = refl

claim-records_example :
    IsClaimed hashes permit_text canary_text surroundings sealed 30 "c" issued row spent
claim-records_example =
    claim-records hashes surroundings permit_text canary_text sealed 30 "c" issued spent row
      claim_runs

abbrev restart : List Op
restart = recover_windows ∷ recover_permits ∷ begin "c" sealed 40 ∷ []

claim-once_example :
    (code : String) × (transaction
        (claim_codex_canary_one_shot_execution hashes surroundings
          (some permit_text)
          (some "other_nonce__0123456789_ABCDEFGH")
          sealed
          50
          "d")
        (run hashes restart spent)
      ≡ (err code, run hashes restart spent))
claim-once_example =
    claim-once hashes surroundings permit_text canary_text sealed 30 "c" issued spent row claim_runs
      restart surroundings permit_text "other_nonce__0123456789_ABCDEFGH" sealed 50 "d" (inl refl)

has_one_spawn_runs : all has_one_spawn spent.claims ≡ true
unfolding has_one_spawn
has_one_spawn_runs = refl

abbrev life : List Op
life =
    begin "c" sealed 40
    ∷ reserve surroundings "c" sealed 50
    ∷ reserve surroundings "c" sealed 51
    ∷ spawned surroundings "c" sealed 60
    ∷ finish "c" passed none 70
    ∷ []

run-has_one_spawn_example : all has_one_spawn (run hashes life spent).claims ≡ true
run-has_one_spawn_example = run-has_one_spawn hashes life spent has_one_spawn_runs

abbrev finished_row : ClaimRow
finished_row = close_claim passed none 70 row

abbrev finished : Db
finished = record spent { claims = finished_row ∷ [] }

finished-IsFrozen_example :
    find (claim_has "c") (run hashes life finished).claims ≡ some finished_row
finished-IsFrozen_example = finished-IsFrozen hashes life finished "c" finished_row refl refl

issued-IsSingle : IsSingle issued
unfolding count_where
issued-IsSingle = record { windows = omega arith; permits = omega arith }

run-IsSingle_example : IsSingle (run hashes restart issued)
run-IsSingle_example = run-IsSingle hashes restart issued issued-IsSingle

abbrev started_row : ClaimRow
started_row = start_claim 40 row

abbrev started : Db
started = record spent { claims = started_row ∷ [] }

reserve_runs :
    transaction (reserve_codex_canary_supervisor_spawn hashes surroundings "c" sealed 50) started
    ≡ (ok (reserve_spawn started_row), record spent { claims = reserve_spawn started_row ∷ [] })
unfolding Computes
reserve_runs = refl

reserve-once_example :
    (code : String) × (transaction
        (reserve_codex_canary_supervisor_spawn hashes surroundings "c" sealed 80)
        (run hashes life (record spent { claims = reserve_spawn started_row ∷ [] }))
      ≡ (err code, run hashes life (record spent { claims = reserve_spawn started_row ∷ [] })))
reserve-once_example =
    reserve-once hashes surroundings "c" sealed 50 started
      (record spent { claims = reserve_spawn started_row ∷ [] }) (reserve_spawn started_row)
      reserve_runs life surroundings sealed 80

abbrev moved : Binding
moved = record sealed { contract_id = "moved" }

abbrev moved_window : WindowRow
moved_window = record window { runner_version = "moved" }

abbrev apart : Db
apart = record issued { windows = moved_window ∷ [] }

abbrev consumed_at : ℕ → Db → Result (PermitRow × WindowRow) × Db
consumed_at time = transaction (
    consume_codex_canary_execution_permit_and_window hashes (some permit_text) (some canary_text)
      time)

both_overdue :
    transaction
      (consume_codex_canary_execution_permit_and_window hashes
        (some permit_text)
        (some canary_text)
        900000000)
      issued
    ≡ (err "codex_canary_permit_expired", issued)
unfolding Computes
both_overdue = refl
