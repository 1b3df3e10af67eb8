-- ===== src/Arms/Tests.antt =====
-- An arm that is issued, consumed, and refused.
use codex_gate.Prelude.{
  ◌+◌, ◌*◌, ◌≤◌, ◌<◌, ◌⊎◌, false, Memᴰ, arith, ◌≡◌, refl, String, some, List, [], ◌∷◌, ok, err,
}
use codex_gate.Canary.Rows.{update_where, count_where}
use codex_gate.Canary.Binding.{is_digest, is_nonce}
use codex_gate.Arms.Table.{
  Identity, Arm, new_arm, consume_arm, issue_egress_harness_arm, consume_egress_harness_arm, Call,
  issue, consume, run_calls,
}
use codex_gate.Arms.Windows.{
  Binding, Hashes, Db, new_window, window_arm, is_sealed, issue_egress_execution_window,
  consume_egress_execution_window, Call as WindowCall, issue as issue_pair,
  consume as consume_pair_of, recover, is_armed, execution_window_public, step as window_step,
  run_calls as run_windows,
}
use codex_gate.Arms.Windows.Once.{
  IsRefused, consume_egress_execution_window-once, recover-IsRefused,
}
use codex_gate.Arms.Windows.Lifetime.{execution_window_public-le}
use codex_gate.Arms.Once.{consume_egress_harness_arm-once}

abbrev digit : String
digit = "0123456789abcdef0123456789abcdef0123456789abcdef0123456789abcdef"

abbrev nonce : String
nonce = "arm_nonce_0123456789_ABCDEFGHIJK"

abbrev identity : Identity
identity = record {
  contract_hash = digit;
  runner_kind = "WSL_SUPERVISOR";
  runner_version = "v1";
  runner_implementation_hash = digit;
}

abbrev plain : String → String
plain s = s

abbrev arm : Arm
arm = new_arm nonce identity 300 5

arm_issued : issue_egress_harness_arm plain identity 300 5 nonce [] ≡ (ok arm, arm ∷ [])
unfolding issue_egress_harness_arm is_digest
arm_issued = refl

arm_consumed :
    consume_egress_harness_arm plain (some nonce) identity 60 (arm ∷ [])
    ≡ (ok (consume_arm 60 arm), consume_arm 60 arm ∷ [])
unfolding consume_egress_harness_arm is_nonce update_where count_where
arm_consumed = refl

abbrev calls : List Call
calls =
    consume (some nonce) identity 70 ∷ issue identity 10 80 "other_nonce_0123456789_ABCDEFGHI" ∷ []

consume_egress_harness_arm-once_example :
    (code : String) × (consume_egress_harness_arm plain
        (some nonce)
        identity
        90
        (run_calls plain calls (consume_arm 60 arm ∷ []))
      ≡ (err code, run_calls plain calls (consume_arm 60 arm ∷ [])))
consume_egress_harness_arm-once_example =
    consume_egress_harness_arm-once plain nonce identity 60 (arm ∷ []) (consume_arm 60 arm ∷ [])
      (consume_arm 60 arm) arm_consumed calls identity 90

abbrev window_nonce : String
window_nonce = "window_nonce_0123456789_ABCDEFGHI"

abbrev binding : Binding
binding = record {
  binding_hash = digit;
  contract_id = "contract";
  identity = identity;
  isolation_config_hash = digit;
  tool_fingerprint = digit;
  isolation_cache_key = digit;
  repro_version = "r1";
  repro_key = digit;
  repro_result_hash = digit;
}

abbrev hashes : Hashes
hashes = record { digest = plain; binding_digest = λ b. digit }

abbrev empty : Db
empty = record { windows = []; arms = [] }

abbrev issue_window : WindowCall
issue_window = issue_pair binding 120 5 "window" window_nonce nonce

abbrev opened : Db
opened = record {
  windows = new_window hashes binding 5 "window" window_nonce ∷ [];
  arms = window_arm hashes binding 5 "window" nonce ∷ [];
}

window_issued : run_windows hashes (issue_window ∷ []) empty ≡ opened
unfolding run_windows window_step issue_egress_execution_window is_sealed is_digest update_where
window_issued = refl

consume_egress_execution_window-once_example :
    IsRefused
      (consume_egress_execution_window hashes window_nonce nonce 99
        (run_windows hashes (consume_pair_of window_nonce nonce 60 ∷ recover ∷ []) opened))
      (run_windows hashes (consume_pair_of window_nonce nonce 60 ∷ recover ∷ []) opened)
    × IsRefused
        (consume_egress_execution_window hashes nonce nonce 99
          (run_windows hashes (consume_pair_of window_nonce nonce 60 ∷ recover ∷ []) opened))
        (run_windows hashes (consume_pair_of window_nonce nonce 60 ∷ recover ∷ []) opened)
unfolding consume_egress_execution_window is_nonce
consume_egress_execution_window-once_example =
    consume_egress_execution_window-once hashes window_nonce nonce 60 opened (recover ∷ []) refl
      nonce 99

recover-IsRefused_example :
    IsRefused
      (consume_egress_execution_window hashes window_nonce nonce 60
        (run_windows hashes (recover ∷ []) opened))
      (run_windows hashes (recover ∷ []) opened)
recover-IsRefused_example =
    recover-IsRefused hashes window_nonce (new_window hashes binding 5 "window" window_nonce) opened
      [] refl nonce 60

execution_window_public-le_example :
    ((execution_window_public 5000005
        (new_window hashes binding 5 "window" window_nonce)).remaining_seconds
      ≤ 120)
    × ((is_armed
            (execution_window_public 5000005
              (new_window hashes binding 5 "window" window_nonce)).status
          ≡ false)
        ⊎ (5000005 < 5 + 120 * 1000000))
unfolding run_windows window_step issue_egress_execution_window is_sealed is_digest update_where
execution_window_public-le_example =
    execution_window_public-le hashes (issue_window ∷ [])
      (new_window hashes binding 5 "window" window_nonce) 5000005 (Memᴰ.head refl) (omega arith)
