-- ===== src/Egress/Relayed.antt =====
-- What a request that the relay answers satisfies (app/egress_relay.py).
use codex_gate.Prelude.{ℕ, ◌≡◌, ◌≤◌, true, String, ok}
use codex_gate.Egress.Contract.{Headers, max_response_bytes, sanitize_broker_headers}
use codex_gate.Egress.Broker.{RelayResult}
use codex_gate.Egress.Headers.{IsSealed}

pub record IsRelayed (method path : String) (headers : Headers) (body_bytes : ℕ)
    (result : RelayResult) : Type 0 where
  pub clean : Headers
  pub sanitized : sanitize_broker_headers headers ≡ ok clean
  pub accepted : Headers
  pub request : IsSealed method path clean body_bytes accepted
  pub removed : result.sensitive_headers_removed ≡ true
  pub answered : result.status_code ≡ 200
  pub fits : result.response_bytes ≤ max_response_bytes
