-- ===== src/Egress/Tests.antt =====
-- The fixed client request of the fake harness, and the theorems on it.
use codex_gate.Prelude.{
  ℕ, ◌≡◌, refl, true, String, [], ◌∷◌, List, arith, ok, err, casefold, starts_with, contains_codes,
  same_codes,
}
use codex_gate.Egress.Contract.{
  Headers, is_header_name, is_stripped, sanitize_broker_headers, is_host, host_values,
  validate_broker_request, validate_broker_response,
}
use codex_gate.Egress.Broker.{
  Response, Relay, RelayResult, is_sensitive, accept_connection, handle_request, relay_accept,
  forward, Call, accept, request, run,
}
use codex_gate.Egress.Headers.{IsSealed, validate_broker_request-IsSealed}
use codex_gate.Egress.Single.{IsOneShot, run-IsOneShot, forward-once}

abbrev response : Response
response = record { bytes = 180; hash = "hash" }

abbrev fixed_headers : Headers
fixed_headers =
    ("Host", "127.0.0.1:8788")
    ∷ ("Content-Type", "application/json")
    ∷ ("Authorization", "removed-before-broker")
    ∷ ("Cookie", "removed-before-broker")
    ∷ ("Proxy-Authorization", "removed-before-broker")
    ∷ []

abbrev clean_headers : Headers
clean_headers = ("Host", "127.0.0.1:8788") ∷ ("Content-Type", "application/json") ∷ []

abbrev relay : ℕ → ℕ → Relay
relay connections requests = record {
  broker = record {
    sockets = record { af_unix = 1; tcp = 0; udp = 0; dns = 0 };
    connections = connections;
    requests = requests;
  };
  connections = connections;
  requests = requests;
}

abbrev answered : RelayResult
answered = record {
  status_code = 200;
  response_bytes = 180;
  response_hash = "hash";
  request_bytes = 26;
  sensitive_headers_removed = true;
}

-- Unfolding `Computes` unfolds all that these calls use.
Computes : {A : Type 0} → A → A → Type 0
unfolding is_header_name is_stripped sanitize_broker_headers is_host host_values
    validate_broker_request validate_broker_response accept_connection handle_request relay_accept
    forward is_sensitive casefold starts_with contains_codes same_codes
Computes x y = x ≡ y

request_accepted :
    validate_broker_request "POST" "/v1/responses" fixed_headers 26 ≡ ok clean_headers
unfolding Computes
request_accepted = refl

validate_broker_request-IsSealed_example :
    IsSealed "POST" "/v1/responses" fixed_headers 26 clean_headers
validate_broker_request-IsSealed_example =
    validate_broker_request-IsSealed "POST" "/v1/responses" fixed_headers 26 clean_headers
      request_accepted

relay_answers :
    forward response (relay 1 0) "POST" "/v1/responses" fixed_headers 26 ≡ (ok answered, relay 1 1)
unfolding Computes
relay_answers = refl

abbrev calls : List Call
calls = accept ∷ request "POST" "/v1/responses" fixed_headers 26 ∷ []

forward-once_example :
    (code : String) × (forward response
        (run response calls (relay 1 1))
        "POST"
        "/v1/responses"
        clean_headers
        26
      ≡ (err code, run response calls (relay 1 1)))
forward-once_example =
    forward-once response (relay 1 0) (relay 1 1) "POST" "/v1/responses" fixed_headers 26 answered
      relay_answers calls "POST" "/v1/responses" clean_headers 26

new_relay-IsOneShot : IsOneShot (relay 0 0)
new_relay-IsOneShot = record {
  counted = omega arith;
  connected = omega arith;
  agree = refl;
  single = omega arith;
}

run-IsOneShot_example : IsOneShot (run response calls (relay 0 0))
run-IsOneShot_example = run-IsOneShot response calls (relay 0 0) new_relay-IsOneShot
