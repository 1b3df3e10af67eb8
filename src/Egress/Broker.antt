-- ===== src/Egress/Broker.antt =====
-- The one-connection broker and relay (app/egress_broker.py, app/egress_relay.py). An exception leaves
-- the objects as they are when it is raised. The fixed response, canonical JSON with its SHA-256, is
-- a parameter.
use codex_gate.Prelude.{
  ℕ, ◌+◌, String, Bool, ◌&&◌, ◌||◌, not, List, [], ◌∷◌, ltb, ◌==◌, all, any, if◌then◌else◌, codes,
  casefold, same_codes, starts_with,
}
use codex_gate.Prelude.{Result, ok, err}
use codex_gate.Egress.Contract.{
  Headers, max_response_bytes, sanitize_broker_headers, validate_broker_request,
  validate_broker_response,
}

pub record Response : Type 0 where
  pub bytes : ℕ
  pub hash : String

pub record SocketCounts : Type 0 where
  pub af_unix : ℕ
  pub tcp : ℕ
  pub udp : ℕ
  pub dns : ℕ

pub record Broker : Type 0 where
  pub sockets : SocketCounts
  pub connections : ℕ
  pub requests : ℕ

pub record BrokerResult : Type 0 where
  pub status_code : ℕ
  pub response_bytes : ℕ
  pub response_hash : String
  pub sanitized_headers : Headers

abbrev is_sealed : SocketCounts → Bool
is_sealed s = s.af_unix == 1 && s.tcp == 0 && s.udp == 0 && s.dns == 0

unfoldable pub accept_connection : Broker → Result (Unit {0}) × Broker
accept_connection b =
    if not (b.connections == 0)
    then (err "sealed broker rejects a second connection", b)
    else let b' = record b { connections = b.connections + 1 } in
      if is_sealed b.sockets
      then (ok tt, b')
      else (err "sealed broker socket policy was violated", b')

-- What follows `self.requests += 1`.
abbrev pub answer : Response → Headers → Result (Unit {0}) → Result BrokerResult
answer r clean (err code) = err code
answer r clean (ok _) =
    if ltb max_response_bytes r.bytes
    then err "sealed broker response body exceeds its limit"
    else ok (record {
      status_code = 200;
      response_bytes = r.bytes;
      response_hash = r.hash;
      sanitized_headers = clean;
    })

abbrev pub count_request : Response → Broker → Result Headers → Result BrokerResult × Broker
count_request r b (err code) = (err code, b)
count_request r b (ok clean) =
    (answer r clean (validate_broker_response 200 r.bytes), record b { requests = b.requests + 1 })

unfoldable pub handle_request :
    Response → Broker → String → String → Headers → ℕ → Result BrokerResult × Broker
handle_request r b method path headers body_bytes =
    if not (b.connections == 1)
    then (err "sealed broker requires its single connection", b)
    else if not (b.requests == 0)
    then (err "sealed broker rejects a second request", b)
    else count_request r b (validate_broker_request method path headers body_bytes)

pub record Relay : Type 0 where
  pub broker : Broker
  pub connections : ℕ
  pub requests : ℕ

pub record RelayResult : Type 0 where
  pub status_code : ℕ
  pub response_bytes : ℕ
  pub response_hash : String
  pub request_bytes : ℕ
  pub sensitive_headers_removed : Bool

unfoldable pub relay_accept : Relay → Result (Unit {0}) × Relay
relay_accept r =
    if not (r.connections == 0)
    then (err "sealed relay rejects a second connection", r)
    else let (outcome, b) = accept_connection r.broker in
      (outcome, record r { broker = b; connections = r.connections + 1 })

-- The relay's own set of names, apart from the one that the headers are cleaned by.
abbrev sensitive_names : List String
sensitive_names = "authorization" ∷ "cookie" ∷ "proxy-authorization" ∷ []

unfoldable pub is_sensitive : String → Bool
is_sensitive name =
    any (λ s. same_codes (casefold (codes name)) (codes s)) sensitive_names
    || starts_with (casefold (codes name)) (codes "proxy-")

-- What follows the broker's answer.
abbrev pub relayed : Relay → Headers → ℕ → Result BrokerResult × Broker → Result RelayResult × Relay
relayed r clean body_bytes (err code, b) = (err code, record r { broker = b })
relayed r clean body_bytes (ok result, b) = (
  ok (record {
    status_code = result.status_code;
    response_bytes = result.response_bytes;
    response_hash = result.response_hash;
    request_bytes = body_bytes;
    sensitive_headers_removed = all (λ h. not (is_sensitive h.0)) clean;
  }),
  record r { broker = b; requests = r.requests + 1 },
)

abbrev pub forward_clean :
    Response → Relay → String → String → ℕ → Result Headers → Result RelayResult × Relay
forward_clean p r method path body_bytes (err code) = (err code, r)
forward_clean p r method path body_bytes (ok clean) =
    relayed r clean body_bytes (handle_request p r.broker method path clean body_bytes)

unfoldable pub forward :
    Response → Relay → String → String → Headers → ℕ → Result RelayResult × Relay
forward p r method path headers body_bytes =
    if not (r.connections == 1)
    then (err "sealed relay requires its single connection", r)
    else if not (r.requests == 0)
    then (err "sealed relay rejects a second request", r)
    else forward_clean p r method path body_bytes (sanitize_broker_headers headers)

-- The calls on a relay, in any order.
pub data Call : Type 0 where
  accept : Call
  request : String → String → Headers → ℕ → Call

unfoldable pub step : Response → Call → Relay → Relay
step p accept r = (relay_accept r).1
step p (request method path headers body_bytes) r = (forward p r method path headers body_bytes).1

unfoldable pub run : Response → List Call → Relay → Relay
run p [] r = r
run p (call ∷ calls) r = run p calls (step p call r)
