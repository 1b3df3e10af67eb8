-- ===== src/Egress/Single.antt =====
-- The counters of the relay and its broker (app/egress_relay.py, app/egress_broker.py).
use codex_gate.Prelude.{ℕ, ◌≡◌, ◌≤◌, String, List, [], ◌∷◌, arith, Bool-cases, inl, inr, ◌==◌}
use codex_gate.Prelude.{ok, err}
use codex_gate.Egress.Contract.{Headers}
use codex_gate.Egress.Broker.{
  Response, Relay, RelayResult, accept_connection, handle_request, relay_accept, forward, Call,
  accept, request, step, run,
}

-- The relay has counted no more requests than the broker, the broker none without its connection, the
-- two agree on their connections, and there is one connection at most.
pub record IsOneShot (r : Relay) : Type 0 where
  pub counted : r.requests ≤ r.broker.requests
  pub connected : r.broker.requests ≤ r.broker.connections
  pub agree : r.connections ≡ r.broker.connections
  pub single : r.connections ≤ 1

relay_accept-IsOneShot : (r : Relay) → IsOneShot r → IsOneShot ((relay_accept r).1)
unfolding relay_accept accept_connection
relay_accept-IsOneShot r k =
    let counted = k.counted in
    let connected = k.connected in
    let agree = k.agree in
    let single = k.single in
    record {
      counted = ground arith;
      connected = ground arith;
      agree = ground arith;
      single = ground arith;
    }

forward-IsOneShot :
    (p : Response) (r : Relay) (method path : String) (headers : Headers) (body_bytes : ℕ)
    → IsOneShot r
    → IsOneShot ((forward p r method path headers body_bytes).1)
unfolding forward handle_request
forward-IsOneShot p r method path headers body_bytes k =
    let counted = k.counted in
    let connected = k.connected in
    let agree = k.agree in
    let single = k.single in
    record {
      counted = ground arith;
      connected = ground arith;
      agree = ground arith;
      single = ground arith;
    }

-- If the counters of a relay and its broker are one-shot, then they are so after any calls: at most one
-- connection, on which both agree, and at most one request, of which the relay counts no more than
-- the broker.
pub run-IsOneShot :
    (p : Response) (calls : List Call) (r : Relay) → IsOneShot r → IsOneShot (run p calls r)
unfolding run step
run-IsOneShot p [] r k = k
run-IsOneShot p (accept ∷ calls) r k = run-IsOneShot p calls _ (relay_accept-IsOneShot r k)
run-IsOneShot p (request method path headers body_bytes ∷ calls) r k =
    run-IsOneShot p calls _ (forward-IsOneShot p r method path headers body_bytes k)

step-served :
    (p : Response) (call : Call) (r : Relay) → 1 ≤ r.requests → 1 ≤ (step p call r).requests
unfolding step forward relay_accept
step-served p accept r k = ground arith
step-served p (request method path headers body_bytes) r k = ground arith

run-served :
    (p : Response) (calls : List Call) (r : Relay) → 1 ≤ r.requests → 1 ≤ (run p calls r).requests
unfolding run
run-served p [] r k = k
run-served p (call ∷ calls) r k = run-served p calls (step p call r) (step-served p call r k)

forward-served :
    (p : Response) (r r' : Relay) (method path : String) (headers : Headers) (body_bytes : ℕ)
    (result : RelayResult)
    → forward p r method path headers body_bytes ≡ (ok result, r')
    → 1 ≤ r'.requests
unfolding forward handle_request
forward-served p r r' method path headers body_bytes result e = ground arith

forward-refused :
    (p : Response) (r : Relay) (method path : String) (headers : Headers) (body_bytes : ℕ)
    → 1 ≤ r.requests
    → (code : String) × (forward p r method path headers body_bytes ≡ (err code, r))
unfolding forward
forward-refused p r method path headers body_bytes k = elim (Bool-cases (r.connections == 1)) [
  | inl connected ↦ ("sealed relay rejects a second request", ground arith)
  | inr unconnected ↦ ("sealed relay requires its single connection", ground arith)
]

-- After a request that the relay answered, and after any calls that follow it, every request is
-- refused, and the relay and its broker stay as they are.
pub forward-once :
    (p : Response) (r r' : Relay) (method path : String) (headers : Headers) (body_bytes : ℕ)
    (result : RelayResult)
    → forward p r method path headers body_bytes ≡ (ok result, r')
    → (calls : List Call) (method' path' : String) (headers' : Headers) (body_bytes' : ℕ)
    → (code : String) × (forward p (run p calls r') method' path' headers' body_bytes'
        ≡ (err code, run p calls r'))
forward-once p r r' method path headers body_bytes result e calls method' path' headers'
      body_bytes' =
    forward-refused p (run p calls r') method' path' headers' body_bytes'
      (run-served p calls r' (forward-served p r r' method path headers body_bytes result e))
