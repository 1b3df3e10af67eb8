-- ===== src/Gateway/Steps.antt =====
-- The turns that the event loop gives to the gate (app/gateway.py), on one run. resolve_approval awaits the
-- app server in the middle: its two halves are steps, and others may come between them.
pub mod Settled
pub mod Once
pub mod Answered
pub mod Resolve
pub mod Closed
use codex_gate.Prelude.{
  String, Bool, true, false, not, Option, none, some, List, [], ◌∷◌, find, is_some, if◌then◌else◌,
}
use codex_gate.Json.Values.{Value}
use codex_gate.Gateway.Run.{Kind, Answer, Approval, Run, is_pending}
use codex_gate.Gateway.Action.{
  Action, Session, respond, ◌>>=◌, ◌>>◌, done, get, note, interrupt, pure, when,
}
use codex_gate.Gateway.Budget.{Env}
use codex_gate.Gateway.Approvals.{
  of_key, begin_answer, answer_sent, answer_failed, Request, handle_server_request, disconnect_run,
}
use codex_gate.Gateway.Events.{Event, handle_event}

pub data Step : Type 0 where
  answer : String → String → Option Value → Step
  sent : String → Step
  failed : String → Step
  expire : String → Step
  request : Request → Step
  event : Option String → Event → Step
  disconnect : String → Step
  stop : String → Step

-- A task that waits for approval.lock does nothing yet.
abbrev pub is_free : Option Approval → Bool
is_free none = true
is_free (some a) = not (is_some a.answering)

abbrev pub begin_when : Bool → String → String → Option Value → Action (Unit {0})
begin_when free key decision granted = when free (begin_answer key decision granted >>= λ _. done)

abbrev pub sent_for : String → Kind → Option Answer → Action (Unit {0})
sent_for key kind none = done
sent_for key kind (some sending) = do
  note (respond key sending.response)
  answer_sent key kind sending.decision

-- The response that is being sent has arrived.
abbrev pub sent_found : String → Option Approval → Action (Unit {0})
sent_found key none = done
sent_found key (some a) = sent_for key a.kind a.answering

-- The response that is being sent has failed.
abbrev pub failed_found : String → Option Approval → Action (Unit {0})
failed_found key none = done
failed_found key (some a) = when (is_some a.answering) (answer_failed key)

abbrev pub expire_found : String → Option Approval → Action (Unit {0})
expire_found key none = done
expire_found key (some a) =
    when (is_pending a.status) (begin_when (is_free (some a)) key "cancel" none)

abbrev pub step_sent : String → Action (Unit {0})
step_sent key = do r ← get; sent_found key (find (of_key key) r.approvals)

abbrev pub step_failed : String → Action (Unit {0})
step_failed key = do r ← get; failed_found key (find (of_key key) r.approvals)

unfoldable pub step : Env → Step → Action (Unit {0})
step env (answer key decision granted) = do
  r ← get
  begin_when (is_free (find (of_key key) r.approvals)) key decision granted
step env (sent key) = step_sent key
step env (failed key) = step_failed key
step env (expire key) = do r ← get; expire_found key (find (of_key key) r.approvals)
step env (request q) = handle_server_request env q
step env (event model e) = handle_event env model e
step env (disconnect reason) = disconnect_run reason
step env (stop reason) = interrupt reason

unfoldable pub run_steps : Env → List Step → Session → Session
run_steps env [] s = s
run_steps env (x ∷ xs) s = run_steps env xs (step env x s).1
