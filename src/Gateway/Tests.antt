-- ===== src/Gateway/Tests.antt =====
-- A run with an approval, the steps of the event loop on it, and the theorems at concrete sessions.
use codex_gate.Prelude.{
  ◌↔◌, ok, same_codes, ◌≡◌, refl, suc, String, true, false, Option, none, some, List, [], ◌∷◌, map,
  contains_codes, casefold, err,
}
use codex_gate.Canary.Rows.{update_where}
use codex_gate.Json.Values.{boolean, Value, get, is_permission_subset}
use codex_gate.Json.Paths.{at, WithinFound}
use codex_gate.Json.Forbidden.{find_forbidden_root_reference, find_reference, find_in_text}
use codex_gate.Json.Tests.{asked, some_of_it}
use codex_gate.Gateway.Start.{Plan, Entry, validate_route_plan, account_worsened, severity}
use codex_gate.Gateway.Start.Runnable.{IsRunnable, validate_route_plan_iff}
use codex_gate.Gateway.Run.{
  permissions, Approval, pending, resolved, responding, cancelled, Run, Answer, grant,
  can_interrupt, is_pending,
}
use codex_gate.Gateway.Action.{
  Action, Session, Effect, interrupt_turn, respond, save_task, record_ledger_run, ◌>>=◌, ◌>>◌, done,
  pure, raise, modify, note, call, catch, attempt, append_event, trim, drop, publish, persist,
  mark_interrupting, when, interrupt,
}
use codex_gate.Gateway.Action
use codex_gate.Gateway.Budget.{
  Env, Item, enforce, limit_reached, forbidden_reference_reason, handle_item, item_payload,
  json_changes, count_item, change_item, finish_item, add_failure,
}
use codex_gate.Gateway.Approvals.{
  on_approvals, approval_result, check_answer, start_answer, end_answer, begin_answer,
  answer_failed, resolve_approval, settle, disconnect_run, handle_disconnect, or_empty,
}
use codex_gate.Gateway.Events.{Event, item_completed, handle_event, dispatch, set_actual_model}
use codex_gate.Gateway.Events.Budgeted.{run_events}
use codex_gate.Gateway.Steps.{Step, answer, sent, failed, disconnect, step, run_steps}
use codex_gate.Gateway.Steps.Settled.{IsHeld, count_responses}
use codex_gate.Gateway.Steps.Answered.{sent-once}
use codex_gate.Gateway.Steps.Closed.{IsEnded, handle_disconnect-IsEnded}
use codex_gate.Gateway.Steps.Resolve.{begin_answer-within, resolve_approval-outcomes}

abbrev waiting : Approval
waiting = record {
  request_id = "7";
  kind = permissions;
  thread_id = "thread";
  turn_id = "turn";
  item_id = none;
  command = none;
  cwd = none;
  paths = [];
  reason = none;
  permissions = asked;
  available_decisions = "accept" ∷ "decline" ∷ [];
  status = pending;
  answering = none;
}

abbrev run : Run
run = record {
  id = "run";
  project_id = "project";
  root = "/work";
  task = "read";
  model = "m";
  effort = "low";
  permission = "read-only";
  budget_level = "small";
  budget = record { tokens = 100; tools = 5; changed_files = 0 };
  allowed_files = [];
  forbidden_files = [];
  status = "running";
  thread_id = some "thread";
  turn_id = some "turn";
  tokens = 10;
  tool_calls = 0;
  changed_files = [];
  failed_commands = 0;
  failed_tests = 0;
  stop_reason = none;
  events = [];
  approvals = waiting ∷ [];
  initial_git_paths = [];
  route_plan_id = none;
  codex_context_bytes = 0;
  actual_model = "m";
  reroute_reason = none;
  token_warning_emitted = false;
  reroutes = 0;
  compactions = 0;
}

abbrev env : Env
env = record { roots = []; allowed = λ r path. false; decisions = λ kind. "accept" ∷ [] }

abbrev start : Session
start = record { run = run; outcomes = []; log = [] }

abbrev test_item : Item
test_item = record {
  type = "commandExecution";
  status = some "failed";
  command = some "pytest -q";
  cwd = none;
  path = none;
  tool = none;
  changes = [];
}

abbrev two_failures : List (Option String × Event)
two_failures = (none, item_completed test_item) ∷ (none, item_completed test_item) ∷ []

-- The second failed test stops the run.
tests_stop : (run_events env two_failures start).run.status ≡ "interrupting"
unfolding run_events handle_event dispatch handle_item count_item change_item finish_item enforce
    limit_reached forbidden_reference_reason find_forbidden_root_reference find_reference
    item_payload json_changes add_failure set_actual_model ◌>>=◌ ◌>>◌ Action.get modify note call
    catch publish persist when done interrupt mark_interrupting can_interrupt trim drop find_in_text
    contains_codes casefold
tests_stop = refl

abbrev crossing : List Step
crossing = answer "7" "accept" none ∷ disconnect "eof" ∷ failed "7" ∷ []

-- A disconnect between the two halves of an answer: the approval is pending again.
crossing_pending : map (λ a. a.status) (run_steps env crossing start).run.approvals ≡ pending ∷ []
unfolding run_steps step begin_answer check_answer approval_result start_answer end_answer settle
    disconnect_run answer_failed on_approvals is_permission_subset get ◌>>=◌ ◌>>◌ Action.get modify
    pure note call catch publish persist when done trim drop update_where
crossing_pending = refl

abbrev half_granted : Answer
half_granted = record { decision = "accept"; response = grant some_of_it "turn" }

abbrev being_sent : Approval
being_sent = record waiting { status = responding; answering = some half_granted }

abbrev sending : Session
sending = record start { run = record run { approvals = being_sent ∷ [] } }

sent-once_example :
    IsHeld "7"
      (end_answer resolved being_sent)
      (suc (count_responses "7" sending.log))
      (run_steps env (sent "7" ∷ crossing) sending)
    × ((decision : String) (granted : Option Value)
        → begin_answer "7" decision granted (run_steps env (sent "7" ∷ crossing) sending)
          ≡ (err "이미 처리되었거나 존재하지 않는 승인 요청입니다.", run_steps env (sent "7" ∷ crossing) sending))
sent-once_example = sent-once env "7" being_sent half_granted sending crossing refl refl

begin_answer-within_example :
    (is_pending waiting.status ≡ true)
    × WithinFound (boolean false) (at ("network" ∷ "enabled" ∷ []) (or_empty waiting.permissions))
unfolding begin_answer check_answer approval_result is_permission_subset get ◌>>=◌ ◌>>◌ Action.get
    modify pure publish at
begin_answer-within_example =
    begin_answer-within "7" "accept" (some some_of_it) start waiting some_of_it "turn"
      ("network" ∷ "enabled" ∷ []) (boolean false) refl refl refl

resolve_approval-outcomes_example :
    IsHeld "7"
      (record waiting { status = resolved })
      1
      (resolve_approval "7" "accept"
        (some some_of_it)
        (record { run = run; outcomes = true ∷ false ∷ []; log = [] })).1
    × ((resolve_approval "7" "accept"
          (some some_of_it)
          (record { run = run; outcomes = false ∷ false ∷ []; log = [] })).0
        ≡ err "call failed")
    × IsHeld "7" waiting 0
        (resolve_approval "7" "accept"
          (some some_of_it)
          (record { run = run; outcomes = false ∷ false ∷ []; log = [] })).1
unfolding check_answer approval_result is_permission_subset get count_responses
resolve_approval-outcomes_example =
    resolve_approval-outcomes "7" "accept" (some some_of_it) (grant some_of_it "turn") waiting run
      (false ∷ []) [] refl refl refl

abbrev second_run : Run
second_run = record run { id = "second"; approvals = being_sent ∷ [] }

-- The store fails on the first run: the approval of the second one stays open.
disconnect_stops :
    map
      (λ r. map (λ a. a.status) r.approvals)
      (handle_disconnect "eof" (run ∷ second_run ∷ []) (false ∷ []) []).runs
    ≡ (cancelled ∷ []) ∷ (responding ∷ []) ∷ []
unfolding handle_disconnect disconnect_run settle on_approvals get ◌>>=◌ ◌>>◌ Action.get modify call
    catch publish persist when done trim drop update_where
disconnect_stops = refl

handle_disconnect-IsEnded_example :
    IsEnded
      (handle_disconnect "eof" (run ∷ second_run ∷ []) (false ∷ []) []).result
      (run ∷ second_run ∷ [])
      (handle_disconnect "eof" (run ∷ second_run ∷ []) (false ∷ []) []).runs
    × ((handle_disconnect "eof" (run ∷ second_run ∷ []) [] []).result ≡ ok tt)
handle_disconnect-IsEnded_example =
    handle_disconnect-IsEnded "eof" (run ∷ second_run ∷ []) (false ∷ []) []

abbrev stored : Plan
stored = record {
  status = "PREVIEW";
  final = some ("m", "low");
  used = false;
  expires_at = some 10;
  permission = "read-only";
  root = "/work";
  task = some "read";
  task_hash = "read";
  account_state = "NORMAL";
}

abbrev catalog : List Entry
catalog = record { id = "m"; status = "AVAILABLE" } ∷ []

-- The account has become CONSERVE since the preview.
worse_account :
    validate_route_plan (λ s. s) "/work" "CONSERVE" catalog 5 stored
    ≡ err "Route Plan account state worsened: NORMAL -> CONSERVE"
unfolding validate_route_plan account_worsened severity
worse_account = refl

stored_accepted : validate_route_plan (λ s. s) "/work" "NORMAL" catalog 5 stored ≡ ok stored
unfolding validate_route_plan account_worsened severity same_codes casefold
stored_accepted = refl

validate_route_plan_iff_example :
    (validate_route_plan (λ s. s) "/work" "NORMAL" catalog 5 stored ≡ ok stored)
    ↔ IsRunnable (λ s. s) "/work" "NORMAL" catalog 5 stored
validate_route_plan_iff_example = validate_route_plan_iff (λ s. s) "/work" "NORMAL" catalog 5 stored
