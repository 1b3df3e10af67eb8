-- ===== src/Gateway/Approvals.antt =====
-- The approval requests of the app server and the answers to them (app/gateway.py).
use codex_gate.Prelude.{
  String, Bool, true, false, ◌&&◌, ◌||◌, not, Option, none, some, List, [], ◌∷◌, ◌++◌, any, find,
  str_eq, ◌==◌, if◌then◌else◌, Result, ok, err,
}
use Prim.Native.String.{◌++◌ as join}
use codex_gate.Canary.Rows.{update_where}
use codex_gate.Json.Values.{
  Value, null, boolean, number, text, array, object, Items, nil, cons, end, field,
  is_permission_subset,
}
use codex_gate.Gateway.Run.{
  Kind, command, file_change, permissions, ApprovalStatus, pending, responding, resolved, cancelled,
  Response, decide, grant, grant_nothing, Answer, Approval, Run, is_pending, is_open,
}
use codex_gate.Gateway.Action.{
  Effect, Session, Action, respond, ◌>>=◌, ◌>>◌, done, pure, raise, get, modify, call, attempt,
  reraise, finally, when, publish, persist, interrupt,
}
use codex_gate.Gateway.Budget.{
  Env, Change, forbidden_reference_reason, json_text, json_changes, add_text,
}

abbrev pub of_key : String → Approval → Bool
of_key k a = str_eq a.request_id k

unfoldable pub on_approvals : (List Approval → List Approval) → Run → Run
on_approvals f r = record r { approvals = f r.approvals }

-- `bool(v)`.
abbrev is_truthy : Value → Bool
is_truthy null = false
is_truthy (boolean b) = b
is_truthy (number n) = not (n == 0)
is_truthy (text s) = not (str_eq s "")
is_truthy (array nil) = false
is_truthy (array _) = true
is_truthy (object end) = false
is_truthy (object _) = true

-- `approval.permissions or {}`.
abbrev pub or_empty : Value → Value
or_empty v = if is_truthy v then v else object end

abbrev pub is_object : Value → Bool
is_object (object fs) = true
is_object _ = false

abbrev pub given : Value → Option Value → Value
given requested none = requested
given requested (some v) = v

unfoldable pub approval_result : Approval → String → Option Value → Result Response
approval_result a decision granted = elim a.kind [
  | permissions ↦
      if str_eq decision "decline" || str_eq decision "cancel"
      then ok grant_nothing
      else if is_object (given a.permissions granted)
          && is_permission_subset (given a.permissions granted) (or_empty a.permissions)
      then ok (
          grant (given a.permissions granted)
            (if str_eq decision "acceptForSession" then "session" else "turn"))
      else err "요청된 권한 범위를 벗어난 권한은 승인할 수 없습니다."
  | _ ↦ ok (decide decision)
]

abbrev is_decision : String → Bool
is_decision d =
    str_eq d "accept" || str_eq d "acceptForSession" || str_eq d "decline" || str_eq d "cancel"

unfoldable pub start_answer : Answer → Approval → Approval
start_answer answer a = record a { status = responding; answering = some answer }

unfoldable pub end_answer : ApprovalStatus → Approval → Approval
end_answer status a = record a { status = status; answering = none }

-- The checks under the lock, up to the response.
unfoldable pub check_answer : Approval → String → Option Value → Result Response
check_answer a decision granted =
    if not (is_pending a.status)
    then err "이미 처리되었거나 존재하지 않는 승인 요청입니다."
    else if not (is_decision decision)
    then err "지원하지 않는 승인 응답입니다."
    else if not (any (str_eq decision) a.available_decisions)
    then err "app-server가 허용하지 않은 승인 응답입니다."
    else approval_result a decision granted

abbrev pub kind_text : Kind → String
kind_text command = "command"
kind_text file_change = "fileChange"
kind_text permissions = "permissions"

-- f"{kind} / {decision}".
abbrev pub answer_text : Kind → String → String
answer_text kind decision = join (kind_text kind) (join " / " decision)

abbrev pub start_with : String → Kind → String → Result Response → Action Response
start_with key kind decision (err e) = raise e
start_with key kind decision (ok response) = do
  modify (
      on_approvals (
        update_where (of_key key)
          (start_answer (record { decision = decision; response = response }))))
  publish (join "승인 응답 전송 중: " (answer_text kind decision))
  pure response

abbrev pub begin_found : String → String → Option Value → Option Approval → Action Response
begin_found key decision granted none = raise "이미 처리되었거나 존재하지 않는 승인 요청입니다."
begin_found key decision granted (some a) =
    start_with key a.kind decision (check_answer a decision granted)

-- resolve_approval up to the await of the response, from where approval.lock is free.
unfoldable pub begin_answer : String → String → Option Value → Action Response
begin_answer key decision granted = do
  r ← get
  begin_found key decision granted (find (of_key key) r.approvals)

abbrev pub is_permissions : Kind → Bool
is_permissions permissions = true
is_permissions _ = false

-- What follows when the app server took the response.
unfoldable pub answer_sent : String → Kind → String → Action (Unit {0})
answer_sent key kind decision = do
  modify (on_approvals (update_where (of_key key) (end_answer resolved)))
  when (is_permissions kind && str_eq decision "cancel") (interrupt "permissions 승인 취소")
  publish (join "승인 응답 완료: " (answer_text kind decision))
  persist

-- `except Exception`, up to the raise.
unfoldable pub answer_failed : String → Action (Unit {0})
answer_failed key = do
  modify (on_approvals (update_where (of_key key) (end_answer pending)))
  publish "승인 응답 전송 실패: 다시 시도하거나 작업을 중단하세요."
  persist

abbrev pub finish_answer : String → Kind → String → Result (Unit {0}) → Action (Unit {0})
finish_answer key kind decision (ok u) = answer_sent key kind decision
finish_answer key kind decision (err e) = answer_failed key >> raise e

abbrev pub kind_of : String → Run → Kind
kind_of key r = elim (find (of_key key) r.approvals) [ none ↦ command | some a ↦ a.kind ]

-- The whole call, with nothing else between its two halves.
unfoldable pub resolve_approval : String → String → Option Value → Action (Unit {0})
resolve_approval key decision granted = do
  response ← begin_answer key decision granted
  r ← get
  sent ← attempt (call (respond key response))
  finish_answer key (kind_of key r) decision sent

-- _expire_approval behind its sleep.
unfoldable pub expire_approval : String → Action (Unit {0})
expire_approval key = do
  r ← get
  elim (find (of_key key) r.approvals) [
    | none ↦ done
    | some a ↦ when (is_pending a.status) (resolve_approval key "cancel" none)
  ]

unfoldable pub rejection_result : Kind → Response
rejection_result permissions = grant_nothing
rejection_result _ = decide "cancel"

-- What an approval request carries. A value of the wrong type in availableDecisions is `none`.
pub record Request : Type 0 where
  pub request_id : String
  pub kind : Kind
  pub thread_id : String
  pub turn_id : String
  pub item_id : Option String
  pub command : Option String
  pub cwd : Option String
  pub grant_root : Option String
  pub reason : Option String
  pub permissions : Value
  pub command_actions : List Change
  pub changes : List Change
  pub available_decisions : Option (List String)

-- `list(dict.fromkeys(paths))`, of the paths in their order.
unfoldable pub add_paths : List Change → List String → List String
add_paths [] paths = paths
add_paths (c ∷ cs) paths = elim c.path [
  | none ↦ add_paths cs paths
  | some p ↦ add_paths cs (add_text p paths)
]

abbrev root_path : Option String → List String
root_path none = []
root_path (some p) = p ∷ []

unfoldable pub approval_paths : Request → List String
approval_paths q = add_paths q.changes (add_paths q.command_actions (root_path q.grant_root))

abbrev json_texts : List String → Items
json_texts [] = nil
json_texts (s ∷ ss) = cons (text s) (json_texts ss)

unfoldable pub request_payload : Request → Value
request_payload q = object (
    field "command" (json_text q.command) (
      field "cwd" (json_text q.cwd) (
        field "paths" (array (json_texts (approval_paths q))) (
          field "permissions" q.permissions (
            field "changes" (array (json_changes q.changes))
              (field "commandActions" (array (json_changes q.command_actions)) end))))))

abbrev listed : Env → Request → List String
listed env q = elim q.available_decisions [ none ↦ env.decisions q.kind | some ds ↦ ds ]

unfoldable pub new_approval : Env → Request → Approval
new_approval env q = record {
  request_id = q.request_id;
  kind = q.kind;
  thread_id = q.thread_id;
  turn_id = q.turn_id;
  item_id = q.item_id;
  command = q.command;
  cwd = q.cwd;
  paths = approval_paths q;
  reason = q.reason;
  permissions = q.permissions;
  available_decisions = listed env q;
  status = pending;
  answering = none;
}

unfoldable pub reject_forbidden_request : String → Kind → String → Action (Unit {0})
reject_forbidden_request key kind reason = do
  modify (λ r. record r { stop_reason = some reason })
  publish reason
  persist
  answer ← attempt (call (respond key (rejection_result kind)))
  finally (interrupt reason) persist
  reraise answer

abbrev pub admit : Env → Request → Option String → Action (Unit {0})
admit env q (some reason) = reject_forbidden_request q.request_id q.kind reason
admit env q none = do
  modify (on_approvals (λ as'. as' ++ new_approval env q ∷ []))
  publish (join "승인 대기: " (kind_text q.kind))
  persist

-- The request of a thread that has a run.
unfoldable pub handle_server_request : Env → Request → Action (Unit {0})
handle_server_request env q = do
  r ← get
  when (not (any (of_key q.request_id) r.approvals))
      (admit env q (forbidden_reference_reason env (request_payload q)))

unfoldable pub settle : ApprovalStatus → List Approval → List Approval
settle status as' = update_where (λ a. is_open a.status) (λ a. record a { status = status }) as'

unfoldable pub clear_pending_approvals : Action (Unit {0})
clear_pending_approvals = modify (on_approvals (settle resolved))

-- The disconnect of the client, on one run.
unfoldable pub disconnect_run : String → Action (Unit {0})
disconnect_run reason = do
  r ← get
  when (any (λ a. is_open a.status) r.approvals) (do
    modify (on_approvals (settle cancelled))
    publish (join "app-server 연결 종료: " reason)
    persist)

-- Where the loop over the runs ends: its result, the runs, the outcomes that are left, and the log.
pub record Ending : Type 0 where
  pub result : Result (Unit {0})
  pub runs : List Run
  pub outcomes : List Bool
  pub log : List Effect

-- An exception ends the loop, and the runs behind it stay as they were.
abbrev pub after_run : Result (Unit {0}) → Session → List Run → Ending → Ending
after_run (ok u) s rs rest = record rest { runs = s.run ∷ rest.runs }
after_run (err e) s rs rest = record {
  result = err e;
  runs = s.run ∷ rs;
  outcomes = s.outcomes;
  log = s.log;
}

-- `for run in self.runs.values()`.
unfoldable pub handle_disconnect : String → List Run → List Bool → List Effect → Ending
handle_disconnect reason [] outcomes log = record {
  result = ok tt;
  runs = [];
  outcomes = outcomes;
  log = log;
}
handle_disconnect reason (r ∷ rs) outcomes log =
    let (result, s) = disconnect_run reason (record { run = r; outcomes = outcomes; log = log }) in
    let rest = handle_disconnect reason rs s.outcomes s.log in after_run result s rs rest

abbrev pub open_key : String → Approval → Bool
open_key k a = of_key k a && is_open a.status

unfoldable pub resolve_server_request : Option String → Action (Unit {0})
resolve_server_request none = done
resolve_server_request (some key) =
    modify (on_approvals (update_where (open_key key) (λ a. record a { status = resolved })))
