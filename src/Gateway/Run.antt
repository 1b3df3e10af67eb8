-- ===== src/Gateway/Run.antt =====
-- Run and Approval (app/gateway.py). Subscribers and timers are left out: they are no part of what the
-- handlers decide. A dict with the approvals' keys is the list of its values, a set the list of its
-- elements, each once.
use codex_gate.Prelude.{ℕ, String, Bool, true, false, ◌||◌, Option, List, str_eq, is_some, ◌&&◌}
use codex_gate.Json.Values.{Value}

pub record Budget : Type 0 where
  pub tokens : ℕ
  pub tools : ℕ
  pub changed_files : ℕ

-- The values of APPROVAL_METHODS.
pub data Kind : Type 0 where
  command file_change permissions : Kind

pub data ApprovalStatus : Type 0 where
  pending responding resolved cancelled : ApprovalStatus

-- The result of _approval_result and of _rejection_result.
pub data Response : Type 0 where
  decide : String → Response
  grant : Value → String → Response
  grant_nothing : Response

-- The decision whose response is being sent, with the response.
pub record Answer : Type 0 where
  pub decision : String
  pub response : Response

-- `request_id` is `str(request_id)`, the key. `answering` is what is being sent while approval.lock is held.
-- `permissions` is null where the request has none.
pub record Approval : Type 0 where
  pub request_id : String
  pub kind : Kind
  pub thread_id : String
  pub turn_id : String
  pub item_id : Option String
  pub command : Option String
  pub cwd : Option String
  pub paths : List String
  pub reason : Option String
  pub permissions : Value
  pub available_decisions : List String
  pub status : ApprovalStatus
  pub answering : Option Answer

pub record Run : Type 0 where
  pub id : String
  pub project_id : String
  pub root : String
  pub task : String
  pub model : String
  pub effort : String
  pub permission : String
  pub budget_level : String
  pub budget : Budget
  pub allowed_files : List String
  pub forbidden_files : List String
  pub status : String
  pub thread_id : Option String
  pub turn_id : Option String
  pub tokens : ℕ
  pub tool_calls : ℕ
  pub changed_files : List String
  pub failed_commands : ℕ
  pub failed_tests : ℕ
  pub stop_reason : Option String
  pub events : List String
  pub approvals : List Approval
  pub initial_git_paths : List String
  pub route_plan_id : Option String
  pub codex_context_bytes : ℕ
  pub actual_model : String
  pub reroute_reason : Option String
  pub token_warning_emitted : Bool
  pub reroutes : ℕ
  pub compactions : ℕ

abbrev pub is_pending : ApprovalStatus → Bool
is_pending pending = true
is_pending _ = false

-- `approval.status in {"pending", "responding"}`.
abbrev pub is_open : ApprovalStatus → Bool
is_open pending = true
is_open responding = true
is_open _ = false

-- `run.status in {"running", "starting", "interrupting"} and run.thread_id and run.turn_id`.
abbrev pub is_working : String → Bool
is_working s = str_eq s "running" || str_eq s "starting"

unfoldable pub can_interrupt : Run → Bool
can_interrupt r =
    (is_working r.status || str_eq r.status "interrupting")
    && is_some r.thread_id
    && is_some r.turn_id
