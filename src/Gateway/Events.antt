-- ===== src/Gateway/Events.antt =====
-- handle_event (app/gateway.py), from where the run of the thread is found; the messages without a run,
-- and the update of the rate limits, leave the runs alone. `git_paths` is what collect_git_paths reads.
pub mod Budgeted
pub mod Frames
use Prim.Native.String.{◌++◌ as join}
use codex_gate.Prelude.{
  ℕ, ◌+◌, String, Bool, true, false, ◌&&◌, ◌||◌, not, Option, none, some, List, [], ◌∷◌, any, keep,
  str_eq, is_some, if◌then◌else◌, Result, ok, err,
}
use codex_gate.Json.Values.{text}
use codex_gate.Gateway.Run.{Run}
use codex_gate.Gateway.Action.{
  Action, unsubscribe, write_artifact, use_plan, ◌>>=◌, ◌>>◌, done, get, modify, note, call,
  attempt, catch, when, publish, persist, interrupt,
}
use codex_gate.Gateway.Budget.{
  Env, Change, Item, forbidden_reference_reason, handle_changes, handle_item, enforce,
}
use codex_gate.Gateway.Approvals.{clear_pending_approvals, resolve_server_request}

-- `status` defaults to "completed"; `error` is the error's message, with its default.
pub record TurnEnd : Type 0 where
  pub status : String
  pub error : Option String

pub data Event : Type 0 where
  rerouted : Option String → Option String → Event
  compacted : Event
  request_resolved : Option String → Event
  token_usage : ℕ → Event
  item_started : Item → Event
  item_completed : Item → Event
  patch_updated : List Change → Event
  turn_completed : TurnEnd → List String → Event
  other : String → Event

-- A text that is there and not empty replaces the old one.
abbrev or_keep : Option String → String → String
or_keep none old = old
or_keep (some String.[]) old = old
or_keep (some s) old = s

abbrev or_keep_option : Option String → Option String → Option String
or_keep_option none old = old
or_keep_option (some String.[]) old = old
or_keep_option (some s) old = some s

unfoldable pub set_actual_model : Option String → Run → Run
set_actual_model model r = record r { actual_model = or_keep model r.actual_model }

unfoldable pub reroute : Option String → Option String → Run → Run
reroute model reason r = record r {
  actual_model = or_keep model r.actual_model;
  reroute_reason = or_keep_option reason r.reroute_reason;
  reroutes = r.reroutes + 1;
}

unfoldable pub fail_with : String → Run → Run
fail_with reason r = record r { status = "failed"; stop_reason = some reason }

abbrev pub fail_blocked : String → Action (Unit {0})
fail_blocked reason = do modify (fail_with reason); publish reason

abbrev pub recheck_path : Env → String → Option String → Action (Unit {0}) → Action (Unit {0})
recheck_path env p (some reason) rest = fail_blocked reason
recheck_path env p none rest = do
  r ← get
  if env.allowed r p then rest else modify (fail_with (join "종료 후 Git 상태에서 범위 밖 변경 감지: " p))

-- The loop of _recheck_git_paths over the paths that are new.
unfoldable pub recheck_paths : Env → List String → Action (Unit {0})
recheck_paths env [] = done
recheck_paths env (p ∷ ps) =
    recheck_path env p (forbidden_reference_reason env (text p)) (recheck_paths env ps)

unfoldable pub recheck_git_paths : Env → List String → Action (Unit {0})
recheck_git_paths env git_paths = do
  r ← get
  recheck_paths env (keep (λ p. not (any (str_eq p) r.initial_git_paths)) git_paths)

unfoldable pub unsubscribe_read_only_thread : Action (Unit {0})
unsubscribe_read_only_thread = do
  r ← get
  when (str_eq r.permission "read-only" && is_some r.thread_id)
      (catch (call (unsubscribe r.thread_id)) (publish "Read Only unsubscribe warning"))

unfoldable pub end_turn : TurnEnd → Run → Run
end_turn turn r = record r {
  status = turn.status;
  stop_reason = elim turn.error [ none ↦ r.stop_reason | some e ↦ some e ];
}

unfoldable pub complete_turn : Env → TurnEnd → List String → Action (Unit {0})
complete_turn env turn git_paths = do
  clear_pending_approvals
  modify (end_turn turn)
  recheck_git_paths env git_paths
  call (write_artifact "diff.patch")
  unsubscribe_read_only_thread
  r ← get
  call (use_plan r.route_plan_id)
  q ← get
  publish (join "턴 종료: " q.status)
  call (write_artifact "result.json")

unfoldable pub set_tokens : ℕ → Run → Run
set_tokens n r = record r { tokens = n }

unfoldable pub count_compaction : Run → Run
count_compaction r = record r { compactions = r.compactions + 1 }

-- What each method does before the _persist that they share.
unfoldable pub dispatch : Env → Event → Action (Unit {0})
dispatch env (rerouted model reason) = do modify (reroute model reason); publish "model rerouted"
dispatch env compacted = do modify count_compaction; interrupt "thread compacted"
dispatch env (request_resolved key) = do
  resolve_server_request key
  publish "server request resolved"
dispatch env (token_usage n) = do modify (set_tokens n); enforce
dispatch env (item_started item) = handle_item env item true
dispatch env (item_completed item) = handle_item env item false
dispatch env (patch_updated changes) = handle_changes env changes
dispatch env (turn_completed turn git_paths) = complete_turn env turn git_paths
dispatch env (other method) = publish method

-- `turn_model` is the model of the message's turn.
unfoldable pub handle_event : Env → Option String → Event → Action (Unit {0})
handle_event env turn_model e = do modify (set_actual_model turn_model); dispatch env e; persist
