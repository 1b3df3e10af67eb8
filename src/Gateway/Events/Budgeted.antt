-- ===== src/Gateway/Events/Budgeted.antt =====
-- The limits of a run, over any sequence of events of the app server (app/gateway.py).
use Prim.Native.String.{◌++◌ as join}
use codex_gate.Prelude.{
  ◌≡◌, refl, String, Bool, true, false, not, Option, none, some, List, [], ◌∷◌, if◌then◌else◌,
  arith,
}
use codex_gate.Json.Values.{text}
use codex_gate.Gateway.Run.{Approval, Run, is_working}
use codex_gate.Gateway.Action.{Action, Session, unsubscribe, ◌>>◌, get, modify, call, publish}
use codex_gate.Gateway.Action.Keeps.{
  Keeps, then-Keeps, when-Keeps, run_modify-Keeps, run_publish-Keeps, run_call-Keeps, get-Keeps,
  done-Keeps, catch-Keeps, run_persist-Keeps, Establishes-Keeps, modify-Establishes,
}
use codex_gate.Gateway.Budget.{Env, forbidden_reference_reason, enforce}
use codex_gate.Gateway.Budget.Within.{
  is_active, Budgeted, IsBudgeted, idle, events-IsBudgeted, interrupt-IsBudgeted, copy-IsBudgeted,
  enforce-IsBudgeted, handle_changes-IsBudgeted, handle_item-IsBudgeted,
}
use codex_gate.Gateway.Approvals.{clear_pending_approvals, resolve_server_request, on_approvals}
use codex_gate.Gateway.Events.{
  TurnEnd, Event, rerouted, compacted, request_resolved, token_usage, item_started, item_completed,
  patch_updated, turn_completed, other, set_actual_model, reroute, fail_with, recheck_path,
  recheck_paths, recheck_git_paths, unsubscribe_read_only_thread, end_turn, complete_turn,
  set_tokens, count_compaction, dispatch, handle_event,
}

publish-Keeps : (detail : String) → Keeps Budgeted (publish detail)
publish-Keeps = run_publish-Keeps IsBudgeted events-IsBudgeted

actual_model-IsBudgeted :
    (model : Option String) (r : Run) → IsBudgeted r → IsBudgeted (set_actual_model model r)
unfolding set_actual_model
actual_model-IsBudgeted model r p =
    copy-IsBudgeted r _ refl refl refl refl refl refl refl refl refl p

reroute-IsBudgeted :
    (model reason : Option String) (r : Run) → IsBudgeted r → IsBudgeted (reroute model reason r)
unfolding reroute
reroute-IsBudgeted model reason r p =
    copy-IsBudgeted r _ refl refl refl refl refl refl refl refl refl p

pub approvals-IsBudgeted :
    (f : List Approval → List Approval) (r : Run) → IsBudgeted r → IsBudgeted (on_approvals f r)
unfolding on_approvals
approvals-IsBudgeted f r p = copy-IsBudgeted r _ refl refl refl refl refl refl refl refl refl p

failed-IsBudgeted : (reason : String) (r : Run) → IsBudgeted r → IsBudgeted (fail_with reason r)
unfolding fail_with is_active
failed-IsBudgeted reason r p = idle refl

ended-IsBudgeted :
    (turn : TurnEnd)
    → is_working turn.status ≡ false
    → (r : Run) → IsBudgeted r
    → IsBudgeted (end_turn turn r)
unfolding end_turn is_active
ended-IsBudgeted turn h r p = idle (ground arith)

recheck_path-Keeps :
    (env : Env) (p : String) (blocked : Option String) (rest : Action (Unit {0}))
    → Keeps Budgeted rest
    → Keeps Budgeted (recheck_path env p blocked rest)
unfolding ◌>>◌
recheck_path-Keeps env p (some reason) rest h =
    then-Keeps Budgeted _ _ (run_modify-Keeps IsBudgeted _ (failed-IsBudgeted reason))
      λ _. publish-Keeps reason
recheck_path-Keeps env p none rest h =
    then-Keeps Budgeted get _ (get-Keeps Budgeted) λ r. by_test (env.allowed r p)
  where
    by_test :
        (b : Bool)
        → Keeps Budgeted
            (if b then rest else modify (fail_with (join "종료 후 Git 상태에서 범위 밖 변경 감지: " p)))
    by_test true = h
    by_test false = run_modify-Keeps IsBudgeted _ (failed-IsBudgeted _)

recheck_paths-Keeps : (env : Env) (ps : List String) → Keeps Budgeted (recheck_paths env ps)
unfolding recheck_paths ◌>>◌
recheck_paths-Keeps env [] = done-Keeps Budgeted
recheck_paths-Keeps env (p ∷ ps) =
    recheck_path-Keeps env p (forbidden_reference_reason env (text p)) _
      (recheck_paths-Keeps env ps)

unsubscribe-Keeps : Keeps Budgeted unsubscribe_read_only_thread
unfolding unsubscribe_read_only_thread
unsubscribe-Keeps = then-Keeps Budgeted get _ (get-Keeps Budgeted) λ r. when-Keeps Budgeted _ _ (
    catch-Keeps Budgeted (call (unsubscribe r.thread_id)) _ (run_call-Keeps IsBudgeted _)
      (publish-Keeps _))

complete_turn-Keeps :
    (env : Env) (turn : TurnEnd) (git_paths : List String)
    → is_working turn.status ≡ false
    → Keeps Budgeted (complete_turn env turn git_paths)
unfolding complete_turn clear_pending_approvals recheck_git_paths ◌>>◌
complete_turn-Keeps env turn git_paths h =
    then-Keeps Budgeted _ _ (run_modify-Keeps IsBudgeted _ (approvals-IsBudgeted _)) λ _.
      then-Keeps Budgeted _ _ (run_modify-Keeps IsBudgeted _ (ended-IsBudgeted turn h)) λ _.
        then-Keeps Budgeted _ _
          (then-Keeps Budgeted get _ (get-Keeps Budgeted) λ r. recheck_paths-Keeps env _)
          λ _. then-Keeps Budgeted _ _ (run_call-Keeps IsBudgeted _) λ _.
            then-Keeps Budgeted _ _ unsubscribe-Keeps λ _.
              then-Keeps Budgeted get _ (get-Keeps Budgeted) λ r.
                then-Keeps Budgeted _ _ (run_call-Keeps IsBudgeted _) λ _.
                  then-Keeps Budgeted get _ (get-Keeps Budgeted)
                    λ q. then-Keeps Budgeted _ _ (publish-Keeps _) λ _. run_call-Keeps IsBudgeted _

resolve_server_request-Keeps : (key : Option String) → Keeps Budgeted (resolve_server_request key)
unfolding resolve_server_request
resolve_server_request-Keeps none = done-Keeps Budgeted
resolve_server_request-Keeps (some key) = run_modify-Keeps IsBudgeted _ (approvals-IsBudgeted _)

-- A completed turn reports none of the statuses of a turn that goes on.
unfoldable pub is_final : Event → Bool
is_final (turn_completed turn git_paths) = not (is_working turn.status)
is_final _ = true

dispatch-Keeps : (env : Env) (e : Event) → is_final e ≡ true → Keeps Budgeted (dispatch env e)
unfolding dispatch is_final ◌>>◌
dispatch-Keeps env (rerouted model reason) h =
    then-Keeps Budgeted _ _ (run_modify-Keeps IsBudgeted _ (reroute-IsBudgeted model reason))
      λ _. publish-Keeps _
dispatch-Keeps env compacted h =
    Establishes-Keeps Budgeted _
      (modify-Establishes Budgeted count_compaction _ (interrupt-IsBudgeted _))
dispatch-Keeps env (request_resolved key) h =
    then-Keeps Budgeted _ _ (resolve_server_request-Keeps key) λ _. publish-Keeps _
dispatch-Keeps env (token_usage n) h =
    Establishes-Keeps Budgeted _
      (modify-Establishes Budgeted (set_tokens n) enforce enforce-IsBudgeted)
dispatch-Keeps env (item_started item) h =
    Establishes-Keeps Budgeted _ (handle_item-IsBudgeted env item true)
dispatch-Keeps env (item_completed item) h =
    Establishes-Keeps Budgeted _ (handle_item-IsBudgeted env item false)
dispatch-Keeps env (patch_updated changes) h =
    Establishes-Keeps Budgeted _ (handle_changes-IsBudgeted env changes)
dispatch-Keeps env (turn_completed turn git_paths) h =
    complete_turn-Keeps env turn git_paths (ground arith)
dispatch-Keeps env (other method) h = publish-Keeps method

pub handle_event-Keeps :
    (env : Env) (model : Option String) (e : Event)
    → is_final e ≡ true
    → Keeps Budgeted (handle_event env model e)
unfolding handle_event ◌>>◌
handle_event-Keeps env model e h =
    then-Keeps Budgeted _ _ (run_modify-Keeps IsBudgeted _ (actual_model-IsBudgeted model)) λ _.
      then-Keeps Budgeted _ _ (dispatch-Keeps env e h)
        λ _. run_persist-Keeps IsBudgeted events-IsBudgeted

-- The events of a thread, each handled to its end; one that raises is logged by the client.
unfoldable pub run_events : Env → List (Option String × Event) → Session → Session
run_events env [] s = s
run_events env ((model, e) ∷ es) s = run_events env es (handle_event env model e s).1
