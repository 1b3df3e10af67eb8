-- ===== src/Gateway/Events/Frames.antt =====
-- What the handlers of events (app/gateway.py) do to a predicate that reads the approvals and the
-- responses only.

use codex_gate.Prelude.{
  ◌≡◌, refl, String, Bool, true, false, Option, none, some, List, [], ◌∷◌, str_eq, if◌then◌else◌,
}
use codex_gate.Json.Values.{text, array}
use codex_gate.Gateway.Run.{Run, resolved}
use codex_gate.Gateway.Action.{
  Action, Session, Effect, respond, interrupt_turn, unsubscribe, write_artifact, use_plan,
  save_task, record_ledger_run, ◌>>◌, get, modify, call, publish, persist, interrupt,
  mark_interrupting,
}
use codex_gate.Gateway.Action.Keeps.{
  Keeps, IsQuiet, then-Keeps, when-Keeps, modify-Keeps, publish-Keeps, call-Keeps, get-Keeps,
  done-Keeps, catch-Keeps, persist-Keeps,
}
use codex_gate.Gateway.Budget.{
  Env, Change, Item, forbidden_reference_reason, json_changes, item_payload, handle_changes,
  handle_item, enforce, act_on_limit, limit_reached, warn, change_path, each_change, unless_blocked,
  finish_item, change_item, count_item, is_spawn, is_file_item, add_failure, is_test, add_tool_call,
  add_changed, slashed,
}
use codex_gate.Gateway.Approvals.{
  clear_pending_approvals, resolve_server_request, on_approvals, settle,
}
use codex_gate.Gateway.Events.{
  TurnEnd, Event, rerouted, compacted, request_resolved, token_usage, item_started, item_completed,
  patch_updated, turn_completed, other, set_actual_model, reroute, fail_with, recheck_path,
  recheck_paths, recheck_git_paths, unsubscribe_read_only_thread, end_turn, complete_turn,
  set_tokens, count_compaction, dispatch, handle_event,
}

abbrev pub is_response : Effect → Bool
is_response (respond key response) = true
is_response _ = false

-- A predicate of the approvals and the responses.
pub record IsFramed (P : Session → Type 0) : Type 0 where
  pub change :
      (f : Run → Run)
      → ((r : Run) → (f r).approvals ≡ r.approvals)
      → (s : Session) → P s
      → P (record s { run = f s.run })
  pub quiet : (e : Effect) → is_response e ≡ false → IsQuiet P e

module _ (P : Session → Type 0) (frame : IsFramed P) where
  pub frame_modify :
      (f : Run → Run) → ((r : Run) → (f r).approvals ≡ r.approvals) → Keeps P (modify f)
  frame_modify f same = modify-Keeps P f (frame.change f same)

  pub frame_publish : (detail : String) → Keeps P (publish detail)
  frame_publish = publish-Keeps P λ s xs. frame.change (λ r. record r { events = xs }) (λ r. refl) s

  pub frame_persist : Keeps P persist
  frame_persist =
      persist-Keeps P (λ s xs. frame.change (λ r. record r { events = xs }) (λ r. refl) s)
        (λ r. frame.quiet (save_task r) refl) λ id. frame.quiet (record_ledger_run id) refl

  pub frame_call : (e : Effect) → is_response e ≡ false → Keeps P (call e)
  frame_call e h = call-Keeps P e (frame.quiet e h)

  pub frame_interrupt : (reason : String) → Keeps P (interrupt reason)
  unfolding interrupt ◌>>◌ mark_interrupting
  frame_interrupt reason = then-Keeps P get _ (get-Keeps P) λ r. when-Keeps P _ _ (
      then-Keeps P _ _ (frame_modify (mark_interrupting reason) (λ q. refl)) λ _.
        then-Keeps P _ _ (frame_call (interrupt_turn r.thread_id r.turn_id) refl)
          λ _. frame_publish _)

  frame_enforce : Keeps P enforce
  unfolding enforce warn ◌>>◌
  frame_enforce = then-Keeps P get _ (get-Keeps P) λ r. by_limit r (limit_reached r)
    where
      by_limit : (r : Run) (o : Option String) → Keeps P (act_on_limit r o)
      by_limit r (some reason) = frame_interrupt reason
      by_limit r none = when-Keeps P _ _ (
          then-Keeps P _ _
            (frame_modify (λ q. record q { token_warning_emitted = true }) (λ q. refl))
            λ _. frame_publish _)

  frame_if :
      {A : Type 0} (b : Bool) (m n : Action A)
      → Keeps P m
      → Keeps P n
      → Keeps P (if b then m else n)
  frame_if true m n p q = p
  frame_if false m n p q = q

  frame_change :
      (env : Env) (path : Option String) (rest : Action (Unit {0}))
      → Keeps P rest
      → Keeps P (change_path env path rest)
  unfolding change_path add_changed ◌>>◌
  frame_change env none rest h = h
  frame_change env (some path) rest h =
      then-Keeps P _ _ (frame_modify (add_changed (slashed path)) (λ r. refl)) λ _.
        then-Keeps P get _ (get-Keeps P)
          λ r. frame_if (env.allowed r path) _ _ h (frame_interrupt _)

  frame_each : (env : Env) (cs : List Change) → Keeps P (each_change env cs)
  unfolding each_change
  frame_each env [] = frame_enforce
  frame_each env (c ∷ cs) = frame_change env c.path (each_change env cs) (frame_each env cs)

  frame_unless :
      (blocked : Option String) (m : Action (Unit {0}))
      → Keeps P m
      → Keeps P (unless_blocked blocked m)
  frame_unless none m h = h
  frame_unless (some reason) m h = frame_interrupt reason

  frame_changes : (env : Env) (cs : List Change) → Keeps P (handle_changes env cs)
  unfolding handle_changes
  frame_changes env cs =
      frame_unless (forbidden_reference_reason env (array (json_changes cs))) _ (frame_each env cs)

  frame_finish : (item : Item) → Keeps P (finish_item item)
  unfolding finish_item add_failure ◌>>◌
  frame_finish item = frame_if (is_spawn item) _ _ (frame_interrupt _) (
      then-Keeps P _ _
        (when-Keeps P _ _ (frame_modify (add_failure (is_test item.command)) (λ r. refl)))
        λ _. frame_enforce)

  frame_item :
      (env : Env) (item : Item) (count_tool : Bool) → Keeps P (handle_item env item count_tool)
  unfolding handle_item count_item change_item add_tool_call ◌>>◌
  frame_item env item count_tool =
      frame_unless (forbidden_reference_reason env (item_payload item)) _ (
        frame_if (str_eq item.type "contextCompaction") _ _ (frame_interrupt _) (
          then-Keeps P _ _ (when-Keeps P _ _ (frame_modify add_tool_call (λ r. refl))) λ _.
            frame_if (is_file_item item.type) _ _
              (then-Keeps P _ _ (frame_changes env item.changes)
                λ _. then-Keeps P get _ (get-Keeps P) λ r. when-Keeps P _ _ (frame_finish item))
              (frame_finish item)))

  frame_path :
      (env : Env) (p : String) (blocked : Option String) (rest : Action (Unit {0}))
      → Keeps P rest
      → Keeps P (recheck_path env p blocked rest)
  unfolding fail_with ◌>>◌
  frame_path env p (some reason) rest h =
      then-Keeps P _ _ (frame_modify (fail_with reason) (λ r. refl)) λ _. frame_publish reason
  frame_path env p none rest h =
      then-Keeps P get _ (get-Keeps P)
        λ r. frame_if (env.allowed r p) _ _ h (frame_modify (fail_with _) (λ q. refl))

  frame_paths : (env : Env) (ps : List String) → Keeps P (recheck_paths env ps)
  unfolding recheck_paths
  frame_paths env [] = done-Keeps P
  frame_paths env (p ∷ ps) =
      frame_path env p (forbidden_reference_reason env (text p)) _ (frame_paths env ps)

  frame_unsubscribe : Keeps P unsubscribe_read_only_thread
  unfolding unsubscribe_read_only_thread
  frame_unsubscribe = then-Keeps P get _ (get-Keeps P) λ r.
      when-Keeps P _ _
        (catch-Keeps P _ _ (frame_call (unsubscribe r.thread_id) refl) (frame_publish _))

  -- The two writes to the approvals that an event makes.
  module _
      (settled : (s : Session) → P s → P (record s { run = on_approvals (settle resolved) s.run }))
      (answered : (key : Option String) → Keeps P (resolve_server_request key)) where
    frame_complete :
        (env : Env) (turn : TurnEnd) (git_paths : List String)
        → Keeps P (complete_turn env turn git_paths)
    unfolding complete_turn clear_pending_approvals recheck_git_paths end_turn ◌>>◌
    frame_complete env turn git_paths =
        then-Keeps P _ _ (modify-Keeps P (on_approvals (settle resolved)) settled) λ _.
          then-Keeps P _ _ (frame_modify (end_turn turn) (λ r. refl)) λ _.
            then-Keeps P _ _ (then-Keeps P get _ (get-Keeps P) λ r. frame_paths env _) λ _.
              then-Keeps P _ _ (frame_call (write_artifact "diff.patch") refl) λ _.
                then-Keeps P _ _ frame_unsubscribe λ _. then-Keeps P get _ (get-Keeps P) λ r.
                  then-Keeps P _ _ (frame_call (use_plan r.route_plan_id) refl) λ _.
                    then-Keeps P get _ (get-Keeps P) λ q.
                      then-Keeps P _ _ (frame_publish _)
                        λ _. frame_call (write_artifact "result.json") refl

    frame_dispatch : (env : Env) (e : Event) → Keeps P (dispatch env e)
    unfolding dispatch reroute count_compaction set_tokens ◌>>◌
    frame_dispatch env (rerouted model reason) =
        then-Keeps P _ _ (frame_modify (reroute model reason) (λ r. refl)) λ _. frame_publish _
    frame_dispatch env compacted =
        then-Keeps P _ _ (frame_modify count_compaction (λ r. refl)) λ _. frame_interrupt _
    frame_dispatch env (request_resolved key) = then-Keeps P _ _ (answered key) λ _. frame_publish _
    frame_dispatch env (token_usage n) =
        then-Keeps P _ _ (frame_modify (set_tokens n) (λ r. refl)) λ _. frame_enforce
    frame_dispatch env (item_started item) = frame_item env item true
    frame_dispatch env (item_completed item) = frame_item env item false
    frame_dispatch env (patch_updated changes) = frame_changes env changes
    frame_dispatch env (turn_completed turn git_paths) = frame_complete env turn git_paths
    frame_dispatch env (other method) = frame_publish method

    pub frame_event :
        (env : Env) (model : Option String) (e : Event) → Keeps P (handle_event env model e)
    unfolding handle_event set_actual_model ◌>>◌
    frame_event env model e =
        then-Keeps P _ _ (frame_modify (set_actual_model model) (λ r. refl))
          λ _. then-Keeps P _ _ (frame_dispatch env e) λ _. frame_persist
