-- ===== src/Gateway/Budget/Within.antt =====
-- The limits of a run, kept by the handlers of items and changes (app/gateway.py).
use Prim.Native.String.{◌++◌ as join}
use codex_gate.Prelude.{
  ◌≡◌, refl, ◌≤◌, ◌<◌, String, Bool, true, false, ◌&&◌, not, Option, none, some, List, [], ◌∷◌,
  length, str_eq, is_some, if◌then◌else◌, arith,
}
use codex_gate.Json.Values.{array}
use codex_gate.Gateway.Run.{Run, is_working, can_interrupt}
use codex_gate.Gateway.Action.{
  Action, Session, interrupt_turn, ◌>>=◌, ◌>>◌, done, get, modify, call, when, publish, interrupt,
  mark_interrupting,
}
use codex_gate.Gateway.Action.Keeps.{
  Keeps, Establishes, then-Keeps, then-Establishes, when-Keeps, run_modify-Keeps, run_publish-Keeps,
  get-Establishes, get-Keeps, modify-Establishes, when-Establishes, Establishes-Keeps,
  run_call-Keeps,
}
use codex_gate.Gateway.Budget.{
  Env, Change, Item, limit_reached, act_on_limit, enforce, warn, change_path, each_change,
  handle_changes, unless_blocked, forbidden_reference_reason, json_changes, finish_item,
  change_item, count_item, handle_item, item_payload, is_spawn, is_failed_command, is_test,
  add_failure, is_file_item, is_plain, add_tool_call, slashed, add_changed,
}

-- A run with a turn that nobody has asked to stop.
unfoldable pub is_active : Run → Bool
is_active r = is_working r.status && is_some r.thread_id && is_some r.turn_id

-- No limit is reached.
pub record IsWithin (r : Run) : Type 0 where
  pub tokens : r.tokens < r.budget.tokens
  pub tools : r.tool_calls < r.budget.tools
  pub files : length r.changed_files ≤ r.budget.changed_files
  pub commands : r.failed_commands < 3
  pub tests : r.failed_tests < 2

pub data IsBudgeted (r : Run) : Type 0 where
  idle : is_active r ≡ false → IsBudgeted r
  within : IsWithin r → IsBudgeted r

abbrev pub Budgeted : Session → Type 0
Budgeted s = IsBudgeted s.run

-- A run with the same gauges as one that is budgeted.
pub copy-IsBudgeted :
    (r q : Run)
    → q.status ≡ r.status
    → q.thread_id ≡ r.thread_id
    → q.turn_id ≡ r.turn_id
    → q.budget ≡ r.budget
    → q.tokens ≡ r.tokens
    → q.tool_calls ≡ r.tool_calls
    → q.changed_files ≡ r.changed_files
    → q.failed_commands ≡ r.failed_commands
    → q.failed_tests ≡ r.failed_tests
    → IsBudgeted r
    → IsBudgeted q
unfolding is_active
copy-IsBudgeted r q a b c d e f g h i (idle off) = idle (ground arith)
copy-IsBudgeted r q a b c d e f g h i (within w) =
    let tokens : r.tokens < r.budget.tokens = w.tokens in
    let tools : r.tool_calls < r.budget.tools = w.tools in
    let files : length r.changed_files ≤ r.budget.changed_files = w.files in
    let commands : r.failed_commands < 3 = w.commands in
    let tests : r.failed_tests < 2 = w.tests in
    within (record {
      tokens = rw (d, e) tokens;
      tools = rw (d, f) tools;
      files = rw (d, g) files;
      commands = rw h commands;
      tests = rw i tests;
    })

pub events-IsBudgeted :
    (r : Run) (xs : List String) → IsBudgeted r → IsBudgeted (record r { events = xs })
events-IsBudgeted r xs p = copy-IsBudgeted r _ refl refl refl refl refl refl refl refl refl p

warned-IsBudgeted :
    (r : Run) → IsBudgeted r → IsBudgeted (record r { token_warning_emitted = true })
warned-IsBudgeted r p = copy-IsBudgeted r _ refl refl refl refl refl refl refl refl refl p

limit_reached-IsWithin : (r : Run) → limit_reached r ≡ none → IsWithin r
unfolding limit_reached
limit_reached-IsWithin r h = record {
  tokens = ground arith;
  tools = ground arith;
  files = ground arith;
  commands = ground arith;
  tests = ground arith;
}

marked-IsBudgeted : (reason : String) (r : Run) → IsBudgeted (mark_interrupting reason r)
unfolding is_active mark_interrupting
marked-IsBudgeted reason r = idle refl

unasked-IsBudgeted : (r : Run) → can_interrupt r ≡ false → IsBudgeted r
unfolding is_active can_interrupt
unasked-IsBudgeted r h = idle (ground arith)

abbrev tell : String → Run → Action (Unit {0})
tell reason r = do call (interrupt_turn r.thread_id r.turn_id); publish (join "중단 요청: " reason)

tell-Keeps : (reason : String) (r : Run) → Keeps Budgeted (tell reason r)
unfolding ◌>>◌
tell-Keeps reason r =
    then-Keeps Budgeted _ _ (run_call-Keeps IsBudgeted _)
      λ _. run_publish-Keeps IsBudgeted events-IsBudgeted _

-- An interrupt leaves no active run over its limits, also when the app server does not take it.
pub interrupt-IsBudgeted : (reason : String) → Establishes Budgeted (interrupt reason)
unfolding Keeps Establishes interrupt get ◌>>=◌ ◌>>◌ when done modify
interrupt-IsBudgeted reason s = by_test (can_interrupt s.run) refl
  where
    by_test :
        (b : Bool)
        → can_interrupt s.run ≡ b
        → IsBudgeted (when b (modify (mark_interrupting reason) >> tell reason s.run) s).1.run
    by_test true on =
        tell-Keeps reason s.run (record s { run = mark_interrupting reason s.run })
          (marked-IsBudgeted reason s.run)
    by_test false off = unasked-IsBudgeted s.run off

warn-Keeps : Keeps Budgeted warn
unfolding warn ◌>>◌
warn-Keeps =
    then-Keeps Budgeted _ _ (run_modify-Keeps IsBudgeted _ warned-IsBudgeted)
      λ _. run_publish-Keeps IsBudgeted events-IsBudgeted _

-- The test of the limits, whatever the run was before.
pub enforce-IsBudgeted : Establishes Budgeted enforce
unfolding Keeps Establishes enforce get ◌>>=◌
enforce-IsBudgeted s = by_limit (limit_reached s.run) refl
  where
    by_limit :
        (o : Option String) → limit_reached s.run ≡ o → IsBudgeted (act_on_limit s.run o s).1.run
    by_limit (some reason) e = interrupt-IsBudgeted reason s
    by_limit none e =
        when-Keeps Budgeted _ warn warn-Keeps s (within (limit_reached-IsWithin s.run e))

change_path-IsBudgeted :
    (env : Env) (path : Option String) (rest : Action (Unit {0}))
    → Establishes Budgeted rest
    → Establishes Budgeted (change_path env path rest)
unfolding change_path
change_path-IsBudgeted env none rest h = h
change_path-IsBudgeted env (some path) rest h =
    modify-Establishes Budgeted (add_changed (slashed path)) _
      (get-Establishes Budgeted _ λ r. by_test (env.allowed r path))
  where
    by_test :
        (b : Bool)
        → Establishes Budgeted (if b then rest else interrupt (join "허용되지 않은 파일 변경 감지: " path))
    by_test true = h
    by_test false = interrupt-IsBudgeted _

pub each_change-IsBudgeted :
    (env : Env) (cs : List Change) → Establishes Budgeted (each_change env cs)
unfolding each_change
each_change-IsBudgeted env [] = enforce-IsBudgeted
each_change-IsBudgeted env (c ∷ cs) =
    change_path-IsBudgeted env c.path (each_change env cs) (each_change-IsBudgeted env cs)

pub unless_blocked-IsBudgeted :
    (blocked : Option String) (m : Action (Unit {0}))
    → Establishes Budgeted m
    → Establishes Budgeted (unless_blocked blocked m)
unless_blocked-IsBudgeted none m h = h
unless_blocked-IsBudgeted (some reason) m h = interrupt-IsBudgeted reason

pub handle_changes-IsBudgeted :
    (env : Env) (cs : List Change) → Establishes Budgeted (handle_changes env cs)
unfolding handle_changes
handle_changes-IsBudgeted env cs =
    unless_blocked-IsBudgeted (forbidden_reference_reason env (array (json_changes cs))) _
      (each_change-IsBudgeted env cs)

finish_item-IsBudgeted : (item : Item) → Establishes Budgeted (finish_item item)
unfolding finish_item
finish_item-IsBudgeted item = by_test (is_spawn item)
  where
    by_test :
        (b : Bool)
        → Establishes Budgeted (
            if b
            then interrupt "spawn_agent 감지"
            else (when (is_failed_command item) (modify (add_failure (is_test item.command)))
                >> enforce))
    by_test true = interrupt-IsBudgeted _
    by_test false = when-Establishes Budgeted _ _ enforce enforce-IsBudgeted

change_item-IsBudgeted : (env : Env) (item : Item) → Establishes Budgeted (change_item env item)
unfolding change_item ◌>>◌
change_item-IsBudgeted env item = by_test (is_file_item item.type)
  where
    rest : Action (Unit {0})
    rest = get >>= λ r. when (not (str_eq r.status "interrupting")) (finish_item item)

    rest_keeps : Keeps Budgeted rest
    rest_keeps = then-Keeps Budgeted get _ (get-Keeps Budgeted) λ r.
        when-Keeps Budgeted _ (finish_item item)
          (Establishes-Keeps Budgeted _ (finish_item-IsBudgeted item))

    by_test :
        (b : Bool)
        → Establishes Budgeted
            (if b then handle_changes env item.changes >> rest else finish_item item)
    by_test true =
        then-Establishes Budgeted (handle_changes env item.changes) _
          (handle_changes-IsBudgeted env item.changes) λ _. rest_keeps
    by_test false = finish_item-IsBudgeted item

pub handle_item-IsBudgeted :
    (env : Env) (item : Item) (count_tool : Bool)
    → Establishes Budgeted (handle_item env item count_tool)
unfolding handle_item count_item
handle_item-IsBudgeted env item count_tool =
    unless_blocked-IsBudgeted (forbidden_reference_reason env (item_payload item)) _
      (by_test (str_eq item.type "contextCompaction"))
  where
    by_test :
        (b : Bool)
        → Establishes Budgeted (
            if b
            then interrupt "context compaction 감지"
            else (when (count_tool && not (is_plain item.type)) (modify add_tool_call)
                >> change_item env item))
    by_test true = interrupt-IsBudgeted _
    by_test false =
        when-Establishes Budgeted _ add_tool_call (change_item env item)
          (change_item-IsBudgeted env item)
