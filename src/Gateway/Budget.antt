-- ===== src/Gateway/Budget.antt =====
-- _handle_item, _handle_changes and _enforce (app/gateway.py). validate_project_file, which resolves paths
-- on the file system, is a parameter, and the roots that the environment configures are another.
pub mod Within
use Prim.Native.Char.{Char, code}
use Prim.Native.String.{◌++◌ as join}
use codex_gate.Prelude.{
  ℕ, ◌+◌, ◌*◌, ◌/◌, String, Bool, true, false, ◌&&◌, ◌||◌, not, Option, none, some, List, [], ◌∷◌,
  ◌++◌, any, length, leb, ltb, str_eq, codes, casefold, contains_codes, same_codes, keep, ◌==◌,
  if◌then◌else◌,
}
use codex_gate.Json.Values.{Value, null, text, array, object, Items, nil, cons, Fields, end, field}
use codex_gate.Json.Forbidden.{find_forbidden_root_reference}
use codex_gate.Gateway.Run.{Kind, Run}
use codex_gate.Gateway.Action.{Action, ◌>>=◌, ◌>>◌, done, get, modify, when, publish, interrupt}

-- `allowed run path` is whether validate_project_file accepts the path; `decisions` is what the loaded
-- protocol lists for a kind.
pub record Env : Type 0 where
  pub roots : List String
  pub allowed : Run → String → Bool
  pub decisions : Kind → List String

-- One entry of `changes` or of `commandActions`, with its other fields. A path that is missing or empty is
-- `none`.
pub record Change : Type 0 where
  pub path : Option String
  pub others : Fields

-- The fields of an item that the handlers read.
pub record Item : Type 0 where
  pub type : String
  pub status : Option String
  pub command : Option String
  pub cwd : Option String
  pub path : Option String
  pub tool : Option String
  pub changes : List Change

abbrev pub reason_of : Option String → Option String
reason_of none = none
reason_of (some reference) = some (join "금지 루트 참조가 감지되어 실행을 거부했습니다: " reference)

unfoldable pub forbidden_reference_reason : Env → Value → Option String
forbidden_reference_reason env payload = reason_of (find_forbidden_root_reference env.roots payload)

abbrev pub json_text : Option String → Value
json_text none = null
json_text (some s) = text s

unfoldable pub json_changes : List Change → Items
json_changes [] = nil
json_changes (c ∷ cs) = cons (object (field "path" (json_text c.path) c.others)) (json_changes cs)

unfoldable pub item_payload : Item → Value
item_payload item = object (
    field "command" (json_text item.command) (
      field "cwd" (json_text item.cwd) (
        field "path" (json_text item.path)
          (field "changes" (array (json_changes item.changes)) end))))

-- The first limit that the run has reached, in the order of the tests.
unfoldable pub limit_reached : Run → Option String
limit_reached r =
    if leb r.budget.tokens r.tokens
    then some "토큰 예산 100% 도달"
    else if leb r.budget.tools r.tool_calls
    then some "도구 호출 한도 도달"
    else if ltb r.budget.changed_files (length r.changed_files)
    then some "변경 파일 한도 초과"
    else if leb 3 r.failed_commands
    then some "명령 실패 한도 도달"
    else if leb 2 r.failed_tests
    then some "테스트 연속 실패 한도 도달"
    else none

-- `int(tokens * 0.8)`, as far as a float counts exactly.
abbrev pub warn_at : ℕ → ℕ
warn_at tokens = 4 * tokens / 5

unfoldable pub warn : Action (Unit {0})
warn = do modify (λ r. record r { token_warning_emitted = true }); publish "경고: 토큰 예산 80%에 도달했습니다."

abbrev pub act_on_limit : Run → Option String → Action (Unit {0})
act_on_limit r (some reason) = interrupt reason
act_on_limit r none =
    when (leb (warn_at r.budget.tokens) r.tokens && not r.token_warning_emitted) warn

unfoldable pub enforce : Action (Unit {0})
enforce = do r ← get; act_on_limit r (limit_reached r)

abbrev slash : Char → Char
slash c = if code c == b'\\' then "/" else c

-- `path.replace("\\", "/")`.
unfoldable pub slashed : String → String
slashed String.[] = String.[]
slashed (String.◌∷◌ c s) = String.◌∷◌ (slash c) (slashed s)

-- `changed_files.add(path)`.
abbrev pub add_text : String → List String → List String
add_text s xs = if any (str_eq s) xs then xs else xs ++ s ∷ []

unfoldable pub add_changed : String → Run → Run
add_changed path r = record r { changed_files = add_text path r.changed_files }

-- One round of the loop over the changes; `rest` is what follows it.
unfoldable pub change_path : Env → Option String → Action (Unit {0}) → Action (Unit {0})
change_path env none rest = rest
change_path env (some path) rest = do
  modify (add_changed (slashed path))
  r ← get
  if env.allowed r path then rest else interrupt (join "허용되지 않은 파일 변경 감지: " path)

-- The loop, and the _enforce behind it.
unfoldable pub each_change : Env → List Change → Action (Unit {0})
each_change env [] = enforce
each_change env (c ∷ cs) = change_path env c.path (each_change env cs)

abbrev pub unless_blocked : Option String → Action (Unit {0}) → Action (Unit {0})
unless_blocked (some reason) m = interrupt reason
unless_blocked none m = m

unfoldable pub handle_changes : Env → List Change → Action (Unit {0})
handle_changes env changes =
    unless_blocked (forbidden_reference_reason env (array (json_changes changes)))
      (each_change env changes)

-- `item_type not in {...}`.
abbrev pub is_plain : String → Bool
is_plain t =
    str_eq t "agentMessage" || str_eq t "userMessage" || str_eq t "reasoning" || str_eq t "error"

abbrev pub is_file_item : String → Bool
is_file_item t = str_eq t "fileChange" || str_eq t "fileUpdate"

abbrev tool_codes : Option String → List ℕ
tool_codes none = []
tool_codes (some s) = casefold (keep (λ c. not (c == b'_')) (codes s))

abbrev pub is_spawn : Item → Bool
is_spawn i =
    (str_eq i.type "collabToolCall" || str_eq i.type "collabAgentToolCall")
    && same_codes (tool_codes i.tool) (codes "spawnagent")

abbrev is_text : Option String → String → Bool
is_text none t = false
is_text (some s) t = str_eq s t

abbrev pub is_failed_command : Item → Bool
is_failed_command i = str_eq i.type "commandExecution" && is_text i.status "failed"

-- `"test" in command or "pytest" in command`, of `str(item.get("command", "")).lower()`.
abbrev pub is_test : Option String → Bool
is_test none = false
is_test (some s) =
    contains_codes (casefold (codes s)) (codes "test")
    || contains_codes (casefold (codes s)) (codes "pytest")

unfoldable pub add_tool_call : Run → Run
add_tool_call r = record r { tool_calls = r.tool_calls + 1 }

unfoldable pub add_failure : Bool → Run → Run
add_failure test r = record r {
  failed_commands = r.failed_commands + 1;
  failed_tests = if test then r.failed_tests + 1 else r.failed_tests;
}

-- From the test for spawn_agent on.
unfoldable pub finish_item : Item → Action (Unit {0})
finish_item item =
    if is_spawn item
    then interrupt "spawn_agent 감지"
    else do when (is_failed_command item) (modify (add_failure (is_test item.command))); enforce

-- The change of the files, which ends the item when it has interrupted the run.
unfoldable pub change_item : Env → Item → Action (Unit {0})
change_item env item =
    if is_file_item item.type
    then (do
      handle_changes env item.changes
      r ← get
      when (not (str_eq r.status "interrupting")) (finish_item item))
    else finish_item item

unfoldable pub count_item : Env → Item → Bool → Action (Unit {0})
count_item env item count_tool =
    if str_eq item.type "contextCompaction" then interrupt "context compaction 감지" else do
      when (count_tool && not (is_plain item.type)) (modify add_tool_call)
      change_item env item

unfoldable pub handle_item : Env → Item → Bool → Action (Unit {0})
handle_item env item count_tool =
    unless_blocked (forbidden_reference_reason env (item_payload item))
      (count_item env item count_tool)
