-- ===== src/Gateway/Start.antt =====
-- _validate_route_plan (app/gateway.py), the last checks of a stored plan before a run. The hash of the task
-- is a parameter; a time is a number, and `none` where `fromisoformat` raises.
pub mod Runnable
use Prim.Native.String.{◌++◌ as join}
use codex_gate.Prelude.{
  is_some, ℕ, String, Bool, true, false, ◌&&◌, ◌||◌, not, Option, none, some, List, [], ◌∷◌, find,
  leb, ltb, str_eq, codes, casefold, same_codes, if◌then◌else◌, Result, ok, err,
}

-- The fields of a stored plan that are read here; `final` is the model and the effort.
pub record Plan : Type 0 where
  pub status : String
  pub final : Option (String × String)
  pub used : Bool
  pub expires_at : Option ℕ
  pub permission : String
  pub root : String
  pub task : Option String
  pub task_hash : String
  pub account_state : String

pub record Entry : Type 0 where
  pub id : String
  pub status : String

-- The index in the dict `severity`; the states are in upper case already.
unfoldable pub severity : String → Option ℕ
severity s =
    if str_eq s "NORMAL"
    then some 0
    else if str_eq s "CONSERVE"
    then some 1
    else if str_eq s "CRITICAL"
    then some 2
    else if str_eq s "BLOCKED"
    then some 3
    else none

abbrev pub is_above : Option ℕ → Option ℕ → Bool
is_above (some c) (some p) = ltb p c
is_above _ _ = false

unfoldable pub account_worsened : String → String → Bool
account_worsened planned current =
    (str_eq current "UNKNOWN" && not (str_eq planned "UNKNOWN"))
    || (str_eq planned "UNKNOWN" && (str_eq current "CRITICAL" || str_eq current "BLOCKED"))
    || is_above (severity current) (severity planned)

abbrev pub is_unusable : String → Bool
is_unusable s = str_eq s "DEPLETED" || str_eq s "UNKNOWN" || str_eq s "DISABLED"

abbrev pub is_ultra : String → Bool
is_ultra effort = same_codes (casefold (codes effort)) (codes "ultra")

abbrev pub is_past : ℕ → Option ℕ → Bool
is_past now none = true
is_past now (some t) = leb t now

abbrev pub is_task : (String → String) → Option String → String → Bool
is_task digest none hash = false
is_task digest (some task) hash = str_eq hash (digest task)

abbrev pub check_model : Option Entry → String → Plan → Result Plan
check_model none effort p = err "Route Plan model is no longer in the catalog"
check_model (some e) effort p =
    if is_unusable e.status
    then err (join "Route Plan model is now " e.status)
    else if is_ultra effort
    then err "Ultra Route Plans cannot be executed in this release"
    else ok p

abbrev pub check_final :
    (String → String) → String → String → List Entry → ℕ → Plan → String × String → Result Plan
check_final digest root current catalog now p (model, effort) =
    if p.used
    then err "Route Plan has already been used"
    else if not (is_some p.expires_at)
    then err "Route Plan expiry was modified"
    else if is_past now p.expires_at
    then err "Route Plan has expired"
    else if not (str_eq p.permission "read-only")
    then err "Route Plan execution is Read Only only"
    else if not (str_eq p.root root)
    then err "Route Plan root does not match the run"
    else if not (is_task digest p.task p.task_hash)
    then err "Route Plan task was modified"
    else if account_worsened p.account_state current
    then err
        (join "Route Plan account state worsened: " (join p.account_state (join " -> " current)))
    else check_model (find (λ e. str_eq e.id model) catalog) effort p

abbrev pub check_status :
    (String → String)
    → String
    → String
    → List Entry
    → ℕ
    → Plan
    → Option (String × String)
    → Result Plan
check_status digest root current catalog now p none = err "HOLD Route Plan cannot be executed"
check_status digest root current catalog now p (some final) =
    if not (str_eq p.status "PREVIEW")
    then err "HOLD Route Plan cannot be executed"
    else check_final digest root current catalog now p final

unfoldable pub validate_route_plan :
    (String → String) → String → String → List Entry → ℕ → Plan → Result Plan
validate_route_plan digest root current catalog now p =
    check_status digest root current catalog now p p.final
