-- ===== src/Plans/Uses.antt =====
-- claim_route_plan and update_route_plan_use (app/storage.py). `str(uuid.UUID(plan_id))` and the result of
-- validate_task_id are arguments, `none` where they raise; times are numbers. An exception of the
-- INSERT changes no row, and the exception of an update follows its commit.
use codex_gate.Prelude.{
  ℕ, String, Bool, true, false, ◌&&◌, Option, none, some, List, [], ◌∷◌, ◌++◌, any, ◌==◌, str_eq,
  if◌then◌else◌, Result, ok, err,
}
use codex_gate.Canary.Rows.{update_where, count_where}

pub data UseStatus : Type 0 where
  claimed started failed completed : UseStatus

pub record Use : Type 0 where
  pub plan_id : String
  pub used_at : ℕ
  pub run_id : String
  pub status : UseStatus
  pub claimed_at : Option ℕ
  pub started_at : Option ℕ
  pub failed_at : Option ℕ
  pub completed_at : Option ℕ
  pub error : Option String

abbrev pub of_plan : String → Use → Bool
of_plan id u = str_eq u.plan_id id

abbrev pub new_use : String → String → ℕ → Use
new_use plan run now = record {
  plan_id = plan;
  used_at = now;
  run_id = run;
  status = claimed;
  claimed_at = some now;
  started_at = none;
  failed_at = none;
  completed_at = none;
  error = none;
}

unfoldable pub claim_route_plan :
    Option String → Option String → ℕ → List Use → Result (Unit {0}) × List Use
claim_route_plan none run now uses = (err "route_plan_id must be a UUID", uses)
claim_route_plan (some plan) none now uses = (err "task_id must be a UUID", uses)
claim_route_plan (some plan) (some run) now uses =
    if any (of_plan plan) uses
    then (err "Route Plan has already been used", uses)
    else (ok tt, uses ++ new_use plan run now ∷ [])

-- allowed_previous; a status that is not allowed has none.
abbrev pub is_previous : UseStatus → UseStatus → Bool
is_previous started claimed = true
is_previous failed claimed = true
is_previous failed started = true
is_previous completed started = true
is_previous _ _ = false

-- `{status}_at = ?`.
abbrev pub stamp : UseStatus → ℕ → Option String → Use → Use
stamp started now e u = record u { status = started; started_at = some now; error = e }
stamp failed now e u = record u { status = failed; failed_at = some now; error = e }
stamp completed now e u = record u { status = completed; completed_at = some now; error = e }
stamp claimed now e u = u

abbrev is_claimed : UseStatus → Bool
is_claimed claimed = true
is_claimed _ = false

abbrev pub movable : String → UseStatus → Use → Bool
movable plan status u = of_plan plan u && is_previous status u.status

unfoldable pub update_route_plan_use :
    String → UseStatus → Option String → ℕ → List Use → Result (Unit {0}) × List Use
update_route_plan_use plan status e now uses =
    if is_claimed status then (err "Route Plan use status is not supported", uses) else (
      if count_where (movable plan status) uses == 1
          then ok tt
          else err "Route Plan use state transition was rejected",
      update_where (movable plan status) (stamp status now e) uses,
    )

pub data Call : Type 0 where
  claim : Option String → Option String → ℕ → Call
  update : String → UseStatus → Option String → ℕ → Call

unfoldable pub step : Call → List Use → List Use
step (claim plan run now) uses = (claim_route_plan plan run now uses).1
step (update plan status e now) uses = (update_route_plan_use plan status e now uses).1

unfoldable pub run_calls : List Call → List Use → List Use
run_calls [] uses = uses
run_calls (call ∷ calls) uses = run_calls calls (step call uses)
