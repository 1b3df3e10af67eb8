-- ===== src/Plans/Tests.antt =====
-- A plan that is claimed, started and completed.
use codex_gate.Prelude.{◌≡◌, refl, none, some, List, [], ◌∷◌, ok, err}
use codex_gate.Plans.Uses.{UseStatus, new_use, claim_route_plan, Call, claim, update, run_calls}
use codex_gate.Plans.Once.{claim_route_plan-once}

plan_claimed :
    claim_route_plan (some "plan") (some "run") 5 [] ≡ (ok tt, new_use "plan" "run" 5 ∷ [])
unfolding claim_route_plan
plan_claimed = refl

abbrev calls : List Call
calls =
    update "plan" UseStatus.started none 6
    ∷ claim (some "other") (some "run") 7
    ∷ update "plan" UseStatus.completed none 8
    ∷ []

claim_route_plan-once_example :
    claim_route_plan (some "plan") (some "again") 9 (run_calls calls (new_use "plan" "run" 5 ∷ []))
    ≡ (err "Route Plan has already been used", run_calls calls (new_use "plan" "run" 5 ∷ []))
claim_route_plan-once_example =
    claim_route_plan-once "plan" (some "run") 5 [] (new_use "plan" "run" 5 ∷ []) plan_claimed calls
      "again" 9
