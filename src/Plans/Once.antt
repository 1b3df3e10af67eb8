-- ===== src/Plans/Once.antt =====
-- Claims of a route plan (app/storage.py) before and after other calls.
use codex_gate.Prelude.{
  ℕ, ◌≡◌, refl, ◌∙◌, String, Bool, true, Option, none, some, List, [], ◌∷◌, ◌++◌, any, Bool-cases,
  inl, inr, arith, ok, err, eq_iff,
}
use codex_gate.Canary.Rows.{update_where}
use codex_gate.Plans.Uses.{
  UseStatus, claimed, started, failed, completed, Use, of_plan, new_use, claim_route_plan, stamp,
  movable, update_route_plan_use, Call, claim, update, step, run_calls,
}

stamp-of_plan :
    (plan : String) (status : UseStatus) (now : ℕ) (e : Option String) (u : Use)
    → of_plan plan (stamp status now e u) ≡ of_plan plan u
stamp-of_plan plan claimed now e u = refl
stamp-of_plan plan started now e u = refl
stamp-of_plan plan failed now e u = refl
stamp-of_plan plan completed now e u = refl

any-append : (q : Use → Bool) (xs ys : List Use) → any q xs ≡ true → any q (xs ++ ys) ≡ true
any-append q [] ys h = absurd (ground arith)
any-append q (x ∷ xs) ys h = elim (Bool-cases (q x)) [
  | inl hit ↦ ground arith
  | inr miss ↦ let rest = any-append q xs ys (ground arith) in ground arith
]

any-last : (q : Use → Bool) (xs : List Use) (y : Use) → q y ≡ true → any q (xs ++ y ∷ []) ≡ true
any-last q [] y h = ground arith
any-last q (x ∷ xs) y h = let rest = any-last q xs y h in ground arith

any-update_where :
    (q test : Use → Bool) (change : Use → Use)
    → ((u : Use) → q (change u) ≡ q u)
    → (xs : List Use) → any q (update_where test change xs) ≡ any q xs
unfolding update_where
any-update_where q test change same [] = refl
any-update_where q test change same (x ∷ xs) =
    let rest = any-update_where q test change same xs in
    let kept = same x in
    elim (Bool-cases (test x)) [ inl on ↦ ground arith | inr off ↦ ground arith ]

claim-any :
    (plan : String) (p r : Option String) (now : ℕ) (uses : List Use)
    → any (of_plan plan) uses ≡ true
    → any (of_plan plan) ((claim_route_plan p r now uses).1) ≡ true
unfolding claim_route_plan
claim-any plan none r now uses h = h
claim-any plan (some p) none now uses h = h
claim-any plan (some p) (some r) now uses h =
    let longer = any-append (of_plan plan) uses (new_use p r now ∷ []) h in
    elim (Bool-cases (any (of_plan p) uses)) [ inl used ↦ ground arith | inr unused ↦ ground arith ]

update-any :
    (plan p : String) (status : UseStatus) (e : Option String) (now : ℕ) (uses : List Use)
    → any (of_plan plan) uses ≡ true
    → any (of_plan plan) ((update_route_plan_use p status e now uses).1) ≡ true
unfolding update_route_plan_use
update-any plan p claimed e now uses h = h
update-any plan p started e now uses h =
    any-update_where (of_plan plan) (movable p started) (stamp started now e)
      (stamp-of_plan plan started now e) uses
    ∙ h
update-any plan p failed e now uses h =
    any-update_where (of_plan plan) (movable p failed) (stamp failed now e)
      (stamp-of_plan plan failed now e) uses
    ∙ h
update-any plan p completed e now uses h =
    any-update_where (of_plan plan) (movable p completed) (stamp completed now e)
      (stamp-of_plan plan completed now e) uses
    ∙ h

run-any :
    (plan : String) (calls : List Call) (uses : List Use)
    → any (of_plan plan) uses ≡ true
    → any (of_plan plan) (run_calls calls uses) ≡ true
unfolding run_calls step
run-any plan [] uses h = h
run-any plan (claim p r now ∷ calls) uses h = run-any plan calls _ (claim-any plan p r now uses h)
run-any plan (update p status e now ∷ calls) uses h =
    run-any plan calls _ (update-any plan p status e now uses h)

claimed-any :
    (plan : String) (r : Option String) (now : ℕ) (uses uses' : List Use)
    → claim_route_plan (some plan) r now uses ≡ (ok tt, uses')
    → any (of_plan plan) uses' ≡ true
unfolding claim_route_plan
claimed-any plan none now uses uses' e = absurd (ground arith)
claimed-any plan (some r) now uses uses' e =
    let last = any-last (of_plan plan) uses (new_use plan r now) ((eq_iff plan plan).1 refl) in
    elim (Bool-cases (any (of_plan plan) uses)) [
      | inl used ↦ absurd (ground arith)
      | inr unused ↦ ground arith
    ]

-- After a claim_route_plan that returns, and after any claims and updates that follow it, a claim of the
-- same plan for a valid run is refused as already used, and changes nothing.
pub claim_route_plan-once :
    (plan : String) (run : Option String) (now : ℕ) (uses uses' : List Use)
    → claim_route_plan (some plan) run now uses ≡ (ok tt, uses')
    → (calls : List Call) (run' : String) (now' : ℕ)
    → claim_route_plan (some plan) (some run') now' (run_calls calls uses')
      ≡ (err "Route Plan has already been used", run_calls calls uses')
unfolding claim_route_plan
claim_route_plan-once plan run now uses uses' e calls run' now' =
    let used = run-any plan calls uses' (claimed-any plan run now uses uses' e) in ground arith
