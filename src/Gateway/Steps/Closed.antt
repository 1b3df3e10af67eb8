-- ===== src/Gateway/Steps/Closed.antt =====
-- The disconnect of the app server (app/gateway.py), on one run and over all of them.
use codex_gate.Prelude.{
  ◌≡◌, ◌≤◌, refl, ap, sym, ◌∙◌, String, Bool, true, false, not, List, [], ◌∷◌, ◌++◌, any, all, map,
  length, arith, Result, ok, err,
}
use codex_gate.Canary.Rows.{update_where}
use codex_gate.Gateway.Run.{Approval, Run, cancelled, is_open}
use codex_gate.Gateway.Action.{
  Effect, Session, ◌>>=◌, ◌>>◌, get, modify, call, catch, when, done, publish, persist,
}
use codex_gate.Gateway.Action.Keeps.{
  Keeps, OnRun, then-Keeps, get-Keeps, when-Keeps, run_modify-Keeps, run_publish-Keeps,
  run_persist-Keeps,
}
use codex_gate.Gateway.Approvals.{
  on_approvals, settle, disconnect_run, Ending, after_run, handle_disconnect,
}
use codex_gate.Gateway.Events.Frames.{IsFramed, frame_publish, frame_persist}
use Prim.Native.String.{◌++◌ as join}

abbrev pub is_open_approval : Approval → Bool
is_open_approval a = is_open a.status

-- No approval of the run is pending or being answered.
pub record IsClosed (s : Session) : Type 0 where
  pub closed : any is_open_approval s.run.approvals ≡ false

settle-closed : (xs : List Approval) → any is_open_approval (settle cancelled xs) ≡ false
unfolding settle update_where
settle-closed [] = refl
settle-closed (x ∷ xs) = let rest = settle-closed xs in ground arith

IsClosed-IsFramed : IsFramed IsClosed
IsClosed-IsFramed = record {
  change = λ f same s p. record { closed = ap (any is_open_approval) (same s.run) ∙ p.closed };
  quiet = λ e h. record {
    outcome = λ s rest p. record { closed = p.closed };
    logged = λ s p. record { closed = p.closed };
  };
}

told-Keeps : (detail : String) → Keeps IsClosed (publish detail >> persist)
unfolding ◌>>◌
told-Keeps detail =
    then-Keeps IsClosed _ _ (frame_publish IsClosed IsClosed-IsFramed detail)
      λ _. frame_persist IsClosed IsClosed-IsFramed

disconnect_run-IsClosed : (reason : String) (s : Session) → IsClosed (disconnect_run reason s).1
unfolding disconnect_run get modify on_approvals when done ◌>>=◌ ◌>>◌ Keeps
disconnect_run-IsClosed reason s = by_test (any is_open_approval s.run.approvals) refl
  where
    by_test :
        (b : Bool)
        → any is_open_approval s.run.approvals ≡ b
        → IsClosed
            (when b
              (modify (on_approvals (settle cancelled))
                >> (publish (join "app-server 연결 종료: " reason) >> persist))
              s).1
    by_test false e = record { closed = e }
    by_test true e = told-Keeps _ _ (record { closed = settle-closed s.run.approvals })

-- Telling of it leaves the approvals as they are.
HasApprovals : List Approval → Run → Type 0
HasApprovals as' r = r.approvals ≡ as'

told-HasApprovals :
    (as' : List Approval) (detail : String)
    → Keeps (OnRun (HasApprovals as')) (publish detail >> persist)
unfolding ◌>>◌ HasApprovals
told-HasApprovals as' detail =
    then-Keeps (OnRun (HasApprovals as')) _ _
      (run_publish-Keeps (HasApprovals as') (λ r xs p. p) detail)
      λ _. run_persist-Keeps (HasApprovals as') (λ r xs p. p)

-- With no approval open there is nothing to settle.
settle-same : (xs : List Approval) → any is_open_approval xs ≡ false → settle cancelled xs ≡ xs
unfolding settle update_where
settle-same [] h = refl
settle-same (x ∷ xs) h = let rest = settle-same xs (ground arith) in ground arith

disconnect_run-settle :
    (reason : String) (s : Session)
    → (disconnect_run reason s).1.run.approvals ≡ settle cancelled s.run.approvals
unfolding disconnect_run get modify on_approvals when done ◌>>=◌ ◌>>◌ Keeps HasApprovals
disconnect_run-settle reason s = by_test (any is_open_approval s.run.approvals) refl
  where
    by_test :
        (b : Bool)
        → any is_open_approval s.run.approvals ≡ b
        → (when b
            (modify (on_approvals (settle cancelled))
              >> (publish (join "app-server 연결 종료: " reason) >> persist))
            s).1.run.approvals
          ≡ settle cancelled s.run.approvals
    by_test false e = sym (settle-same s.run.approvals e)
    by_test true e = told-HasApprovals (settle cancelled s.run.approvals) _ _ refl

-- The disconnect does not touch the id of the run.
HasId : String → Run → Type 0
HasId i r = r.id ≡ i

told-HasId : (i detail : String) → Keeps (OnRun (HasId i)) (publish detail >> persist)
unfolding ◌>>◌ HasId
told-HasId i detail =
    then-Keeps (OnRun (HasId i)) _ _ (run_publish-Keeps (HasId i) (λ r xs p. p) detail)
      λ _. run_persist-Keeps (HasId i) (λ r xs p. p)

disconnect_run-HasId : (reason i : String) → Keeps (OnRun (HasId i)) (disconnect_run reason)
unfolding disconnect_run ◌>>◌ HasId on_approvals
disconnect_run-HasId reason i = then-Keeps (OnRun (HasId i)) _ _ (get-Keeps (OnRun (HasId i))) λ r.
    when-Keeps (OnRun (HasId i)) _ _ (
      then-Keeps (OnRun (HasId i)) _ _ (run_modify-Keeps (HasId i) _ (λ q p. p))
        λ _. told-HasId i _)

abbrev pub is_closed : Run → Bool
is_closed r = not (any is_open_approval r.approvals)

abbrev pub ids : List Run → List String
ids runs = map (λ r. r.id) runs

-- The approvals of the runs, and with the open ones among them cancelled.
abbrev pub approvals_of : List Run → List (List Approval)
approvals_of runs = map (λ r. r.approvals) runs

abbrev pub cancelled_of : List Run → List (List Approval)
cancelled_of runs = map (λ r. settle cancelled r.approvals) runs

-- The loop stopped behind the runs `before`, at least one: they are closed, and the others unchanged.
pub record IsStopped (runs runs' : List Run) : Type 0 where
  pub before : List Run
  pub closed : List Run
  pub behind : List Run
  pub was : runs ≡ before ++ behind
  pub becomes : runs' ≡ closed ++ behind
  pub shut : all is_closed closed ≡ true
  pub same : ids closed ≡ ids before
  pub settled : approvals_of closed ≡ cancelled_of before
  pub reached : 1 ≤ length before

-- What the runs are behind the loop, by its result.
abbrev pub IsEnded : Result (Unit {0}) → List Run → List Run → Type 0
IsEnded (ok u) runs runs' =
    (all is_closed runs' ≡ true) × (ids runs' ≡ ids runs) × (approvals_of runs' ≡ cancelled_of runs)
IsEnded (err e) runs runs' = IsStopped runs runs'

after_run-IsEnded :
    (result : Result (Unit {0})) (s : Session) (r : Run) (rs : List Run) (rest : Ending)
    → is_closed s.run ≡ true
    → s.run.id ≡ r.id
    → s.run.approvals ≡ settle cancelled r.approvals
    → IsEnded rest.result rs rest.runs
    → IsEnded (after_run result s rs rest).result (r ∷ rs) (after_run result s rs rest).runs
after_run-IsEnded (err e) s r rs rest shut same settled h = record {
  before = r ∷ [];
  closed = s.run ∷ [];
  behind = rs;
  was = refl;
  becomes = refl;
  shut = ground arith;
  same = rw same refl;
  settled = rw settled refl;
  reached = omega arith;
}
after_run-IsEnded (ok u) s r rs rest shut same settled h = by_rest rest.result h
  where
    by_rest :
        (q : Result (Unit {0})) → IsEnded q rs rest.runs → IsEnded q (r ∷ rs) (s.run ∷ rest.runs)
    by_rest (ok v) (closed, named, all_settled) =
        (ground arith, rw (same, named) refl, rw (settled, all_settled) refl)
    by_rest (err e) stopped = record {
      before = r ∷ stopped.before;
      closed = s.run ∷ stopped.closed;
      behind = stopped.behind;
      was = rw stopped.was refl;
      becomes = rw stopped.becomes refl;
      shut = let rest_shut = stopped.shut in ground arith;
      same = rw (same, stopped.same) refl;
      settled = rw (settled, stopped.settled) refl;
      reached = omega arith;
    }

loop-IsEnded :
    (reason : String) (runs : List Run) (outcomes : List Bool) (log : List Effect)
    → IsEnded
        (handle_disconnect reason runs outcomes log).result
        runs
        (handle_disconnect reason runs outcomes log).runs
unfolding handle_disconnect Keeps HasId
loop-IsEnded reason [] outcomes log = (refl, refl, refl)
loop-IsEnded reason (r ∷ rs) outcomes log =
    let s : Session = record { run = r; outcomes = outcomes; log = log } in
    let shut = (disconnect_run-IsClosed reason s).closed in
    after_run-IsEnded (disconnect_run reason s).0 (disconnect_run reason s).1 r rs _ (rw shut refl)
      (disconnect_run-HasId reason r.id s refl) (disconnect_run-settle reason s)
      (loop-IsEnded reason rs _ _)

-- When every call returns, the loop over one run, and so the loop over all, ends without an exception.
disconnect_run-returns :
    (reason : String) (r : Run) (log : List Effect)
    → let end = disconnect_run reason (record { run = r; outcomes = []; log = log }) in
      (end.0 ≡ ok tt) × (end.1.outcomes ≡ [])
unfolding disconnect_run get modify when done publish persist call catch ◌>>=◌ ◌>>◌
disconnect_run-returns reason r log = by_test (any is_open_approval r.approvals)
  where
    by_test :
        (b : Bool)
        → let end =
            when b
              (modify (on_approvals (settle cancelled))
                >> (publish (join "app-server 연결 종료: " reason) >> persist))
              (record { run = r; outcomes = []; log = log }) in
          (end.0 ≡ ok tt) × (end.1.outcomes ≡ [])
    by_test true = (refl, refl)
    by_test false = (refl, refl)

loop-returns :
    (reason : String) (runs : List Run) (log : List Effect)
    → (handle_disconnect reason runs [] log).result ≡ ok tt
unfolding handle_disconnect
loop-returns reason [] log = refl
loop-returns reason (r ∷ rs) log =
    let (returned, left) = disconnect_run-returns reason r log in
    let s : Session = (disconnect_run reason (record { run = r; outcomes = []; log = log })).1 in
    ap (λ q. (after_run q s rs (handle_disconnect reason rs s.outcomes s.log)).result) returned
    ∙ ap (λ o. (handle_disconnect reason rs o s.log).result) left
    ∙ loop-returns reason rs s.log

-- After a disconnect that returns, no approval of any run is pending or being answered; when it raises, that
-- is so of a first part of the runs that is not empty, and the runs behind it are as they were. The
-- runs keep their ids and order, and the approvals that change are the open ones, which are
-- cancelled. When every call returns, the disconnect returns.
pub handle_disconnect-IsEnded :
    (reason : String) (runs : List Run) (outcomes : List Bool) (log : List Effect)
    → IsEnded
        (handle_disconnect reason runs outcomes log).result
        runs
        (handle_disconnect reason runs outcomes log).runs
      × ((handle_disconnect reason runs [] log).result ≡ ok tt)
handle_disconnect-IsEnded reason runs outcomes log =
    (loop-IsEnded reason runs outcomes log, loop-returns reason runs log)
