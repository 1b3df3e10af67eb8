-- ===== src/Gateway/Steps/Resolve.antt =====
-- resolve_approval as a whole, when the app server takes the response and when it does not
-- (app/gateway.py), and what a response may grant.
use codex_gate.Prelude.{
  ◌≡◌, refl, sym, ◌∙◌, ap, subst, ℕ, suc, String, Bool, true, false, Option, none, some, List, [],
  ◌∷◌, find, Result, ok, err, arith, mem-find, ◌⊎◌, inl, inr,
}
use codex_gate.Canary.Found.{find-updated}
use codex_gate.Json.Values.{Value, is_permission_subset}
use codex_gate.Json.Paths.{at, WithinFound, is_permission_subset-at}
use codex_gate.Gateway.Run.{
  Kind, command, file_change, permissions, Approval, Run, Response, grant, ApprovalStatus, resolved,
  pending, is_pending,
}
use codex_gate.Gateway.Action.{
  Action, Session, Effect, respond, continue, ◌>>=◌, ◌>>◌, get, modify, publish, persist, raise,
  call, catch, attempt, pure,
}
use codex_gate.Gateway.Action.Keeps.{Keeps, then-Keeps}
use codex_gate.Gateway.Approvals.{
  of_key, on_approvals, end_answer, start_answer, check_answer, approval_result, start_with,
  begin_found, begin_answer, answer_failed, finish_answer, kind_of, resolve_approval, or_empty,
}
use codex_gate.Gateway.Events.Frames.{frame_publish, frame_persist}
use codex_gate.Gateway.Steps.Answered.{answer_sent-IsHeld, count_responses-respond}
use codex_gate.Gateway.Steps.Settled.{IsHeld, IsHeld-IsFramed, count_responses}

approval_result-within :
    (a : Approval) (decision : String) (granted : Option Value) (v : Value) (scope : String)
    → approval_result a decision granted ≡ ok (grant v scope)
    → is_permission_subset v (or_empty a.permissions) ≡ true
unfolding approval_result
approval_result-within a decision granted v scope e = by_kind a.kind refl
  where
    by_kind : (kind : Kind) → a.kind ≡ kind → is_permission_subset v (or_empty a.permissions) ≡ true
    by_kind command h = absurd (ground arith)
    by_kind file_change h = absurd (ground arith)
    by_kind permissions h = ground arith

check_answer-result :
    (a : Approval) (decision : String) (granted : Option Value) (r : Response)
    → check_answer a decision granted ≡ ok r
    → (is_pending a.status ≡ true) × (approval_result a decision granted ≡ ok r)
unfolding check_answer
check_answer-result a decision granted r e = ground arith

start_with-result :
    (k : String) (kind : Kind) (decision : String) (r : Result Response) (s : Session)
    (response : Response)
    → (start_with k kind decision r s).0 ≡ ok response
    → r ≡ ok response
unfolding ◌>>=◌ ◌>>◌ modify publish pure raise
start_with-result k kind decision (err x) s response e = absurd (ground arith)
start_with-result k kind decision (ok x) s response e = e

-- When the first half of an answer ends with a grant to be sent, the approval was pending, and whatever a
-- path of keys reaches in the granted permissions, it reaches a value in the requested ones of which
-- that is a subset.
pub begin_answer-within :
    (k decision : String) (granted : Option Value) (s : Session) (a : Approval) (v : Value)
    (scope : String) (path : List String) (w : Value)
    → find (of_key k) s.run.approvals ≡ some a
    → (begin_answer k decision granted s).0 ≡ ok (grant v scope)
    → at path v ≡ some w
    → (is_pending a.status ≡ true) × WithinFound w (at path (or_empty a.permissions))
unfolding begin_answer get ◌>>=◌
begin_answer-within k decision granted s a v scope path w f e reached =
    let started : (start_with k a.kind decision (check_answer a decision granted) s).0
        ≡ ok (grant v scope) =
      subst (λ o. (begin_found k decision granted o s).0 ≡ ok (grant v scope)) f e in
    let (waiting, result) =
      check_answer-result a decision granted _
        (start_with-result k a.kind decision _ s _ started) in
    (
      waiting,
      is_permission_subset-at v _ path w (approval_result-within a decision granted v scope result)
          reached,
    )

-- What an action raises here is the error of a failed call.
abbrev CallResult : Result (Unit {0}) → Type 0
CallResult q = (q ≡ ok tt) ⊎ (q ≡ err "call failed")

persist-CallResult : (s : Session) → CallResult (persist s).0
unfolding persist get call catch modify ◌>>=◌ ◌>>◌
persist-CallResult s = by_outcome s.run s.outcomes s.log
  where
    by_outcome :
        (r : Run) (outcomes : List Bool) (l : List Effect)
        → CallResult (persist (record { run = r; outcomes = outcomes; log = l })).0
    by_outcome r [] l = inl refl
    by_outcome r (false ∷ rest) l = inr refl
    by_outcome r (true ∷ []) l = inl refl
    by_outcome r (true ∷ true ∷ rest) l = inl refl
    by_outcome r (true ∷ false ∷ rest) l = inl refl

answer_failed-CallResult : (k : String) (s : Session) → CallResult (answer_failed k s).0
unfolding answer_failed modify publish ◌>>=◌ ◌>>◌
answer_failed-CallResult k s = persist-CallResult _

-- Behind such an action, the error that is raised again is the same one.
raise_again :
    (q : Result (Unit {0})) (s : Session)
    → CallResult q
    → continue {B = Unit {0}} q (λ _. raise "call failed") s ≡ (err "call failed", s)
unfolding raise
raise_again q s (inl e) = rw e refl
raise_again q s (inr e) = rw e refl

published-Keeps :
    (k : String) (a : Approval) (n : ℕ) (detail : String)
    → Keeps (IsHeld k a n) (publish detail >> persist)
unfolding ◌>>◌
published-Keeps k a n detail =
    then-Keeps _ _ _ (frame_publish _ (IsHeld-IsFramed k a n) detail)
      λ _. frame_persist _ (IsHeld-IsFramed k a n)

failed-IsHeld :
    (k : String) (a : Approval) (s : Session)
    → find (of_key k) s.run.approvals ≡ some a
    → IsHeld k (end_answer pending a) (count_responses k s.log) (answer_failed k s).1
unfolding answer_failed modify ◌>>=◌ ◌>>◌ on_approvals end_answer Keeps
failed-IsHeld k a s f =
    published-Keeps k (end_answer pending a) _ "승인 응답 전송 실패: 다시 시도하거나 작업을 중단하세요." _ (record {
      found =
          find-updated (of_key k) (of_key k) (end_answer pending) s.run.approvals a (λ y t. refl) f
            (mem-find (of_key k) s.run.approvals f).1;
      count = refl;
    })

-- The session behind the first half of an answer.
abbrev asked : String → Kind → String → Response → Session → Session
asked k kind decision response s = (start_with k kind decision (ok response) s).1

asked-found :
    (k : String) (kind : Kind) (decision : String) (response : Response) (a : Approval)
    (s : Session)
    → find (of_key k) s.run.approvals ≡ some a
    → find (of_key k) (asked k kind decision response s).run.approvals
      ≡ some (start_answer (record { decision = decision; response = response }) a)
unfolding ◌>>=◌ ◌>>◌ modify publish pure on_approvals start_answer
asked-found k kind decision response a s f =
    find-updated (of_key k) (of_key k) (start_answer _) s.run.approvals a (λ y t. refl) f
      (mem-find (of_key k) s.run.approvals f).1

abbrev ask_rest : String → Kind → String → Result Response → Action (Unit {0})
ask_rest k kind decision checked = do
  response ← start_with k kind decision checked
  r ← get
  taken ← attempt (call (respond k response))
  finish_answer k (kind_of k r) decision taken

resolve_approval-ask :
    (k decision : String) (granted : Option Value) (response : Response) (a : Approval)
    (s : Session)
    → find (of_key k) s.run.approvals ≡ some a
    → check_answer a decision granted ≡ ok response
    → resolve_approval k decision granted s ≡ ask_rest k a.kind decision (ok response) s
unfolding resolve_approval begin_answer get ◌>>=◌
resolve_approval-ask k decision granted response a s f c =
    ap (λ o. ask_first o s) f ∙ ap (λ checked. ask_rest k a.kind decision checked s) c
  where
    ask_first : Option Approval → Action (Unit {0})
    ask_first o = do
      response' ← begin_found k decision granted o
      r ← get
      taken ← attempt (call (respond k response'))
      finish_answer k (kind_of k r) decision taken

is_pending-true : (status : ApprovalStatus) → is_pending status ≡ true → status ≡ pending
is_pending-true pending h = refl
is_pending-true _ h = absurd (ground arith)

ask_failed :
    (k decision : String) (response : Response) (a : Approval) (r : Run) (rest : List Bool)
    (l : List Effect)
    → find (of_key k) r.approvals ≡ some a
    → ((ask_rest k a.kind decision
          (ok response)
          (record { run = r; outcomes = false ∷ rest; log = l })).0
        ≡ err "call failed")
      × IsHeld k
          (end_answer pending a)
          (count_responses k l)
          (ask_rest k a.kind decision
            (ok response)
            (record { run = r; outcomes = false ∷ rest; log = l })).1
unfolding ◌>>=◌ ◌>>◌ modify publish pure get attempt call raise end_answer start_answer
ask_failed k decision response a r rest l f =
    let s : Session = record { run = r; outcomes = false ∷ rest; log = l } in
    let s' : Session = record (asked k a.kind decision response s) { outcomes = rest } in
    let again = raise_again _ (answer_failed k s').1 (answer_failed-CallResult k s') in
    (
      ap (λ z. z.0) again,
      subst (λ z. IsHeld k (end_answer pending a) (count_responses k l) z.1) (sym again)
          (failed-IsHeld k (start_answer _ a) s' (asked-found k a.kind decision response a s f)),
    )

ask_sent :
    (k decision : String) (response : Response) (a : Approval) (r : Run) (rest : List Bool)
    (l : List Effect)
    → find (of_key k) r.approvals ≡ some a
    → IsHeld k
        (end_answer resolved a)
        (suc (count_responses k l))
        (ask_rest k a.kind decision
          (ok response)
          (record { run = r; outcomes = true ∷ rest; log = l })).1
unfolding ◌>>=◌ ◌>>◌ modify publish pure get attempt call end_answer start_answer
ask_sent k decision response a r rest l f =
    let s : Session = record { run = r; outcomes = true ∷ rest; log = l } in
    answer_sent-IsHeld k _ decision (start_answer _ a) _ _
      (asked-found k a.kind decision response a s f) (count_responses-respond k l response)

-- An answer that passes the checks, on an approval that nobody else is answering. When the app server takes
-- the response, the approval is resolved and exactly one more response is in the log, even if a later
-- call fails; when it does not, the call raises, and approval and responses are as they were.
pub resolve_approval-outcomes :
    (k decision : String) (granted : Option Value) (response : Response) (a : Approval) (r : Run)
    (rest : List Bool) (l : List Effect)
    → find (of_key k) r.approvals ≡ some a
    → a.answering ≡ none
    → check_answer a decision granted ≡ ok response
    → IsHeld k
        (record a { status = resolved })
        (suc (count_responses k l))
        (resolve_approval k decision granted
          (record { run = r; outcomes = true ∷ rest; log = l })).1
      × ((resolve_approval k decision granted
            (record { run = r; outcomes = false ∷ rest; log = l })).0
          ≡ err "call failed")
      × IsHeld k a
          (count_responses k l)
          (resolve_approval k decision granted
            (record { run = r; outcomes = false ∷ rest; log = l })).1
unfolding end_answer
resolve_approval-outcomes k decision granted response a r rest l f free c =
    let taken : Session = record { run = r; outcomes = true ∷ rest; log = l } in
    let refused : Session = record { run = r; outcomes = false ∷ rest; log = l } in
    let unlocked : (status : ApprovalStatus) → end_answer status a ≡ record a { status = status } =
      λ status. ap (λ x. record a { status = status; answering = x }) (sym free) in
    let waits : a.status ≡ pending =
      is_pending-true a.status (check_answer-result a decision granted response c).0 in
    let same : end_answer pending a ≡ a =
      unlocked pending ∙ ap (λ x. record a { status = x }) (sym waits) in
    let (raised, kept) = ask_failed k decision response a r rest l f in
    (
      subst (λ q. IsHeld k (record a { status = resolved }) (suc (count_responses k l)) q.1)
          (sym (resolve_approval-ask k decision granted response a taken f c))
          (subst
            (λ x.
              IsHeld k x (suc (count_responses k l))
                (ask_rest k a.kind decision (ok response) taken).1)
            (unlocked resolved) (ask_sent k decision response a r rest l f)),
      ap (λ q. q.0) (resolve_approval-ask k decision granted response a refused f c) ∙ raised,
      subst (λ q. IsHeld k a (count_responses k l) q.1)
          (sym (resolve_approval-ask k decision granted response a refused f c))
          (subst
            (λ x.
              IsHeld k x (count_responses k l) (ask_rest k a.kind decision (ok response) refused).1)
            same kept),
    )
