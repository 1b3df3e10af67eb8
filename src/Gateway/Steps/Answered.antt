-- ===== src/Gateway/Steps/Answered.antt =====
-- The delivery of a response, and what any further steps make of its approval (app/gateway.py).
use Prim.Native.String.{◌++◌ as join}
use codex_gate.Prelude.{
  ◌≡◌, refl, sym, ap, subst, ℕ, suc, String, Bool, ◌&&◌, Option, some, List, [], ◌∷◌, ◌++◌, find,
  str_eq, eq_iff, err, arith, mem-find,
}
use codex_gate.Canary.Found.{find-updated}
use codex_gate.Json.Values.{Value}
use codex_gate.Gateway.Run.{Kind, Answer, Approval, Response, resolved}
use codex_gate.Gateway.Action.{
  Session, Effect, respond, ◌>>=◌, ◌>>◌, get, modify, note, when, publish, persist, interrupt,
  raise,
}
use codex_gate.Gateway.Action.Keeps.{Keeps, then-Keeps, when-Keeps}
use codex_gate.Gateway.Budget.{Env}
use codex_gate.Gateway.Approvals.{
  of_key, on_approvals, end_answer, check_answer, begin_found, begin_answer, answer_sent,
  is_permissions, answer_text,
}
use codex_gate.Gateway.Events.Frames.{frame_publish, frame_persist, frame_interrupt}
use codex_gate.Gateway.Steps.{Step, sent, sent_for, sent_found, step, run_steps}
use codex_gate.Gateway.Steps.Settled.{IsHeld, IsHeld-IsFramed, count_responses}
use codex_gate.Gateway.Steps.Once.{run_steps-IsHeld}

pub count_responses-respond :
    (k : String) (es : List Effect) (response : Response)
    → count_responses k (es ++ respond k response ∷ []) ≡ suc (count_responses k es)
unfolding count_responses
count_responses-respond k [] response = let same = (eq_iff k k).1 refl in ground arith
count_responses-respond k (e ∷ es) response =
    let rest = count_responses-respond k es response in ground arith

rest-Keeps :
    (k : String) (a : Approval) (n : ℕ) (b : Bool) (detail : String)
    → Keeps (IsHeld k a n) (when b (interrupt "permissions 승인 취소") >> (publish detail >> persist))
unfolding ◌>>◌
rest-Keeps k a n b detail =
    then-Keeps _ _ _ (when-Keeps _ b _ (frame_interrupt _ (IsHeld-IsFramed k a n) _)) λ _.
      then-Keeps _ _ _ (frame_publish _ (IsHeld-IsFramed k a n) detail)
        λ _. frame_persist _ (IsHeld-IsFramed k a n)

pub answer_sent-IsHeld :
    (k : String) (kind : Kind) (decision : String) (a : Approval) (n : ℕ) (s : Session)
    → find (of_key k) s.run.approvals ≡ some a
    → count_responses k s.log ≡ n
    → IsHeld k (end_answer resolved a) n (answer_sent k kind decision s).1
unfolding answer_sent modify ◌>>=◌ ◌>>◌ on_approvals end_answer Keeps
answer_sent-IsHeld k kind decision a n s f c =
    rest-Keeps k (end_answer resolved a) n (is_permissions kind && str_eq decision "cancel")
      (join "승인 응답 완료: " (answer_text kind decision)) _
      (record {
        found =
            find-updated (of_key k) (of_key k) (end_answer resolved) s.run.approvals a (λ y t. refl)
              f (mem-find (of_key k) s.run.approvals f).1;
        count = c;
      })

sent-IsHeld :
    (env : Env) (k : String) (a : Approval) (sending : Answer) (s : Session)
    → find (of_key k) s.run.approvals ≡ some a
    → a.answering ≡ some sending
    → IsHeld k (end_answer resolved a) (suc (count_responses k s.log)) (step env (sent k) s).1
unfolding step get note ◌>>=◌ ◌>>◌
sent-IsHeld env k a sending s f e =
    subst
      (λ o. IsHeld k (end_answer resolved a) (suc (count_responses k s.log)) (sent_found k o s).1)
      (sym f)
      (subst
        (λ o.
          IsHeld k (end_answer resolved a) (suc (count_responses k s.log))
            (sent_for k a.kind o s).1)
        (sym e)
        (answer_sent-IsHeld k a.kind sending.decision a _ _ f
          (count_responses-respond k s.log sending.response)))

begin_answer-closed :
    (k : String) (a : Approval) (n : ℕ) (s : Session) (decision : String) (granted : Option Value)
    → IsHeld k (end_answer resolved a) n s
    → begin_answer k decision granted s ≡ (err "이미 처리되었거나 존재하지 않는 승인 요청입니다.", s)
unfolding begin_answer check_answer get raise ◌>>=◌ end_answer
begin_answer-closed k a n s decision granted p =
    ap (λ o. begin_found k decision granted o s) p.found

-- When the response to a request arrives at the app server, and after any further steps of the event loop,
-- whichever calls fail in them: the approval is resolved, exactly one more response to the request is
-- in the log than before, and an attempt to answer it again is refused and changes nothing.
pub sent-once :
    (env : Env) (k : String) (a : Approval) (sending : Answer) (s : Session) (xs : List Step)
    → find (of_key k) s.run.approvals ≡ some a
    → a.answering ≡ some sending
    → IsHeld k
        (end_answer resolved a)
        (suc (count_responses k s.log))
        (run_steps env (sent k ∷ xs) s)
      × ((decision : String) (granted : Option Value)
          → begin_answer k decision granted (run_steps env (sent k ∷ xs) s)
            ≡ (err "이미 처리되었거나 존재하지 않는 승인 요청입니다.", run_steps env (sent k ∷ xs) s))
unfolding run_steps end_answer
sent-once env k a sending s xs f e =
    let held =
      run_steps-IsHeld k (end_answer resolved a) (suc (count_responses k s.log)) refl refl env xs
        (step env (sent k) s).1 (sent-IsHeld env k a sending s f e) in
    (held, λ decision granted. begin_answer-closed k a _ _ decision granted held)
