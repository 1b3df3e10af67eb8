-- ===== src/Gateway/Steps/Once.antt =====
-- Every step keeps an approval that is answered, and the responses that went out for it (app/gateway.py).
use codex_gate.Prelude.{
  ◌≡◌, refl, ap, ℕ, String, Bool, true, false, not, Option, none, some, List, [], ◌∷◌, any, find,
  str_eq, is_some, Result, ok, err, arith, Bool-cases, inl, inr,
}
use codex_gate.Canary.Rows.{update_where}
use codex_gate.Json.Values.{Value}
use codex_gate.Gateway.Run.{
  Kind, Answer, Approval, ApprovalStatus, Response, is_pending, is_open, resolved, pending,
  cancelled,
}
use codex_gate.Gateway.Action.{Session, ◌>>◌, modify, when, done}
use codex_gate.Gateway.Action.Keeps.{
  Keeps, get-Keeps, read-Keeps, then-Keeps, when-Keeps, done-Keeps, pure-Keeps, raise-Keeps,
  modify-Keeps, note-Keeps, call-Keeps, attempt-Keeps, finally-Keeps, reraise-Keeps,
}
use codex_gate.Gateway.Budget.{Env, forbidden_reference_reason}
use codex_gate.Gateway.Approvals.{
  of_key, open_key, on_approvals, settle, start_answer, end_answer, check_answer, start_with,
  begin_found, begin_answer, answer_sent, answer_failed, Request, request_payload, admit,
  handle_server_request, reject_forbidden_request, disconnect_run, resolve_server_request,
  new_approval,
}
use codex_gate.Gateway.Events.Frames.{
  IsFramed, frame_modify, frame_publish, frame_persist, frame_interrupt, frame_event,
}
use codex_gate.Gateway.Steps.{
  Step, answer, sent, failed, expire, request, event, disconnect, stop, begin_when, sent_for,
  step_sent, step_failed, sent_found, failed_found, expire_found, step, run_steps,
}
use codex_gate.Gateway.Steps.Settled.{
  IsHeld, IsHeld-IsFramed, other-IsQuiet, update-IsHeld, append-IsHeld, other-found, other-key,
  new-key,
}

check_answer-pending :
    (b : Approval) (decision : String) (granted : Option Value) {response : Response}
    → check_answer b decision granted ≡ ok response
    → is_pending b.status ≡ true
unfolding check_answer
check_answer-pending b decision granted e = elim (Bool-cases (is_pending b.status)) [
  | inl on ↦ on
  | inr off ↦ absurd (ground arith)
]

pending-false : (s : ApprovalStatus) → is_open s ≡ false → is_pending s ≡ false
pending-false s h = ground arith

module _ (k : String) (a : Approval) (n : ℕ) where
  abbrev Held : Session → Type 0
  Held = IsHeld k a n

  Held-IsFramed : IsFramed Held
  Held-IsFramed = IsHeld-IsFramed k a n

  update-Keeps :
      (test : Approval → Bool) (change : Approval → Approval)
      → ((x : Approval) → (change x).request_id ≡ x.request_id)
      → test a ≡ false
      → Keeps Held (modify (on_approvals (update_where test change)))
  update-Keeps test change same off = modify-Keeps Held _ (update-IsHeld k a n test change same off)

  start-Keeps :
      (j : String) (kind : Kind) (decision : String) (r : Result Response)
      → of_key j a ≡ false
      → Keeps Held (start_with j kind decision r)
  unfolding start_answer ◌>>◌
  start-Keeps j kind decision (err e) off = raise-Keeps Held _ e
  start-Keeps j kind decision (ok response) off =
      then-Keeps Held _ _ (update-Keeps (of_key j) (start_answer _) (λ x. refl) off)
        λ _. then-Keeps Held _ _ (frame_publish Held Held-IsFramed _) λ _. pure-Keeps Held response

  sent-Keeps :
      (j : String) (kind : Kind) (decision : String)
      → of_key j a ≡ false
      → Keeps Held (answer_sent j kind decision)
  unfolding answer_sent end_answer ◌>>◌
  sent-Keeps j kind decision off =
      then-Keeps Held _ _ (update-Keeps (of_key j) (end_answer resolved) (λ x. refl) off) λ _.
        then-Keeps Held _ _ (when-Keeps Held _ _ (frame_interrupt Held Held-IsFramed _)) λ _.
          then-Keeps Held _ _ (frame_publish Held Held-IsFramed _)
            λ _. frame_persist Held Held-IsFramed

  failed-Keeps : (j : String) → of_key j a ≡ false → Keeps Held (answer_failed j)
  unfolding answer_failed end_answer ◌>>◌
  failed-Keeps j off =
      then-Keeps Held _ _ (update-Keeps (of_key j) (end_answer pending) (λ x. refl) off) λ _.
        then-Keeps Held _ _ (frame_publish Held Held-IsFramed _)
          λ _. frame_persist Held Held-IsFramed

  -- A settled approval: nobody answers it, and it is neither pending nor being answered.
  module _ (closed : is_open a.status ≡ false) (free : is_some a.answering ≡ false) where
    begin-Keeps :
        (j decision : String) (granted : Option Value)
        → Keeps Held (begin_answer j decision granted)
    unfolding begin_answer Keeps
    begin-Keeps j decision granted =
        read-Keeps Held _ λ s p. by_found s p (find (of_key j) s.run.approvals) refl
      where
        by_check :
            (s : Session)
            → Held s
            → (b : Approval) → find (of_key j) s.run.approvals ≡ some b
            → (r : Result Response) → check_answer b decision granted ≡ r
            → Held (start_with j b.kind decision r s).1
        by_check s p b f (err e) c = raise-Keeps Held _ e s p
        by_check s p b f (ok response) c =
            let off =
              other-found k a n j s (λ x. is_pending x.status) p f (pending-false a.status closed)
                (check_answer-pending b decision granted c) in
            start-Keeps j b.kind decision (ok response) off s p

        by_found :
            (s : Session)
            → Held s
            → (o : Option Approval) → find (of_key j) s.run.approvals ≡ o
            → Held (begin_found j decision granted o s).1
        by_found s p none f = raise-Keeps Held _ _ s p
        by_found s p (some b) f = by_check s p b f (check_answer b decision granted) refl

    begin_when-Keeps :
        (b : Bool) (j decision : String) (granted : Option Value)
        → Keeps Held (begin_when b j decision granted)
    begin_when-Keeps b j decision granted =
        when-Keeps Held b _
          (then-Keeps Held _ _ (begin-Keeps j decision granted) λ _. done-Keeps Held)

    sending-Keeps :
        (j : String) (kind : Kind) (sending : Answer)
        → str_eq j k ≡ false
        → of_key j a ≡ false
        → Keeps Held (sent_for j kind (some sending))
    unfolding ◌>>◌
    sending-Keeps j kind sending new off =
        then-Keeps Held _ _ (note-Keeps Held _ (other-IsQuiet k a n _ new))
          λ _. sent-Keeps j kind sending.decision off

    sent_step-Keeps : (j : String) → Keeps Held (step_sent j)
    unfolding Keeps ◌>>◌
    sent_step-Keeps j = read-Keeps Held _ λ s p. by_found s p (find (of_key j) s.run.approvals) refl
      where
        by_answer :
            (s : Session)
            → Held s
            → (b : Approval) → find (of_key j) s.run.approvals ≡ some b
            → (o : Option Answer) → b.answering ≡ o
            → Held (sent_for j b.kind o s).1
        by_answer s p b f none e = done-Keeps Held s p
        by_answer s p b f (some sending) e =
            let off = other-found k a n j s (λ x. is_some x.answering) p f free (ap is_some e) in
            sending-Keeps j b.kind sending (other-key k a n j s p off) off s p

        by_found :
            (s : Session)
            → Held s
            → (o : Option Approval) → find (of_key j) s.run.approvals ≡ o
            → Held (sent_found j o s).1
        by_found s p none f = done-Keeps Held s p
        by_found s p (some b) f = by_answer s p b f b.answering refl

    failed_step-Keeps : (j : String) → Keeps Held (step_failed j)
    unfolding Keeps when done
    failed_step-Keeps j =
        read-Keeps Held _ λ s p. by_found s p (find (of_key j) s.run.approvals) refl
      where
        by_test :
            (s : Session)
            → Held s
            → (b : Approval) → find (of_key j) s.run.approvals ≡ some b
            → (sending : Bool) → is_some b.answering ≡ sending
            → Held (when sending (answer_failed j) s).1
        by_test s p b f false e = done-Keeps Held s p
        by_test s p b f true e =
            failed-Keeps j (other-found k a n j s (λ x. is_some x.answering) p f free e) s p

        by_found :
            (s : Session)
            → Held s
            → (o : Option Approval) → find (of_key j) s.run.approvals ≡ o
            → Held (failed_found j o s).1
        by_found s p none f = done-Keeps Held s p
        by_found s p (some b) f = by_test s p b f (is_some b.answering) refl

    expire-Keeps : (j : String) (o : Option Approval) → Keeps Held (expire_found j o)
    expire-Keeps j none = done-Keeps Held
    expire-Keeps j (some b) = when-Keeps Held _ _ (begin_when-Keeps _ j "cancel" none)

    settle_keeps :
        (status : ApprovalStatus) (s : Session)
        → Held s
        → Held (record s { run = on_approvals (settle status) s.run })
    unfolding settle
    settle_keeps status =
        update-IsHeld k a n (λ x. is_open x.status) (λ x. record x { status = status }) (λ x. refl)
          closed

    resolved-Keeps : (key : Option String) → Keeps Held (resolve_server_request key)
    unfolding resolve_server_request
    resolved-Keeps none = done-Keeps Held
    resolved-Keeps (some j) =
        update-Keeps (open_key j) (λ x. record x { status = resolved }) (λ x. refl) (ground arith)

    reject-Keeps :
        (j : String) (kind : Kind) (reason : String)
        → str_eq j k ≡ false
        → Keeps Held (reject_forbidden_request j kind reason)
    unfolding reject_forbidden_request ◌>>◌
    reject-Keeps j kind reason new =
        then-Keeps Held _ _
          (frame_modify Held Held-IsFramed (λ r. record r { stop_reason = some reason })
            (λ r. refl))
          λ _. then-Keeps Held _ _ (frame_publish Held Held-IsFramed _) λ _.
            then-Keeps Held _ _ (frame_persist Held Held-IsFramed) λ _.
              then-Keeps Held _ _
                (attempt-Keeps Held _ (call-Keeps Held _ (other-IsQuiet k a n _ new)))
                λ r.
                  then-Keeps Held _ _
                    (finally-Keeps Held _ _ (frame_interrupt Held Held-IsFramed _)
                      (frame_persist Held Held-IsFramed))
                    λ _. reraise-Keeps Held r

    admit-Keeps :
        (env : Env) (q : Request) (o : Option String)
        → str_eq q.request_id k ≡ false
        → Keeps Held (admit env q o)
    unfolding ◌>>◌
    admit-Keeps env q (some reason) new = reject-Keeps q.request_id q.kind reason new
    admit-Keeps env q none new =
        then-Keeps Held _ _ (modify-Keeps Held _ (append-IsHeld k a n (new_approval env q))) λ _.
          then-Keeps Held _ _ (frame_publish Held Held-IsFramed _)
            λ _. frame_persist Held Held-IsFramed

    request-Keeps : (env : Env) (q : Request) → Keeps Held (handle_server_request env q)
    unfolding Keeps handle_server_request when done
    request-Keeps env q =
        read-Keeps Held _ λ s p. by_test s p (any (of_key q.request_id) s.run.approvals) refl
      where
        by_test :
            (s : Session)
            → Held s
            → (known : Bool) → any (of_key q.request_id) s.run.approvals ≡ known
            → Held
                (when
                  (not known)
                  (admit env q (forbidden_reference_reason env (request_payload q)))
                  s).1
        by_test s p true e = done-Keeps Held s p
        by_test s p false e = admit-Keeps env q _ (new-key k a n q.request_id s p e) s p

    disconnect-Keeps : (reason : String) → Keeps Held (disconnect_run reason)
    unfolding disconnect_run ◌>>◌
    disconnect-Keeps reason = then-Keeps Held _ _ (get-Keeps Held) λ r. when-Keeps Held _ _ (
        then-Keeps Held _ _ (modify-Keeps Held _ (settle_keeps cancelled)) λ _.
          then-Keeps Held _ _ (frame_publish Held Held-IsFramed _)
            λ _. frame_persist Held Held-IsFramed)

    step-Keeps : (env : Env) (x : Step) → Keeps Held (step env x)
    unfolding step
    step-Keeps env (answer j decision granted) =
        then-Keeps Held _ _ (get-Keeps Held) λ r. begin_when-Keeps _ j decision granted
    step-Keeps env (sent j) = sent_step-Keeps j
    step-Keeps env (failed j) = failed_step-Keeps j
    step-Keeps env (expire j) = then-Keeps Held _ _ (get-Keeps Held) λ r. expire-Keeps j _
    step-Keeps env (request q) = request-Keeps env q
    step-Keeps env (event model e) =
        frame_event Held Held-IsFramed (settle_keeps resolved) resolved-Keeps env model e
    step-Keeps env (disconnect reason) = disconnect-Keeps reason
    step-Keeps env (stop reason) = frame_interrupt Held Held-IsFramed reason

    pub run_steps-IsHeld :
        (env : Env) (xs : List Step) (s : Session) → Held s → Held (run_steps env xs s)
    unfolding run_steps Keeps
    run_steps-IsHeld env [] s p = p
    run_steps-IsHeld env (x ∷ xs) s p = run_steps-IsHeld env xs _ (step-Keeps env x s p)
