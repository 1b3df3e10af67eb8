-- ===== src/Gateway/Steps/Settled.antt =====
-- An approval that is answered, over any further steps of the event loop (app/gateway.py).
use codex_gate.Prelude.{
  ◌≡◌, refl, sym, ◌∙◌, ap, subst, ℕ, suc, String, Bool, true, false, some, List, [], ◌∷◌, ◌++◌, any,
  find, str_eq, eq_iff, if◌then◌else◌, arith, Bool-cases, inl, inr, some-injective, mem-find,
  any-find, any-find,
}
use codex_gate.Canary.Rows.{update_where}
use codex_gate.Canary.Found.{find-append, find-update_where}
use codex_gate.Gateway.Run.{Approval}
use codex_gate.Gateway.Action.{Session, Effect, respond}
use codex_gate.Gateway.Action.Keeps.{IsQuiet}
use codex_gate.Gateway.Approvals.{of_key, on_approvals}
use codex_gate.Gateway.Events.Frames.{IsFramed, is_response}

abbrev pub of_response : String → Effect → Bool
of_response k (respond key response) = str_eq key k
of_response k _ = false

-- The responses that went out for a key.
unfoldable pub count_responses : String → List Effect → ℕ
count_responses k [] = 0
count_responses k (e ∷ es) =
    if of_response k e then suc (count_responses k es) else count_responses k es

count_responses-append :
    (k : String) (es : List Effect) (e : Effect)
    → of_response k e ≡ false
    → count_responses k (es ++ e ∷ []) ≡ count_responses k es
unfolding count_responses
count_responses-append k [] e h = ground arith
count_responses-append k (x ∷ es) e h = let rest = count_responses-append k es e h in ground arith

other_response : (k : String) (e : Effect) → is_response e ≡ false → of_response k e ≡ false
other_response k (respond key response) h = absurd (ground arith)
other_response k _ h = refl

-- Two keys that both find the approval are one.
same-found :
    (j k : String) (xs : List Approval) {a b : Approval}
    → find (of_key k) xs ≡ some a
    → find (of_key j) xs ≡ some b
    → of_key j a ≡ true
    → b ≡ a
same-found j k xs {a} {b} e f h =
    let (inside, hit) = mem-find (of_key k) xs e in
    let same : k ≡ j = sym ((eq_iff a.request_id k).0 hit) ∙ (eq_iff a.request_id j).0 h in
    some-injective (sym f ∙ subst (λ i. find (of_key i) xs ≡ some a) same e)

-- The approval of a key, unchanged, with the responses that went out for it.
pub record IsHeld (k : String) (a : Approval) (n : ℕ) (s : Session) : Type 0 where
  pub found : find (of_key k) s.run.approvals ≡ some a
  pub count : count_responses k s.log ≡ n

module _ (k : String) (a : Approval) (n : ℕ) where
  pub other-IsQuiet : (e : Effect) → of_response k e ≡ false → IsQuiet (IsHeld k a n) e
  other-IsQuiet e h = record {
    outcome = λ s rest p. record { found = p.found; count = p.count };
    logged =
        λ s p. record { found = p.found; count = count_responses-append k s.log e h ∙ p.count };
  }

  pub IsHeld-IsFramed : IsFramed (IsHeld k a n)
  IsHeld-IsFramed = record {
    change = λ f same s p. record {
      found = ap (find (of_key k)) (same s.run) ∙ p.found;
      count = p.count;
    };
    quiet = λ e h. other-IsQuiet e (other_response k e h);
  }

  pub update-IsHeld :
      (test : Approval → Bool) (change : Approval → Approval)
      → ((x : Approval) → (change x).request_id ≡ x.request_id)
      → test a ≡ false
      → (s : Session) → IsHeld k a n s
      → IsHeld k a n (record s { run = on_approvals (update_where test change) s.run })
  unfolding on_approvals
  update-IsHeld test change same off s p = record {
    found =
        find-update_where (of_key k) test change (λ x t. ap (λ id. str_eq id k) (same x))
          s.run.approvals p.found
        ∙ ap (λ b. some (if b then change a else a)) off;
    count = p.count;
  }

  pub append-IsHeld :
      (x : Approval) (s : Session)
      → IsHeld k a n s
      → IsHeld k a n (record s { run = on_approvals (λ xs. xs ++ x ∷ []) s.run })
  unfolding on_approvals
  append-IsHeld x s p = record {
    found = find-append (of_key k) s.run.approvals (x ∷ []) p.found;
    count = p.count;
  }

  -- Another approval than the one that is held.
  pub other-found :
      (j : String) (s : Session) {b : Approval} (test : Approval → Bool)
      → IsHeld k a n s
      → find (of_key j) s.run.approvals ≡ some b
      → test a ≡ false
      → test b ≡ true
      → of_key j a ≡ false
  other-found j s {b} test p f off on = elim (Bool-cases (of_key j a)) [
    | inr miss ↦ miss
    | inl hit ↦
        let same = ap test (same-found j k s.run.approvals p.found f hit) in absurd (ground arith)
  ]

  pub other-key :
      (j : String) (s : Session) → IsHeld k a n s → of_key j a ≡ false → str_eq j k ≡ false
  other-key j s p off = elim (Bool-cases (str_eq j k)) [
    | inr miss ↦ miss
    | inl hit ↦
        let (inside, own) = mem-find (of_key k) s.run.approvals p.found in
        let same : a.request_id ≡ j = (eq_iff a.request_id k).0 own ∙ sym ((eq_iff j k).0 hit) in
        let on : str_eq a.request_id j ≡ true = (eq_iff a.request_id j).1 same in
        absurd (ground arith)
  ]

  -- A key that no approval has is not the one of the approval that is held.
  pub new-key :
      (j : String) (s : Session)
      → IsHeld k a n s
      → any (of_key j) s.run.approvals ≡ false
      → str_eq j k ≡ false
  new-key j s p off = elim (Bool-cases (str_eq j k)) [
    | inr miss ↦ miss
    | inl hit ↦
        let at_j : find (of_key j) s.run.approvals ≡ some a =
          subst (λ i. find (of_key i) s.run.approvals ≡ some a) (sym ((eq_iff j k).0 hit))
            p.found in
        let missed = any-find (of_key j) s.run.approvals off in absurd (ground arith)
  ]
