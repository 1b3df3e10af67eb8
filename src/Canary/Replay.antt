-- ===== src/Canary/Replay.antt =====
-- The two ends of claim_codex_canary_one_shot_execution (app/storage.py).
use codex_gate.Prelude.{
  some-injective, ℕ, ◌≡◌, refl, sym, ◌∙◌, subst, ◌⊎◌, inl, inr, Bool, true, false, ◌&&◌, not,
  String, some, find, str_eq, eq_iff, is_some, leb, [], ◌∷◌, ◌++◌, &&-true, arith,
}
use codex_gate.Canary.Rows.{WindowRow, PermitRow, ClaimRow, Binding, Db, is_armed}
use codex_gate.Canary.Tx.{Conn, transaction}
use codex_gate.Canary.Binding.{Hashes, Surroundings}
use codex_gate.Canary.Windows.{window_nonce, consume_window}
use codex_gate.Canary.Permits.{permit_nonce, consume_permit}
use codex_gate.Canary.Claims.{
  lookup_pair, claim_codex_canary_one_shot_execution, claim_matches, claim_checked, new_claim,
}
use codex_gate.Canary.Found.{find-updated}
use codex_gate.Canary.Outcome.{
  Ends, pure-Ends, found-Ends, require-Ends, branch-Ends, get-Ends, modify-Ends, bind-Ends,
  seq-Ends, update-Ends, test-Ends, nonce-Ends, validated-Ends, ByResult, fresh, transaction-Ends,
  refusal-Ends,
}
use codex_gate.Canary.Spent.{IsPermitSpent, IsWindowSpent}

not_both : {b : Bool} (c : Bool) → b ≡ false → (b && c) ≡ true → ⊥
not_both c off on = ground arith

is-fresh : (id : String) (b c : Bool) → (b && c) ≡ true → (str_eq id id && b && c) ≡ true
is-fresh id b c h = let same = (eq_iff id id).1 refl in ground arith

not-false : (b : Bool) → not b ≡ false → b ≡ true
not-false true h = refl
not-false false h = absurd (ground arith)

-- The two rows that a claim looks up, both usable.
record IsPair (h : Hashes) (permit_text canary_text : String) (db : Db)
    (pair : PermitRow × WindowRow) : Type 0 where
  permit_found : find (permit_nonce (h.digest permit_text)) db.permits ≡ some pair.0
  window_found : find (window_nonce (h.digest canary_text)) db.windows ≡ some pair.1
  permit_ok : (is_armed pair.0.status && not (is_some pair.0.consumed_at)) ≡ true
  window_ok : (is_armed pair.1.status && not (is_some pair.1.consumed_at)) ≡ true

module _ (h : Hashes) (permit_text canary_text : String) where
  lookup_pair-IsPair :
      {Q : PermitRow × WindowRow → Conn → Type 0} {E : String → Conn → Type 0} (c : Conn)
      → ((pair : PermitRow × WindowRow)
          → IsPair h permit_text canary_text c.working pair
          → Q pair c)
      → ((code : String) → E code c)
      → Ends (lookup_pair h permit_text canary_text c) Q E
  lookup_pair-IsPair c q e = get-Ends _ c (
      bind-Ends _ _ c (
        found-Ends _ _ c
          (λ permit here. bind-Ends _ _ c (
            found-Ends _ _ c
              (λ window there.
                require-Ends _ _ _ c
                  (λ permit_ok.
                    require-Ends _ _ _ c
                      (λ window_ok. pure-Ends _ c (
                        q (permit, window)
                          (record {
                            permit_found = here;
                            window_found = there;
                            permit_ok = permit_ok;
                            window_ok = window_ok;
                          })))
                      (λ _. e _))
                  (λ _. e _))
              (λ _. e _)))
          (λ _. e _)))

  abbrev pub Spent : Db → Type 0
  Spent db = IsPermitSpent (h.digest permit_text) db ⊎ IsWindowSpent (h.digest canary_text) db

  not-Spent :
      (db : Db) (pair : PermitRow × WindowRow)
      → IsPair h permit_text canary_text db pair
      → Spent db
      → ⊥
  not-Spent db pair p (inl k) =
      not_both _
        (subst (λ r. is_armed r.status ≡ false) (some-injective (sym k.found ∙ p.permit_found))
          k.not_armed)
        p.permit_ok
  not-Spent db pair p (inr k) =
      not_both _
        (subst (λ r. is_armed r.status ≡ false) (some-injective (sym k.found ∙ p.window_found))
          k.not_armed)
        p.window_ok

  -- The claim is refused, and the tables stay as they were.
  pub claim-refused :
      (s : Surroundings) (b : Binding) (now : ℕ) (id : String) (db : Db)
      → Spent db
      → ByResult
          (transaction
            (claim_codex_canary_one_shot_execution h s
              (some permit_text)
              (some canary_text)
              b
              now
              id)
            db)
          (λ _ _. ⊥)
          (λ _ db'. db' ≡ db)
  unfolding claim_codex_canary_one_shot_execution
  claim-refused s b now id db spent = transaction-Ends _ _ _ db (
      seq-Ends _ _ _ (
        validated-Ends h b _
          (bind-Ends _ _ _ (
            nonce-Ends _ _ _
              (bind-Ends _ _ _ (
                nonce-Ends _ _ _
                  (bind-Ends _ _ _ (
                    lookup_pair-IsPair (fresh db) (λ pair p. absurd (not-Spent db pair p spent))
                      (λ _. refl)))
                  refl))
              refl))
          (λ _. refl)))

  -- What a claim that returns has done.
  pub record IsClaimed (s : Surroundings) (b : Binding) (now : ℕ) (id : String) (db : Db)
      (row : ClaimRow) (db' : Db) : Type 0 where
    pub permit : PermitRow
    pub window : WindowRow
    pub permit_found : find (permit_nonce (h.digest permit_text)) db.permits ≡ some permit
    pub window_found : find (window_nonce (h.digest canary_text)) db.windows ≡ some window
    pub permit_armed : is_armed permit.status ≡ true
    pub window_armed : is_armed window.status ≡ true
    pub permit_in_time : leb permit.expires_at now ≡ false
    pub window_in_time : leb window.expires_at now ≡ false
    pub matches : claim_matches s b now permit window ≡ true
    pub permit_consumed :
        find (permit_nonce (h.digest permit_text)) db'.permits ≡ some (consume_permit now permit)
    pub window_consumed :
        find (window_nonce (h.digest canary_text)) db'.windows ≡ some (consume_window now window)
    pub returned : row ≡ new_claim b now id permit window
    pub claim_added : db'.claims ≡ db.claims ++ row ∷ []

  claim_checked-IsClaimed :
      (s : Surroundings) (b : Binding) (now : ℕ) (id : String) (db : Db)
      (pair : PermitRow × WindowRow)
      → IsPair h permit_text canary_text db pair
      → leb pair.0.expires_at now ≡ false
      → leb pair.1.expires_at now ≡ false
      → claim_matches s b now pair.0 pair.1 ≡ true
      → Ends
          (claim_checked b now id pair.0 pair.1 (fresh db))
          (λ row c. IsClaimed s b now id db row c.working)
          (λ _ _. Unit {0})
  claim_checked-IsClaimed s b now id db pair p permit_in_time window_in_time matches =
      seq-Ends _ _ _ (
        get-Ends _ _ (
          modify-Ends _ _ _ (
            modify-Ends _ _ _ (
              test-Ends _ _ _
                (λ counted. seq-Ends _ _ _ (
                  get-Ends _ _ (
                    require-Ends _ _ _ _
                      (λ no_clash. update-Ends _ _ (
                        pure-Ends _ _ (record {
                          permit = pair.0;
                          window = pair.1;
                          permit_found = p.permit_found;
                          window_found = p.window_found;
                          permit_armed = (&&-true _ _ p.permit_ok).0;
                          window_armed = (&&-true _ _ p.window_ok).0;
                          permit_in_time = permit_in_time;
                          window_in_time = window_in_time;
                          matches = matches;
                          permit_consumed =
                              find-updated _ _ (consume_permit now) _ _ (λ y _. refl) p.permit_found
                                (is-fresh pair.0.permit_id _ _ p.permit_ok);
                          window_consumed =
                              find-updated _ _ (consume_window now) _ _ (λ y _. refl) p.window_found
                                (is-fresh pair.1.window_id _ _ p.window_ok);
                          returned = refl;
                          claim_added = refl;
                        })))
                      (λ _. tt))))
                (λ _. tt)))))

  pub claim-IsClaimed :
      (s : Surroundings) (b : Binding) (now : ℕ) (id : String) (db : Db)
      → ByResult
          (transaction
            (claim_codex_canary_one_shot_execution h s
              (some permit_text)
              (some canary_text)
              b
              now
              id)
            db)
          (IsClaimed s b now id db)
          (λ _ _. Unit {0})
  unfolding claim_codex_canary_one_shot_execution
  claim-IsClaimed s b now id db = transaction-Ends _ _ _ db (
      seq-Ends _ _ _ (
        validated-Ends h b _
          (bind-Ends _ _ _ (
            nonce-Ends _ _ _
              (bind-Ends _ _ _ (
                nonce-Ends _ _ _
                  (bind-Ends _ _ _ (
                    lookup_pair-IsPair (fresh db)
                      (λ pair p.
                        branch-Ends _ _ _ _ (λ _. refusal-Ends _ _ _)
                          (λ permit_in_time.
                            branch-Ends _ _ _ _ (λ _. refusal-Ends _ _ _)
                              (λ window_in_time.
                                branch-Ends _ _ _ _ (λ _. refusal-Ends _ _ _)
                                  (λ ok.
                                    claim_checked-IsClaimed s b now id db pair p permit_in_time
                                      window_in_time (not-false _ ok)))))
                      (λ _. tt)))
                  tt))
              tt))
          (λ _. tt)))
