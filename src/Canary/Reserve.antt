-- ===== src/Canary/Reserve.antt =====
-- The reservation of a claim's spawn (app/storage.py) before and after other calls.
use codex_gate.Prelude.{
  ℕ, ◌≡◌, refl, sym, ◌∙◌, subst, Bool, true, false, ◌||◌, not, String, some, List, [], ◌∷◌, find,
  mem-find, ◌==◌, arith, if◌then◌else◌,
}
use codex_gate.Canary.Rows.{ClaimRow, Binding, Db, is_running}
use codex_gate.Canary.Tx.{ok, err, transaction}
use codex_gate.Canary.Binding.{Hashes, Surroundings}
use codex_gate.Canary.Executor.{
  claim_has, reservable, reserve_spawn, reserve_codex_canary_supervisor_spawn,
}
use codex_gate.Canary.Outcome.{
  pure-Ends, found-Ends, require-Ends, get-Ends, modify-Ends, bind-Ends, seq-Ends, validated-Ends,
  ByResult, transaction-Ends, refused,
}
use codex_gate.Canary.Steps.{ClaimStep, start, reserve, spawn, finish, Stable}
use codex_gate.Canary.Found.{find-append, find-update_where, find-updated}
use codex_gate.Canary.Lives.{step-claim_has}
use codex_gate.Canary.Ops.{Op, run}
use codex_gate.Canary.Histories.{run-Keeps}

pub record IsAttempted (id : String) (db : Db) : Type 0 where
  pub row : ClaimRow
  pub found : find (claim_has id) db.claims ≡ some row
  pub attempted : row.spawn_attempted ≡ 1

step-attempted : {r r' : ClaimRow} → ClaimStep r r' → r.spawn_attempted ≡ 1 → r'.spawn_attempted ≡ 1
step-attempted (start r now) k = k
step-attempted (reserve r now unattempted unspawned) k = refl
step-attempted (spawn r now attempted unspawned) k = k
step-attempted (finish r is_open_now final) k = k

IsAttempted-Stable : (id : String) → Stable (IsAttempted id)
IsAttempted-Stable id = record {
  windows_update =
      λ test change step db k. record { row = k.row; found = k.found; attempted = k.attempted };
  windows_insert = λ new db none_armed no_clash k. record {
    row = k.row;
    found = k.found;
    attempted = k.attempted;
  };
  permits_update =
      λ test change step db k. record { row = k.row; found = k.found; attempted = k.attempted };
  permits_insert = λ new db none_armed no_clash k. record {
    row = k.row;
    found = k.found;
    attempted = k.attempted;
  };
  claims_update = λ test change step db k. record {
    row = if test k.row then change k.row else k.row;
    found =
        find-update_where (claim_has id) test change (λ r t. step-claim_has id (step r t)) db.claims
          k.found;
    attempted =
        still (test k.row) k.row (change k.row) (λ t. step-attempted (step k.row t) k.attempted)
          k.attempted;
  };
  claims_insert = λ new db unattempted unspawned no_clash k. record {
    row = k.row;
    found = find-append (claim_has id) db.claims (new ∷ []) k.found;
    attempted = k.attempted;
  };
}
  where
    still :
        (b : Bool) (x y : ClaimRow)
        → (b ≡ true → y.spawn_attempted ≡ 1)
        → x.spawn_attempted ≡ 1
        → (if b then y else x).spawn_attempted ≡ 1
    still true x y on off = on refl
    still false x y on off = off

is-reservable :
    (id : String) (r : ClaimRow)
    → claim_has id r ≡ true
    → is_running r.status ≡ true
    → (r.spawn_count == 0) ≡ true
    → (not true || r.spawn_attempted == 0) ≡ true
    → reservable id r ≡ true
is-reservable id r has now_running unspawned unattempted = ground arith

module _ (h : Hashes) (s : Surroundings) (id : String) (b : Binding) (now : ℕ) (db : Db) where
  reserve-refused :
      IsAttempted id db
      → ByResult
          (transaction (reserve_codex_canary_supervisor_spawn h s id b now) db)
          (λ _ _. ⊥)
          (λ _ db'. db' ≡ db)
  unfolding reserve_codex_canary_supervisor_spawn
  reserve-refused k = transaction-Ends _ _ _ db (
      seq-Ends _ _ _ (
        validated-Ends h b _
          (bind-Ends _ _ _ (
            bind-Ends _ _ _ (
              get-Ends _ _ (
                found-Ends _ _ _
                  (λ row found.
                    require-Ends _ _ _ _
                      (λ now_running.
                        require-Ends _ _ _ _
                          (λ unspawned.
                            require-Ends _ _ _ _
                              (λ unattempted. absurd (
                                twice row
                                  (subst (λ r. r.spawn_attempted ≡ 1)
                                    (some-same (sym k.found ∙ found)) k.attempted)
                                  unattempted))
                              (λ _. refl))
                          (λ _. refl))
                      (λ _. refl))
                  (λ _. refl)))))
          (λ _. refl)))
    where
      some-same : {x y : ClaimRow} → some x ≡ some y → x ≡ y
      some-same e = ground arith

      twice :
          (r : ClaimRow) → r.spawn_attempted ≡ 1 → (not true || r.spawn_attempted == 0) ≡ true → ⊥
      twice r one zero = ground arith

  reserve-IsAttempted :
      ByResult
        (transaction (reserve_codex_canary_supervisor_spawn h s id b now) db)
        (λ _ db'. IsAttempted id db')
        (λ _ _. Unit {0})
  unfolding reserve_codex_canary_supervisor_spawn
  reserve-IsAttempted = transaction-Ends _ _ _ db (
      seq-Ends _ _ _ (
        validated-Ends h b _
          (bind-Ends _ _ _ (
            bind-Ends _ _ _ (
              get-Ends _ _ (
                found-Ends _ _ _
                  (λ row found.
                    require-Ends _ _ _ _
                      (λ now_running.
                        require-Ends _ _ _ _
                          (λ unspawned.
                            require-Ends _ _ _ _
                              (λ unattempted.
                                require-Ends _ _ _ _
                                  (λ same.
                                    require-Ends _ _ _ _
                                      (λ current. pure-Ends _ _ (
                                        get-Ends _ _ (
                                          modify-Ends _ _ _ (
                                            require-Ends _ _ _ _
                                              (λ _. pure-Ends _ _ (record {
                                                row = reserve_spawn row;
                                                found =
                                                    find-updated (claim_has id) (reservable id)
                                                      reserve_spawn _ row (λ y _. refl) found
                                                      (is-reservable id row
                                                        (mem-find (claim_has id) _ found).1
                                                        now_running unspawned unattempted);
                                                attempted = refl;
                                              }))
                                              (λ _. tt)))))
                                      (λ _. tt))
                                  (λ _. tt))
                              (λ _. tt))
                          (λ _. tt))
                      (λ _. tt))
                  (λ _. tt)))))
          (λ _. tt)))

-- After a reservation that returns, and after any calls that follow it, a reservation for the same
-- claim is refused, and changes nothing.
pub reserve-once :
    (h : Hashes) (s : Surroundings) (id : String) (b : Binding) (now : ℕ) (db db' : Db)
    (row : ClaimRow)
    → transaction (reserve_codex_canary_supervisor_spawn h s id b now) db ≡ (ok row, db')
    → (ops : List Op) (s' : Surroundings) (b' : Binding) (now' : ℕ)
    → (code : String) × (transaction
          (reserve_codex_canary_supervisor_spawn h s' id b' now')
          (run h ops db')
        ≡ (err code, run h ops db'))
reserve-once h s id b now db db' row e ops s' b' now' = refused _ _ (
    reserve-refused h s' id b' now' (run h ops db') (
      run-Keeps (IsAttempted-Stable id) h ops db' (
        subst (λ r. ByResult r (λ _ d. IsAttempted id d) (λ _ _. Unit {0})) e
          (reserve-IsAttempted h s id b now db))))
