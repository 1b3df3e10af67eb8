-- ===== src/Canary/Calls/Executor.antt =====
-- The calls on claims (app/storage.py) keep what their writes keep.
use codex_gate.Prelude.{
  ℕ, arith, String, Bool, true, false, ◌&&◌, Option, some, ◌==◌, ◌≡◌, List, [], ◌∷◌,
}
use codex_gate.Canary.Rows.{Binding, ClaimRow, Db, ClaimStatus, error}
use codex_gate.Canary.Tx.{Result, ok, err}
use codex_gate.Canary.Binding.{Hashes, Surroundings}
use codex_gate.Canary.Executor.{
  claim_by_id, running_claim_for_executor, begin_codex_canary_execution_claim,
  validate_running_codex_canary_execution_claim, reserve_codex_canary_supervisor_spawn,
  mark_codex_canary_supervisor_spawned, finish_codex_canary_execution_claim, count_one, finish_all,
  recover_interrupted_codex_canary_execution_claims,
}
use codex_gate.Canary.Steps.{
  start, reserve, spawn, finish, Stable, Keeps, pure-Keeps, get-Keeps, found-Keeps, bind-Keeps,
  seq-Keeps, require-Keeps, transaction-Keeps,
}
use codex_gate.Canary.Calls.{branch-Keeps, validated-Keeps, update_claims-Keeps, and-right}

spawn-tests :
    (r : ClaimRow) (n : ℕ) (a b : Bool)
    → (a && b && r.spawn_attempted == n && r.spawn_count == 0) ≡ true
    → (b ≡ true) × (r.spawn_attempted ≡ n) × (r.spawn_count ≡ 0)
spawn-tests r n a b t = ground arith

module _ {P : Db → Type 0} (stable : Stable P) where
  claim_by_id-Keeps : (id : String) → Keeps P (claim_by_id id)
  claim_by_id-Keeps id = bind-Keeps get-Keeps (λ db. found-Keeps _ _)

  pub begin-Keeps :
      (h : Hashes) (id : String) (b : Binding) (now : ℕ)
      → Keeps P (begin_codex_canary_execution_claim h id b now)
  unfolding begin_codex_canary_execution_claim
  begin-Keeps h id b now = seq-Keeps (validated-Keeps h b) (
      bind-Keeps (claim_by_id-Keeps id) (λ row. require-Keeps _ _ (λ _. require-Keeps _ _ (λ _.
        bind-Keeps get-Keeps (λ db.
          seq-Keeps (update_claims-Keeps stable _ _ (λ r t. start r (and-right _ _ t)))
            (require-Keeps _ _ (λ _. pure-Keeps _)))))))

  running-Keeps :
      (s : Surroundings) (id : String) (b : Binding) (flag : Bool) (now : ℕ)
      → Keeps P (running_claim_for_executor s id b flag now)
  running-Keeps s id b flag now = bind-Keeps (claim_by_id-Keeps id) (λ row. require-Keeps _ _ (λ _.
      require-Keeps _ _ (λ _.
        require-Keeps _ _ (λ _. require-Keeps _ _ (λ _. require-Keeps _ _ (λ _. pure-Keeps _))))))

  pub validate_running-Keeps :
      (h : Hashes) (s : Surroundings) (id : String) (b : Binding) (now : ℕ)
      → Keeps P (validate_running_codex_canary_execution_claim h s id b now)
  unfolding validate_running_codex_canary_execution_claim
  validate_running-Keeps h s id b now =
      seq-Keeps (validated-Keeps h b) (running-Keeps s id b true now)

  pub reserve-Keeps :
      (h : Hashes) (s : Surroundings) (id : String) (b : Binding) (now : ℕ)
      → Keeps P (reserve_codex_canary_supervisor_spawn h s id b now)
  unfolding reserve_codex_canary_supervisor_spawn
  reserve-Keeps h s id b now = seq-Keeps (validated-Keeps h b) (
      bind-Keeps (running-Keeps s id b true now) (λ row. bind-Keeps get-Keeps (λ db.
        seq-Keeps
          (update_claims-Keeps stable _ _ (λ r t.
            let (now_running, attempted, spawned) = spawn-tests r 0 _ _ t in
            reserve r now_running attempted spawned))
          (require-Keeps _ _ (λ _. pure-Keeps _)))))

  pub spawned-Keeps :
      (h : Hashes) (s : Surroundings) (id : String) (b : Binding) (now : ℕ)
      → Keeps P (mark_codex_canary_supervisor_spawned h s id b now)
  unfolding mark_codex_canary_supervisor_spawned
  spawned-Keeps h s id b now = seq-Keeps (validated-Keeps h b) (
      bind-Keeps (running-Keeps s id b false now) (λ row. require-Keeps _ _ (λ _.
        bind-Keeps get-Keeps (λ db.
          seq-Keeps
            (update_claims-Keeps stable _ _ (λ r t.
              let (now_running, attempted, spawned) = spawn-tests r 1 _ _ t in
              spawn r now_running attempted spawned))
            (require-Keeps _ _ (λ _. pure-Keeps _))))))

  pub finish-Keeps :
      (id : String) (status : ClaimStatus) (code : Option String) (now : ℕ)
      → Keeps P (finish_codex_canary_execution_claim id status code now)
  unfolding finish_codex_canary_execution_claim
  finish-Keeps id status code now = require-Keeps _ _ (λ final. require-Keeps _ _ (λ _.
      bind-Keeps (claim_by_id-Keeps id) (λ row.
        branch-Keeps _
          (seq-Keeps (update_claims-Keeps stable _ _ (λ r t. finish r (and-right _ _ t) final))
            (pure-Keeps _))
          (pure-Keeps row))))

  count_one-Keeps :
      (r : Result ClaimRow) (rest : Result ℕ × Db) (db : Db)
      → P db
      → P (rest.1)
      → P ((count_one r rest db).1)
  count_one-Keeps (err code) rest db k l = k
  count_one-Keeps (ok row) (ok n, last) db k l = l
  count_one-Keeps (ok row) (err code, last) db k l = l

  finish_all-Keeps : (ids : List String) (now : ℕ) (db : Db) → P db → P ((finish_all ids now db).1)
  unfolding finish_all
  finish_all-Keeps [] now db k = k
  finish_all-Keeps (id ∷ ids) now db k =
      let k' = transaction-Keeps (finish-Keeps id error (some "canary_interrupted") now) db k in
      count_one-Keeps _ _ _ k' (finish_all-Keeps ids now _ k')

  pub recover_claims-Keeps :
      (now : ℕ) (db : Db) → P db → P ((recover_interrupted_codex_canary_execution_claims now db).1)
  unfolding recover_interrupted_codex_canary_execution_claims
  recover_claims-Keeps now db k = finish_all-Keeps _ now db k
