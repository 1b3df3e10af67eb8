-- ===== src/Canary/Lives.antt =====
-- The life of a claim under any sequence of calls (app/storage.py): its spawn counters, and its end.
use codex_gate.Prelude.{
  ◌≡◌, refl, ◌∙◌, Bool, true, false, ◌&&◌, String, some, List, [], ◌∷◌, ◌++◌, all, find, leb, arith,
  Bool-cases, inl, inr, if◌then◌else◌,
}
use codex_gate.Canary.Rows.{ClaimRow, Db, update_where}
use codex_gate.Canary.Binding.{Hashes}
use codex_gate.Canary.Executor.{claim_has, is_open}
use codex_gate.Canary.Steps.{ClaimStep, start, reserve, spawn, finish, Stable}
use codex_gate.Canary.Found.{find-append, find-update_where}
use codex_gate.Canary.Ops.{Op, run}
use codex_gate.Canary.Histories.{run-Keeps}

-- One spawn at most, and none that was not reserved.
unfoldable pub has_one_spawn : ClaimRow → Bool
has_one_spawn r = leb r.spawn_count r.spawn_attempted && leb r.spawn_attempted 1

step-has_one_spawn :
    {r r' : ClaimRow} → ClaimStep r r' → has_one_spawn r ≡ true → has_one_spawn r' ≡ true
unfolding has_one_spawn
step-has_one_spawn (start r now) k = k
step-has_one_spawn (reserve r now unattempted unspawned) k = ground arith
step-has_one_spawn (spawn r now attempted unspawned) k = ground arith
step-has_one_spawn (finish r is_open_now final) k = k

module _ {A : Type 0} (p : A → Bool) where
  all-append : (xs : List A) (y : A) → all p xs ≡ true → p y ≡ true → all p (xs ++ y ∷ []) ≡ true
  all-append [] y h k = ground arith
  all-append (x ∷ xs) y h k = let rest = all-append xs y (ground arith) k in ground arith

  all-update_where :
      (test : A → Bool) (change : A → A)
      → ((x : A) → test x ≡ true → p x ≡ true → p (change x) ≡ true)
      → (xs : List A) → all p xs ≡ true
      → all p (update_where test change xs) ≡ true
  unfolding update_where
  all-update_where test change step [] h = refl
  all-update_where test change step (x ∷ xs) h =
      let rest = all-update_where test change step xs (ground arith) in
      elim (Bool-cases (test x)) [
        | inl on ↦ let k = step x on (ground arith) in ground arith
        | inr off ↦ ground arith
      ]

has_one_spawn-Stable : Stable (λ db. all has_one_spawn db.claims ≡ true)
unfolding has_one_spawn
has_one_spawn-Stable = record {
  windows_update = λ test change step db k. k;
  windows_insert = λ new db none_armed no_clash k. k;
  permits_update = λ test change step db k. k;
  permits_insert = λ new db none_armed no_clash k. k;
  claims_update = λ test change step db k.
      all-update_where has_one_spawn test change (λ r t. step-has_one_spawn (step r t)) db.claims k;
  claims_insert = λ new db unattempted unspawned no_clash k.
      all-append has_one_spawn db.claims new k (ground arith);
}

-- If each claim has at most one attempted spawn and no more spawns than attempts, then this is so
-- after any calls.
pub run-has_one_spawn :
    (h : Hashes) (ops : List Op) (db : Db)
    → all has_one_spawn db.claims ≡ true
    → all has_one_spawn (run h ops db).claims ≡ true
run-has_one_spawn h = run-Keeps has_one_spawn-Stable h

pub step-claim_has :
    (id : String) {r r' : ClaimRow} → ClaimStep r r' → claim_has id r' ≡ claim_has id r
step-claim_has id (start r now) = refl
step-claim_has id (reserve r now unattempted unspawned) = refl
step-claim_has id (spawn r now attempted unspawned) = refl
step-claim_has id (finish r is_open_now final) = refl

step-is_open : {r r' : ClaimRow} → ClaimStep r r' → is_open r ≡ true
step-is_open (start r now) = ground arith
step-is_open (reserve r now unattempted unspawned) = ground arith
step-is_open (spawn r now attempted unspawned) = ground arith
step-is_open (finish r is_open_now final) = is_open_now

IsFrozen-Stable :
    (id : String) (row : ClaimRow)
    → is_open row ≡ false
    → Stable (λ db. find (claim_has id) db.claims ≡ some row)
IsFrozen-Stable id row closed = record {
  windows_update = λ test change step db k. k;
  windows_insert = λ new db none_armed no_clash k. k;
  permits_update = λ test change step db k. k;
  permits_insert = λ new db none_armed no_clash k. k;
  claims_update = λ test change step db k.
      find-update_where (claim_has id) test change (λ r t. step-claim_has id (step r t)) db.claims k
      ∙ untouched (test row) (change row) (λ t. step-is_open (step row t));
  claims_insert =
      λ new db unattempted unspawned no_clash k. find-append (claim_has id) db.claims (new ∷ []) k;
}
  where
    untouched :
        (b : Bool) (r : ClaimRow)
        → (b ≡ true → is_open row ≡ true)
        → some (if b then r else row) ≡ some row
    untouched false r on = refl
    untouched true r on = let now_open = on refl in absurd (ground arith)

-- A claim that is neither CLAIMED nor RUNNING is found unchanged after any calls.
pub finished-IsFrozen :
    (h : Hashes) (ops : List Op) (db : Db) (id : String) (row : ClaimRow)
    → find (claim_has id) db.claims ≡ some row
    → is_open row ≡ false
    → find (claim_has id) (run h ops db).claims ≡ some row
finished-IsFrozen h ops db id row found closed =
    run-Keeps (IsFrozen-Stable id row closed) h ops db found
