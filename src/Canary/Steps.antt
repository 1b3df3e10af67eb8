-- ===== src/Canary/Steps.antt =====
-- The writes that the calls make, as steps of one row: a capability moves away from ARMED, a claim
-- through its life. A property that every such write keeps is kept by every call.
use codex_gate.Prelude.{
  ℕ, ◌≡◌, refl, String, Bool, true, false, Option, none, some, [], ◌∷◌, ◌++◌, any,
}
use codex_gate.Canary.Rows.{
  CapabilityStatus, ClaimStatus, armed, consumed, expired, aborted, WindowRow, PermitRow, ClaimRow,
  Db, is_claimed, is_running, update_where,
}
use codex_gate.Canary.Tx.{
  Tx, Result, ok, err, Conn, continue, settle, ◌>>=◌, ◌>>◌, pure, raise, require, found, get,
  modify, commit, transaction,
}
use codex_gate.Canary.Windows.{on_windows, window_clash, window_is_armed}
use codex_gate.Canary.Permits.{on_permits, permit_clash, permit_is_armed}
use codex_gate.Canary.Claims.{on_claims, claim_clash}
use codex_gate.Canary.Executor.{
  start_claim, reserve_spawn, record_spawn, close_claim, is_open, is_final,
}

pub data CapabilityStep : CapabilityStatus → CapabilityStatus → Type 0 where
  expire : CapabilityStep armed expired
  consume : CapabilityStep armed consumed
  abort_armed : CapabilityStep armed aborted
  abort_consumed : CapabilityStep consumed aborted
  note : CapabilityStep consumed consumed

pub data ClaimStep : ClaimRow → ClaimRow → Type 0 where
  start : {now : ℕ} (r : ClaimRow) → is_claimed r.status ≡ true → ClaimStep r (start_claim now r)
  reserve :
      (r : ClaimRow)
      → is_running r.status ≡ true
      → r.spawn_attempted ≡ 0
      → r.spawn_count ≡ 0
      → ClaimStep r (reserve_spawn r)
  spawn :
      (r : ClaimRow)
      → is_running r.status ≡ true
      → r.spawn_attempted ≡ 1
      → r.spawn_count ≡ 0
      → ClaimStep r (record_spawn r)
  finish :
      {status : ClaimStatus} {code : Option String} {now : ℕ} (r : ClaimRow)
      → is_open r ≡ true
      → is_final status ≡ true
      → ClaimStep r (close_claim status code now r)

pub record WindowStep (w w' : WindowRow) : Type 0 where
  pub same_id : w'.window_id ≡ w.window_id
  pub same_nonce : w'.nonce_hash ≡ w.nonce_hash
  pub moves : CapabilityStep w.status w'.status

pub record PermitStep (p p' : PermitRow) : Type 0 where
  pub same_id : p'.permit_id ≡ p.permit_id
  pub same_nonce : p'.nonce_hash ≡ p.nonce_hash
  pub moves : CapabilityStep p.status p'.status

-- A property of the tables that every write keeps.
pub record Stable (P : Db → Type 0) : Type 0 where
  pub windows_update :
      (test : WindowRow → Bool) (change : WindowRow → WindowRow)
      → ((w : WindowRow) → test w ≡ true → WindowStep w (change w))
      → (db : Db) → P db
      → P (on_windows (update_where test change) db)
  pub windows_insert :
      (new : WindowRow) (db : Db)
      → any window_is_armed db.windows ≡ false
      → any (window_clash new) db.windows ≡ false
      → P db
      → P (on_windows (λ rows. rows ++ new ∷ []) db)
  pub permits_update :
      (test : PermitRow → Bool) (change : PermitRow → PermitRow)
      → ((p : PermitRow) → test p ≡ true → PermitStep p (change p))
      → (db : Db) → P db
      → P (on_permits (update_where test change) db)
  pub permits_insert :
      (new : PermitRow) (db : Db)
      → any permit_is_armed db.permits ≡ false
      → any (permit_clash new) db.permits ≡ false
      → P db
      → P (on_permits (λ rows. rows ++ new ∷ []) db)
  pub claims_update :
      (test : ClaimRow → Bool) (change : ClaimRow → ClaimRow)
      → ((r : ClaimRow) → test r ≡ true → ClaimStep r (change r))
      → (db : Db) → P db
      → P (on_claims (update_where test change) db)
  pub claims_insert :
      (new : ClaimRow) (db : Db)
      → new.spawn_attempted ≡ 0
      → new.spawn_count ≡ 0
      → any (claim_clash new) db.claims ≡ false
      → P db
      → P (on_claims (λ rows. rows ++ new ∷ []) db)

module _ (P : Db → Type 0) where
  -- The property holds of the committed tables and of those in work.
  pub record Both (c : Conn) : Type 0 where
    pub durable : P c.durable
    pub working : P c.working

  pub record Keeps {A : Type 0} (m : Tx A) : Type 0 where
    pub keeps : (c : Conn) → Both c → Both (((m c).1))

module _ {P : Db → Type 0} where
  pub pure-Keeps : {A : Type 0} (a : A) → Keeps P (pure a)
  unfolding pure
  pure-Keeps a = record { keeps = λ c h. h }

  pub raise-Keeps : {A : Type 0} (code : String) → Keeps P (raise {A = A} code)
  unfolding raise
  raise-Keeps {A} code = record { keeps = λ c h. h }

  pub get-Keeps : Keeps P get
  unfolding get
  get-Keeps = record { keeps = λ c h. h }

  pub commit-Keeps : Keeps P commit
  unfolding commit
  commit-Keeps = record { keeps = λ c h. record { durable = h.working; working = h.working } }

  pub found-Keeps : {A : Type 0} (a : Option A) (code : String) → Keeps P (found a code)
  unfolding found
  found-Keeps none code = record { keeps = λ c h. h }
  found-Keeps (some a) code = record { keeps = λ c h. h }

  pub modify-Keeps : (f : Db → Db) → ((db : Db) → P db → P (f db)) → Keeps P (modify f)
  unfolding modify
  modify-Keeps f k = record {
    keeps = λ c h. record { durable = h.durable; working = k c.working h.working };
  }

  pub bind-Keeps :
      {A B : Type 0} {m : Tx A} {f : A → Tx B}
      → Keeps P m
      → ((a : A) → Keeps P (f a))
      → Keeps P (m >>= f)
  unfolding ◌>>=◌
  bind-Keeps {A} {B} {m} {f} k g = record { keeps = λ c h. next (m c) (k.keeps c h) }
    where
      next : (r : Result A × Conn) → Both P (r.1) → Both P ((continue r.0 f r.1).1)
      next (ok a, c') h' = (g a).keeps c' h'
      next (err code, c') h' = h'

  pub seq-Keeps :
      {A : Type 0} {m : Tx (Unit {0})} {n : Tx A} → Keeps P m → Keeps P n → Keeps P (m >> n)
  unfolding ◌>>◌
  seq-Keeps k l = bind-Keeps k (λ _. l)

  pub require-Keeps :
      {B : Type 0} (test : Bool) (code : String) {m : Tx B}
      → (test ≡ true → Keeps P m)
      → Keeps P (require test code >> m)
  unfolding ◌>>◌ ◌>>=◌ require
  require-Keeps true code k = record { keeps = λ c h. (k refl).keeps c h }
  require-Keeps false code k = record { keeps = λ c h. h }

  pub test-Keeps : (test : Bool) (code : String) → Keeps P (require test code)
  unfolding require
  test-Keeps true code = record { keeps = λ c k. k }
  test-Keeps false code = record { keeps = λ c k. k }

  -- A write that is committed before the exception; the sequence nests to the left.
  pub committed-Keeps :
      {A : Type 0} {m : Tx (Unit {0})} (code : String)
      → Keeps P m
      → Keeps P (m >> commit >> raise {A = A} code)
  committed-Keeps code k = seq-Keeps (seq-Keeps k commit-Keeps) (raise-Keeps _)

  pub transaction-Keeps :
      {A : Type 0} {m : Tx A} → Keeps P m → (db : Db) → P db → P (((transaction m db).1))
  unfolding transaction
  transaction-Keeps {A} {m} k db h =
      end (m start_conn) (k.keeps start_conn (record { durable = h; working = h }))
    where
      start_conn : Conn
      start_conn = record { durable = db; working = db }

      end : (r : Result A × Conn) → Both P (r.1) → P (settle r.0 r.1)
      end (ok a, c) b = b.working
      end (err code, c) b = b.durable
