-- ===== src/Arms/Windows/Branches.antt =====
-- The branches of the calls on execution windows (app/storage.py), for a predicate on the tables.
use codex_gate.Prelude.{
  ◌≡◌, refl, ℕ, String, Bool, true, false, ◌||◌, not, Option, none, some, leb, is_some,
  if◌then◌else◌, Result, err,
}
use codex_gate.Arms.Table.{Arm}
use codex_gate.Arms.Windows.{
  WindowStatus, is_armed, consumed, expired, Window, Db, take_pair, belongs, consume_rows,
}

module _ (P : Db → Type 0) where
  -- A call that may refuse before its end leaves what holds before it and at its end.
  pub refusal_keeps :
      {A : Type 0} (b : Bool) (code : String) (db : Db) (r : Result A × Db)
      → P db
      → P r.1
      → P (if b then (err code, db) else r).1
  refusal_keeps true code db r k l = k
  refusal_keeps false code db r k l = l

  -- Whatever the two times say, the two updates are made.
  pub timed_keeps :
      (hash arm_hash : String) (now : ℕ) (w : Window) (db : Db)
      → ((next : WindowStatus) (failure : Option String)
          → is_armed next ≡ false
          → P (take_pair hash arm_hash next failure now w db).1)
      → (late arm_late : Bool)
      → P
          (if late
            then take_pair hash arm_hash expired (some "execution_window_expired") now w db
            else if arm_late
            then take_pair hash arm_hash consumed (some "arm_expired") now w db
            else take_pair hash arm_hash consumed none now w db).1
  timed_keeps hash arm_hash now w db taken true l = taken expired _ refl
  timed_keeps hash arm_hash now w db taken false true = taken consumed _ refl
  timed_keeps hash arm_hash now w db taken false false = taken consumed _ refl

  pub rows_keeps :
      (hash arm_hash : String) (now : ℕ) (ow : Option Window) (oa : Option Arm) (db : Db)
      → ((next : WindowStatus) (failure : Option String) (w : Window)
          → is_armed next ≡ false
          → P (take_pair hash arm_hash next failure now w db).1)
      → P db
      → P (consume_rows hash arm_hash now ow oa db).1
  rows_keeps hash arm_hash now none oa db taken k = k
  rows_keeps hash arm_hash now (some w) none db taken k = k
  rows_keeps hash arm_hash now (some w) (some a) db taken k =
      refusal_keeps (not (belongs w a)) _ db _ k (
        refusal_keeps (not (is_armed w.status) || is_some w.consumed_at) _ db _ k (
          refusal_keeps (is_some a.consumed_at) _ db _ k (
            timed_keeps hash arm_hash now w db (λ next failure. taken next failure w)
              (leb w.expires_at now) (leb a.expires_at now))))
