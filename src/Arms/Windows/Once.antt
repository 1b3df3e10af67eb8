-- ===== src/Arms/Windows/Once.antt =====
-- What a consumption of an execution window leaves for later ones (app/storage.py).
use codex_gate.Prelude.{
  ◌≡◌, refl, sym, subst, ℕ, String, Bool, true, false, not, ◌&&◌, ◌||◌, Option, none, some, List,
  ◌∷◌, find, mem-find, leb, is_some, str_eq, if◌then◌else◌, Result, ok, err, arith, Bool-cases, inl,
  inr,
}
use codex_gate.Canary.Binding.{is_nonce}
use codex_gate.Canary.Found.{find-updated}
use codex_gate.Arms.Table.{Arm, of_nonce, unconsumed, consume_arm}
use codex_gate.Arms.Windows.{
  WindowStatus, is_armed, consumed, expired, Window, Db, Hashes, of_window, takeable, take,
  take_pair, belongs, consume_pair, consume_rows, consume_egress_execution_window, Call, consume,
  recover, step, run_calls,
}
use codex_gate.Arms.Windows.Spent.{
  IsTaken, IsArmSpent, no_arm, this_arm, IsSpent, run_calls-IsSpent, recover-IsSpent,
}
use codex_gate.Arms.Once.{IsConsumed}

-- The call got to its updates: it returned, or it found the window or the arm expired.
abbrev pub is_reached : Result Window → Bool
is_reached (ok w) = true
is_reached (err code) = str_eq code "execution_window_expired" || str_eq code "arm_expired"

passed :
    (b : Bool) (code : String) (db : Db) (r : Result Window × Db)
    → is_reached (err code) ≡ false
    → is_reached (if b then (err code, db) else r).0 ≡ true
    → (b ≡ false) × (is_reached r.0 ≡ true)
passed true code db r off h = absurd (ground arith)
passed false code db r off h = (refl, h)

taken-IsSpent :
    (hash arm_hash : String) (next : WindowStatus) (failure : Option String) (now : ℕ) (w : Window)
    (a : Arm) (db : Db)
    → find (of_window hash) db.windows ≡ some w
    → find (of_nonce arm_hash) db.arms ≡ some a
    → is_armed next ≡ false
    → (is_armed w.status && not (is_some w.consumed_at)) ≡ true
    → is_some a.consumed_at ≡ false
    → IsSpent hash (some arm_hash) (take_pair hash arm_hash next failure now w db).1
taken-IsSpent hash arm_hash next failure now w a db f g off armed unused =
    let own = (mem-find (of_window hash) db.windows f).1 in
    let arm_own = (mem-find (of_nonce arm_hash) db.arms g).1 in
    record {
      window = record {
        row = take next now failure w;
        found =
            find-updated (of_window hash) (takeable hash) (take next now failure) db.windows w
              (λ x t. refl) f (ground arith);
        not_armed = off;
      };
      arm = this_arm (record {
        arm = consume_arm now a;
        found =
            find-updated (of_nonce arm_hash) (unconsumed arm_hash) (consume_arm now) db.arms a
              (λ x t. refl) g (ground arith);
        used = refl;
      });
    }

skip :
    (b : Bool) (code : String) (db : Db) (r : Result Window × Db) (h : String)
    (arm_h : Option String)
    → b ≡ false
    → IsSpent h arm_h r.1
    → IsSpent h arm_h (if b then (err code, db) else r).1
skip true code db r h arm_h off k = absurd (ground arith)
skip false code db r h arm_h off k = k

pair-reached :
    (hash arm_hash : String) (now : ℕ) (w : Window) (a : Arm) (db : Db)
    → find (of_window hash) db.windows ≡ some w
    → find (of_nonce arm_hash) db.arms ≡ some a
    → is_reached (consume_pair hash arm_hash now w a db).0 ≡ true
    → IsSpent hash (some arm_hash) (consume_pair hash arm_hash now w a db).1
pair-reached hash arm_hash now w a db f g h =
    let (fits, h1) = passed (not (belongs w a)) _ db _ refl h in
    let (fresh, h2) = passed (not (is_armed w.status) || is_some w.consumed_at) _ db _ refl h1 in
    let (unused, h3) = passed (is_some a.consumed_at) _ db _ refl h2 in
    skip (not (belongs w a)) _ db _ hash (some arm_hash) fits (
      skip (not (is_armed w.status) || is_some w.consumed_at) _ db _ hash (some arm_hash) fresh (
        skip (is_some a.consumed_at) _ db _ hash (some arm_hash) unused
          (by_time (ground arith) unused (leb w.expires_at now) (leb a.expires_at now))))
  where
    by_time :
        (is_armed w.status && not (is_some w.consumed_at)) ≡ true
        → is_some a.consumed_at ≡ false
        → (late arm_late : Bool)
        → IsSpent hash
            (some arm_hash)
            (if late
              then take_pair hash arm_hash expired (some "execution_window_expired") now w db
              else if arm_late
              then take_pair hash arm_hash consumed (some "arm_expired") now w db
              else take_pair hash arm_hash consumed none now w db).1
    by_time p q true l = taken-IsSpent hash arm_hash expired _ now w a db f g refl p q
    by_time p q false true = taken-IsSpent hash arm_hash consumed _ now w a db f g refl p q
    by_time p q false false = taken-IsSpent hash arm_hash consumed _ now w a db f g refl p q

rows-reached :
    (hash arm_hash : String) (now : ℕ) (ow : Option Window) (oa : Option Arm) (db : Db)
    → find (of_window hash) db.windows ≡ ow
    → find (of_nonce arm_hash) db.arms ≡ oa
    → is_reached (consume_rows hash arm_hash now ow oa db).0 ≡ true
    → IsSpent hash (some arm_hash) (consume_rows hash arm_hash now ow oa db).1
rows-reached hash arm_hash now none oa db f g h = absurd (ground arith)
rows-reached hash arm_hash now (some w) none db f g h = absurd (ground arith)
rows-reached hash arm_hash now (some w) (some a) db f g h =
    pair-reached hash arm_hash now w a db f g h

consume-reached :
    (hs : Hashes) (nonce arm_nonce : String) (now : ℕ) (db : Db)
    → is_reached (consume_egress_execution_window hs nonce arm_nonce now db).0 ≡ true
    → IsSpent
        (hs.digest nonce)
        (some (hs.digest arm_nonce))
        (consume_egress_execution_window hs nonce arm_nonce now db).1
unfolding consume_egress_execution_window
consume-reached hs nonce arm_nonce now db h =
    let (valid, h1) = passed (not (is_nonce nonce)) _ db _ refl h in
    let (arm_valid, h2) = passed (not (is_nonce arm_nonce)) _ db _ refl h1 in
    skip (not (is_nonce nonce)) _ db _ _ _ valid (
      skip (not (is_nonce arm_nonce)) _ db _ _ _ arm_valid
        (rows-reached (hs.digest nonce) (hs.digest arm_nonce) now _ _ db refl refl h2))

-- A call is refused and changes nothing.
pub data IsRefused (r : Result Window × Db) (db : Db) : Type 0 where
  refused : (code : String) → r ≡ (err code, db) → IsRefused r db

refuse_if :
    (b : Bool) (code : String) (db : Db) (r : Result Window × Db)
    → IsRefused r db
    → IsRefused (if b then (err code, db) else r) db
refuse_if true code db r k = refused code refl
refuse_if false code db r k = k

refuse_on :
    (b : Bool) (code : String) (db : Db) (r : Result Window × Db)
    → b ≡ true
    → IsRefused (if b then (err code, db) else r) db
refuse_on true code db r on = refused code refl
refuse_on false code db r on = absurd (ground arith)

pair-IsRefused :
    (hash arm_hash : String) (now : ℕ) (w : Window) (a : Arm) (db : Db)
    → (not (is_armed w.status) || is_some a.consumed_at) ≡ true
    → IsRefused (consume_pair hash arm_hash now w a db) db
pair-IsRefused hash arm_hash now w a db h =
    refuse_if (not (belongs w a)) _ db _ (elim (Bool-cases (is_armed w.status)) [
      | inr off ↦ refuse_on (not (is_armed w.status) || is_some w.consumed_at) _ db _ (ground arith)
      | inl on ↦
          refuse_if (not (is_armed w.status) || is_some w.consumed_at) _ db _
            (refuse_on (is_some a.consumed_at) _ db _ (ground arith))
    ])

window-IsRefused :
    (hs : Hashes) (nonce arm_nonce : String) (now : ℕ) (db : Db)
    → IsTaken (hs.digest nonce) db.windows
    → IsRefused (consume_egress_execution_window hs nonce arm_nonce now db) db
unfolding consume_egress_execution_window
window-IsRefused hs nonce arm_nonce now db k = refuse_if (not (is_nonce nonce)) _ db _ (
    refuse_if (not (is_nonce arm_nonce)) _ db _ (
      subst (λ o. IsRefused (rows o (find (of_nonce (hs.digest arm_nonce)) db.arms)) db)
        (sym k.found) (by_arm (find (of_nonce (hs.digest arm_nonce)) db.arms))))
  where
    rows : Option Window → Option Arm → Result Window × Db
    rows ow oa = consume_rows (hs.digest nonce) (hs.digest arm_nonce) now ow oa db

    by_arm : (oa : Option Arm) → IsRefused (rows (some k.row) oa) db
    by_arm none = refused _ refl
    by_arm (some a) = let off = k.not_armed in pair-IsRefused _ _ now k.row a db (ground arith)

arm-IsRefused :
    (hs : Hashes) (nonce arm_nonce : String) (now : ℕ) (db : Db)
    → IsConsumed (hs.digest arm_nonce) db.arms
    → IsRefused (consume_egress_execution_window hs nonce arm_nonce now db) db
unfolding consume_egress_execution_window
arm-IsRefused hs nonce arm_nonce now db k = refuse_if (not (is_nonce nonce)) _ db _ (
    refuse_if (not (is_nonce arm_nonce)) _ db _ (
      subst (λ o. IsRefused (rows (find (of_window (hs.digest nonce)) db.windows) o) db)
        (sym k.found) (by_window (find (of_window (hs.digest nonce)) db.windows))))
  where
    rows : Option Window → Option Arm → Result Window × Db
    rows ow oa = consume_rows (hs.digest nonce) (hs.digest arm_nonce) now ow oa db

    by_window : (ow : Option Window) → IsRefused (rows ow (some k.arm)) db
    by_window none = refused _ refl
    by_window (some w) = let on = k.used in pair-IsRefused _ _ now w k.arm db (ground arith)

IsArmSpent-IsConsumed :
    {h : String} {arms : List Arm} → IsArmSpent (some h) arms → IsConsumed h arms
IsArmSpent-IsConsumed (this_arm k) = k

-- After a consume_egress_execution_window that returned, or that raised because the window or the arm had
-- expired, and after any further calls: a consumption with the same window nonce or with the same arm
-- nonce is refused and changes nothing.
pub consume_egress_execution_window-once :
    (hs : Hashes) (nonce arm_nonce : String) (now : ℕ) (db : Db) (calls : List Call)
    → is_reached (consume_egress_execution_window hs nonce arm_nonce now db).0 ≡ true
    → (other : String) (later : ℕ)
    → IsRefused
        (consume_egress_execution_window hs nonce other later
          (run_calls hs (consume nonce arm_nonce now ∷ calls) db))
        (run_calls hs (consume nonce arm_nonce now ∷ calls) db)
      × IsRefused
          (consume_egress_execution_window hs other arm_nonce later
            (run_calls hs (consume nonce arm_nonce now ∷ calls) db))
          (run_calls hs (consume nonce arm_nonce now ∷ calls) db)
unfolding run_calls step
consume_egress_execution_window-once hs nonce arm_nonce now db calls h other later =
    let k =
      run_calls-IsSpent (hs.digest nonce) (some (hs.digest arm_nonce)) hs calls _
        (consume-reached hs nonce arm_nonce now db h) in
    (
      window-IsRefused hs nonce other later _ k.window,
      arm-IsRefused hs other arm_nonce later _ (IsArmSpent-IsConsumed k.arm),
    )

-- After recover_armed_egress_execution_windows and any further calls, no nonce of a window that was there
-- before opens it, and the refused call changes nothing.
pub recover-IsRefused :
    (hs : Hashes) (nonce : String) (w : Window) (db : Db) (calls : List Call)
    → find (of_window (hs.digest nonce)) db.windows ≡ some w
    → (arm_nonce : String) (later : ℕ)
    → IsRefused
        (consume_egress_execution_window hs nonce arm_nonce later
          (run_calls hs (recover ∷ calls) db))
        (run_calls hs (recover ∷ calls) db)
unfolding run_calls step
recover-IsRefused hs nonce w db calls f arm_nonce later =
    let k =
      run_calls-IsSpent (hs.digest nonce) none hs calls _
        (recover-IsSpent (hs.digest nonce) none w db f no_arm) in
    window-IsRefused hs nonce arm_nonce later _ k.window
