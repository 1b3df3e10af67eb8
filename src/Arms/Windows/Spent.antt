-- ===== src/Arms/Windows/Spent.antt =====
-- A window and an arm that were taken together (app/storage.py), over any further calls.
use codex_gate.Prelude.{
  ◌≡◌, refl, ap, ℕ, String, Bool, true, false, not, Option, none, some, List, [], ◌∷◌, ◌++◌, any,
  find, ◌==◌, str_eq, if◌then◌else◌,
}
use codex_gate.Canary.Rows.{update_where}
use codex_gate.Canary.Binding.{is_nonce, is_row_id, is_error_code}
use codex_gate.Canary.Found.{find-append, find-update_where}
use codex_gate.Arms.Table.{Arm, of_nonce}
use codex_gate.Arms.Once.{IsConsumed, issue-IsConsumed, update-IsConsumed, consume-IsConsumed}
use codex_gate.Arms.Windows.Branches.{refusal_keeps, rows_keeps}
use codex_gate.Arms.Windows.{
  WindowStatus, is_armed, Window, Db, Hashes, new_window, window_arm, overdue, lapse,
  window_is_armed, clash, insert_pair, is_sealed, issue_egress_execution_window, of_window,
  takeable, take, take_pair, consume_egress_execution_window, blockable,
  mark_egress_execution_window_blocked, recover_armed_egress_execution_windows, Call, issue_arm,
  consume_arm_of, issue, consume, block, recover, step, run_calls,
}

pub record IsTaken (h : String) (ws : List Window) : Type 0 where
  pub row : Window
  pub found : find (of_window h) ws ≡ some row
  pub not_armed : is_armed row.status ≡ false

-- The arm, where one is named, is consumed.
pub data IsArmSpent : Option String → List Arm → Type 0 where
  no_arm : {arms : List Arm} → IsArmSpent none arms
  this_arm : {h : String} {arms : List Arm} → IsConsumed h arms → IsArmSpent (some h) arms

pub record IsSpent (h : String) (arm_h : Option String) (db : Db) : Type 0 where
  pub window : IsTaken h db.windows
  pub arm : IsArmSpent arm_h db.arms

later-IsArmSpent :
    (o : Option String) (xs ys : List Arm)
    → ((h : String) → IsConsumed h xs → IsConsumed h ys)
    → IsArmSpent o xs
    → IsArmSpent o ys
later-IsArmSpent none xs ys later no_arm = no_arm
later-IsArmSpent (some h) xs ys later (this_arm k) = this_arm (later h k)

append-IsConsumed :
    (a : Arm) (arms : List Arm) (h : String) → IsConsumed h arms → IsConsumed h (arms ++ a ∷ [])
append-IsConsumed a arms h k = record {
  arm = k.arm;
  found = find-append (of_nonce h) arms (a ∷ []) k.found;
  used = k.used;
}

update-IsTaken :
    (h : String) (test : Window → Bool) (change : Window → Window) (ws : List Window)
    → ((w : Window) → (change w).nonce_hash ≡ w.nonce_hash)
    → ((w : Window) → is_armed w.status ≡ false → is_armed (change w).status ≡ false)
    → IsTaken h ws
    → IsTaken h (update_where test change ws)
update-IsTaken h test change ws same still k = record {
  row = if test k.row then change k.row else k.row;
  found = find-update_where (of_window h) test change (λ w t. ap (of_hash h) (same w)) ws k.found;
  not_armed = by_test (test k.row);
}
  where
    of_hash : String → String → Bool
    of_hash h x = str_eq x h

    by_test : (b : Bool) → is_armed (if b then change k.row else k.row).status ≡ false
    by_test true = still k.row k.not_armed
    by_test false = k.not_armed

append-IsTaken :
    (h : String) (w : Window) (ws : List Window) → IsTaken h ws → IsTaken h (ws ++ w ∷ [])
append-IsTaken h w ws k = record {
  row = k.row;
  found = find-append (of_window h) ws (w ∷ []) k.found;
  not_armed = k.not_armed;
}

module _ (h : String) (arm_h : Option String) where
  abbrev Spent : Db → Type 0
  Spent = IsSpent h arm_h

  insert-IsSpent :
      (w : Window) (a : Arm) (db : Db) (current : List Window)
      → IsSpent h arm_h db
      → IsTaken h current
      → IsSpent h arm_h (insert_pair w a db current).1
  insert-IsSpent w a db current k taken =
      refusal_keeps Spent (any window_is_armed current) _ db _ k (
        refusal_keeps Spent (any (clash w) current) _ db _ k (
          refusal_keeps Spent (any (of_nonce a.nonce_hash) db.arms) _ db _ k (record {
            window = append-IsTaken h w current taken;
            arm = later-IsArmSpent arm_h _ _ (append-IsConsumed a db.arms) k.arm;
          })))

  take-IsSpent :
      (hash arm_hash : String) (next : WindowStatus) (failure : Option String) (now : ℕ)
      (w : Window) (db : Db)
      → is_armed next ≡ false
      → IsSpent h arm_h db
      → IsSpent h arm_h (take_pair hash arm_hash next failure now w db).1
  take-IsSpent hash arm_hash next failure now w db off k = record {
    window =
        update-IsTaken h (takeable hash) (take next now failure) db.windows (λ x. refl) (λ x e. off)
          k.window;
    arm = later-IsArmSpent arm_h _ _ (λ x. update-IsConsumed (λ s. s) x arm_hash now db.arms) k.arm;
  }

  step-IsSpent :
      (hs : Hashes) (call : Call) (db : Db) → IsSpent h arm_h db → IsSpent h arm_h (step hs call db)
  unfolding step issue_egress_execution_window consume_egress_execution_window
      mark_egress_execution_window_blocked recover_armed_egress_execution_windows
  step-IsSpent hs (issue_arm i ttl_seconds now nonce) db k = record {
    window = k.window;
    arm =
        later-IsArmSpent arm_h _ _
          (λ x. issue-IsConsumed hs.digest x i ttl_seconds now nonce db.arms) k.arm;
  }
  step-IsSpent hs (consume_arm_of text i now) db k = record {
    window = k.window;
    arm = later-IsArmSpent arm_h _ _ (λ x. consume-IsConsumed hs.digest x text i now db.arms) k.arm;
  }
  step-IsSpent hs (issue b ttl_seconds now id nonce arm_nonce) db k =
      refusal_keeps Spent (not (is_sealed hs b)) _ db _ k (
        refusal_keeps Spent (not (ttl_seconds == 120)) _ db _ k (
          insert-IsSpent (new_window hs b now id nonce) (window_arm hs b now id arm_nonce) db _ k (
            update-IsTaken h (overdue now) (lapse "execution_window_expired") db.windows (λ w. refl)
              (λ w e. refl) k.window)))
  step-IsSpent hs (consume nonce arm_nonce now) db k =
      refusal_keeps Spent (not (is_nonce nonce)) _ db _ k (
        refusal_keeps Spent (not (is_nonce arm_nonce)) _ db _ k (
          rows_keeps Spent (hs.digest nonce) (hs.digest arm_nonce) now
            (find (of_window (hs.digest nonce)) db.windows)
            (find (of_nonce (hs.digest arm_nonce)) db.arms) db
            (λ next failure w off.
              take-IsSpent (hs.digest nonce) (hs.digest arm_nonce) next failure now w db off k)
            k))
  step-IsSpent hs (block id code) db k = refusal_keeps Spent (not (is_row_id id)) _ db _ k (
      refusal_keeps Spent (not (is_error_code code)) _ db _ k (record {
        window =
            update-IsTaken h (blockable id) (λ w. record w { error_code = some code }) db.windows
              (λ w. refl) (λ w e. e) k.window;
        arm = k.arm;
      }))
  step-IsSpent hs recover db k = record {
    window =
        update-IsTaken h window_is_armed (lapse "execution_window_restart_expired") db.windows
          (λ w. refl) (λ w e. refl) k.window;
    arm = k.arm;
  }

  -- A restart leaves no window armed.
  pub recover-IsSpent :
      (w : Window) (db : Db)
      → find (of_window h) db.windows ≡ some w
      → IsArmSpent arm_h db.arms
      → IsSpent h arm_h (recover_armed_egress_execution_windows db).1
  unfolding recover_armed_egress_execution_windows
  recover-IsSpent w db f spent = record {
    window = record {
      row = if window_is_armed w then lapse "execution_window_restart_expired" w else w;
      found =
          find-update_where (of_window h) window_is_armed (lapse "execution_window_restart_expired")
            (λ x t. refl) db.windows f;
      not_armed = by_test (is_armed w.status) refl;
    };
    arm = spent;
  }
    where
      by_test :
          (b : Bool)
          → is_armed w.status ≡ b
          → is_armed (if b then lapse "execution_window_restart_expired" w else w).status ≡ false
      by_test true e = refl
      by_test false e = e

  pub run_calls-IsSpent :
      (hs : Hashes) (calls : List Call) (db : Db)
      → IsSpent h arm_h db
      → IsSpent h arm_h (run_calls hs calls db)
  unfolding run_calls
  run_calls-IsSpent hs [] db k = k
  run_calls-IsSpent hs (call ∷ calls) db k =
      run_calls-IsSpent hs calls _ (step-IsSpent hs call db k)
