-- ===== src/Arms/Windows/Lifetime.antt =====
-- How long an execution window can be open (app/storage.py).
use codex_gate.Prelude.{
  ◌≡◌, refl, sym, subst, ap, ◌∙◌, ℕ, ◌+◌, ◌*◌, ◌≤◌, ◌<◌, Bool, true, false, not, some, List, [],
  ◌∷◌, ◌++◌, any, ◌==◌, if◌then◌else◌, arith, Bool-cases, ◌⊎◌, inl, inr, Memᴰ, find,
}
use codex_gate.Canary.Rows.{update_where}
use codex_gate.Canary.Binding.{is_nonce, is_row_id, is_error_code}
use codex_gate.Arms.Table.{of_nonce}
use codex_gate.Arms.Windows.Branches.{refusal_keeps, rows_keeps}
use codex_gate.Arms.Windows.{
  is_armed, Window, Db, Hashes, new_window, lifetime, overdue, lapse, window_is_armed, clash,
  is_sealed, issue_egress_execution_window, takeable, take, consume_egress_execution_window,
  blockable, mark_egress_execution_window_blocked, recover_armed_egress_execution_windows, Call,
  issue_arm, consume_arm_of, issue, consume, block, recover, step, run_calls, status_at,
  execution_window_public, of_window,
}

-- Every window of the list ends its lifetime after its issue.
pub data IsTimed : List Window → Type 0 where
  no_windows : IsTimed []
  one_more :
      {w : Window} {ws : List Window}
      → w.expires_at ≡ w.issued_at + lifetime
      → IsTimed ws
      → IsTimed (w ∷ ws)

update-IsTimed :
    (test : Window → Bool) (change : Window → Window)
    → ((w : Window) → (change w).expires_at ≡ w.expires_at)
    → ((w : Window) → (change w).issued_at ≡ w.issued_at)
    → (ws : List Window) → IsTimed ws
    → IsTimed (update_where test change ws)
unfolding update_where
update-IsTimed test change same issued [] no_windows = no_windows
update-IsTimed test change same issued (w ∷ ws) (one_more e k) =
    one_more (by_test (test w)) (update-IsTimed test change same issued ws k)
  where
    by_test :
        (b : Bool)
        → (if b then change w else w).expires_at ≡ (if b then change w else w).issued_at + lifetime
    by_test true = same w ∙ e ∙ sym (ap (λ t. t + lifetime) (issued w))
    by_test false = e

append-IsTimed :
    (ws : List Window) (w : Window)
    → w.expires_at ≡ w.issued_at + lifetime
    → IsTimed ws
    → IsTimed (ws ++ w ∷ [])
append-IsTimed [] w e no_windows = one_more e no_windows
append-IsTimed (x ∷ ws) w e (one_more f k) = one_more f (append-IsTimed ws w e k)

abbrev Timed : Db → Type 0
Timed db = IsTimed db.windows

step-IsTimed : (hs : Hashes) (call : Call) (db : Db) → Timed db → Timed (step hs call db)
unfolding step issue_egress_execution_window consume_egress_execution_window
    mark_egress_execution_window_blocked recover_armed_egress_execution_windows
step-IsTimed hs (issue_arm i ttl_seconds now nonce) db k = k
step-IsTimed hs (consume_arm_of text i now) db k = k
step-IsTimed hs (issue b ttl_seconds now id nonce arm_nonce) db k =
    let current = update_where (overdue now) (lapse "execution_window_expired") db.windows in
    let w = new_window hs b now id nonce in
    refusal_keeps Timed (not (is_sealed hs b)) _ db _ k (
      refusal_keeps Timed (not (ttl_seconds == 120)) _ db _ k (
        refusal_keeps Timed (any window_is_armed current) _ db _ k (
          refusal_keeps Timed (any (clash w) current) _ db _ k (
            refusal_keeps Timed (any (of_nonce (hs.digest arm_nonce)) db.arms) _ db _ k (
              append-IsTimed current w refl (
                update-IsTimed (overdue now) (lapse "execution_window_expired") (λ x. refl)
                  (λ x. refl) db.windows k))))))
step-IsTimed hs (consume nonce arm_nonce now) db k =
    refusal_keeps Timed (not (is_nonce nonce)) _ db _ k (
      refusal_keeps Timed (not (is_nonce arm_nonce)) _ db _ k (
        rows_keeps Timed (hs.digest nonce) (hs.digest arm_nonce) now
          (find (of_window (hs.digest nonce)) db.windows)
          (find (of_nonce (hs.digest arm_nonce)) db.arms) db
          (λ next failure w off.
            update-IsTimed (takeable (hs.digest nonce)) (take next now failure) (λ x. refl)
              (λ x. refl) db.windows k)
          k))
step-IsTimed hs (block id code) db k = refusal_keeps Timed (not (is_row_id id)) _ db _ k (
    refusal_keeps Timed (not (is_error_code code)) _ db _ k (
      update-IsTimed (blockable id) (λ w. record w { error_code = some code }) (λ x. refl)
        (λ x. refl) db.windows k))
step-IsTimed hs recover db k =
    update-IsTimed window_is_armed (lapse "execution_window_restart_expired") (λ x. refl)
      (λ x. refl) db.windows k

run_calls-IsTimed :
    (hs : Hashes) (calls : List Call) (db : Db) → Timed db → Timed (run_calls hs calls db)
unfolding run_calls
run_calls-IsTimed hs [] db k = k
run_calls-IsTimed hs (call ∷ calls) db k = run_calls-IsTimed hs calls _ (step-IsTimed hs call db k)

timed_expiry :
    (ws : List Window) {w : Window} → IsTimed ws → Memᴰ w ws → w.expires_at ≡ w.issued_at + lifetime
timed_expiry [] k m = elim m [ ]
timed_expiry (x ∷ ws) {w} (one_more e k) (Memᴰ.head q) =
    subst (λ z. z.expires_at ≡ z.issued_at + lifetime) (sym q) e
timed_expiry (x ∷ ws) (one_more e k) (Memᴰ.tail m) = timed_expiry ws k m

-- After any calls on empty tables, and at any time from its issue on, a window shows at most 120 remaining
-- seconds, and it is not shown as armed unless less than 120 seconds have gone by since its issue.
pub execution_window_public-le :
    (hs : Hashes) (calls : List Call) (w : Window) (now : ℕ)
    → Memᴰ w (run_calls hs calls (record { windows = []; arms = [] })).windows
    → w.issued_at ≤ now
    → ((execution_window_public now w).remaining_seconds ≤ 120)
      × ((is_armed (execution_window_public now w).status ≡ false)
          ⊎ (now < w.issued_at + 120 * 1000000))
unfolding execution_window_public
execution_window_public-le hs calls w now m after =
    let e = timed_expiry _ (run_calls-IsTimed hs calls _ no_windows) m in
    (
      ground arith,
      elim (Bool-cases (is_armed (status_at now w))) [
        | inr off ↦ inl off
        | inl on ↦ inr (ground arith)
      ],
    )
