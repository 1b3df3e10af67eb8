-- ===== src/Arms/Once.antt =====
-- Consumptions of an arm (app/storage.py) before and after other calls.
use codex_gate.Prelude.{
  ℕ, ◌≡◌, refl, ap, ◌∙◌, String, Bool, true, false, not, Option, none, some, List, [], ◌∷◌, find,
  mem-find, leb, ◌==◌, Bool-cases, inl, inr, arith, is_some, if◌then◌else◌, Result, ok, err,
}
use codex_gate.Canary.Rows.{update_where, count_where}
use codex_gate.Canary.Binding.{is_nonce, same_texts}
use codex_gate.Canary.Found.{find-append, find-update_where, find-updated}
use codex_gate.Arms.Table.{
  Identity, identity_texts, Arm, of_nonce, new_arm, issue_egress_harness_arm, unconsumed,
  consume_arm, consume_found, consume_egress_harness_arm, Call, issue, consume, step, run_calls,
}

pub record IsConsumed (h : String) (arms : List Arm) : Type 0 where
  pub arm : Arm
  pub found : find (of_nonce h) arms ≡ some arm
  pub used : is_some arm.consumed_at ≡ true

module _ (digest : String → String) (h : String) where
  pub issue-IsConsumed :
      (i : Identity) (ttl_seconds now : ℕ) (nonce : String) (arms : List Arm)
      → IsConsumed h arms
      → IsConsumed h ((issue_egress_harness_arm digest i ttl_seconds now nonce arms).1)
  unfolding issue_egress_harness_arm
  issue-IsConsumed i ttl_seconds now nonce arms k =
      let found = k.found in
      let longer =
        find-append (of_nonce h) arms (new_arm (digest nonce) i ttl_seconds now ∷ []) k.found in
      record { arm = k.arm; found = ground arith; used = k.used }

  pub update-IsConsumed :
      (hash : String) (now : ℕ) (arms : List Arm)
      → IsConsumed h arms
      → IsConsumed h (update_where (unconsumed hash) (consume_arm now) arms)
  update-IsConsumed hash now arms k = record {
    arm = if unconsumed hash k.arm then consume_arm now k.arm else k.arm;
    found =
        find-update_where (of_nonce h) (unconsumed hash) (consume_arm now) (λ a _. refl) arms
          k.found;
    used = still (unconsumed hash k.arm);
  }
    where
      still : (b : Bool) → is_some (if b then consume_arm now k.arm else k.arm).consumed_at ≡ true
      still true = refl
      still false = k.used

  refusal-IsConsumed :
      (b : Bool) (code : String) (arms : List Arm) (r : Result Arm × List Arm)
      → IsConsumed h arms
      → IsConsumed h (r.1)
      → IsConsumed h ((if b then (err code, arms) else r).1)
  refusal-IsConsumed true code arms r k l = k
  refusal-IsConsumed false code arms r k l = l

  consume_found-IsConsumed :
      (hash : String) (i : Identity) (now : ℕ) (arms : List Arm) (o : Option Arm)
      → IsConsumed h arms
      → IsConsumed h ((consume_found hash i now arms o).1)
  consume_found-IsConsumed hash i now arms none k = k
  consume_found-IsConsumed hash i now arms (some a) k =
      let last : Result Arm × List Arm =
        (ok (consume_arm now a), update_where (unconsumed hash) (consume_arm now) arms) in
      let counted : Result Arm × List Arm =
        if not (count_where (unconsumed hash) arms == 1) then (err "arm_reused", arms) else last in
      let timed : Result Arm × List Arm =
        if leb a.expires_at now then (err "arm_expired", arms) else counted in
      let used : Result Arm × List Arm =
        if is_some a.consumed_at then (err "arm_reused", arms) else timed in
      refusal-IsConsumed (not (same_texts (identity_texts a.identity) (identity_texts i)))
        "arm_binding_changed" arms used k
        (refusal-IsConsumed (is_some a.consumed_at) "arm_reused" arms timed k (
          refusal-IsConsumed (leb a.expires_at now) "arm_expired" arms counted k (
            refusal-IsConsumed (not (count_where (unconsumed hash) arms == 1)) "arm_reused" arms
              last k (update-IsConsumed hash now arms k))))

  pub consume-IsConsumed :
      (nonce : Option String) (i : Identity) (now : ℕ) (arms : List Arm)
      → IsConsumed h arms
      → IsConsumed h ((consume_egress_harness_arm digest nonce i now arms).1)
  unfolding consume_egress_harness_arm
  consume-IsConsumed none i now arms k = k
  consume-IsConsumed (some nonce) i now arms k = by_nonce (is_nonce nonce)
    where
      by_nonce :
          (b : Bool)
          → IsConsumed h (
              (if not b
                then (err "arm_required", arms)
                else consume_found
                    (digest nonce)
                    i
                    now
                    arms
                    (find (of_nonce (digest nonce)) arms)).1)
      by_nonce true =
          consume_found-IsConsumed (digest nonce) i now arms (find (of_nonce (digest nonce)) arms) k
      by_nonce false = k

  run-IsConsumed :
      (calls : List Call) (arms : List Arm)
      → IsConsumed h arms
      → IsConsumed h (run_calls digest calls arms)
  unfolding run_calls step
  run-IsConsumed [] arms k = k
  run-IsConsumed (issue i ttl_seconds now nonce ∷ calls) arms k =
      run-IsConsumed calls _ (issue-IsConsumed i ttl_seconds now nonce arms k)
  run-IsConsumed (consume nonce i now ∷ calls) arms k =
      run-IsConsumed calls _ (consume-IsConsumed nonce i now arms k)

consume_found_first :
    (hash : String) (i : Identity) (now : ℕ) (arms arms' : List Arm) (a : Arm) (o : Option Arm)
    → find (of_nonce hash) arms ≡ o
    → consume_found hash i now arms o ≡ (ok a, arms')
    → IsConsumed hash arms'
consume_found_first hash i now arms arms' a none ef e = absurd (ground arith)
consume_found_first hash i now arms arms' a (some x) ef e =
    elim (Bool-cases (is_some x.consumed_at)) [
      | inl used ↦ absurd (ground arith)
      | inr unused ↦
          let has = (mem-find (of_nonce hash) arms ef).1 in
          let moved : arms' ≡ update_where (unconsumed hash) (consume_arm now) arms =
            ground arith in
          record {
            arm = consume_arm now x;
            found =
                ap (find (of_nonce hash)) moved
                ∙ find-updated (of_nonce hash) (unconsumed hash) (consume_arm now) arms x
                    (λ y _. refl) ef (ground arith);
            used = refl;
          }
    ]

consume_found-refused :
    (hash : String) (i : Identity) (now : ℕ) (arms : List Arm) (k : IsConsumed hash arms)
    → (code : String) × (consume_found hash i now arms (some k.arm) ≡ (err code, arms))
consume_found-refused hash i now arms k =
    let used = k.used in
    elim (Bool-cases (same_texts (identity_texts k.arm.identity) (identity_texts i))) [
      | inl same ↦ ("arm_reused", ground arith)
      | inr other ↦ ("arm_binding_changed", ground arith)
    ]

-- After a consume_egress_harness_arm that returns, and after any issues and consumptions that follow it,
-- a consumption with the same nonce is refused, whatever identity it names, and changes nothing.
pub consume_egress_harness_arm-once :
    (digest : String → String) (nonce : String) (i : Identity) (now : ℕ) (arms arms' : List Arm)
    (a : Arm)
    → consume_egress_harness_arm digest (some nonce) i now arms ≡ (ok a, arms')
    → (calls : List Call) (i' : Identity) (now' : ℕ)
    → (code : String) × (consume_egress_harness_arm digest
          (some nonce)
          i'
          now'
          (run_calls digest calls arms')
        ≡ (err code, run_calls digest calls arms'))
unfolding consume_egress_harness_arm
consume_egress_harness_arm-once digest nonce i now arms arms' a e calls i' now' =
    elim (Bool-cases (is_nonce nonce)) [
      | inl valid ↦
          let first =
            consume_found_first (digest nonce) i now arms arms' a
              (find (of_nonce (digest nonce)) arms) refl (ground arith) in
          let k = run-IsConsumed digest (digest nonce) calls arms' first in
          let found = k.found in
          let (code, refused) =
            consume_found-refused (digest nonce) i' now' (run_calls digest calls arms') k in
          (code, ground arith)
      | inr invalid ↦ ("arm_required", ground arith)
    ]
