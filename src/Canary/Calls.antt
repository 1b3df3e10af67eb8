-- ===== src/Canary/Calls.antt =====
-- Every call on the capability tables (app/storage.py) keeps a property that its writes keep.
pub mod Windows
pub mod Permits
pub mod Claims
pub mod Executor
use codex_gate.Prelude.{
  ℕ, ◌≡◌, refl, String, Bool, true, false, ◌&&◌, ◌||◌, not, Option, none, some, List, [], ◌∷◌, ◌++◌,
  any, &&-true, if◌then◌else◌, arith, leb, ◌==◌, is_some,
}
use codex_gate.Canary.Rows.{
  CapabilityStatus, armed, consumed, expired, aborted, Binding, WindowRow, PermitRow, ClaimRow, Db,
  is_armed, is_consumed, update_where,
}
use codex_gate.Canary.Tx.{Tx, Conn, ◌>>=◌, ◌>>◌, pure, raise, require, get, modify}
use codex_gate.Canary.Binding.{Hashes, is_nonce, binding_problem}
use codex_gate.Canary.Windows.{
  on_windows, update_windows, window_is_armed, window_clash, arm_window, require_nonce,
  issue_codex_process_canary_window, consume_codex_process_canary_window,
  mark_codex_process_canary_window_blocked, recover_armed_codex_process_canary_windows,
}
use codex_gate.Canary.Permits.{
  on_permits, update_permits, permit_is_armed, permit_clash, arm_permit, no_problem, validated,
  issue_codex_canary_execution_permit, recover_armed_codex_canary_execution_permits,
  validate_codex_canary_execution_permit, invalidate_codex_canary_execution_permit,
  abort_codex_canary_execution_permit, mark_codex_canary_execution_permit_blocked,
}
use codex_gate.Canary.Claims.{on_claims, update_claims, claim_clash, insert_claim}
use codex_gate.Canary.Steps.{
  ClaimStep, CapabilityStep, expire, consume, abort_armed, abort_consumed, note, WindowStep,
  PermitStep, Stable, Both, Keeps, pure-Keeps, raise-Keeps, get-Keeps, commit-Keeps, found-Keeps,
  modify-Keeps, bind-Keeps, require-Keeps, seq-Keeps,
}

module _ {P : Db → Type 0} where
  pub branch-Keeps :
      {A : Type 0} (b : Bool) {m n : Tx A} → Keeps P m → Keeps P n → Keeps P (if b then m else n)
  branch-Keeps true k l = k
  branch-Keeps false k l = l

  -- A guard that stops when its test holds, at one state.
  pub guard-Both :
      {A : Type 0} (b : Bool) (code : String) (m : Tx A) (c : Conn)
      → Both P c
      → (b ≡ false → Both P ((m c).1))
      → Both P ((require (not b) code >> m) c).1
  unfolding ◌>>◌ ◌>>=◌ require
  guard-Both true code m c k g = k
  guard-Both false code m c k g = g refl

  pub nonce-Keeps : (nonce : Option String) (code : String) → Keeps P (require_nonce nonce code)
  nonce-Keeps none code = raise-Keeps code
  nonce-Keeps (some nonce) code =
      branch-Keeps (is_nonce nonce) (pure-Keeps nonce) (raise-Keeps code)

  pub validated-Keeps : (h : Hashes) (b : Binding) → Keeps P (validated h b)
  validated-Keeps h b = by_problem (binding_problem h b)
    where
      by_problem : (o : Option String) → Keeps P (no_problem o)
      by_problem none = pure-Keeps tt
      by_problem (some code) = raise-Keeps code

pub step-expire : (s : CapabilityStatus) → is_armed s ≡ true → CapabilityStep s expired
step-expire armed h = expire
step-expire consumed h = absurd (ground arith)
step-expire expired h = absurd (ground arith)
step-expire aborted h = absurd (ground arith)

pub step-consume : (s : CapabilityStatus) → is_armed s ≡ true → CapabilityStep s consumed
step-consume armed h = consume
step-consume consumed h = absurd (ground arith)
step-consume expired h = absurd (ground arith)
step-consume aborted h = absurd (ground arith)

pub step-note : (s : CapabilityStatus) → is_consumed s ≡ true → CapabilityStep s s
step-note consumed h = note
step-note armed h = absurd (ground arith)
step-note expired h = absurd (ground arith)
step-note aborted h = absurd (ground arith)

pub step-abort :
    (s : CapabilityStatus) → (is_armed s || is_consumed s) ≡ true → CapabilityStep s aborted
step-abort armed h = abort_armed
step-abort consumed h = abort_consumed
step-abort expired h = absurd (ground arith)
step-abort aborted h = absurd (ground arith)

module _ {P : Db → Type 0} (stable : Stable P) where
  pub update_windows-Keeps :
      (test : WindowRow → Bool) (change : WindowRow → WindowRow)
      → ((w : WindowRow) → test w ≡ true → WindowStep w (change w))
      → Keeps P (update_windows test change)
  update_windows-Keeps test change step =
      modify-Keeps (on_windows (update_where test change)) (stable.windows_update test change step)

  pub arm_window-Keeps : (new : WindowRow) → Keeps P (arm_window new)
  unfolding ◌>>=◌ get modify
  arm_window-Keeps new = record {
    keeps = λ c k. guard-Both _ _ _ c k (λ none_armed. guard-Both _ _ _ c k (λ no_clash. record {
      durable = k.durable;
      working = stable.windows_insert new c.working none_armed no_clash k.working;
    }));
  }

  pub update_permits-Keeps :
      (test : PermitRow → Bool) (change : PermitRow → PermitRow)
      → ((p : PermitRow) → test p ≡ true → PermitStep p (change p))
      → Keeps P (update_permits test change)
  update_permits-Keeps test change step =
      modify-Keeps (on_permits (update_where test change)) (stable.permits_update test change step)

  pub arm_permit-Keeps : (new : PermitRow) → Keeps P (arm_permit new)
  unfolding ◌>>=◌ get modify
  arm_permit-Keeps new = record {
    keeps = λ c k. guard-Both _ _ _ c k (λ none_armed. guard-Both _ _ _ c k (λ no_clash. record {
      durable = k.durable;
      working = stable.permits_insert new c.working none_armed no_clash k.working;
    }));
  }

  pub update_claims-Keeps :
      (test : ClaimRow → Bool) (change : ClaimRow → ClaimRow)
      → ((r : ClaimRow) → test r ≡ true → ClaimStep r (change r))
      → Keeps P (update_claims test change)
  update_claims-Keeps test change step =
      modify-Keeps (on_claims (update_where test change)) (stable.claims_update test change step)

  pub insert_claim-Keeps :
      (new : ClaimRow) → new.spawn_attempted ≡ 0 → new.spawn_count ≡ 0 → Keeps P (insert_claim new)
  unfolding ◌>>=◌ get modify
  insert_claim-Keeps new unattempted unspawned = record {
    keeps = λ c k. guard-Both _ _ _ c k (λ no_clash. record {
      durable = k.durable;
      working = stable.claims_insert new c.working unattempted unspawned no_clash k.working;
    });
  }

-- The steps of the single writes.
pub window-expires :
    (w : WindowRow) (code : Option String)
    → is_armed w.status ≡ true
    → WindowStep w (record w { status = expired; error_code = code })
window-expires w code h = record {
  same_id = refl;
  same_nonce = refl;
  moves = step-expire w.status h;
}

pub window-consumed :
    (w : WindowRow) (now : Option ℕ) (code : Option String)
    → is_armed w.status ≡ true
    → WindowStep w (record w { status = consumed; consumed_at = now; error_code = code })
window-consumed w now code h = record {
  same_id = refl;
  same_nonce = refl;
  moves = step-consume w.status h;
}

pub permit-expires :
    (p : PermitRow) (code : Option String)
    → is_armed p.status ≡ true
    → PermitStep p (record p { status = expired; error_code = code })
permit-expires p code h = record {
  same_id = refl;
  same_nonce = refl;
  moves = step-expire p.status h;
}

pub permit-consumed :
    (p : PermitRow) (now : Option ℕ) (code : Option String)
    → is_armed p.status ≡ true
    → PermitStep p (record p { status = consumed; consumed_at = now; error_code = code })
permit-consumed p now code h = record {
  same_id = refl;
  same_nonce = refl;
  moves = step-consume p.status h;
}

-- The parts of the conditions of the updates.
pub and-left : (a b : Bool) → (a && b) ≡ true → a ≡ true
and-left a b h = (&&-true a b h).0

pub and-right : (a b : Bool) → (a && b) ≡ true → b ≡ true
and-right a b h = (&&-true a b h).1

pub and-middle : (a b c : Bool) → (a && b && c) ≡ true → b ≡ true
and-middle a b c h = and-right a b (and-left (a && b) c h)
