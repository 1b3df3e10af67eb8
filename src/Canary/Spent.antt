-- ===== src/Canary/Spent.antt =====
-- A capability that its nonce does not find in the state ARMED (app/storage.py).
use codex_gate.Prelude.{
  ◌≡◌, refl, ap, Bool, true, false, String, some, find, str_eq, if◌then◌else◌, ◌∷◌, [],
}
use codex_gate.Canary.Rows.{CapabilityStatus, WindowRow, PermitRow, Db, is_armed}
use codex_gate.Canary.Windows.{window_nonce}
use codex_gate.Canary.Permits.{permit_nonce}
use codex_gate.Canary.Steps.{
  CapabilityStep, expire, consume, abort_armed, abort_consumed, note, Stable,
}
use codex_gate.Canary.Found.{find-append, find-update_where}

pub record IsPermitSpent (n : String) (db : Db) : Type 0 where
  pub row : PermitRow
  pub found : find (permit_nonce n) db.permits ≡ some row
  pub not_armed : is_armed row.status ≡ false

pub record IsWindowSpent (n : String) (db : Db) : Type 0 where
  pub row : WindowRow
  pub found : find (window_nonce n) db.windows ≡ some row
  pub not_armed : is_armed row.status ≡ false

-- No step leads to ARMED.
pub step-not_armed : {s t : CapabilityStatus} → CapabilityStep s t → is_armed t ≡ false
step-not_armed expire = refl
step-not_armed consume = refl
step-not_armed abort_armed = refl
step-not_armed abort_consumed = refl
step-not_armed note = refl

stays-not_armed {ℓ} :
    {A : Type ℓ} (status : A → CapabilityStatus) (b : Bool) (x y : A)
    → (b ≡ true → is_armed (status y) ≡ false)
    → is_armed (status x) ≡ false
    → is_armed (status (if b then y else x)) ≡ false
stays-not_armed status true x y on off = on refl
stays-not_armed status false x y on off = off

pub IsPermitSpent-Stable : (n : String) → Stable (IsPermitSpent n)
IsPermitSpent-Stable n = record {
  windows_update =
      λ test change step db k. record { row = k.row; found = k.found; not_armed = k.not_armed };
  windows_insert = λ new db none_armed no_clash k. record {
    row = k.row;
    found = k.found;
    not_armed = k.not_armed;
  };
  permits_update = λ test change step db k. record {
    row = if test k.row then change k.row else k.row;
    found =
        find-update_where (permit_nonce n) test change
          (λ p t. ap (λ s. str_eq s n) ((step p t).same_nonce)) db.permits k.found;
    not_armed =
        stays-not_armed (λ p. p.status) (test k.row) k.row (change k.row)
          (λ t. step-not_armed ((step k.row t).moves)) k.not_armed;
  };
  permits_insert = λ new db none_armed no_clash k. record {
    row = k.row;
    found = find-append (permit_nonce n) db.permits (new ∷ []) k.found;
    not_armed = k.not_armed;
  };
  claims_update =
      λ test change step db k. record { row = k.row; found = k.found; not_armed = k.not_armed };
  claims_insert = λ new db unattempted unspawned no_clash k. record {
    row = k.row;
    found = k.found;
    not_armed = k.not_armed;
  };
}

pub IsWindowSpent-Stable : (n : String) → Stable (IsWindowSpent n)
IsWindowSpent-Stable n = record {
  permits_update =
      λ test change step db k. record { row = k.row; found = k.found; not_armed = k.not_armed };
  permits_insert = λ new db none_armed no_clash k. record {
    row = k.row;
    found = k.found;
    not_armed = k.not_armed;
  };
  windows_update = λ test change step db k. record {
    row = if test k.row then change k.row else k.row;
    found =
        find-update_where (window_nonce n) test change
          (λ p t. ap (λ s. str_eq s n) ((step p t).same_nonce)) db.windows k.found;
    not_armed =
        stays-not_armed (λ p. p.status) (test k.row) k.row (change k.row)
          (λ t. step-not_armed ((step k.row t).moves)) k.not_armed;
  };
  windows_insert = λ new db none_armed no_clash k. record {
    row = k.row;
    found = find-append (window_nonce n) db.windows (new ∷ []) k.found;
    not_armed = k.not_armed;
  };
  claims_update =
      λ test change step db k. record { row = k.row; found = k.found; not_armed = k.not_armed };
  claims_insert = λ new db unattempted unspawned no_clash k. record {
    row = k.row;
    found = k.found;
    not_armed = k.not_armed;
  };
}
