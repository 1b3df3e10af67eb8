-- ===== src/Canary/Single.antt =====
-- The number of ARMED windows and permits (app/storage.py) under sequences of calls.
use codex_gate.Prelude.{
  ◌≡◌, ◌≤◌, Bool, true, false, List, [], ◌∷◌, ◌++◌, any, arith, Bool-cases, inl, inr,
}
use codex_gate.Canary.Rows.{Db, update_where, count_where}
use codex_gate.Canary.Binding.{Hashes}
use codex_gate.Canary.Windows.{window_is_armed}
use codex_gate.Canary.Permits.{permit_is_armed}
use codex_gate.Canary.Steps.{Stable}
use codex_gate.Canary.Spent.{step-not_armed}
use codex_gate.Canary.Ops.{Op, run}
use codex_gate.Canary.Histories.{run-Keeps}

module _ {A : Type 0} (p : A → Bool) where
  count_where-update_where :
      (test : A → Bool) (change : A → A)
      → ((x : A) → test x ≡ true → p (change x) ≡ false)
      → (xs : List A) → count_where p (update_where test change xs) ≤ count_where p xs
  unfolding update_where count_where
  count_where-update_where test change off [] = omega arith
  count_where-update_where test change off (x ∷ xs) =
      let rest = count_where-update_where test change off xs in
      elim (Bool-cases (test x)) [
        | inl on ↦ let k = off x on in ground arith
        | inr skipped ↦ ground arith
      ]

  count_where-append : (xs : List A) (y : A) → any p xs ≡ false → count_where p (xs ++ y ∷ []) ≤ 1
  unfolding count_where
  count_where-append [] y none_armed = ground arith
  count_where-append (x ∷ xs) y none_armed =
      let rest = count_where-append xs y (ground arith) in ground arith

pub record IsSingle (db : Db) : Type 0 where
  pub windows : count_where window_is_armed db.windows ≤ 1
  pub permits : count_where permit_is_armed db.permits ≤ 1

IsSingle-Stable : Stable IsSingle
IsSingle-Stable = record {
  windows_update = λ test change step db k.
      let fewer =
        count_where-update_where window_is_armed test change
          (λ w t. step-not_armed ((step w t).moves)) db.windows in
      let before = k.windows in record { windows = omega arith; permits = k.permits };
  windows_insert = λ new db none_armed no_clash k. record {
    windows = count_where-append window_is_armed db.windows new none_armed;
    permits = k.permits;
  };
  permits_update = λ test change step db k.
      let fewer =
        count_where-update_where permit_is_armed test change
          (λ w t. step-not_armed ((step w t).moves)) db.permits in
      let before = k.permits in record { permits = omega arith; windows = k.windows };
  permits_insert = λ new db none_armed no_clash k. record {
    permits = count_where-append permit_is_armed db.permits new none_armed;
    windows = k.windows;
  };
  claims_update = λ test change step db k. record { windows = k.windows; permits = k.permits };
  claims_insert = λ new db unattempted unspawned no_clash k. record {
    windows = k.windows;
    permits = k.permits;
  };
}

-- If at most one window and at most one permit are ARMED, then this is so after any calls.
pub run-IsSingle : (h : Hashes) (ops : List Op) (db : Db) → IsSingle db → IsSingle (run h ops db)
run-IsSingle h = run-Keeps IsSingle-Stable h
