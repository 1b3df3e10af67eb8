-- ===== src/Account/Tests.antt =====
-- The account state at a concrete snapshot.
use codex_gate.Prelude.{◌≡◌, refl, ◌↔◌, ◌⊎◌, false, none, some, [], ◌∷◌}
use codex_gate.Account.Windows.{
  Snapshot, RateLimit, Thresholds, AccountState, snapshots, windows_of, blocking_reason_of,
  blocking_of, reached, larger, max_window, used_of, classify, details_of,
  account_state_details_from_snapshot,
}
use codex_gate.Account.Laws.{AnyBlocks, SomeReaches, IsTop, details-blocked_iff, details-IsTop}

abbrev weekly : RateLimit
weekly = record {
  primary = some 40;
  secondary = some 96;
  spend_control_reached = false;
  rate_limit_reached_type = none;
}

abbrev snapshot : Snapshot
snapshot = record { nested = some weekly; flat = none; by_limit = ("codex", weekly) ∷ [] }

abbrev thresholds : Thresholds
thresholds = record { conserve = 70; critical = 85; blocked = 95 }

snapshot_blocked :
    (account_state_details_from_snapshot (some snapshot) thresholds).status ≡ AccountState.blocked
unfolding account_state_details_from_snapshot details_of snapshots windows_of blocking_reason_of
    blocking_of reached larger max_window used_of classify
snapshot_blocked = refl

details-blocked_iff_example :
    ((account_state_details_from_snapshot (some snapshot) thresholds).status ≡ AccountState.blocked)
    ↔ (AnyBlocks (snapshots snapshot) ⊎ SomeReaches 95 (windows_of (snapshots snapshot)))
details-blocked_iff_example = details-blocked_iff snapshot thresholds

details-IsTop_example :
    IsTop
      (account_state_details_from_snapshot (some snapshot) thresholds).windows
      (account_state_details_from_snapshot (some snapshot) thresholds).maximum_window
details-IsTop_example = details-IsTop snapshot thresholds
