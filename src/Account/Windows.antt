-- ===== src/Account/Windows.antt =====
-- account_state_details_from_snapshot of app/storage.py. A snapshot is read through the keys that the
-- function reads; a key that is absent, or of another type, is `none` here. `usedPercent` is a
-- percentage, so the integers are natural numbers.
use codex_gate.Prelude.{
  ℕ, String, Bool, true, false, Option, none, some, List, [], ◌∷◌, ◌++◌, str_eq, is_some, leb,
  if◌then◌else◌,
}

pub data AccountState : Type 0 where
  normal conserve critical blocked unknown : AccountState

-- The two window names.
pub data WindowName : Type 0 where
  primary secondary : WindowName

-- Where a rate limit stands in the snapshot: `rateLimits`, or `rateLimitsByLimitId.<id>`.
pub data Source : Type 0 where
  rate_limits : Source
  by_limit_id : String → Source

-- One rate-limit object. `primary` and `secondary` hold `usedPercent` where the window is an object
-- with an integer there; `spend_control_reached` says whether the value is the boolean `True`.
pub record RateLimit : Type 0 where
  pub primary : Option ℕ
  pub secondary : Option ℕ
  pub spend_control_reached : Bool
  pub rate_limit_reached_type : Option String

-- A snapshot: the object under `rateLimits`; the snapshot itself where it has one of the four keys
-- of a rate limit; and the objects under `rateLimitsByLimitId`.
pub record Snapshot : Type 0 where
  pub nested : Option RateLimit
  pub flat : Option RateLimit
  pub by_limit : List (String × RateLimit)

pub record Thresholds : Type 0 where
  pub conserve : ℕ
  pub critical : ℕ
  pub blocked : ℕ

pub record Window : Type 0 where
  pub source : Source
  pub name : WindowName
  pub used_percent : ℕ

pub data BlockingReason : Type 0 where
  spend_control : Source → BlockingReason
  reached_type : Source → String → BlockingReason

pub record StateDetails : Type 0 where
  pub status : AccountState
  pub maximum_used_percent : Option ℕ
  pub maximum_window : Option Window
  pub windows : List Window
  pub blocking_reason : Option BlockingReason

limits_by_id : List (String × RateLimit) → List (Source × RateLimit)
limits_by_id [] = []
limits_by_id ((id, limit) ∷ rest) = (by_limit_id id, limit) ∷ limits_by_id rest

-- `elif` of the first two keys.
whole_limit : Option RateLimit → Option RateLimit → List (Source × RateLimit)
whole_limit (some limit) flat = (rate_limits, limit) ∷ []
whole_limit none (some limit) = (rate_limits, limit) ∷ []
whole_limit none none = []

-- The list `snapshots`.
unfoldable pub snapshots : Snapshot → List (Source × RateLimit)
unfolding limits_by_id whole_limit
snapshots s = whole_limit s.nested s.flat ++ limits_by_id s.by_limit

window_of : Source → WindowName → Option ℕ → List Window
window_of source name none = []
window_of source name (some used) =
    record { source = source; name = name; used_percent = used } ∷ []

-- The list `windows`, in the order of the two nested loops.
unfoldable pub windows_of : List (Source × RateLimit) → List Window
unfolding window_of
windows_of [] = []
windows_of ((source, limit) ∷ rest) =
    window_of source primary limit.primary
    ++ (window_of source secondary limit.secondary ++ windows_of rest)

-- The two tests of one rate limit; the later test overwrites.
unfoldable pub reached : Source → Option String → Option BlockingReason → Option BlockingReason
reached source none reason = reason
reached source (some kind) reason =
    if str_eq kind "" then reason else some (reached_type source kind)

unfoldable pub blocking_of : Source → RateLimit → Option BlockingReason → Option BlockingReason
unfolding reached
blocking_of source limit reason =
    reached source limit.rate_limit_reached_type
      (if limit.spend_control_reached then some (spend_control source) else reason)

unfoldable pub blocking_reason_of :
    List (Source × RateLimit) → Option BlockingReason → Option BlockingReason
blocking_reason_of [] reason = reason
blocking_reason_of ((source, limit) ∷ rest) reason =
    blocking_reason_of rest (blocking_of source limit reason)

-- `max(windows, key=...)`: the first of the largest.
unfoldable pub larger : Window → Option Window → Option Window
larger w none = some w
larger w (some v) = some (if leb v.used_percent w.used_percent then w else v)

unfoldable pub max_window : List Window → Option Window
max_window [] = none
max_window (w ∷ ws) = larger w (max_window ws)

unfoldable pub used_of : Option Window → Option ℕ
used_of none = none
used_of (some w) = some w.used_percent

-- The ladder of `elif` tests.
unfoldable pub classify : Thresholds → Bool → Option ℕ → AccountState
classify t true used = blocked
classify t false none = unknown
classify t false (some used) =
    if leb t.blocked used
    then blocked
    else if leb t.critical used
    then critical
    else if leb t.conserve used
    then conserve
    else normal

unfoldable pub details_of : List (Source × RateLimit) → Thresholds → StateDetails
unfolding classify used_of
details_of limits t =
    let windows = windows_of limits in
    let top = max_window windows in
    let reason = blocking_reason_of limits none in
    record {
      status = classify t (is_some reason) (used_of top);
      maximum_used_percent = used_of top;
      maximum_window = top;
      windows = windows;
      blocking_reason = reason;
    }

unfoldable pub account_state_details_from_snapshot : Option Snapshot → Thresholds → StateDetails
unfolding details_of
account_state_details_from_snapshot none t = record {
  status = unknown;
  maximum_used_percent = none;
  maximum_window = none;
  windows = [];
  blocking_reason = none;
}
account_state_details_from_snapshot (some s) t = details_of (snapshots s) t

unfoldable pub account_state_from_snapshot : Option Snapshot → Thresholds → AccountState
account_state_from_snapshot s t = (account_state_details_from_snapshot s t).status
