-- ===== src/Ledger/Compare.antt =====
-- compare_records (app/token_ledger.py).
pub mod Exact
use codex_gate.Prelude.{
  ℕ, String, Bool, true, false, ◌&&◌, ◌||◌, not, Option, none, some, ◌==◌, str_eq, if◌then◌else◌,
}
use codex_gate.Ledger.Records.{Fraction, Record, or_zero, measure_for_compare}

pub data Status : Type 0 where
  comparable estimate_only not_comparable : Status

-- A saving is `1 - actual / baseline`, kept as the fraction `actual / baseline`.
pub record Comparison : Type 0 where
  pub status : Status
  pub reason : String
  pub baseline : Option Record
  pub actual : Option Record
  pub processed : Option Fraction
  pub non_cached : Option Fraction
  pub high_turns : Option Fraction

unfoldable pub refuse : Status → String → Option Record → Option Record → Comparison
refuse status reason b a = record {
  status = status;
  reason = reason;
  baseline = b;
  actual = a;
  processed = none;
  non_cached = none;
  high_turns = none;
}

-- `str(record.get("status") or "UNKNOWN") != "SUCCESS"`.
abbrev pub is_success : Record → Bool
is_success r = elim r.status [ none ↦ false | some s ↦ str_eq s "SUCCESS" ]

abbrev pub is_estimated : Record → Bool
is_estimated r = elim r.quality [ none ↦ false | some q ↦ str_eq q "ESTIMATED" ]

abbrev pub is_zero : Option ℕ → Bool
is_zero none = false
is_zero (some n) = n == 0

abbrev pub is_missing : Option ℕ → Option ℕ → Bool
is_missing (some b) (some a) = false
is_missing _ _ = true

abbrev pub fraction : ℕ → ℕ → Fraction
fraction a b = record { top = a; bottom = b }

abbrev high_fraction : ℕ → ℕ → Option Fraction
high_fraction b a = if b == 0 then none else some (fraction a b)

unfoldable pub compared : Record → Record → Comparison
compared b a = record {
  status = comparable;
  reason = "";
  baseline = some b;
  actual = some a;
  processed = some (fraction (or_zero a.processed_tokens) (or_zero b.processed_tokens));
  non_cached =
      some (fraction (or_zero a.non_cached_input_tokens) (or_zero b.non_cached_input_tokens));
  high_turns = high_fraction (or_zero b.high_model_turns) (or_zero a.high_model_turns);
}

-- The tests behind the measures.
unfoldable pub compare_views : Record → Record → Comparison
compare_views b a =
    if is_missing b.processed_tokens a.processed_tokens
    then refuse not_comparable "Processed token totals are missing." (some b) (some a)
    else if is_zero b.processed_tokens
    then refuse not_comparable "Baseline processed tokens are zero." (some b) (some a)
    else if is_missing b.non_cached_input_tokens a.non_cached_input_tokens
    then refuse not_comparable "Non-cached input totals are missing." (some b) (some a)
    else if is_zero b.non_cached_input_tokens
    then refuse not_comparable "Baseline non-cached input tokens are zero." (some b) (some a)
    else if is_estimated b || is_estimated a
    then refuse estimate_only "Estimated values are present." (some b) (some a)
    else compared b a

unfoldable pub compare_both : Record → Record → Comparison
compare_both b a =
    if not (str_eq b.comparison_key a.comparison_key)
    then refuse not_comparable "comparison_key does not match." (some (measure_for_compare b))
        (some (measure_for_compare a))
    else if not (str_eq b.success_criteria_hash a.success_criteria_hash)
    then refuse not_comparable "success_criteria_hash does not match."
        (some (measure_for_compare b)) (some (measure_for_compare a))
    else if not (is_success b && is_success a)
    then refuse not_comparable "Both baseline and actual run must be SUCCESS."
        (some (measure_for_compare b)) (some (measure_for_compare a))
    else compare_views (measure_for_compare b) (measure_for_compare a)

unfoldable pub compare_records : Option Record → Option Record → Comparison
compare_records none none =
    refuse not_comparable "No baseline or actual run is available." none none
compare_records none (some a) =
    refuse not_comparable "A baseline has not been registered yet." none
      (some (measure_for_compare a))
compare_records (some b) none =
    refuse not_comparable "No successful actual run has been recorded yet."
      (some (measure_for_compare b)) none
compare_records (some b) (some a) = compare_both b a
