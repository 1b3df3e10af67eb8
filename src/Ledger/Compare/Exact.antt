-- ===== src/Ledger/Compare/Exact.antt =====
-- When two records are comparable (app/token_ledger.py).
use codex_gate.Prelude.{◌≡◌, ◌↔◌, true, false, some, str_eq, arith}
use codex_gate.Ledger.Records.{
  Record, measure_for_compare, processed_tokens_of, non_cached_input_tokens_of,
}
use codex_gate.Ledger.Compare.{
  comparable, is_success, is_estimated, is_zero, is_missing, compare_records, compare_both,
  compare_views, refuse, compared,
}

-- What makes an actual run comparable with a baseline: the same task, two successes, token totals and
-- uncached inputs on both sides that are positive in the baseline, and no estimate.
pub record IsComparable (b a : Record) : Type 0 where
  pub same_key : str_eq b.comparison_key a.comparison_key ≡ true
  pub same_criteria : str_eq b.success_criteria_hash a.success_criteria_hash ≡ true
  pub baseline_success : is_success b ≡ true
  pub actual_success : is_success a ≡ true
  pub processed : is_missing (processed_tokens_of b) (processed_tokens_of a) ≡ false
  pub processed_positive : is_zero (processed_tokens_of b) ≡ false
  pub non_cached : is_missing (non_cached_input_tokens_of b) (non_cached_input_tokens_of a) ≡ false
  pub non_cached_positive : is_zero (non_cached_input_tokens_of b) ≡ false
  pub baseline_measured : is_estimated b ≡ false
  pub actual_measured : is_estimated a ≡ false

comparable-IsComparable :
    (b a : Record) → (compare_records (some b) (some a)).status ≡ comparable → IsComparable b a
unfolding compare_records compare_both compare_views measure_for_compare refuse compared
comparable-IsComparable b a h = record {
  same_key = ground arith;
  same_criteria = ground arith;
  baseline_success = ground arith;
  actual_success = ground arith;
  processed = ground arith;
  processed_positive = ground arith;
  non_cached = ground arith;
  non_cached_positive = ground arith;
  baseline_measured = ground arith;
  actual_measured = ground arith;
}

IsComparable-comparable :
    (b a : Record) → IsComparable b a → (compare_records (some b) (some a)).status ≡ comparable
unfolding compare_records compare_both compare_views measure_for_compare refuse compared
IsComparable-comparable b a w =
    let record {
      same_key = key;
      same_criteria = criteria;
      baseline_success = bs;
      actual_success = as';
      processed = p;
      processed_positive = pp;
      non_cached = n;
      non_cached_positive = np;
      baseline_measured = bm;
      actual_measured = am;
    } =
      w in
    ground arith

-- compare_records finds a baseline and an actual run comparable exactly when both are for the same key and
-- criteria and have succeeded, both have totals of processed and of uncached input tokens, those of
-- the baseline are not zero, and neither is an estimate.
pub compare_records_iff :
    (b a : Record) → ((compare_records (some b) (some a)).status ≡ comparable) ↔ IsComparable b a
compare_records_iff b a = (comparable-IsComparable b a, IsComparable-comparable b a)
