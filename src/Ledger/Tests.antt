-- ===== src/Ledger/Tests.antt =====
-- Runs of the token ledger on concrete records, and the theorems on them.
use codex_gate.Prelude.{◌≡◌, refl, ◌↔◌, none, some, [], ◌∷◌, Memᴰ, err}
use codex_gate.Json.Values.{Fields, end, field, number, get}
use codex_gate.Ledger.Records.{
  Record, optional_int, int_of, counts_of, check_counts, with_counts, normalize_tokens, ◌>>=◌,
  measure_for_compare, processed_tokens_of, non_cached_input_tokens_of, cache_ratio_of,
}
use codex_gate.Ledger.Records.Consistent.{IsSplit, normalize_tokens-stored}
use codex_gate.Ledger.Compare.{comparable, compare_records, compare_both, compare_views, compared}
use codex_gate.Ledger.Compare.Exact.{IsComparable, compare_records_iff}
use codex_gate.Ledger.Report.{
  comparisons, compare_keys, all_keys, sort_keys, insert_key, latest_by_identity, put_all, put,
  sort_into, insert,
}
use codex_gate.Ledger.Report.Sound.{IsFounded, comparisons-IsFounded}

abbrev blank : Record
blank = record {
  baseline_id = none;
  run_id = some "a";
  comparison_key = "key";
  success_criteria_hash = "criteria";
  status = some "SUCCESS";
  quality = some "OBSERVED";
  input_tokens = none;
  cached_input_tokens = none;
  output_tokens = none;
  reasoning_tokens = none;
  provider_total_tokens = none;
  processed_tokens = none;
  non_cached_input_tokens = none;
  cache_ratio = none;
  high_model_turns = none;
  subagent_count = none;
  updated_at = some "2024-01-01";
  finished_at = none;
  created_at = some "2023-12-31";
}

abbrev payload : Fields
payload =
    field "input_tokens" (number 100)
      (field "cached_input_tokens" (number 30) (field "output_tokens" (number 20) end))

abbrev costly : Record
costly = record blank { input_tokens = some 100; output_tokens = some 20 }

abbrev cheap : Record
cheap = record blank { run_id = some "b"; input_tokens = some 40; output_tokens = some 20 }

-- A cached count above the input is refused.
cached_above :
    normalize_tokens
      (field "input_tokens" (number 1) (field "cached_input_tokens" (number 2) end))
      blank
    ≡ err "cached_input_tokens cannot exceed input_tokens"
unfolding normalize_tokens counts_of check_counts optional_int int_of get ◌>>=◌
cached_above = refl

normalize_tokens-stored_example :
    IsSplit (some 100) (some 30) (some 70)
    × (measure_for_compare (
          with_counts
            (record {
              input = some 100;
              cached = some 30;
              output = some 20;
              reasoning = none;
              total = none;
            })
            blank)
        ≡ with_counts
            (record {
              input = some 100;
              cached = some 30;
              output = some 20;
              reasoning = none;
              total = none;
            })
            blank)
unfolding normalize_tokens counts_of check_counts with_counts optional_int int_of get ◌>>=◌
normalize_tokens-stored_example = normalize_tokens-stored payload blank _ refl

compare_records_iff_example :
    ((compare_records (some costly) (some cheap)).status ≡ comparable) ↔ IsComparable costly cheap
compare_records_iff_example = compare_records_iff costly cheap

comparisons-IsFounded_example :
    IsFounded
      (compare_records (some (measure_for_compare costly)) (some (measure_for_compare cheap)))
      (cheap ∷ [])
      (costly ∷ [])
unfolding comparisons compare_keys all_keys sort_keys insert_key latest_by_identity put_all put
    sort_into insert measure_for_compare compare_records compare_both compare_views compared
    processed_tokens_of non_cached_input_tokens_of cache_ratio_of
comparisons-IsFounded_example =
    comparisons-IsFounded (cheap ∷ []) (costly ∷ []) _ (Memᴰ.head refl) refl
