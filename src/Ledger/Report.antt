-- ===== src/Ledger/Report.antt =====
-- build_report (app/token_ledger.py): the latest records of each identity, their comparisons and the counts.
pub mod Sound
use codex_gate.Prelude.{
  ℕ, ◌+◌, suc, String, Bool, true, false, ◌&&◌, ◌||◌, not, Option, none, some, List, [], ◌∷◌, ◌++◌,
  any, keep, find, map, length, codes, ltb, leb, ◌==◌, str_eq, if◌then◌else◌,
}
use codex_gate.Ledger.Records.{Record, or_zero, measure_for_compare}
use codex_gate.Ledger.Compare.{
  Status, comparable, estimate_only, not_comparable, Comparison, is_success, compare_records,
}

-- Python's `<=` on texts, by code points.
unfoldable pub codes_leb : List ℕ → List ℕ → Bool
codes_leb [] ys = true
codes_leb (x ∷ xs) [] = false
codes_leb (x ∷ xs) (y ∷ ys) = ltb x y || (x == y && codes_leb xs ys)

-- `x or y`, of texts that may be missing.
abbrev pub or_text : Option String → String → String
or_text none other = other
or_text (some s) other = if str_eq s "" then other else s

abbrev pub time_key : Record → String
time_key r = or_text r.updated_at (or_text r.finished_at (or_text r.created_at ""))

abbrev pub id_key : Record → String
id_key r = or_text r.baseline_id (or_text r.run_id "")

-- The sort key (time, id), compared as a tuple.
unfoldable pub is_up_to : Record → Record → Bool
is_up_to r q =
    if str_eq (time_key r) (time_key q)
    then codes_leb (codes (id_key r)) (codes (id_key q))
    else codes_leb (codes (time_key r)) (codes (time_key q))

-- `sorted(records, key=...)`, which is stable: a record goes behind those that are not above it.
unfoldable pub insert : Record → List Record → List Record
insert r [] = r ∷ []
insert r (q ∷ qs) = let rest = insert r qs in if is_up_to q r then q ∷ rest else r ∷ q ∷ qs

unfoldable pub sort_into : List Record → List Record → List Record
sort_into sorted [] = sorted
sort_into sorted (r ∷ rs) = sort_into (insert r sorted) rs

abbrev pub same_identity : Record → Record → Bool
same_identity r q =
    str_eq q.comparison_key r.comparison_key
    && str_eq q.success_criteria_hash r.success_criteria_hash

-- `latest[key] = record`.
unfoldable pub put : Record → List Record → List Record
put r [] = r ∷ []
put r (q ∷ qs) = if same_identity r q then r ∷ qs else q ∷ put r qs

abbrev pub has_identity : Record → Bool
has_identity r = not (str_eq r.comparison_key "") && not (str_eq r.success_criteria_hash "")

unfoldable pub put_all : List Record → List Record → List Record
put_all latest [] = latest
put_all latest (r ∷ rs) = put_all (if has_identity r then put r latest else latest) rs

-- The latest record of each identity; the list stands for the dict.
unfoldable pub latest_by_identity : List Record → List Record
latest_by_identity rs = put_all [] (sort_into [] rs)

-- The order of the tuples (comparison_key, success_criteria_hash).
abbrev is_key_up_to : Record → Record → Bool
is_key_up_to r q =
    if str_eq r.comparison_key q.comparison_key
    then codes_leb (codes r.success_criteria_hash) (codes q.success_criteria_hash)
    else codes_leb (codes r.comparison_key) (codes q.comparison_key)

unfoldable pub insert_key : Record → List Record → List Record
insert_key r [] = r ∷ []
insert_key r (q ∷ qs) =
    let rest = insert_key r qs in if is_key_up_to q r then q ∷ rest else r ∷ q ∷ qs

-- `sorted(set(baseline_by_key) | set(actual_by_key))`: one record stands for each key.
unfoldable pub sort_keys : List Record → List Record
sort_keys [] = []
sort_keys (r ∷ rs) = insert_key r (sort_keys rs)

unfoldable pub all_keys : List Record → List Record → List Record
all_keys baselines actuals =
    sort_keys (baselines ++ keep (λ a. not (any (same_identity a) baselines)) actuals)

unfoldable pub compare_keys : List Record → List Record → List Record → List Comparison
compare_keys baselines actuals [] = []
compare_keys baselines actuals (k ∷ ks) =
    compare_records (find (same_identity k) baselines) (find (same_identity k) actuals)
    ∷ compare_keys baselines actuals ks

abbrev pub successes : List Record → List Record
successes rs = latest_by_identity (keep is_success (map measure_for_compare rs))

unfoldable pub comparisons : List Record → List Record → List Comparison
comparisons runs baselines =
    compare_keys (successes baselines) (successes runs)
      (all_keys (successes baselines) (successes runs))

abbrev pub is_status : Status → Status → Bool
is_status comparable comparable = true
is_status estimate_only estimate_only = true
is_status not_comparable not_comparable = true
is_status _ _ = false

abbrev pub count_status : Status → List Comparison → ℕ
count_status s cs = length (keep (λ c. is_status s c.status) cs)

pub record Summary : Type 0 where
  pub run_count : ℕ
  pub baseline_count : ℕ
  pub comparison_count : ℕ
  pub comparable_count : ℕ
  pub estimate_only_count : ℕ
  pub not_comparable_count : ℕ
  pub subagent_warnings : ℕ

abbrev has_subagents : Record → Bool
has_subagents r = not (or_zero r.subagent_count == 0)

unfoldable pub summary : List Record → List Record → Summary
summary runs baselines =
    let cs = comparisons runs baselines in
    record {
      run_count = length runs;
      baseline_count = length baselines;
      comparison_count = length cs;
      comparable_count = count_status comparable cs;
      estimate_only_count = count_status estimate_only cs;
      not_comparable_count = count_status not_comparable cs;
      subagent_warnings = length (keep has_subagents runs);
    }
