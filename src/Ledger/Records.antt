-- ===== src/Ledger/Records.antt =====
-- The records of the token ledger, _normalize_tokens and the measures that are taken again for a
-- comparison (app/token_ledger.py). A rate is the fraction that the source rounds to six places.
pub mod Consistent
use codex_gate.Prelude.{
  ℕ, ◌+◌, ◌-◌, String, Bool, true, false, ◌&&◌, ◌||◌, not, Option, none, some, ltb, ◌==◌, str_eq,
  if◌then◌else◌, Result, ok, err,
}
use codex_gate.Json.Values.{Value, null, boolean, number, text, array, object, Fields, get}

pub record Fraction : Type 0 where
  pub top : ℕ
  pub bottom : ℕ

-- The columns of a run or of a baseline that a report reads.
pub record Record : Type 0 where
  pub baseline_id : Option String
  pub run_id : Option String
  pub comparison_key : String
  pub success_criteria_hash : String
  pub status : Option String
  pub quality : Option String
  pub input_tokens : Option ℕ
  pub cached_input_tokens : Option ℕ
  pub output_tokens : Option ℕ
  pub reasoning_tokens : Option ℕ
  pub provider_total_tokens : Option ℕ
  pub processed_tokens : Option ℕ
  pub non_cached_input_tokens : Option ℕ
  pub cache_ratio : Option Fraction
  pub high_model_turns : Option ℕ
  pub subagent_count : Option ℕ
  pub updated_at : Option String
  pub finished_at : Option String
  pub created_at : Option String

-- `_optional_int` of one value.
unfoldable pub int_of : Option Value → Result (Option ℕ)
int_of none = ok none
int_of (some null) = ok none
int_of (some (number n)) = ok (some n)
int_of (some _) = err "must be a non-negative integer"

unfoldable pub optional_int : Fields → String → Result (Option ℕ)
unfolding int_of
optional_int fields field = int_of (get field fields)

-- `cached_input_tokens > input_tokens`, when both are there.
abbrev pub cached_exceeds : Option ℕ → Option ℕ → Bool
cached_exceeds (some input) (some cached) = ltb input cached
cached_exceeds _ _ = false

abbrev pub sum_of : Option ℕ → Option ℕ → Option ℕ
sum_of (some input) (some output) = some (input + output)
sum_of _ _ = none

abbrev pub or_sum : Option ℕ → Option ℕ → Option ℕ → Option ℕ
or_sum (some total) input output = some total
or_sum none input output = sum_of input output

-- `x or 0`.
abbrev pub or_zero : Option ℕ → ℕ
or_zero none = 0
or_zero (some n) = n

-- `max(input - cached, 0)`.
abbrev pub less_cached : Option ℕ → Option ℕ → Option ℕ
less_cached none cached = none
less_cached (some input) cached = some (input - or_zero cached)

abbrev pub ratio : Option ℕ → Option ℕ → Option Fraction
ratio (some input) (some cached) =
    if input == 0 then none else some (record { top = cached; bottom = input })
ratio _ _ = none

-- The five counts that the payload states.
pub record Counts : Type 0 where
  pub input : Option ℕ
  pub cached : Option ℕ
  pub output : Option ℕ
  pub reasoning : Option ℕ
  pub total : Option ℕ

infixl 5 ◌>>=◌
unfoldable pub ◌>>=◌ : {A B : Type 0} → Result A → (A → Result B) → Result B
ok a >>= f = f a
err e >>= f = err e

unfoldable pub counts_of : Fields → Result Counts
counts_of fields = do
  input ← optional_int fields "input_tokens"
  cached ← optional_int fields "cached_input_tokens"
  output ← optional_int fields "output_tokens"
  reasoning ← optional_int fields "reasoning_tokens"
  total ← optional_int fields "provider_total_tokens"
  ok (record {
    input = input;
    cached = cached;
    output = output;
    reasoning = reasoning;
    total = total;
  })

unfoldable pub with_counts : Counts → Record → Record
with_counts c r = record r {
  input_tokens = c.input;
  cached_input_tokens = c.cached;
  output_tokens = c.output;
  reasoning_tokens = c.reasoning;
  provider_total_tokens = c.total;
  processed_tokens = or_sum c.total c.input c.output;
  non_cached_input_tokens = less_cached c.input c.cached;
  cache_ratio = ratio c.input c.cached;
}

unfoldable pub check_counts : Counts → Record → Result Record
check_counts c r =
    if cached_exceeds c.input c.cached
    then err "cached_input_tokens cannot exceed input_tokens"
    else ok (with_counts c r)

unfoldable pub normalize_tokens : Fields → Record → Result Record
normalize_tokens fields r = counts_of fields >>= λ c. check_counts c r

-- The same measures, of a record as it is stored.
unfoldable pub processed_tokens_of : Record → Option ℕ
processed_tokens_of r = elim r.provider_total_tokens [
  | some total ↦ some total
  | none ↦ sum_of r.input_tokens r.output_tokens
]

unfoldable pub non_cached_input_tokens_of : Record → Option ℕ
non_cached_input_tokens_of r = elim r.input_tokens [
  | none ↦ none
  | some input ↦ some (input - or_zero r.cached_input_tokens)
]

unfoldable pub cache_ratio_of : Record → Option Fraction
cache_ratio_of r = elim r.input_tokens [
  | none ↦ none
  | some input ↦ elim r.cached_input_tokens [
    | none ↦ none
    | some cached ↦ if input == 0 then none else some (record { top = cached; bottom = input })
  ]
]

unfoldable pub measure_for_compare : Record → Record
measure_for_compare r = record r {
  processed_tokens = processed_tokens_of r;
  non_cached_input_tokens = non_cached_input_tokens_of r;
  cache_ratio = cache_ratio_of r;
}
