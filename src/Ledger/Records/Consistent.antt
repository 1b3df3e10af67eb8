-- ===== src/Ledger/Records/Consistent.antt =====
-- The stored counts of a record and the measures that are taken again (app/token_ledger.py).
use codex_gate.Prelude.{
  ◌≡◌, refl, ℕ, ◌+◌, Bool, true, false, ap, subst, Option, none, some, arith, if◌then◌else◌, Result,
  ok, err,
}
use codex_gate.Json.Values.{Fields}
use codex_gate.Ledger.Records.{
  Counts, Record, less_cached, cached_exceeds, counts_of, with_counts, check_counts,
  normalize_tokens, ◌>>=◌, processed_tokens_of, non_cached_input_tokens_of, cache_ratio_of,
  measure_for_compare,
}

-- The cached input is a part of the input, and the uncached input the rest.
pub data IsSplit : Option ℕ → Option ℕ → Option ℕ → Type 0 where
  unknown : {cached : Option ℕ} → IsSplit none cached none
  whole : {input rest : ℕ} → rest ≡ input → IsSplit (some input) none (some rest)
  split :
      {input cached rest : ℕ}
      → cached + rest ≡ input
      → IsSplit (some input) (some cached) (some rest)

less_cached-IsSplit :
    (input cached : Option ℕ)
    → cached_exceeds input cached ≡ false
    → IsSplit input cached (less_cached input cached)
less_cached-IsSplit none cached h = unknown
less_cached-IsSplit (some input) none h = whole (omega arith)
less_cached-IsSplit (some input) (some cached) h = split (ground arith)

measure-with_counts :
    (c : Counts) (r : Record) → measure_for_compare (with_counts c r) ≡ with_counts c r
unfolding with_counts measure_for_compare processed_tokens_of non_cached_input_tokens_of
    cache_ratio_of
measure-with_counts c r = by_counts c.total c.input c.cached
  where
    stored : Option ℕ → Option ℕ → Option ℕ → Record
    stored total input cached =
        with_counts (record c { total = total; input = input; cached = cached }) r

    by_counts :
        (total input cached : Option ℕ)
        → measure_for_compare (stored total input cached) ≡ stored total input cached
    by_counts (some t) (some i) (some k) = refl
    by_counts (some t) (some i) none = refl
    by_counts (some t) none k = refl
    by_counts none (some i) (some k) = refl
    by_counts none (some i) none = refl
    by_counts none none k = refl

ok-injective : {A : Type 0} {x y : A} → ok x ≡ ok y → x ≡ y
ok-injective {x} {y} e = ground arith

check_counts-stored :
    (c : Counts) (r q : Record)
    → check_counts c r ≡ ok q
    → IsSplit q.input_tokens q.cached_input_tokens q.non_cached_input_tokens
      × (measure_for_compare q ≡ q)
unfolding check_counts with_counts
check_counts-stored c r q e = by_test (cached_exceeds c.input c.cached) refl
  where
    by_test :
        (b : Bool)
        → cached_exceeds c.input c.cached ≡ b
        → IsSplit q.input_tokens q.cached_input_tokens q.non_cached_input_tokens
          × (measure_for_compare q ≡ q)
    by_test true h = absurd (ground arith)
    by_test false h =
        subst
          (λ x.
            IsSplit x.input_tokens x.cached_input_tokens x.non_cached_input_tokens
            × (measure_for_compare x ≡ x))
          (ok-injective (
            rw
              (← ap
                (λ b.
                  (if b
                    then err "cached_input_tokens cannot exceed input_tokens"
                    else ok (with_counts c r)))
                h)
              e))
          (less_cached-IsSplit c.input c.cached h, measure-with_counts c r)

-- A record that _normalize_tokens accepts has its cached input as a part of its input and its uncached
-- input as the rest, and the measures that a comparison takes again are the ones that it stores.
pub normalize_tokens-stored :
    (fields : Fields) (r q : Record)
    → normalize_tokens fields r ≡ ok q
    → IsSplit q.input_tokens q.cached_input_tokens q.non_cached_input_tokens
      × (measure_for_compare q ≡ q)
unfolding normalize_tokens ◌>>=◌
normalize_tokens-stored fields r q e = by_counts (counts_of fields) refl
  where
    by_counts :
        (parsed : Result Counts)
        → counts_of fields ≡ parsed
        → IsSplit q.input_tokens q.cached_input_tokens q.non_cached_input_tokens
          × (measure_for_compare q ≡ q)
    by_counts (err x) h = absurd (ground arith)
    by_counts (ok c) h =
        check_counts-stored c r q (subst (λ p. (p >>= λ k. check_counts k r) ≡ ok q) h e)
