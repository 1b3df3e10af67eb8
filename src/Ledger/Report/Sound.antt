-- ===== src/Ledger/Report/Sound.antt =====
-- Where the comparisons of a report come from (app/token_ledger.py).
use codex_gate.Prelude.{
  ◌≡◌, refl, sym, ◌∙◌, ap, Bool, true, false, Option, none, some, List, [], ◌∷◌, find, map, Memᴰ,
  mem-keep, mem-find, ◌⊎◌, inl, inr, arith, if◌then◌else◌,
}
use codex_gate.Ledger.Records.{Record, measure_for_compare}
use codex_gate.Ledger.Compare.{comparable, Comparison, is_success, refuse, compare_records}
use codex_gate.Ledger.Compare.Exact.{IsComparable, compare_records_iff}
use codex_gate.Ledger.Report.{
  is_up_to, insert, sort_into, same_identity, put, has_identity, put_all, latest_by_identity,
  compare_keys, successes, comparisons,
}

insert_step :
    (b : Bool) {x r q : Record} {qs rest : List Record}
    → (Memᴰ x rest → (x ≡ r) ⊎ Memᴰ x qs)
    → Memᴰ x (if b then q ∷ rest else r ∷ q ∷ qs)
    → (x ≡ r) ⊎ Memᴰ x (q ∷ qs)
insert_step true later (Memᴰ.head e) = inr (Memᴰ.head e)
insert_step true later (Memᴰ.tail m) = elim (later m) [ inl e ↦ inl e | inr n ↦ inr (Memᴰ.tail n) ]
insert_step false later (Memᴰ.head e) = inl e
insert_step false later (Memᴰ.tail m) = inr m

mem-insert :
    (r : Record) (qs : List Record) {x : Record} → Memᴰ x (insert r qs) → (x ≡ r) ⊎ Memᴰ x qs
unfolding insert
mem-insert r [] (Memᴰ.head e) = inl e
mem-insert r [] (Memᴰ.tail m) = inr m
mem-insert r (q ∷ qs) m = insert_step (is_up_to q r) (mem-insert r qs) m

mem-sort_into :
    (sorted rs : List Record) {x : Record}
    → Memᴰ x (sort_into sorted rs)
    → Memᴰ x sorted ⊎ Memᴰ x rs
unfolding sort_into
mem-sort_into sorted [] m = inl m
mem-sort_into sorted (r ∷ rs) m = elim (mem-sort_into (insert r sorted) rs m) [
  | inr n ↦ inr (Memᴰ.tail n)
  | inl n ↦ elim (mem-insert r sorted n) [ inl e ↦ inr (Memᴰ.head e) | inr k ↦ inl k ]
]

put_step :
    (b : Bool) {x r q : Record} {qs rest : List Record}
    → (Memᴰ x rest → (x ≡ r) ⊎ Memᴰ x qs)
    → Memᴰ x (if b then r ∷ qs else q ∷ rest)
    → (x ≡ r) ⊎ Memᴰ x (q ∷ qs)
put_step true later (Memᴰ.head e) = inl e
put_step true later (Memᴰ.tail m) = inr (Memᴰ.tail m)
put_step false later (Memᴰ.head e) = inr (Memᴰ.head e)
put_step false later (Memᴰ.tail m) = elim (later m) [ inl e ↦ inl e | inr n ↦ inr (Memᴰ.tail n) ]

mem-put : (r : Record) (qs : List Record) {x : Record} → Memᴰ x (put r qs) → (x ≡ r) ⊎ Memᴰ x qs
unfolding put
mem-put r [] (Memᴰ.head e) = inl e
mem-put r [] (Memᴰ.tail m) = inr m
mem-put r (q ∷ qs) m = put_step (same_identity r q) (mem-put r qs) m

put_if :
    (b : Bool) (r : Record) (qs : List Record) {x : Record}
    → Memᴰ x (if b then put r qs else qs)
    → (x ≡ r) ⊎ Memᴰ x qs
put_if true r qs m = mem-put r qs m
put_if false r qs m = inr m

mem-put_all :
    (latest rs : List Record) {x : Record} → Memᴰ x (put_all latest rs) → Memᴰ x latest ⊎ Memᴰ x rs
unfolding put_all
mem-put_all latest [] m = inl m
mem-put_all latest (r ∷ rs) m =
    elim (mem-put_all (if has_identity r then put r latest else latest) rs m) [
      | inr n ↦ inr (Memᴰ.tail n)
      | inl n ↦ elim (put_if (has_identity r) r latest n) [
        | inl e ↦ inr (Memᴰ.head e)
        | inr k ↦ inl k
      ]
    ]

pub mem-latest_by_identity :
    (rs : List Record) {x : Record} → Memᴰ x (latest_by_identity rs) → Memᴰ x rs
unfolding latest_by_identity
mem-latest_by_identity rs m = elim (mem-put_all [] (sort_into [] rs) m) [
  | inl n ↦ elim n [ ]
  | inr n ↦ elim (mem-sort_into [] rs n) [ inl k ↦ elim k [ ] | inr k ↦ k ]
]

-- A record of the list, with the measures taken again.
pub data IsMeasured (x : Record) (rs : List Record) : Type 0 where
  measured : (r : Record) → Memᴰ r rs → x ≡ measure_for_compare r → IsMeasured x rs

mem-map_measure :
    (rs : List Record) {x : Record} → Memᴰ x (map measure_for_compare rs) → IsMeasured x rs
mem-map_measure [] m = elim m [ ]
mem-map_measure (r ∷ rs) (Memᴰ.head e) = measured r (Memᴰ.head refl) e
mem-map_measure (r ∷ rs) (Memᴰ.tail m) = elim (mem-map_measure rs m) [
  | measured q n e ↦ measured q (Memᴰ.tail n) e
]

success-IsMeasured : (rs : List Record) {x : Record} → Memᴰ x (successes rs) → IsMeasured x rs
success-IsMeasured rs m =
    mem-map_measure rs
      (mem-keep is_success (map measure_for_compare rs) (mem-latest_by_identity _ m)).0

-- A comparison of a baseline of the one list with a run of the other.
pub data IsFounded (c : Comparison) (runs baselines : List Record) : Type 0 where
  founded :
      (b a : Record)
      → Memᴰ b baselines
      → Memᴰ a runs
      → c ≡ compare_records (some (measure_for_compare b)) (some (measure_for_compare a))
      → IsComparable (measure_for_compare b) (measure_for_compare a)
      → IsFounded c runs baselines

pair-IsFounded :
    (runs baselines : List Record) (x y : Record) (c : Comparison)
    → IsMeasured x baselines
    → IsMeasured y runs
    → c ≡ compare_records (some x) (some y)
    → c.status ≡ comparable
    → IsFounded c runs baselines
pair-IsFounded runs baselines x y c (measured b p e) (measured a q f) h s =
    let same : c ≡ compare_records (some (measure_for_compare b)) (some (measure_for_compare a)) =
      h
      ∙ ap (λ z. compare_records (some z) (some y)) e
      ∙ ap (λ z. compare_records (some (measure_for_compare b)) (some z)) f in
    founded b a p q same ((compare_records_iff _ _).0 (sym (ap (λ z. z.status) same) ∙ s))

found-IsFounded :
    (runs baselines : List Record) (ob oa : Option Record) (c : Comparison)
    → ((x : Record) → ob ≡ some x → IsMeasured x baselines)
    → ((x : Record) → oa ≡ some x → IsMeasured x runs)
    → c ≡ compare_records ob oa
    → c.status ≡ comparable
    → IsFounded c runs baselines
unfolding compare_records refuse
found-IsFounded runs baselines none none c hb ha e s = absurd (ground arith)
found-IsFounded runs baselines none (some a) c hb ha e s = absurd (ground arith)
found-IsFounded runs baselines (some b) none c hb ha e s = absurd (ground arith)
found-IsFounded runs baselines (some b) (some a) c hb ha e s =
    pair-IsFounded runs baselines b a c (hb b refl) (ha a refl) e s

keys-IsFounded :
    (runs baselines ks : List Record) (c : Comparison)
    → Memᴰ c (compare_keys (successes baselines) (successes runs) ks)
    → c.status ≡ comparable
    → IsFounded c runs baselines
unfolding compare_keys
keys-IsFounded runs baselines [] c m s = elim m [ ]
keys-IsFounded runs baselines (k ∷ ks) c (Memᴰ.tail m) s = keys-IsFounded runs baselines ks c m s
keys-IsFounded runs baselines (k ∷ ks) c (Memᴰ.head e) s =
    found-IsFounded runs baselines (find (same_identity k) (successes baselines))
      (find (same_identity k) (successes runs)) c
      (λ x f. success-IsMeasured baselines (mem-find (same_identity k) (successes baselines) f).0)
      (λ x f. success-IsMeasured runs (mem-find (same_identity k) (successes runs) f).0) e s

-- Every comparison of a report that is COMPARABLE compares a baseline that was registered with a run that
-- was recorded, for the same key and criteria, both successful, both with token totals, those of the
-- baseline not zero, and neither estimated.
pub comparisons-IsFounded :
    (runs baselines : List Record) (c : Comparison)
    → Memᴰ c (comparisons runs baselines)
    → c.status ≡ comparable
    → IsFounded c runs baselines
unfolding comparisons
comparisons-IsFounded runs baselines c m s = keys-IsFounded runs baselines _ c m s
