-- ===== src/Json/Paths.antt =====
-- What a path of keys reaches in granted and in requested permissions.
use codex_gate.Prelude.{
  some-injective, ◌≡◌, refl, String, true, Option, none, some, List, [], ◌∷◌, str_eq, arith,
  Bool-cases, inl, inr, eq_iff, subst,
}
use codex_gate.Json.Values.{
  Value, object, Fields, end, field, get, is_permission_subset, fields_subset,
}

-- The value at the end of a path of keys, where every step is into an object that has the key.
unfoldable pub at : List String → Value → Option Value
at [] v = some v
at (k ∷ ks) (object fs) = elim (get k fs) [ none ↦ none | some v ↦ at ks v ]
at (k ∷ ks) _ = none

-- A value that is reached on both sides, the granted one within the requested one.
pub data WithinFound (v : Value) (found : Option Value) : Type 0 where
  within : (w : Value) → found ≡ some w → is_permission_subset v w ≡ true → WithinFound v found

fields_subset-head :
    (k : String) (v : Value) (fs gs : Fields)
    → fields_subset (field k v fs) gs ≡ true
    → WithinFound v (get k gs) × (fields_subset fs gs ≡ true)
unfolding is_permission_subset
fields_subset-head k v fs gs h = by_found (get k gs) refl
  where
    by_found :
        (found : Option Value)
        → get k gs ≡ found
        → WithinFound v (get k gs) × (fields_subset fs gs ≡ true)
    by_found none f = absurd (ground arith)
    by_found (some w) f = (within w f (ground arith), ground arith)

get-subset :
    (k : String) (fs gs : Fields) (v : Value)
    → fields_subset fs gs ≡ true
    → get k fs ≡ some v
    → WithinFound v (get k gs)
unfolding get
get-subset k end gs v h e = absurd (ground arith)
get-subset k (field l u fs) gs v h e =
    let (first, rest) = fields_subset-head l u fs gs h in
    elim (Bool-cases (str_eq l k)) [
      | inl hit ↦
          let this : some u ≡ some v = ground arith in
          subst (λ x. WithinFound v (get x gs)) ((eq_iff l k).0 hit)
            (subst (λ x. WithinFound x (get l gs)) (some-injective this) first)
      | inr miss ↦ get-subset k fs gs v rest (ground arith)
    ]

at-step :
    (k : String) (ks : List String) (fs gs : Fields) (v : Value)
    → ((u w : Value) → is_permission_subset u w ≡ true → at ks u ≡ some v → WithinFound v (at ks w))
    → fields_subset fs gs ≡ true
    → at (k ∷ ks) (object fs) ≡ some v
    → WithinFound v (at (k ∷ ks) (object gs))
unfolding at
at-step k ks fs gs v later h e = by_found (get k fs) refl
  where
    further :
        (u : Value)
        → get k fs ≡ some u
        → WithinFound u (get k gs)
        → WithinFound v (at (k ∷ ks) (object gs))
    further u f (within w there sub) = elim (later u w sub (ground arith)) [
      | within x reached below ↦ within x (ground arith) below
    ]

    by_found : (found : Option Value) → get k fs ≡ found → WithinFound v (at (k ∷ ks) (object gs))
    by_found none f = absurd (ground arith)
    by_found (some u) f = further u f (get-subset k fs gs u h f)

-- Whatever a path of keys reaches in granted permissions, the same path reaches a value in the requested
-- ones of which it is a subset.
pub is_permission_subset-at :
    (granted requested : Value) (path : List String) (v : Value)
    → is_permission_subset granted requested ≡ true
    → at path granted ≡ some v
    → WithinFound v (at path requested)
unfolding at is_permission_subset
is_permission_subset-at g r [] v h e =
    within r refl (subst (λ x. is_permission_subset x r ≡ true) (some-injective e) h)
is_permission_subset-at (object fs) (object gs) (k ∷ ks) v h e =
    at-step k ks fs gs v (λ u w. is_permission_subset-at u w ks v) h e
is_permission_subset-at _ _ (k ∷ ks) v h e = absurd (ground arith)
