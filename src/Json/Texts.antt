-- ===== src/Json/Texts.antt =====
-- The search for a forbidden root in a payload (app/policy.py), over the texts of the payload.
use codex_gate.Prelude.{
  ◌≡◌, refl, sym, ◌∙◌, ap, String, Option, none, some, List, [], ◌∷◌, ◌++◌, codes,
}
use codex_gate.Json.Values.{
  Value, null, boolean, number, text, array, object, Items, nil, cons, Fields, end, field,
}
use codex_gate.Json.Forbidden.{
  Needle, folded, find_in_text, or_else, find_reference, find_in_items, find_in_fields,
}

-- The texts of a value in the order in which they are met; keys are not among them.
unfoldable mutual
  pub texts : Value → List String
  texts (text s) = s ∷ []
  texts (array xs) = item_texts xs
  texts (object fs) = field_texts fs
  texts null = []
  texts (boolean b) = []
  texts (number n) = []

  pub item_texts : Items → List String
  item_texts nil = []
  item_texts (cons x xs) = texts x ++ item_texts xs

  pub field_texts : Fields → List String
  field_texts end = []
  field_texts (field k v fs) = texts v ++ field_texts fs

unfoldable pub first_reference : List Needle → List String → Option String
first_reference ns [] = none
first_reference ns (s ∷ ss) = or_else (find_in_text ns (folded (codes s))) (first_reference ns ss)

or_else_assoc : (a b c : Option String) → or_else (or_else a b) c ≡ or_else a (or_else b c)
or_else_assoc none b c = refl
or_else_assoc (some a) b c = refl

or_else-none : (a : Option String) → or_else a none ≡ a
or_else-none none = refl
or_else-none (some a) = refl

first_reference-append :
    (ns : List Needle) (xs ys : List String)
    → first_reference ns (xs ++ ys) ≡ or_else (first_reference ns xs) (first_reference ns ys)
unfolding first_reference
first_reference-append ns [] ys = refl
first_reference-append ns (x ∷ xs) ys =
    ap (or_else (find_in_text ns (folded (codes x)))) (first_reference-append ns xs ys)
    ∙ sym (or_else_assoc (find_in_text ns (folded (codes x))) _ _)

both : {a b c d : Option String} → a ≡ b → c ≡ d → or_else a c ≡ or_else b d
both {a} {b} {c} {d} p q = ap (λ x. or_else x c) p ∙ ap (or_else b) q

mutual
  unfolding find_reference texts first_reference

  value_texts : (ns : List Needle) (v : Value) → find_reference ns v ≡ first_reference ns (texts v)
  value_texts ns (text s) = sym (or_else-none (find_in_text ns (folded (codes s))))
  value_texts ns (array xs) = items_texts ns xs
  value_texts ns (object fs) = fields_texts ns fs
  value_texts ns null = refl
  value_texts ns (boolean b) = refl
  value_texts ns (number n) = refl

  items_texts :
      (ns : List Needle) (xs : Items) → find_in_items ns xs ≡ first_reference ns (item_texts xs)
  items_texts ns nil = refl
  items_texts ns (cons x xs) =
      both (value_texts ns x) (items_texts ns xs)
      ∙ sym (first_reference-append ns (texts x) (item_texts xs))

  fields_texts :
      (ns : List Needle) (fs : Fields) → find_in_fields ns fs ≡ first_reference ns (field_texts fs)
  fields_texts ns end = refl
  fields_texts ns (field k v fs) =
      both (value_texts ns v) (fields_texts ns fs)
      ∙ sym (first_reference-append ns (texts v) (field_texts fs))

-- The search in a nested payload finds what the search in the plain list of its texts finds: the first
-- reference in the order of the texts, at any depth.
pub find_reference-texts :
    (ns : List Needle) (v : Value) → find_reference ns v ≡ first_reference ns (texts v)
find_reference-texts = value_texts
