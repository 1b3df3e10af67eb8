-- ===== src/Json/Values.antt =====
-- The JSON values of a message, Python's `==` on them, and is_permission_subset (app/protocol.py). An
-- object is the list of its items. A number is a natural number: the others are not modelled.
use codex_gate.Prelude.{
  ℕ, suc, String, Bool, true, false, ◌&&◌, ◌||◌, Option, none, some, not, ◌==◌, str_eq,
  if◌then◌else◌,
}

mutual
  pub data Value : Type 0 where
    null : Value
    boolean : Bool → Value
    number : ℕ → Value
    text : String → Value
    array : Items → Value
    object : Fields → Value

  pub data Items : Type 0 where
    nil : Items
    cons : Value → Items → Items

  pub data Fields : Type 0 where
    end : Fields
    field : String → Value → Fields → Fields

-- `value.get(key)`, and `key in value` with it.
unfoldable pub get : String → Fields → Option Value
get k end = none
get k (field l v fs) = if str_eq l k then some v else get k fs

unfoldable pub count_fields : Fields → ℕ
count_fields end = 0
count_fields (field k v fs) = suc (count_fields fs)

-- `int(value)` of a bool: Python compares it so with a number.
abbrev pub bit : Bool → ℕ
bit true = 1
bit false = 0

-- `granted == requested`.
unfoldable mutual
  pub same_value : Value → Value → Bool
  same_value null null = true
  same_value (boolean a) (boolean b) = bit a == bit b
  same_value (boolean a) (number n) = bit a == n
  same_value (number m) (boolean b) = m == bit b
  same_value (number m) (number n) = m == n
  same_value (text s) (text t) = str_eq s t
  same_value (array xs) (array ys) = same_items xs ys
  same_value (object fs) (object gs) = (count_fields fs == count_fields gs) && same_fields fs gs
  same_value _ _ = false

  pub same_items : Items → Items → Bool
  same_items nil nil = true
  same_items (cons x xs) (cons y ys) = same_value x y && same_items xs ys
  same_items _ _ = false

  pub same_fields : Fields → Fields → Bool
  same_fields end gs = true
  same_fields (field k v fs) gs =
      elim (get k gs) [ none ↦ false | some w ↦ same_value v w ] && same_fields fs gs

-- `item in requested`.
unfoldable pub has_item : Value → Items → Bool
has_item x nil = false
has_item x (cons y ys) = same_value x y || has_item x ys

-- `all(item in requested for item in granted)`.
unfoldable pub all_in : Items → Items → Bool
all_in nil ys = true
all_in (cons x xs) ys = has_item x ys && all_in xs ys

unfoldable mutual
  pub is_permission_subset : Value → Value → Bool
  is_permission_subset null requested = true
  is_permission_subset (object fs) (object gs) = fields_subset fs gs
  is_permission_subset (object fs) _ = false
  is_permission_subset (array xs) (array ys) = all_in xs ys
  is_permission_subset (array xs) _ = false
  is_permission_subset (boolean a) (boolean b) = not a || b
  is_permission_subset (boolean a) _ = false
  is_permission_subset (number n) requested = same_value (number n) requested
  is_permission_subset (text s) requested = same_value (text s) requested

  pub fields_subset : Fields → Fields → Bool
  fields_subset end gs = true
  fields_subset (field k v fs) gs =
      elim (get k gs) [ none ↦ false | some w ↦ is_permission_subset v w ] && fields_subset fs gs
