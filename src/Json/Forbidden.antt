-- ===== src/Json/Forbidden.antt =====
-- find_forbidden_root_reference (app/policy.py). The configured roots, which the environment extends, are
-- an argument, as their display texts.
use codex_gate.Prelude.{
  ℕ, String, Bool, true, false, ◌&&◌, ◌||◌, Option, none, some, List, [], ◌∷◌, codes, not, ◌==◌,
  map, reverse, casefold, replace, if◌then◌else◌,
}
use codex_gate.Json.Values.{
  Value, null, boolean, number, text, array, object, Items, nil, cons, Fields, end, field,
}

-- The code points of "\\/ \t\r\n'\";:,".
abbrev is_separator : ℕ → Bool
is_separator c =
    c == b'\\'
    || c == b'/'
    || c == 32
    || c == 9
    || c == 13
    || c == 10
    || c == b'\''
    || c == b'"'
    || c == b';'
    || c == b':'
    || c == b','

-- The code points of "([{" may stand before a root, those of ")]}" behind it.
abbrev is_opening : ℕ → Bool
is_opening c = c == b'(' || c == b'[' || c == b'{'

abbrev is_closing : ℕ → Bool
is_closing c = c == b')' || c == b']' || c == b'}'

-- `start == 0 or normalized[start - 1] in ...`.
unfoldable pub before_ok : Option ℕ → Bool
before_ok none = true
before_ok (some c) = is_separator c || is_opening c

-- `end == len(normalized) or normalized[end] in ...`.
unfoldable pub after_ok : List ℕ → Bool
after_ok [] = true
after_ok (c ∷ s) = is_separator c || is_closing c

-- What is left of a text behind a needle that it starts with.
unfoldable pub after : List ℕ → List ℕ → Option (List ℕ)
after [] s = some s
after (n ∷ needle) [] = none
after (n ∷ needle) (c ∷ s) = if n == c then after needle s else none

abbrev pub ends_ok : Option (List ℕ) → Bool
ends_ok none = false
ends_ok (some rest) = after_ok rest

abbrev pub is_empty : List ℕ → Bool
is_empty [] = true
is_empty (c ∷ s) = false

-- The loop over `normalized.find(needle, start)`, with the code point before the rest of the text.
unfoldable pub occurs : List ℕ → Option ℕ → List ℕ → Bool
occurs needle previous [] = before_ok previous && ends_ok (after needle [])
occurs needle previous (c ∷ s) =
    (before_ok previous && ends_ok (after needle (c ∷ s))) || occurs needle (some c) s

unfoldable pub lstrip_backslash : List ℕ → List ℕ
lstrip_backslash [] = []
lstrip_backslash (c ∷ s) = if c == b'\\' then lstrip_backslash s else c ∷ s

-- `root.rstrip("\\")` on code points.
unfoldable pub rstrip_backslash : List ℕ → List ℕ
rstrip_backslash s = reverse (lstrip_backslash (reverse s))

unfoldable pub folded : List ℕ → List ℕ
unfolding casefold replace
folded s = replace b'/' b'\\' (casefold s)

pub record Needle : Type 0 where
  pub display : String
  pub needle : List ℕ

-- A display text comes stripped from _normalize_text.
unfoldable pub needle_of : String → Needle
needle_of root = record { display = root; needle = rstrip_backslash (folded (codes root)) }

unfoldable pub find_in_text : List Needle → List ℕ → Option String
find_in_text [] s = none
find_in_text (n ∷ ns) s =
    if not (is_empty n.needle) && occurs n.needle none s then some n.display else find_in_text ns s

-- `if match: return match`, and what the loop goes on to otherwise.
abbrev pub or_else : Option String → Option String → Option String
or_else none next = next
or_else (some reference) next = some reference

unfoldable mutual
  pub find_reference : List Needle → Value → Option String
  find_reference ns (text s) = find_in_text ns (folded (codes s))
  find_reference ns (object fs) = find_in_fields ns fs
  find_reference ns (array xs) = find_in_items ns xs
  find_reference ns null = none
  find_reference ns (boolean b) = none
  find_reference ns (number n) = none

  pub find_in_items : List Needle → Items → Option String
  find_in_items ns nil = none
  find_in_items ns (cons x xs) = or_else (find_reference ns x) (find_in_items ns xs)

  pub find_in_fields : List Needle → Fields → Option String
  find_in_fields ns end = none
  find_in_fields ns (field k v fs) = or_else (find_reference ns v) (find_in_fields ns fs)

unfoldable pub find_forbidden_root_reference : List String → Value → Option String
find_forbidden_root_reference roots payload = find_reference (map needle_of roots) payload
