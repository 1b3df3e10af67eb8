-- ===== src/Json/Tests.antt =====
-- Runs of is_permission_subset and of the search for forbidden roots, and the theorems on concrete values.
use codex_gate.Prelude.{◌≡◌, refl, String, true, false, none, some, List, [], ◌∷◌, codes, ◌↔◌}
use codex_gate.Json.Values.{
  Value, null, boolean, text, object, end, field, get, is_permission_subset,
}
use codex_gate.Json.Paths.{at, WithinFound, is_permission_subset-at}
use codex_gate.Json.Forbidden.{
  find_forbidden_root_reference, needle_of, occurs, before_ok, after_ok, after, folded,
  rstrip_backslash, lstrip_backslash, find_in_text, find_reference,
}
use codex_gate.Json.Occurrence.{IsBounded, occurs_iff}
use codex_gate.Json.Texts.{texts, first_reference, find_reference-texts}

abbrev pub asked : Value
asked = object (field "network" (object (field "enabled" (boolean true) end)) end)

abbrev pub some_of_it : Value
some_of_it = object (field "network" (object (field "enabled" (boolean false) end)) end)

less_subset : is_permission_subset some_of_it asked ≡ true
unfolding is_permission_subset get
less_subset = refl

more_subset : is_permission_subset asked some_of_it ≡ false
unfolding is_permission_subset get
more_subset = refl

abbrev root : List String
root = "C:\\Secret" ∷ []

abbrev payload : Value
payload = object (field "command" (text "type c:/secret/key.txt") (field "cwd" null end))

payload_found : find_forbidden_root_reference root payload ≡ some "C:\\Secret"
unfolding find_forbidden_root_reference find_reference find_in_text needle_of occurs before_ok
    after_ok after folded rstrip_backslash lstrip_backslash
payload_found = refl

longer_name : find_forbidden_root_reference root (text "type c:/secrets/key.txt") ≡ none
unfolding find_forbidden_root_reference find_reference find_in_text needle_of occurs before_ok
    after_ok after folded rstrip_backslash lstrip_backslash
longer_name = refl

is_permission_subset-at_example :
    WithinFound (boolean false) (at ("network" ∷ "enabled" ∷ []) asked)
unfolding at get
is_permission_subset-at_example =
    is_permission_subset-at some_of_it asked ("network" ∷ "enabled" ∷ []) (boolean false)
      less_subset refl

occurs_iff_example :
    (occurs (codes "tmp") none (codes "a/tmp b") ≡ true)
    ↔ IsBounded (codes "tmp") none (codes "a/tmp b")
occurs_iff_example = occurs_iff (codes "tmp") none (codes "a/tmp b")

find_reference-texts_example :
    find_reference (needle_of "C:\\Secret" ∷ []) payload
    ≡ first_reference (needle_of "C:\\Secret" ∷ []) (texts payload)
find_reference-texts_example = find_reference-texts (needle_of "C:\\Secret" ∷ []) payload
