-- ===== src/Prelude/Text.antt =====
-- Python's text methods, on code points. A native `String` is what the program compares whole.
use Prim.Native.Nat.{ℕ, ◌+◌, ◌-◌}
use Prim.Native.Char.{code}
use Prim.Native.String.{String}
use mathlib.Core.Bool.{Bool, true, false, ◌&&◌, ◌||◌}
use mathlib.Core.List.{List, [], ◌∷◌, ◌++◌, map, reverse}
use codex_gate.Prelude.Tests.{leb, ◌==◌, if◌then◌else◌}

-- The code points of a text.
abbrev pub codes : String → List ℕ
codes String.[] = []
codes (String.◌∷◌ c s) = code c ∷ codes s

unfoldable pub same_codes : List ℕ → List ℕ → Bool
same_codes [] [] = true
same_codes (a ∷ as') (b ∷ bs) = a == b && same_codes as' bs
same_codes _ _ = false

-- `str.isspace` on one code point, the set that `str.strip` removes.
unfoldable pub is_space : ℕ → Bool
is_space c =
    (leb 9 c && leb c 13)
    || (leb 28 c && leb c 32)
    || c == 133
    || c == 160
    || c == 5760
    || (leb 8192 c && leb c 8202)
    || c == 8232
    || c == 8233
    || c == 8239
    || c == 8287
    || c == 12288

unfoldable pub lstrip : List ℕ → List ℕ
unfolding is_space
lstrip [] = []
lstrip (c ∷ s) = if is_space c then lstrip s else c ∷ s

-- `str.strip()`.
unfoldable pub strip : List ℕ → List ℕ
unfolding lstrip
strip s = reverse (lstrip (reverse (lstrip s)))

abbrev lower : ℕ → ℕ
lower c = if leb b'A' c && leb c b'Z' then c + 32 else c

abbrev raise : ℕ → ℕ
raise c = if leb b'a' c && leb c b'z' then c - 32 else c

-- `str.casefold()` and `str.upper()`, on ASCII letters; other code points are left alone, as Python
-- leaves caseless scripts such as Hangul.
unfoldable pub casefold : List ℕ → List ℕ
casefold s = map lower s

unfoldable pub upper : List ℕ → List ℕ
upper s = map raise s

abbrev swap_code : ℕ → ℕ → ℕ → ℕ
swap_code old new c = if c == old then new else c

-- `str.replace` of one character by one character.
unfoldable pub replace : ℕ → ℕ → List ℕ → List ℕ
replace old new s = map (swap_code old new) s

unfoldable pub starts_with : List ℕ → List ℕ → Bool
starts_with s [] = true
starts_with [] (b ∷ bs) = false
starts_with (a ∷ as') (b ∷ bs) = a == b && starts_with as' bs

-- `needle in s`.
unfoldable pub contains_codes : List ℕ → List ℕ → Bool
unfolding starts_with
contains_codes [] needle = starts_with [] needle
contains_codes (c ∷ s) needle = starts_with (c ∷ s) needle || contains_codes s needle

-- `" ".join(parts)`.
unfoldable pub join_space : List (List ℕ) → List ℕ
join_space [] = []
join_space (p ∷ []) = p
join_space (p ∷ q ∷ ps) = p ++ (b' ' ∷ join_space (q ∷ ps))
