-- ===== src/Router/Effort/Literals.antt =====
-- A literal that app/router.py takes for a request for Ultra has the stage of Ultra.
use codex_gate.Prelude.{
  ℕ, ◌≡◌, refl, String, true, false, ◌&&◌, some, List, [], ◌∷◌, arith, codes, strip, lstrip,
  is_space, casefold, replace, same_codes, &&-true, ◌+◌, leb, if◌then◌else◌, ◌==◌,
}
use codex_gate.Router.Types.{CatalogModel}
use codex_gate.Router.Effort.{effort_stage, is_ultra, lookup_codes, effort_table}

abbrev lower : ℕ → ℕ
lower c = if leb b'A' c && leb c b'Z' then c + 32 else c

not_space :
    (a k : ℕ) → (lower a == k) ≡ true → (leb b'a' k && leb k b'z') ≡ true → is_space a ≡ false
unfolding is_space
not_space a k h l = ground arith

lower_lem : (a k : ℕ) → (lower a == k) ≡ true → lower a ≡ k
lower_lem a k h = ground arith

five :
    (a b c d f : ℕ)
    → (lower a == b'u') ≡ true
    → (lower b == b'l') ≡ true
    → (lower c == b't') ≡ true
    → (lower d == b'r') ≡ true
    → (lower f == b'a') ≡ true
    → lookup_codes
        (replace b' ' b'-' (replace b'_' b'-' (casefold (strip (a ∷ b ∷ c ∷ d ∷ f ∷ [])))))
        effort_table
      ≡ some 5
unfolding lookup_codes strip casefold replace
five a b c d f ha hb hc hd hf =
    rw (not_space a b'u' ha refl, lstrip)
      (rw (not_space f b'a' hf refl, lstrip)
        (rw (
          lower_lem a b'u' ha,
          lower_lem b b'l' hb,
          lower_lem c b't' hc,
          lower_lem d b'r' hd,
          lower_lem f b'a' hf,
        )))

same_ultra :
    (s : List ℕ)
    → same_codes (casefold s) (codes "ultra") ≡ true
    → lookup_codes (replace b' ' b'-' (replace b'_' b'-' (casefold (strip s)))) effort_table
      ≡ some 5
unfolding same_codes casefold
same_ultra [] h = absurd (ground arith)
same_ultra (a ∷ []) h = absurd (ground arith)
same_ultra (a ∷ b ∷ []) h = absurd (ground arith)
same_ultra (a ∷ b ∷ c ∷ []) h = absurd (ground arith)
same_ultra (a ∷ b ∷ c ∷ d ∷ []) h = absurd (ground arith)
same_ultra (a ∷ b ∷ c ∷ d ∷ f ∷ []) h =
    five a b c d f (ground arith) (ground arith) (ground arith) (ground arith) (ground arith)
same_ultra (a ∷ b ∷ c ∷ d ∷ f ∷ g ∷ s) h = absurd (ground arith)

-- A text that `_is_ultra` accepts has the stage of Ultra.
pub is_ultra_stage : (m : CatalogModel) (e : String) → is_ultra m e ≡ true → effort_stage e ≡ some 5
unfolding is_ultra effort_stage
is_ultra_stage m e h = same_ultra (codes e) (&&-true _ _ h).0
