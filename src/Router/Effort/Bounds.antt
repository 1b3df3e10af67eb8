-- ===== src/Router/Effort/Bounds.antt =====
-- The efforts that app/router.py selects are advertised, and lie within the asked bounds.
use mathlib.Core.List.{reverse, Mem, mem-reverse}
use codex_gate.Prelude.{
  ℕ, ◌≤◌, ◌<◌, ◌≡◌, String, true, some, List, [], ◌∷◌, Memᴰ, arith, Bool-cases, Option-cases, inl,
  inr,
}
use codex_gate.Router.Types.{CatalogModel, ultra_stage}
use codex_gate.Router.Effort.{
  effort_stage, has_stage, literal_in, literal_at_stage, suits, first_suiting, select_effort,
  is_below_ultra, first_below_ultra, highest_non_ultra_effort,
}

-- The effort is one of the texts, and has this stage.
pub record IsAdvertised (efforts : List String) (effort : String) (stage : ℕ) : Type 0 where
  pub listed : Mem effort efforts
  pub staged : effort_stage effort ≡ some stage

suits_bounds :
    (lo hi : ℕ) (e : String)
    → suits lo hi e ≡ true
    → (s : ℕ) × (effort_stage e ≡ some s) × (lo ≤ s) × (s ≤ hi) × (s < ultra_stage)
unfolding suits
suits_bounds lo hi e h = elim (Option-cases (effort_stage e)) [
  | inl missing ↦ absurd (ground arith)
  | inr (s, found) ↦ (s, found, ground arith, ground arith, ground arith)
]

mem-first_suiting :
    (es : List String) (lo hi : ℕ) {e : String}
    → first_suiting es lo hi ≡ some e
    → Memᴰ e es × (suits lo hi e ≡ true)
unfolding first_suiting
mem-first_suiting [] lo hi h = absurd (ground arith)
mem-first_suiting (x ∷ es) lo hi {e} h = elim (Bool-cases (suits lo hi x)) [
  | inl hit ↦ (Memᴰ.head (ground arith), ground arith)
  | inr miss ↦
      let (inside, ok) = mem-first_suiting es lo hi {e = e} (ground arith) in (Memᴰ.tail inside, ok)
]

-- What `_select_effort` returns: advertised by the model, within the bounds, and below Ultra.
pub select_effort_bounds :
    (m : CatalogModel) (lo hi : ℕ) (e : String)
    → select_effort m lo (some hi) ≡ some e
    → (s : ℕ) × IsAdvertised m.efforts e s × (lo ≤ s) × (s ≤ hi) × (s < ultra_stage)
unfolding select_effort
select_effort_bounds m lo hi e h =
    let (inside, ok) = mem-first_suiting m.efforts lo hi {e = e} (ground arith) in
    let (s, staged, above, below, plain) = suits_bounds lo hi e ok in
    (s, record { listed = ∣ inside ∣₁; staged = staged }, above, below, plain)

mem-literal_in :
    (es : List String) (stage : ℕ) {e : String}
    → literal_in es stage ≡ some e
    → Memᴰ e es × (has_stage stage e ≡ true)
unfolding literal_in
mem-literal_in [] stage h = absurd (ground arith)
mem-literal_in (x ∷ es) stage {e} h = elim (Bool-cases (has_stage stage x)) [
  | inl hit ↦ (Memᴰ.head (ground arith), ground arith)
  | inr miss ↦
      let (inside, ok) = mem-literal_in es stage {e = e} (ground arith) in (Memᴰ.tail inside, ok)
]

has_stage_lem : (stage : ℕ) (e : String) → has_stage stage e ≡ true → effort_stage e ≡ some stage
unfolding has_stage
has_stage_lem stage e h = elim (Option-cases (effort_stage e)) [
  | inl missing ↦ absurd (ground arith)
  | inr (s, found) ↦ ground arith
]

-- What `_literal_at_stage` returns is advertised, at exactly the asked stage.
pub literal_at_stage_lem :
    (m : CatalogModel) (stage : ℕ) (e : String)
    → literal_at_stage m stage ≡ some e
    → IsAdvertised m.efforts e stage
unfolding literal_at_stage
literal_at_stage_lem m stage e h =
    let (inside, ok) = mem-literal_in m.efforts stage {e = e} h in
    record { listed = ∣ inside ∣₁; staged = has_stage_lem stage e ok }

mem-first_below_ultra :
    (es : List String) {e : String}
    → first_below_ultra es ≡ some e
    → Memᴰ e es × (is_below_ultra e ≡ true)
unfolding first_below_ultra
mem-first_below_ultra [] h = absurd (ground arith)
mem-first_below_ultra (x ∷ es) {e} h = elim (Bool-cases (is_below_ultra x)) [
  | inl hit ↦ (Memᴰ.head (ground arith), ground arith)
  | inr miss ↦
      let (inside, ok) = mem-first_below_ultra es {e = e} (ground arith) in (Memᴰ.tail inside, ok)
]

is_below_ultra_lem :
    (e : String) → is_below_ultra e ≡ true → (s : ℕ) × (effort_stage e ≡ some s) × (s < ultra_stage)
unfolding is_below_ultra
is_below_ultra_lem e h = elim (Option-cases (effort_stage e)) [
  | inl missing ↦ absurd (ground arith)
  | inr (s, found) ↦ (s, found, ground arith)
]

-- What `_highest_non_ultra_effort` returns is advertised and below Ultra.
pub highest_non_ultra_effort_lem :
    (m : CatalogModel) (e : String)
    → highest_non_ultra_effort m ≡ some e
    → (s : ℕ) × IsAdvertised m.efforts e s × (s < ultra_stage)
unfolding highest_non_ultra_effort
highest_non_ultra_effort_lem m e h =
    let (inside, ok) = mem-first_below_ultra (reverse m.efforts) {e = e} h in
    let (s, staged, plain) = is_below_ultra_lem e ok in
    (s, record { listed = mem-reverse.0 ∣ inside ∣₁; staged = staged }, plain)
