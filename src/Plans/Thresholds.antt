-- ===== src/Plans/Thresholds.antt =====
-- usage_thresholds and set_usage_thresholds (app/storage.py). A stored value is the three integers of its
-- mapping, `none` where there is no row or it does not read as such; the integers are not negative.
use codex_gate.Prelude.{
  ◌≡◌, refl, sym, subst, Bool, true, ◌&&◌, Option, none, some, leb, ltb, if◌then◌else◌, Result, ok,
  err, arith, Bool-cases, inl, inr,
}
use codex_gate.Account.Windows.{Thresholds}

abbrev pub default_usage_thresholds : Thresholds
default_usage_thresholds = record { conserve = 70; critical = 90; blocked = 100 }

unfoldable pub is_ascending : Thresholds → Bool
is_ascending t = ltb t.conserve t.critical && ltb t.critical t.blocked && leb t.blocked 100

unfoldable pub usage_thresholds : Option Thresholds → Thresholds
usage_thresholds none = default_usage_thresholds
usage_thresholds (some t) = if is_ascending t then t else default_usage_thresholds

unfoldable pub set_usage_thresholds :
    Option Thresholds → Option Thresholds → Result Thresholds × Option Thresholds
set_usage_thresholds none stored =
    (err "usage thresholds must include conserve, critical, and blocked", stored)
set_usage_thresholds (some t) stored =
    if is_ascending t
    then (ok t, some t)
    else (err "usage thresholds must be ascending percentages through 100", stored)

-- What is set is read back, whatever was stored before; and whatever is stored, the thresholds that are
-- read ascend strictly up to 100 at most.
pub set_usage_thresholds-usage_thresholds :
    ((t t' : Thresholds) (stored stored' : Option Thresholds)
      → set_usage_thresholds (some t) stored ≡ (ok t', stored')
      → usage_thresholds stored' ≡ t)
    × ((stored : Option Thresholds) → is_ascending (usage_thresholds stored) ≡ true)
unfolding set_usage_thresholds usage_thresholds is_ascending
set_usage_thresholds-usage_thresholds = (reads, ascends)
  where
    reads :
        (t t' : Thresholds) (stored stored' : Option Thresholds)
        → set_usage_thresholds (some t) stored ≡ (ok t', stored')
        → usage_thresholds stored' ≡ t
    reads t t' stored stored' e = elim (Bool-cases (is_ascending t)) [
      | inl on ↦
          let same : stored' ≡ some t = ground arith in
          subst (λ o. usage_thresholds o ≡ t) (sym same) (ground arith)
      | inr off ↦ absurd (ground arith)
    ]

    ascends : (stored : Option Thresholds) → is_ascending (usage_thresholds stored) ≡ true
    ascends none = refl
    ascends (some t) = elim (Bool-cases (is_ascending t)) [
      | inl on ↦ ground arith
      | inr off ↦ ground arith
    ]
