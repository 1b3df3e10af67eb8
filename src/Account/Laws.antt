-- ===== src/Account/Laws.antt =====
-- What the account state of app/storage.py reflects of a snapshot.
use codex_gate.Prelude.{
  ℕ, String, ◌≤◌, ◌≡◌, refl, ◌⊎◌, ◌↔◌, inl, inr, Bool, true, false, Option, none, some, List, [],
  ◌∷◌, Memᴰ, arith, leb, if◌then◌else◌, is_some, str_eq,
}
use codex_gate.Account.Windows.{
  RateLimit, Snapshot, Thresholds, Window, Source, BlockingReason, blocked, snapshots, windows_of,
  larger, max_window, used_of, classify, blocking_of, reached, blocking_reason_of,
  account_state_details_from_snapshot,
}

-- Every window lies at or below the chosen one.
abbrev pub AllBelow : ℕ → List Window → Type 0
AllBelow n [] = Unit {0}
AllBelow n (w ∷ ws) = (w.used_percent ≤ n) × AllBelow n ws

AllBelow-le : (m n : ℕ) (ws : List Window) → m ≤ n → AllBelow m ws → AllBelow n ws
AllBelow-le m n [] h a = tt
AllBelow-le m n (w ∷ ws) h a = (omega arith, AllBelow-le m n ws h a.1)

abbrev pub IsTop : List Window → Option Window → Type 0
IsTop ws none = ws ≡ []
IsTop ws (some v) = Memᴰ v ws × AllBelow v.used_percent ws

larger-IsTop :
    (w : Window) (ws : List Window) (o : Option Window) → IsTop ws o → IsTop (w ∷ ws) (larger w o)
unfolding larger
larger-IsTop w ws none h = (Memᴰ.head refl, rw h (omega arith))
larger-IsTop w ws (some v) h = go (leb v.used_percent w.used_percent) refl
  where
    go :
        (b : Bool)
        → leb v.used_percent w.used_percent ≡ b
        → IsTop (w ∷ ws) (some (if b then w else v))
    go true e = (
      Memᴰ.head refl,
      (omega arith, AllBelow-le v.used_percent w.used_percent ws (ground arith) h.1),
    )
    go false e = (Memᴰ.tail h.0, (ground arith, h.1))

max_window-IsTop : (ws : List Window) → IsTop ws (max_window ws)
unfolding max_window
max_window-IsTop [] = refl
max_window-IsTop (w ∷ ws) = larger-IsTop w ws (max_window ws) (max_window-IsTop ws)

-- A rate limit that blocks by itself.
abbrev pub Blocks : RateLimit → Type 0
Blocks r =
    (r.spend_control_reached ≡ true)
    ⊎ ((kind : String) × (r.rate_limit_reached_type ≡ some kind) × (str_eq kind "" ≡ false))

abbrev pub AnyBlocks : List (Source × RateLimit) → Type 0
AnyBlocks [] = ⊥
AnyBlocks ((_, r) ∷ rest) = Blocks r ⊎ AnyBlocks rest

blocking_of-stays :
    (source : Source) (r : RateLimit) (o : Option BlockingReason)
    → is_some o ≡ true
    → is_some (blocking_of source r o) ≡ true
unfolding blocking_of
blocking_of-stays source r o h = ground arith

blocking_of-Blocks :
    (source : Source) (r : RateLimit) (o : Option BlockingReason)
    → Blocks r
    → is_some (blocking_of source r o) ≡ true
unfolding blocking_of
blocking_of-Blocks source r o h = ground arith

blocking_of-inv :
    (source : Source) (r : RateLimit) (o : Option BlockingReason)
    → is_some (blocking_of source r o) ≡ true
    → Blocks r ⊎ (is_some o ≡ true)
unfolding blocking_of reached
blocking_of-inv source r o h = go r.rate_limit_reached_type refl r.spend_control_reached refl
  where
    go :
        (k : Option String)
        → r.rate_limit_reached_type ≡ k
        → (b : Bool) → r.spend_control_reached ≡ b
        → Blocks r ⊎ (is_some o ≡ true)
    go k ek true eb = inl (inl eb)
    go none ek false eb = inr (ground arith)
    go (some kind) ek false eb =
        elim (str_eq kind "") as (λ b. str_eq kind "" ≡ b → Blocks r ⊎ (is_some o ≡ true)) [
          | true ↦ λ e. inr (ground arith)
          | false ↦ λ e. inl (inr (kind, ek, e))
        ]
          refl

blocking_reason_of-stays :
    (limits : List (Source × RateLimit)) (o : Option BlockingReason)
    → is_some o ≡ true
    → is_some (blocking_reason_of limits o) ≡ true
unfolding blocking_reason_of
blocking_reason_of-stays [] o h = h
blocking_reason_of-stays ((source, r) ∷ rest) o h =
    blocking_reason_of-stays rest (blocking_of source r o) (blocking_of-stays source r o h)

blocking_reason_of_iff :
    (limits : List (Source × RateLimit)) (o : Option BlockingReason)
    → (is_some (blocking_reason_of limits o) ≡ true) ↔ (AnyBlocks limits ⊎ (is_some o ≡ true))
unfolding blocking_reason_of
blocking_reason_of_iff [] o = (λ h. inr h, λ h. ground arith)
blocking_reason_of_iff ((source, r) ∷ rest) o =
    let ih = blocking_reason_of_iff rest (blocking_of source r o) in
    (λ h. forth (ih.0 h), λ h. ih.1 (back h))
  where
    forth :
        AnyBlocks rest ⊎ (is_some (blocking_of source r o) ≡ true)
        → AnyBlocks ((source, r) ∷ rest) ⊎ (is_some o ≡ true)
    forth (inl later) = inl (inr later)
    forth (inr here) = elim (blocking_of-inv source r o here) [
      | inl blocks ↦ inl (inl blocks)
      | inr before ↦ inr before
    ]

    back :
        AnyBlocks ((source, r) ∷ rest) ⊎ (is_some o ≡ true)
        → AnyBlocks rest ⊎ (is_some (blocking_of source r o) ≡ true)
    back (inl (inl here)) = inr (blocking_of-Blocks source r o here)
    back (inl (inr later)) = inl later
    back (inr before) = inr (blocking_of-stays source r o before)

abbrev pub SomeReaches : ℕ → List Window → Type 0
SomeReaches n ws = (w : Window) × Memᴰ w ws × (n ≤ w.used_percent)

AllBelow-mem :
    (n : ℕ) (ws : List Window) {w : Window} → AllBelow n ws → Memᴰ w ws → w.used_percent ≤ n
AllBelow-mem n [] h m = elim m [ ]
AllBelow-mem n (v ∷ ws) h (Memᴰ.head e) = rw e h.0
AllBelow-mem n (v ∷ ws) h (Memᴰ.tail m) = AllBelow-mem n ws h.1 m

mem-nil : {w : Window} (ws : List Window) → ws ≡ [] → Memᴰ w ws → ⊥
mem-nil [] e m = elim m [ ]
mem-nil (v ∷ ws) e m = absurd (ground arith)

-- The test at a bound, for the chosen window, is a test for any window.
reaches_iff :
    (n : ℕ) (ws : List Window) (o : Option Window)
    → IsTop ws o
    → SomeReaches n ws ↔ ((u : ℕ) × (used_of o ≡ some u) × (n ≤ u))
unfolding used_of
reaches_iff n ws none top =
    (λ (w, m, h). absurd (mem-nil ws top m), λ (u, e, h). absurd (ground arith))
reaches_iff n ws (some v) top = (
  λ (w, m, h). (v.used_percent, refl, le_of v w h (AllBelow-mem v.used_percent ws top.1 m)),
  λ (u, e, h). (v, top.0, ground arith),
)
  where
    le_of :
        (v w : Window) → n ≤ w.used_percent → w.used_percent ≤ v.used_percent → n ≤ v.used_percent
    le_of v w h k = omega arith

classify-blocked_iff :
    (t : Thresholds) (b : Bool) (o : Option ℕ)
    → (classify t b o ≡ blocked) ↔ ((b ≡ true) ⊎ ((u : ℕ) × (o ≡ some u) × (t.blocked ≤ u)))
unfolding classify
classify-blocked_iff t true o = (λ h. inl refl, λ h. refl)
classify-blocked_iff t false none = (λ h. absurd (ground arith), λ h. absurd (ground arith))
classify-blocked_iff t false (some used) = (
  λ h. inr (used, refl, ground arith),
  λ h. elim h [ inl e ↦ absurd (ground arith) | inr e ↦ met e ],
)
  where
    met :
        ((u : ℕ) × (some used ≡ some u) × (t.blocked ≤ u)) → classify t false (some used) ≡ blocked
    met (u, e, k) = ground arith

-- The account state is BLOCKED exactly when some rate limit of the snapshot blocks by itself (its
-- spend control is reached, or it names a reached limit), or some window's use has reached the
-- threshold `blocked`.
pub details-blocked_iff :
    (s : Snapshot) (t : Thresholds)
    → ((account_state_details_from_snapshot (some s) t).status ≡ blocked)
      ↔ (AnyBlocks (snapshots s) ⊎ SomeReaches t.blocked (windows_of (snapshots s)))
unfolding account_state_details_from_snapshot
details-blocked_iff s t =
    let limits = snapshots s in
    let reason = is_some (blocking_reason_of limits none) in
    let status = classify-blocked_iff t reason (used_of (max_window (windows_of limits))) in
    (λ h. forth s t (status.0 h), λ h. status.1 (back s t h))
  where
    forth :
        (s : Snapshot) (t : Thresholds)
        → (is_some (blocking_reason_of (snapshots s) none) ≡ true)
          ⊎ ((u : ℕ) × (used_of (max_window (windows_of (snapshots s))) ≡ some u) × (t.blocked ≤ u))
        → AnyBlocks (snapshots s) ⊎ SomeReaches t.blocked (windows_of (snapshots s))
    forth s t (inl h) = elim ((blocking_reason_of_iff (snapshots s) none).0 h) [
      | inl any ↦ inl any
      | inr e ↦ absurd (ground arith)
    ]
    forth s t (inr h) =
        let ws = windows_of (snapshots s) in
        inr ((reaches_iff t.blocked ws (max_window ws) (max_window-IsTop ws)).1 h)

    back :
        (s : Snapshot) (t : Thresholds)
        → AnyBlocks (snapshots s) ⊎ SomeReaches t.blocked (windows_of (snapshots s))
        → (is_some (blocking_reason_of (snapshots s) none) ≡ true)
          ⊎ ((u : ℕ) × (used_of (max_window (windows_of (snapshots s))) ≡ some u) × (t.blocked ≤ u))
    back s t (inl any) = inl ((blocking_reason_of_iff (snapshots s) none).1 (inl any))
    back s t (inr h) =
        let ws = windows_of (snapshots s) in
        inr ((reaches_iff t.blocked ws (max_window ws) (max_window-IsTop ws)).0 h)

-- The reported maximum window is one of the reported windows and none of them exceeds it; it is
-- absent exactly when no window is reported.
pub details-IsTop :
    (s : Snapshot) (t : Thresholds)
    → IsTop
        (account_state_details_from_snapshot (some s) t).windows
        (account_state_details_from_snapshot (some s) t).maximum_window
unfolding account_state_details_from_snapshot
details-IsTop s t = max_window-IsTop (windows_of (snapshots s))
