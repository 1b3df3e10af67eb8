-- ===== src/Gateway/Start/Runnable.antt =====
-- Which stored plans pass the last checks before a run (app/gateway.py).
use codex_gate.Prelude.{
  is_some, ◌≡◌, refl, sym, subst, ℕ, String, Bool, true, false, not, ◌↔◌, Option, none, some, List,
  find, str_eq, if◌then◌else◌, Result, ok, err, arith,
}
use codex_gate.Gateway.Start.{
  Plan, Entry, account_worsened, is_unusable, is_ultra, is_past, is_task, check_model, check_final,
  check_status, validate_route_plan,
}

-- A previewed plan that is unused, unexpired and read-only, for the root and the task that were planned, in
-- an account that is no worse, with a usable model of the catalog and an effort below Ultra.
pub record IsRunnable (digest : String → String) (root current : String) (catalog : List Entry)
    (now : ℕ) (p : Plan) : Type 0 where
  pub model : String
  pub effort : String
  pub entry : Entry
  pub final : p.final ≡ some (model, effort)
  pub previewed : str_eq p.status "PREVIEW" ≡ true
  pub unused : p.used ≡ false
  pub unexpired : is_past now p.expires_at ≡ false
  pub read_only : str_eq p.permission "read-only" ≡ true
  pub same_root : str_eq p.root root ≡ true
  pub same_task : is_task digest p.task p.task_hash ≡ true
  pub account : account_worsened p.account_state current ≡ false
  pub listed : find (λ e. str_eq e.id model) catalog ≡ some entry
  pub usable : is_unusable entry.status ≡ false
  pub below_ultra : is_ultra effort ≡ false

dated : (now : ℕ) (o : Option ℕ) → is_past now o ≡ false → not (is_some o) ≡ false
dated now none h = absurd (ground arith)
dated now (some t) h = refl

passed :
    {A : Type 0} (b : Bool) (code : String) (r : Result A) {q : A}
    → (if b then err code else r) ≡ ok q
    → (b ≡ false) × (r ≡ ok q)
passed true code r e = absurd (ground arith)
passed false code r e = (refl, e)

true_of_not : (b : Bool) → not b ≡ false → b ≡ true
true_of_not b h = ground arith

module _ (digest : String → String) (root current : String) (catalog : List Entry) (now : ℕ)
    (p : Plan) where
  final-IsRunnable :
      (model effort : String) (entry : Entry) {q : Plan}
      → p.final ≡ some (model, effort)
      → str_eq p.status "PREVIEW" ≡ true
      → find (λ e. str_eq e.id model) catalog ≡ some entry
      → check_final digest root current catalog now p (model, effort) ≡ ok q
      → IsRunnable digest root current catalog now p
  final-IsRunnable model effort entry {q} f previewed g e =
      let (unused, e1) = passed p.used _ _ e in
      let (dated, e0) = passed (not (is_some p.expires_at)) _ _ e1 in
      let (unexpired, e2) = passed (is_past now p.expires_at) _ _ e0 in
      let (read_only, e3) = passed (not (str_eq p.permission "read-only")) _ _ e2 in
      let (same_root, e4) = passed (not (str_eq p.root root)) _ _ e3 in
      let (same_task, e5) = passed (not (is_task digest p.task p.task_hash)) _ _ e4 in
      let (account, e6) = passed (account_worsened p.account_state current) _ _ e5 in
      let (usable, e7) =
        passed (is_unusable entry.status) _ _ (subst (λ o. check_model o effort p ≡ ok q) g e6) in
      let (below, e8) = passed (is_ultra effort) _ _ e7 in
      record {
        model = model;
        effort = effort;
        entry = entry;
        final = f;
        previewed = previewed;
        unused = unused;
        unexpired = unexpired;
        read_only = true_of_not _ read_only;
        same_root = true_of_not _ same_root;
        same_task = true_of_not _ same_task;
        account = account;
        listed = g;
        usable = usable;
        below_ultra = below;
      }

  found-IsRunnable :
      (model effort : String) (o : Option Entry)
      → p.final ≡ some (model, effort)
      → str_eq p.status "PREVIEW" ≡ true
      → find (λ e. str_eq e.id model) catalog ≡ o
      → check_final digest root current catalog now p (model, effort) ≡ ok p
      → IsRunnable digest root current catalog now p
  found-IsRunnable model effort (some entry) f previewed g e =
      final-IsRunnable model effort entry f previewed g e
  found-IsRunnable model effort none f previewed g e =
      let (unused, e1) = passed p.used _ _ e in
      let (dated, e0) = passed (not (is_some p.expires_at)) _ _ e1 in
      let (unexpired, e2) = passed (is_past now p.expires_at) _ _ e0 in
      let (read_only, e3) = passed (not (str_eq p.permission "read-only")) _ _ e2 in
      let (same_root, e4) = passed (not (str_eq p.root root)) _ _ e3 in
      let (same_task, e5) = passed (not (is_task digest p.task p.task_hash)) _ _ e4 in
      let (account, e6) = passed (account_worsened p.account_state current) _ _ e5 in
      let missing = subst (λ o. check_model o effort p ≡ ok p) g e6 in absurd (ground arith)

  status-IsRunnable :
      (o : Option (String × String))
      → p.final ≡ o
      → check_status digest root current catalog now p o ≡ ok p
      → IsRunnable digest root current catalog now p
  status-IsRunnable none f e = absurd (ground arith)
  status-IsRunnable (some (model, effort)) f e =
      let (previewed, e1) = passed (not (str_eq p.status "PREVIEW")) _ _ e in
      found-IsRunnable model effort (find (λ e. str_eq e.id model) catalog) f
        (true_of_not _ previewed) refl e1

  accept :
      {A : Type 0} (b : Bool) (code : String) (r : Result A) {q : A}
      → b ≡ false
      → r ≡ ok q
      → (if b then err code else r) ≡ ok q
  accept true code r off e = absurd (ground arith)
  accept false code r off e = e

  false_of_not : (b : Bool) → b ≡ true → not b ≡ false
  false_of_not b h = ground arith

  IsRunnable-accepted :
      IsRunnable digest root current catalog now p
      → validate_route_plan digest root current catalog now p ≡ ok p
  unfolding validate_route_plan
  IsRunnable-accepted w =
      subst (λ o. check_status digest root current catalog now p o ≡ ok p) (sym w.final)
        (accept (not (str_eq p.status "PREVIEW")) _ _ (false_of_not _ w.previewed) (
          accept p.used _ _ w.unused (
            accept (not (is_some p.expires_at)) _ _ (dated now p.expires_at w.unexpired) (
              accept (is_past now p.expires_at) _ _ w.unexpired (
                accept (not (str_eq p.permission "read-only")) _ _ (false_of_not _ w.read_only) (
                  accept (not (str_eq p.root root)) _ _ (false_of_not _ w.same_root) (
                    accept (not (is_task digest p.task p.task_hash)) _ _
                      (false_of_not _ w.same_task)
                      (accept (account_worsened p.account_state current) _ _ w.account (
                        subst (λ o. check_model o w.effort p ≡ ok p) (sym w.listed)
                          (accept (is_unusable w.entry.status) _ _ w.usable
                            (accept (is_ultra w.effort) _ _ w.below_ultra refl)))))))))))

-- A stored plan passes _validate_route_plan exactly when it is a previewed plan, unused and unexpired,
-- read-only, for the same root and task, in an account that is no worse than planned, with a model of
-- the catalog that is usable and an effort other than Ultra.
pub validate_route_plan_iff :
    (digest : String → String) (root current : String) (catalog : List Entry) (now : ℕ) (p : Plan)
    → (validate_route_plan digest root current catalog now p ≡ ok p)
      ↔ IsRunnable digest root current catalog now p
unfolding validate_route_plan
validate_route_plan_iff digest root current catalog now p = (
  status-IsRunnable digest root current catalog now p p.final refl,
  IsRunnable-accepted digest root current catalog now p,
)
