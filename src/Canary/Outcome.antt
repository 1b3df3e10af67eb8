-- ===== src/Canary/Outcome.antt =====
-- What is known when a block of app/storage.py ends normally, and when it ends with an exception:
-- one rule for each way a block is put together.
use codex_gate.Prelude.{◌≡◌, refl, ap, String, Bool, true, false, Option, none, some, if◌then◌else◌}
use codex_gate.Canary.Rows.{Db, Binding}
use codex_gate.Canary.Tx.{
  Result, ok, err, Conn, Tx, ◌>>=◌, ◌>>◌, pure, raise, require, found, get, modify, commit,
  transaction, continue, settle,
}
use codex_gate.Canary.Binding.{Hashes, is_nonce, binding_problem}
use codex_gate.Canary.Windows.{require_nonce}
use codex_gate.Canary.Permits.{validated, no_problem}

abbrev pub ByOutcome :
    {A : Type 0} → Result A × Conn → (A → Conn → Type 0) → (String → Conn → Type 0) → Type 0
ByOutcome (ok a, c) Q E = Q a c
ByOutcome (err code, c) Q E = E code c

pub record Ends {A : Type 0} (r : Result A × Conn) (Q : A → Conn → Type 0)
    (E : String → Conn → Type 0) : Type 0 where
  pub outcome : ByOutcome r Q E

module _ {A : Type 0} {Q : A → Conn → Type 0} {E : String → Conn → Type 0} where
  pub pure-Ends : (a : A) (c : Conn) → Q a c → Ends (pure a c) Q E
  unfolding pure
  pure-Ends a c q = record { outcome = q }

  pub raise-Ends : (code : String) (c : Conn) → E code c → Ends (raise code c) Q E
  unfolding raise
  raise-Ends code c e = record { outcome = e }

  pub found-Ends :
      (o : Option A) (code : String) (c : Conn)
      → ((a : A) → o ≡ some a → Q a c)
      → (o ≡ none → E code c)
      → Ends (found o code c) Q E
  unfolding found
  found-Ends none code c q e = record { outcome = e refl }
  found-Ends (some a) code c q e = record { outcome = q a refl }

  pub require-Ends :
      (b : Bool) (code : String) (m : Tx A) (c : Conn)
      → (b ≡ true → Ends (m c) Q E)
      → (b ≡ false → E code c)
      → Ends ((require b code >> m) c) Q E
  unfolding ◌>>◌ ◌>>=◌ require
  require-Ends true code m c q e = q refl
  require-Ends false code m c q e = record { outcome = e refl }

  pub branch-Ends :
      (b : Bool) (m n : Tx A) (c : Conn)
      → (b ≡ true → Ends (m c) Q E)
      → (b ≡ false → Ends (n c) Q E)
      → Ends ((if b then m else n) c) Q E
  branch-Ends true m n c t f = t refl
  branch-Ends false m n c t f = f refl

  pub get-Ends : (f : Db → Tx A) (c : Conn) → Ends (f c.working c) Q E → Ends ((get >>= f) c) Q E
  unfolding ◌>>=◌ get
  get-Ends f c e = e

  pub modify-Ends :
      (f : Db → Db) (m : Tx A) (c : Conn)
      → Ends (m (record c { working = f c.working })) Q E
      → Ends ((modify f >> m) c) Q E
  unfolding ◌>>◌ ◌>>=◌ modify
  modify-Ends f m c e = e

  pub commit-Ends :
      (m : Tx A) (c : Conn)
      → Ends (m (record c { durable = c.working })) Q E
      → Ends ((commit >> m) c) Q E
  unfolding ◌>>◌ ◌>>=◌ commit
  commit-Ends m c e = e

  pub bind-Ends :
      {B : Type 0} (m : Tx B) (f : B → Tx A) (c : Conn)
      → Ends (m c) (λ b c'. Ends (f b c') Q E) E
      → Ends ((m >>= f) c) Q E
  unfolding ◌>>=◌
  bind-Ends {B} m f c e = next (m c) e
    where
      next :
          (r : Result B × Conn)
          → Ends r (λ b c'. Ends (f b c') Q E) E
          → Ends (continue r.0 f r.1) Q E
      next (ok b, c') k = k.outcome
      next (err code, c') k = record { outcome = k.outcome }

  pub seq-Ends :
      (m : Tx (Unit {0})) (n : Tx A) (c : Conn)
      → Ends (m c) (λ _ c'. Ends (n c') Q E) E
      → Ends ((m >> n) c) Q E
  unfolding ◌>>◌
  seq-Ends m n c e = bind-Ends m (λ _. n) c e

module _ {E : String → Conn → Type 0} where
  pub update-Ends :
      {Q : Unit {0} → Conn → Type 0} (f : Db → Db) (c : Conn)
      → Q tt (record c { working = f c.working })
      → Ends (modify f c) Q E
  unfolding modify
  update-Ends f c q = record { outcome = q }

  pub test-Ends :
      {Q : Unit {0} → Conn → Type 0} (b : Bool) (code : String) (c : Conn)
      → (b ≡ true → Q tt c)
      → (b ≡ false → E code c)
      → Ends (require b code c) Q E
  unfolding require
  test-Ends true code c q e = record { outcome = q refl }
  test-Ends false code c q e = record { outcome = e refl }

  pub nonce-Ends :
      {Q : String → Conn → Type 0} (text code : String) (c : Conn)
      → Q text c
      → E code c
      → Ends (require_nonce (some text) code c) Q E
  nonce-Ends text code c q e =
      branch-Ends (is_nonce text) (pure text) (raise code) c (λ _. pure-Ends text c q)
        (λ _. raise-Ends code c e)

  pub any_nonce-Ends :
      {Q : String → Conn → Type 0} (nonce : Option String) (code : String) (c : Conn)
      → ((text : String) → Q text c)
      → E code c
      → Ends (require_nonce nonce code c) Q E
  any_nonce-Ends none code c q e = raise-Ends code c e
  any_nonce-Ends (some text) code c q e = nonce-Ends text code c (q text) e

  pub validated-Ends :
      {Q : Unit {0} → Conn → Type 0} (h : Hashes) (b : Binding) (c : Conn)
      → Q tt c
      → ((code : String) → E code c)
      → Ends (validated h b c) Q E
  validated-Ends {Q} h b c q e = by_problem (binding_problem h b)
    where
      by_problem : (o : Option String) → Ends (no_problem o c) Q E
      by_problem none = pure-Ends tt c q
      by_problem (some code) = raise-Ends code c (e code)

-- A block that ends with a `raise` does not end normally.
pub refusal-Ends :
    {A : Type 0} {Q : A → Conn → Type 0} (m : Tx (Unit {0})) (code : String) (c : Conn)
    → Ends ((m >> raise code) c) Q (λ _ _. Unit {0})
unfolding ◌>>◌ ◌>>=◌ raise
refusal-Ends {A} {Q} m code c = next (m c)
  where
    next :
        (r : Result (Unit {0}) × Conn)
        → Ends (continue r.0 (λ _. raise {A = A} code) r.1) Q (λ _ _. Unit {0})
    next (ok a, c') = record { outcome = tt }
    next (err e, c') = record { outcome = tt }

-- What holds of the result of a transaction.
abbrev pub ByResult :
    {A : Type 0} → Result A × Db → (A → Db → Type 0) → (String → Db → Type 0) → Type 0
ByResult (ok a, db) Q E = Q a db
ByResult (err code, db) Q E = E code db

abbrev pub fresh : Db → Conn
fresh db = record { durable = db; working = db }

pub transaction-Ends :
    {A : Type 0} (Q : A → Db → Type 0) (E : String → Db → Type 0) (m : Tx A) (db : Db)
    → Ends (m (fresh db)) (λ a c. Q a c.working) (λ code c. E code c.durable)
    → ByResult (transaction m db) Q E
unfolding transaction
transaction-Ends {A} Q E m db e = end (m (fresh db)) e
  where
    end :
        (r : Result A × Conn)
        → Ends r (λ a c. Q a c.working) (λ code c. E code c.durable)
        → ByResult (r.0, settle r.0 r.1) Q E
    end (ok a, c) k = k.outcome
    end (err code, c) k = k.outcome

-- A transaction that cannot end normally ends with an exception and its own start.
pub refused :
    {A : Type 0} (db : Db) (r : Result A × Db)
    → ByResult r (λ _ _. ⊥) (λ _ db'. db' ≡ db)
    → (code : String) × (r ≡ (err code, db))
refused db (ok a, db') bottom = absurd bottom
refused db (err code, db') same = (code, ap (λ d. (err code, d)) same)
