-- ===== src/Canary/Tx.antt =====
-- `with self._connection() as conn:` of app/storage.py. The block works on a copy of the database; its
-- normal end commits the copy, an exception rolls back to the last commit.
use codex_gate.Prelude.{String, Bool, true, false, Option, none, some}
pub use codex_gate.Prelude.{Result, ok, err}
use codex_gate.Canary.Rows.{Db}

pub record Conn : Type 0 where
  pub durable : Db
  pub working : Db

abbrev pub Tx : Type 0 → Type 0
Tx A = Conn → Result A × Conn

abbrev pub continue : {A B : Type 0} → Result A → (A → Tx B) → Tx B
continue (ok a) f c = f a c
continue (err code) f c = (err code, c)

infixl 5 ◌>>=◌ ◌>>◌
unfoldable pub ◌>>=◌ : {A B : Type 0} → Tx A → (A → Tx B) → Tx B
◌>>=◌ m f c = let (r, c') = m c in continue r f c'

unfoldable pub ◌>>◌ : {B : Type 0} → Tx (Unit {0}) → Tx B → Tx B
unfolding ◌>>=◌
m >> n = m >>= λ _. n

unfoldable pub pure : {A : Type 0} → A → Tx A
pure a c = (ok a, c)

unfoldable pub raise : {A : Type 0} → String → Tx A
raise code c = (err code, c)

-- `if not test: raise PolicyError(code)`.
unfoldable pub require : Bool → String → Tx (Unit {0})
require true code c = (ok tt, c)
require false code c = (err code, c)

-- `if not row: raise PolicyError(code)`.
unfoldable pub found : {A : Type 0} → Option A → String → Tx A
found none code c = (err code, c)
found (some a) code c = (ok a, c)

unfoldable pub get : Tx Db
get c = (ok c.working, c)

unfoldable pub modify : (Db → Db) → Tx (Unit {0})
modify f c = (ok tt, record c { working = f c.working })

-- `conn.commit()`.
unfoldable pub commit : Tx (Unit {0})
commit c = (ok tt, record c { durable = c.working })

abbrev pub settle : {A : Type 0} → Result A → Conn → Db
settle (ok a) c = c.working
settle (err code) c = c.durable

unfoldable pub transaction : {A : Type 0} → Tx A → Db → Result A × Db
transaction m db = let (r, c) = m (record { durable = db; working = db }) in (r, settle r c)
