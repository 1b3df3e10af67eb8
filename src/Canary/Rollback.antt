-- ===== src/Canary/Rollback.antt =====
-- The calls of app/storage.py that write a refusal and then raise inside their `with` block, when the
-- binding has changed.
use codex_gate.Prelude.{◌≡◌, true, ◌&&◌, not, String, some, find, is_some}
use codex_gate.Canary.Rows.{WindowRow, PermitRow, Binding, Db, is_armed}
use codex_gate.Canary.Binding.{Hashes, is_nonce}
use codex_gate.Canary.Windows.{window_nonce}
use codex_gate.Canary.Permits.{permit_nonce}

-- The nonce selects the permit `p`, which is ARMED and not consumed.
pub record IsPermitReady (h : Hashes) (text : String) (p : PermitRow) (db : Db) : Type 0 where
  pub nonce : is_nonce text ≡ true
  pub selected : find (permit_nonce (h.digest text)) db.permits ≡ some p
  pub unused : (is_armed p.status && not (is_some p.consumed_at)) ≡ true

pub record IsWindowReady (h : Hashes) (text : String) (w : WindowRow) (db : Db) : Type 0 where
  pub nonce : is_nonce text ≡ true
  pub selected : find (window_nonce (h.digest text)) db.windows ≡ some w
  pub unused : (is_armed w.status && not (is_some w.consumed_at)) ≡ true
