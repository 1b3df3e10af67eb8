-- ===== src/Gateway/Action.antt =====
-- What a handler of the gate does to one run: state, exceptions, and the calls to the app server and the
-- store (app/gateway.py). What a handler wrote stays written when it raises.
pub mod Keeps
use Prim.Native.String.{◌++◌ as join}
use codex_gate.Prelude.{
  ℕ, ◌-◌, zero, suc, String, Bool, true, false, Option, none, some, List, [], ◌∷◌, ◌++◌, length,
  if◌then◌else◌, Result, ok, err,
}
use codex_gate.Gateway.Run.{Response, Run, can_interrupt}

-- A call that returned.
pub data Effect : Type 0 where
  interrupt_turn : Option String → Option String → Effect
  unsubscribe : Option String → Effect
  respond : String → Response → Effect
  save_task : Run → Effect
  record_ledger_run : String → Effect
  write_artifact : String → Effect
  use_plan : Option String → Effect

-- `outcomes` says of each call that can raise, in order, whether it returns; a call after the last
-- outcome returns.
pub record Session : Type 0 where
  pub run : Run
  pub outcomes : List Bool
  pub log : List Effect

abbrev pub Action : Type 0 → Type 0
Action A = Session → Result A × Session

abbrev pub continue : {A B : Type 0} → Result A → (A → Action B) → Action B
continue (ok a) f s = f a s
continue (err e) f s = (err e, s)

infixl 5 ◌>>=◌ ◌>>◌
unfoldable pub ◌>>=◌ : {A B : Type 0} → Action A → (A → Action B) → Action B
◌>>=◌ m f s = let (r, s') = m s in continue r f s'

unfoldable pub ◌>>◌ : {B : Type 0} → Action (Unit {0}) → Action B → Action B
unfolding ◌>>=◌
m >> n = m >>= λ _. n

unfoldable pub done : Action (Unit {0})
done s = (ok tt, s)

unfoldable pub pure : {A : Type 0} → A → Action A
pure a s = (ok a, s)

unfoldable pub raise : {A : Type 0} → String → Action A
raise e s = (err e, s)

unfoldable pub get : Action Run
get s = (ok s.run, s)

unfoldable pub modify : (Run → Run) → Action (Unit {0})
modify f s = (ok tt, record s { run = f s.run })

unfoldable pub note : Effect → Action (Unit {0})
note e s = (ok tt, record s { log = s.log ++ e ∷ [] })

abbrev pub call_with : List Bool → Effect → Session → Result (Unit {0}) × Session
call_with [] e s = (ok tt, record s { log = s.log ++ e ∷ [] })
call_with (true ∷ rest) e s = (ok tt, record s { log = s.log ++ e ∷ []; outcomes = rest })
call_with (false ∷ rest) e s = (err "call failed", record s { outcomes = rest })

-- `await self.client...`, or a call of the store that can raise.
unfoldable pub call : Effect → Action (Unit {0})
call e s = call_with s.outcomes e s

abbrev pub handle_error : Result (Unit {0}) → Action (Unit {0}) → Action (Unit {0})
handle_error (ok u) handler s = (ok tt, s)
handle_error (err e) handler s = handler s

abbrev pub first_error : Result (Unit {0}) → Result (Unit {0}) → Result (Unit {0})
first_error r (err e) = err e
first_error r (ok u) = r

-- `try: m finally: n`.
unfoldable pub finally : Action (Unit {0}) → Action (Unit {0}) → Action (Unit {0})
finally m n s = let (r, s') = m s in let (q, s'') = n s' in (first_error r q, s'')

-- `try: m except Exception as exc: error = exc`.
unfoldable pub attempt : Action (Unit {0}) → Action (Result (Unit {0}))
attempt m s = let (r, s') = m s in (ok r, s')

-- `if error is not None: raise error`.
unfoldable pub reraise : Result (Unit {0}) → Action (Unit {0})
reraise r s = (r, s)

-- `try: m except Exception: handler`.
unfoldable pub catch : Action (Unit {0}) → Action (Unit {0}) → Action (Unit {0})
catch m handler s = let (r, s') = m s in handle_error r handler s'

unfoldable pub drop : {A : Type 0} → ℕ → List A → List A
drop zero xs = xs
drop (suc n) [] = []
drop (suc n) (x ∷ xs) = drop n xs

-- `run.events.append(detail)`.
unfoldable pub append_event : String → Run → Run
append_event detail r = record r { events = r.events ++ detail ∷ [] }

-- `del events[:-80]`.
unfoldable pub trim : List String → List String
trim xs = drop (length xs - 80) xs

unfoldable pub publish : String → Action (Unit {0})
publish detail = modify (λ r. record r { events = trim (r.events ++ detail ∷ []) })

unfoldable pub persist : Action (Unit {0})
persist = do
  r ← get
  call (save_task r)
  catch (call (record_ledger_run r.id)) (modify (append_event "Token ledger warning"))

unfoldable pub mark_interrupting : String → Run → Run
mark_interrupting reason r = record r { status = "interrupting"; stop_reason = some reason }

unfoldable pub when : Bool → Action (Unit {0}) → Action (Unit {0})
when b m = if b then m else done

unfoldable pub interrupt : String → Action (Unit {0})
interrupt reason = do
  r ← get
  when (can_interrupt r) (do
    modify (mark_interrupting reason)
    call (interrupt_turn r.thread_id r.turn_id)
    publish (join "중단 요청: " reason))
