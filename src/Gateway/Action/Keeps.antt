-- ===== src/Gateway/Action/Keeps.antt =====
-- What an action does to every session: a predicate on the run that it keeps, or that it establishes
-- whatever held before. Both speak of an action that raises too.
use codex_gate.Prelude.{String, Bool, true, false, List, [], ◌∷◌, ◌++◌, Result, ok, err}
use codex_gate.Gateway.Run.{Run}
use codex_gate.Gateway.Action.{
  Effect, Session, Action, continue, ◌>>=◌, ◌>>◌, done, pure, raise, reraise, attempt, finally, get,
  modify, note, call, call_with, catch, when, publish, persist, handle_error, append_event,
  save_task, record_ledger_run,
}

abbrev pub with_events : List String → Session → Session
with_events xs s = record s { run = record s.run { events = xs } }

module _ (P : Session → Type 0) where
  unfoldable pub Keeps : {A : Type 0} → Action A → Type 0
  Keeps m = (s : Session) → P s → P (m s).1

  unfoldable pub Establishes : {A : Type 0} → Action A → Type 0
  Establishes m = (s : Session) → P (m s).1

  continue-Keeps :
      {A B : Type 0} (k : A → Action B)
      → ((a : A) (s : Session) → P s → P (k a s).1)
      → (r : Result A) (s : Session) → P s
      → P (continue r k s).1
  continue-Keeps k next (ok a) s q = next a s q
  continue-Keeps k next (err e) s q = q

  pub then-Keeps :
      {A B : Type 0} (m : Action A) (k : A → Action B)
      → Keeps m
      → ((a : A) → Keeps (k a))
      → Keeps (m >>= k)
  unfolding Keeps ◌>>=◌
  then-Keeps m k first next s p = continue-Keeps k next (m s).0 (m s).1 (first s p)

  pub then-Establishes :
      {A B : Type 0} (m : Action A) (k : A → Action B)
      → Establishes m
      → ((a : A) → Keeps (k a))
      → Establishes (m >>= k)
  unfolding Keeps Establishes ◌>>=◌
  then-Establishes m k first next s = continue-Keeps k next (m s).0 (m s).1 (first s)

  pub when-Keeps : (b : Bool) (m : Action (Unit {0})) → Keeps m → Keeps (when b m)
  unfolding Keeps when done
  when-Keeps true m keep s p = keep s p
  when-Keeps false m keep s p = p

  pub done-Keeps : Keeps done
  unfolding Keeps done
  done-Keeps s p = p

  pub pure-Keeps : {A : Type 0} (a : A) → Keeps (pure a)
  unfolding Keeps pure
  pure-Keeps a s p = p

  pub raise-Keeps : (A : Type 0) (e : String) → Keeps (raise {A = A} e)
  unfolding Keeps raise
  raise-Keeps A e s p = p

  pub reraise-Keeps : (r : Result (Unit {0})) → Keeps (reraise r)
  unfolding Keeps reraise
  reraise-Keeps r s p = p

  pub get-Keeps : Keeps get
  unfolding Keeps get
  get-Keeps s p = p

  -- What follows a read may use what was read.
  pub read-Keeps :
      {B : Type 0} (k : Run → Action B)
      → ((s : Session) → P s → P (k s.run s).1)
      → Keeps (get >>= k)
  unfolding Keeps get ◌>>=◌
  read-Keeps k next s p = next s p

  pub modify-Keeps :
      (f : Run → Run) → ((s : Session) → P s → P (record s { run = f s.run })) → Keeps (modify f)
  unfolding Keeps modify
  modify-Keeps f keep s p = keep s p

  pub attempt-Keeps : (m : Action (Unit {0})) → Keeps m → Keeps (attempt m)
  unfolding Keeps attempt
  attempt-Keeps m keep s p = keep s p

  pub finally-Keeps : (m n : Action (Unit {0})) → Keeps m → Keeps n → Keeps (finally m n)
  unfolding Keeps finally
  finally-Keeps m n first second s p = second (m s).1 (first s p)

  pub catch-Keeps : (m n : Action (Unit {0})) → Keeps m → Keeps n → Keeps (catch m n)
  unfolding Keeps catch
  catch-Keeps m n first second s p = by_result (m s).0 (m s).1 (first s p)
    where
      by_result : (r : Result (Unit {0})) (s' : Session) → P s' → P (handle_error r n s').1
      by_result (ok u) s' q = q
      by_result (err e) s' q = second s' q

  -- What is established is kept.
  pub Establishes-Keeps : {A : Type 0} (m : Action A) → Establishes m → Keeps m
  unfolding Keeps Establishes
  Establishes-Keeps m h s p = h s

  -- Steps that never raise may stand before what establishes.
  pub get-Establishes :
      {B : Type 0} (k : Run → Action B) → ((r : Run) → Establishes (k r)) → Establishes (get >>= k)
  unfolding Establishes get ◌>>=◌
  get-Establishes k next s = next s.run s

  pub modify-Establishes :
      {B : Type 0} (f : Run → Run) (m : Action B) → Establishes m → Establishes (modify f >> m)
  unfolding Establishes modify ◌>>=◌ ◌>>◌
  modify-Establishes f m next s = next (record s { run = f s.run })

  pub when-Establishes :
      {B : Type 0} (b : Bool) (f : Run → Run) (m : Action B)
      → Establishes m
      → Establishes (when b (modify f) >> m)
  unfolding Establishes modify when done ◌>>=◌ ◌>>◌
  when-Establishes true f m next s = next (record s { run = f s.run })
  when-Establishes false f m next s = next s

  -- An effect that may be added to the log, and a predicate that does not speak of the outcomes to come.
  pub record IsQuiet (e : Effect) : Type 0 where
    pub outcome : (s : Session) (rest : List Bool) → P s → P (record s { outcomes = rest })
    pub logged : (s : Session) → P s → P (record s { log = s.log ++ e ∷ [] })

  pub note-Keeps : (e : Effect) → IsQuiet e → Keeps (note e)
  unfolding Keeps note
  note-Keeps e q s p = q.logged s p

  pub call-Keeps : (e : Effect) → IsQuiet e → Keeps (call e)
  unfolding Keeps call
  call-Keeps e q s p = by_outcome s.outcomes
    where
      by_outcome : (outcomes : List Bool) → P (call_with outcomes e s).1
      by_outcome [] = q.logged s p
      by_outcome (true ∷ rest) = q.logged (record s { outcomes = rest }) (q.outcome s rest p)
      by_outcome (false ∷ rest) = q.outcome s rest p

  -- A predicate that does not speak of the events either.
  module _ (free : (s : Session) (xs : List String) → P s → P (with_events xs s)) where
    pub publish-Keeps : (detail : String) → Keeps (publish detail)
    unfolding publish
    publish-Keeps detail = modify-Keeps _ λ s. free s _

    pub persist-Keeps :
        ((r : Run) → IsQuiet (save_task r))
        → ((id : String) → IsQuiet (record_ledger_run id))
        → Keeps persist
    unfolding persist ◌>>◌ append_event
    persist-Keeps saved recorded = then-Keeps get _ get-Keeps λ r.
        then-Keeps (call (save_task r)) _ (call-Keeps _ (saved r)) λ _.
          catch-Keeps (call (record_ledger_run r.id)) _ (call-Keeps _ (recorded r.id))
            (modify-Keeps (append_event "Token ledger warning") λ s. free s _)

-- A predicate on the run alone.
module _ (P : Run → Type 0) where
  abbrev pub OnRun : Session → Type 0
  OnRun s = P s.run

  quiet : (e : Effect) → IsQuiet OnRun e
  quiet e = record { outcome = λ s rest p. p; logged = λ s p. p }

  pub run_note-Keeps : (e : Effect) → Keeps OnRun (note e)
  run_note-Keeps e = note-Keeps OnRun e (quiet e)

  pub run_call-Keeps : (e : Effect) → Keeps OnRun (call e)
  run_call-Keeps e = call-Keeps OnRun e (quiet e)

  pub run_modify-Keeps : (f : Run → Run) → ((r : Run) → P r → P (f r)) → Keeps OnRun (modify f)
  run_modify-Keeps f keep = modify-Keeps OnRun f λ s. keep s.run

  module _ (free : (r : Run) (xs : List String) → P r → P (record r { events = xs })) where
    pub run_publish-Keeps : (detail : String) → Keeps OnRun (publish detail)
    run_publish-Keeps = publish-Keeps OnRun λ s. free s.run

    pub run_persist-Keeps : Keeps OnRun persist
    run_persist-Keeps =
        persist-Keeps OnRun (λ s. free s.run) (λ r. quiet (save_task r))
          λ id. quiet (record_ledger_run id)
