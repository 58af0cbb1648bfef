-- ===== src/Emergency/Steps.antt =====
-- What is proved of the calls of backend/app/emergency_stop.py.
use cresta.Base.{
  ℕ, ◌≡◌, refl, true, Option, none, some, List, [], ◌∷◌, Result, returns, ◌>>=◌, >>=-eq-returns,
  length, arith,
}
use cresta.Emergency.{
  Text, StopState, active, released, EmergencyStop, AuditLog, pause_entry_activated,
  pause_entry_released, Stops, StopError, Command, with_valid, validate, activate,
  activate_pause_entry, release, release_pause_entry, active_pause_entry, same_text, same_text_refl,
  is_key, emergency_stop_reason_invalid, idempotency_key_invalid,
}

with_valid_parts :
    (c : Command) (next : Text → Text → Result StopError (EmergencyStop × Stops))
    (r : EmergencyStop × Stops)
    → with_valid c next ≡ returns r
    → (reason : Text) × (key : Text) × (validate c.idempotency_key 16 128 idempotency_key_invalid
        ≡ returns key)
      × (next reason key ≡ returns r)
with_valid_parts c next r e =
    let (reason, _, rest) =
      >>=-eq-returns (validate c.command_reason 5 500 emergency_stop_reason_invalid)
        (λ reason.
          validate c.idempotency_key 16 128 idempotency_key_invalid >>= λ key. next reason key)
        e in
    let (key, valid, done) =
      >>=-eq-returns (validate c.idempotency_key 16 128 idempotency_key_invalid) (next reason)
        rest in
    (reason, key, valid, done)

activate_parts :
    (c : Command) (db : Stops) (r : EmergencyStop × Stops)
    → activate_pause_entry c db ≡ returns r
    → (reason : Text) × (key : Text) × (validate c.idempotency_key 16 128 idempotency_key_invalid
        ≡ returns key)
      × (activate c reason key db ≡ returns r)
unfolding activate_pause_entry
activate_parts c db r e = with_valid_parts c (λ reason key. activate c reason key db) r e

release_parts :
    (c : Command) (db : Stops) (r : EmergencyStop × Stops)
    → release_pause_entry c db ≡ returns r
    → (reason : Text) × (key : Text) × (validate c.idempotency_key 16 128 idempotency_key_invalid
        ≡ returns key)
      × (release c reason key db ≡ returns r)
unfolding release_pause_entry
release_parts c db r e = with_valid_parts c (λ reason key. release c reason key db) r e

-- the row that a successful activation leaves
activated_row :
    (c : Command) (reason key : Text) (db after : Stops) (stop : EmergencyStop)
    → activate c reason key db ≡ returns (stop, after)
    → (after.current ≡ some stop)
      × (stop.state ≡ active)
      × (same_text stop.activation_key key ≡ true)
unfolding activate
activated_row c reason key db after stop e = let same = same_text_refl key in ground arith

released_row :
    (c : Command) (reason key : Text) (db after : Stops) (stop : EmergencyStop)
    → release c reason key db ≡ returns (stop, after)
    → (after.current ≡ some stop) × (stop.state ≡ released) × (is_key stop.release_key key ≡ true)
unfolding release
released_row c reason key db after stop e = let same = same_text_refl key in ground arith

again :
    (c : Command) (reason key : Text) (db : Stops) (stop : EmergencyStop)
    → db.current ≡ some stop
    → stop.state ≡ active
    → same_text stop.activation_key key ≡ true
    → activate c reason key db ≡ returns (stop, db)
unfolding activate
again c reason key db stop row is same = ground arith

-- An activation that succeeded and is requested again with the same key, by any user and with any
-- valid reason, returns the same row and changes nothing.
pub activate_pause_entry-again :
    (c c' : Command) (db after : Stops) (stop : EmergencyStop) (reason : Text)
    → activate_pause_entry c db ≡ returns (stop, after)
    → c'.idempotency_key ≡ c.idempotency_key
    → validate c'.command_reason 5 500 emergency_stop_reason_invalid ≡ returns reason
    → activate_pause_entry c' after ≡ returns (stop, after)
unfolding activate_pause_entry
activate_pause_entry-again c c' db after stop reason e same valid =
    let (old, key, valid_key, done) = activate_parts c db (stop, after) e in
    let (row, is, same_key) = activated_row c old key db after stop done in
    rw (valid, same, valid_key) (again c' reason key after stop row is same_key)

paused :
    (db : Stops) (stop : EmergencyStop)
    → db.current ≡ some stop
    → stop.state ≡ active
    → active_pause_entry db ≡ some stop
unfolding active_pause_entry
paused db stop row is = ground arith

free :
    (db : Stops) (stop : EmergencyStop)
    → db.current ≡ some stop
    → stop.state ≡ released
    → active_pause_entry db ≡ none
unfolding active_pause_entry
free db stop row is = ground arith

-- After a successful activation entries are paused by the row that it returns, and after a
-- successful release that follows they are not paused.
pub active_pause_entry_after :
    (c c' : Command) (db after later : Stops) (stop stop' : EmergencyStop)
    → activate_pause_entry c db ≡ returns (stop, after)
    → release_pause_entry c' after ≡ returns (stop', later)
    → (active_pause_entry after ≡ some stop) × (active_pause_entry later ≡ none)
active_pause_entry_after c c' db after later stop stop' e e' =
    let (old, key, _, done) = activate_parts c db (stop, after) e in
    let (row, is, _) = activated_row c old key db after stop done in
    let (old', key', _, done') = release_parts c' after (stop', later) e' in
    let (row', is', _) = released_row c' old' key' after later stop' done' in
    (paused after stop row is, free later stop' row' is')

pub data Step : Stops → Stops → Type 0 where
  activation :
      (c : Command) (db after : Stops) (stop : EmergencyStop)
      → activate_pause_entry c db ≡ returns (stop, after)
      → Step db after
  releasing :
      (c : Command) (db after : Stops) (stop : EmergencyStop)
      → release_pause_entry c db ≡ returns (stop, after)
      → Step db after

abbrev pub no_stops : Stops
no_stops = record { current = none; audit = []; next_id = 0 }

pub data Reach : Stops → Type 0 where
  start : Reach no_stops
  next : {db after : Stops} → Reach db → Step db after → Reach after

-- Activations and releases take turns, the newest first, and the newest has led to the state.
abbrev pub IsHistory : StopState → List AuditLog → Type 0
IsHistory released [] = Unit
IsHistory active [] = ⊥
IsHistory active (a ∷ rest) = (a.action ≡ pause_entry_activated) × IsHistory released rest
IsHistory released (a ∷ rest) = (a.action ≡ pause_entry_released) × IsHistory active rest

-- the log tells the state and the version of the row
abbrev pub IsLogged : Option EmergencyStop → List AuditLog → Type 0
IsLogged none audit = audit ≡ []
IsLogged (some stop) audit = (stop.version ≡ length audit) × IsHistory stop.state audit

activate-IsLogged :
    (c : Command) (reason key : Text) (current : Option EmergencyStop) (audit : List AuditLog)
    (id : ℕ) (after : Stops) (stop : EmergencyStop)
    → activate c reason key (record { current = current; audit = audit; next_id = id })
      ≡ returns (stop, after)
    → IsLogged current audit
    → IsLogged after.current after.audit
unfolding activate
activate-IsLogged c reason key none audit id after stop e logged = ground arith
activate-IsLogged c reason key (some old) audit id after stop e logged = ground arith

release-IsLogged :
    (c : Command) (reason key : Text) (current : Option EmergencyStop) (audit : List AuditLog)
    (id : ℕ) (after : Stops) (stop : EmergencyStop)
    → release c reason key (record { current = current; audit = audit; next_id = id })
      ≡ returns (stop, after)
    → IsLogged current audit
    → IsLogged after.current after.audit
unfolding release
release-IsLogged c reason key none audit id after stop e logged = cc
release-IsLogged c reason key (some old) audit id after stop e logged = ground arith

Step-IsLogged :
    (db after : Stops)
    → Step db after
    → IsLogged db.current db.audit
    → IsLogged after.current after.audit
Step-IsLogged db after (Step.activation c _ _ stop e) logged =
    let (reason, key, _, done) = activate_parts c db (stop, after) e in
    activate-IsLogged c reason key db.current db.audit db.next_id after stop done logged
Step-IsLogged db after (Step.releasing c _ _ stop e) logged =
    let (reason, key, _, done) = release_parts c db (stop, after) e in
    release-IsLogged c reason key db.current db.audit db.next_id after stop done logged

-- In every state that successful calls lead to from no rows, the audit log is empty while there is
-- no row; then it has as many entries as the row's version says, activations and releases take
-- turns in it, beginning with an activation, and the newest entry is the one that led to the row's
-- state.
pub Reach-IsLogged : (db : Stops) → Reach db → IsLogged db.current db.audit
Reach-IsLogged _ Reach.start = refl
Reach-IsLogged _ (Reach.next {db = db} {after = after} r step) =
    Step-IsLogged db after step (Reach-IsLogged db r)
