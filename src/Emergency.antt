-- ===== src/Emergency.antt =====
-- The pause of entries: backend/app/emergency_stop.py. A text is the list of its code points; the
-- rows are those of the one account alias that the code uses.
pub mod Steps
mod Examples
use cresta.Base.{
  ℕ, suc, ◌+◌, ◌≤◌, ◌≡◌, ◌⊎◌, inl, inr, refl, sym, ap, Bool, true, false, not, ◌&&◌, ◌||◌, Option,
  none, some, List, [], ◌∷◌, Result, returns, raises, raise_if, ◌>>=◌, ◌>>◌, ltb, leb, ◌==◌,
  if◌then◌else◌, length, arith, ◌↔◌,
}

abbrev pub Text : Type 0
Text = List ℕ

-- the code points that `str.strip` removes
abbrev pub is_space : ℕ → Bool
is_space c =
    leb 9 c && leb c 13
    || (leb 28 c && leb c 32
        || (c == 133
            || (c == 160
                || (c == 5760
                    || (leb 8192 c && leb c 8202
                        || (c == 8232
                            || (c == 8233 || (c == 8239 || (c == 8287 || c == 12_288)))))))))

unfoldable pub strip_left : Text → Text
strip_left [] = []
strip_left (c ∷ cs) = if is_space c then strip_left cs else c ∷ cs

abbrev pub drop_space : ℕ → Text → Text
drop_space c [] = if is_space c then [] else c ∷ []
drop_space c (d ∷ ds) = c ∷ d ∷ ds

unfoldable pub strip_right : Text → Text
strip_right [] = []
strip_right (c ∷ cs) = drop_space c (strip_right cs)

-- `value.strip()`
unfoldable pub strip : Text → Text
unfolding strip_left strip_right
strip text = strip_right (strip_left text)

-- `==` of texts
unfoldable pub same_text : Text → Text → Bool
same_text [] [] = true
same_text [] (d ∷ ds) = false
same_text (c ∷ cs) [] = false
same_text (c ∷ cs) (d ∷ ds) = c == d && same_text cs ds

pub same_text_refl : (t : Text) → same_text t t ≡ true
unfolding same_text
same_text_refl [] = refl
same_text_refl (c ∷ cs) = ground (arith, same_text_refl cs)

pub data StopState : Type 0 where
  active released : StopState

-- `EmergencyStop`; its level is always PAUSE_ENTRY
pub record EmergencyStop : Type 0 where
  pub id : ℕ
  pub state : StopState
  pub reason : Text
  pub activation_key : Text
  pub release_key : Option Text
  pub activated_by : ℕ
  pub released_by : Option ℕ
  pub activated_at : ℕ
  pub released_at : Option ℕ
  pub version : ℕ

pub data AuditAction : Type 0 where
  pause_entry_activated pause_entry_released : AuditAction

-- the actor, the action and the target of an `AuditLog`
pub record AuditLog : Type 0 where
  pub actor_id : ℕ
  pub action : AuditAction
  pub target : ℕ

-- the row, if there is one, and the log, newest first; `next_id` is what `uuid7` returns next
pub record Stops : Type 0 where
  pub current : Option EmergencyStop
  pub audit : List AuditLog
  pub next_id : ℕ

pub data StopError : Type 0 where
  emergency_stop_reason_invalid idempotency_key_invalid : StopError
  emergency_stop_already_active emergency_stop_not_active : StopError

abbrev pub is_active : StopState → Bool
is_active active = true
is_active released = false

-- `active_pause_entry`
unfoldable pub active_pause_entry : Stops → Option EmergencyStop
active_pause_entry db = elim db.current [
  | none ↦ none
  | some stop ↦ if is_active stop.state then some stop else none
]

-- `_validate`
unfoldable pub validate : Text → ℕ → ℕ → StopError → Result StopError Text
validate value minimum maximum code =
    let normalized = strip value in
    if leb minimum (length normalized) && leb (length normalized) maximum
    then returns normalized
    else raises code

pub record Command : Type 0 where
  pub user : ℕ
  pub command_reason : Text
  pub idempotency_key : Text
  pub now : ℕ

-- the validations that both operations begin with
abbrev pub with_valid :
    Command
    → (Text → Text → Result StopError (EmergencyStop × Stops))
    → Result StopError (EmergencyStop × Stops)
with_valid c next = do
  reason ← validate c.command_reason 5 500 emergency_stop_reason_invalid
  key ← validate c.idempotency_key 16 128 idempotency_key_invalid
  next reason key

abbrev pub log : Command → AuditAction → EmergencyStop → List AuditLog → List AuditLog
log c action stop audit = (record { actor_id = c.user; action = action; target = stop.id }) ∷ audit

abbrev pub first_stop : Command → Text → Text → ℕ → EmergencyStop
first_stop c reason key id = record {
  id = id;
  state = active;
  reason = reason;
  activation_key = key;
  release_key = none;
  activated_by = c.user;
  released_by = none;
  activated_at = c.now;
  released_at = none;
  version = 1;
}

abbrev pub reactivated : Command → Text → Text → EmergencyStop → EmergencyStop
reactivated c reason key stop = record stop {
  state = active;
  reason = reason;
  activation_key = key;
  release_key = none;
  activated_by = c.user;
  activated_at = c.now;
  released_by = none;
  released_at = none;
  version = suc stop.version;
}

abbrev pub save : Command → AuditAction → EmergencyStop → Stops → EmergencyStop × Stops
save c action stop db =
    (stop, record db { current = some stop; audit = log c action stop db.audit })

-- `activate_pause_entry` after its validations
unfoldable pub activate : Command → Text → Text → Stops → Result StopError (EmergencyStop × Stops)
activate c reason key db = elim db.current [
  | none ↦ returns (
      save c pause_entry_activated (first_stop c reason key db.next_id)
        (record db { next_id = suc db.next_id }))
  | some stop ↦
      if is_active stop.state
      then if same_text stop.activation_key key
        then returns (stop, db)
        else raises emergency_stop_already_active
      else returns (save c pause_entry_activated (reactivated c reason key stop) db)
]

unfoldable pub activate_pause_entry : Command → Stops → Result StopError (EmergencyStop × Stops)
unfolding validate activate
activate_pause_entry c db = with_valid c (λ reason key. activate c reason key db)

abbrev pub is_key : Option Text → Text → Bool
is_key none key = false
is_key (some old) key = same_text old key

abbrev pub released_stop : Command → Text → Text → EmergencyStop → EmergencyStop
released_stop c reason key stop = record stop {
  state = released;
  reason = reason;
  release_key = some key;
  released_by = some c.user;
  released_at = some c.now;
  version = suc stop.version;
}

-- `release_pause_entry` after its validations
unfoldable pub release : Command → Text → Text → Stops → Result StopError (EmergencyStop × Stops)
release c reason key db = elim db.current [
  | none ↦ raises emergency_stop_not_active
  | some stop ↦
      if not (is_active stop.state)
      then if is_key stop.release_key key
        then returns (stop, db)
        else raises emergency_stop_not_active
      else returns (save c pause_entry_released (released_stop c reason key stop) db)
]

unfoldable pub release_pause_entry : Command → Stops → Result StopError (EmergencyStop × Stops)
unfolding validate release
release_pause_entry c db = with_valid c (λ reason key. release c reason key db)
