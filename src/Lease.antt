-- ===== src/Lease.antt =====
-- The lease of the broker worker: backend/app/broker/worker_state.py. Times are microseconds; the
-- rows are those of the one account alias that the code uses.
pub mod Steps
pub mod Fencing
pub mod Holding
mod Examples
use cresta.Base.{
  ℕ, suc, ◌+◌, ◌*◌, ◌≡◌, Bool, true, false, not, ◌&&◌, ◌||◌, Option, none, some, String, str_eq,
  ltb, leb, ◌==◌, if◌then◌else◌,
}

pub record Lease : Type 0 where
  pub owner_id : String
  pub fencing_token : ℕ
  pub expires_at : ℕ
  pub version : ℕ
  pub updated_at : ℕ

pub record LeaseIdentity : Type 0 where
  pub holder : String
  pub token : ℕ

-- `BrokerWorkerState` but for its constant environment
pub record Worker : Type 0 where
  pub state : String
  pub worker_token : ℕ
  pub websocket_connected : Bool
  pub subscriptions_ready : Bool
  pub last_heartbeat_at : ℕ
  pub last_reconciliation_at : Option ℕ
  pub last_reconciliation_run_id : Option String
  pub last_error_code : Option String
  pub started_at : ℕ
  pub worker_updated_at : ℕ

pub record Gate : Type 0 where
  pub gate_status : String
  pub gate_reason : Option String
  pub gate_version : ℕ

pub record Rows : Type 0 where
  pub lease : Option Lease
  pub worker : Option Worker
  pub gate : Option Gate

abbrev pub seconds : ℕ → ℕ
seconds n = n * 1_000_000

-- whether the lease of a row belongs to the identity
abbrev pub is_held_by : Lease → LeaseIdentity → Bool
is_held_by l i = str_eq l.owner_id i.holder && l.fencing_token == i.token

-- `lease_is_current`
unfoldable pub lease_is_current : Rows → LeaseIdentity → ℕ → Bool
lease_is_current db i now = elim db.lease [
  | none ↦ false
  | some l ↦ is_held_by l i && ltb now l.expires_at
]

abbrev pub identity_of : Lease → LeaseIdentity
identity_of l = record { holder = l.owner_id; token = l.fencing_token }

abbrev pub first_lease : String → ℕ → ℕ → Lease
first_lease owner lease_seconds now = record {
  owner_id = owner;
  fencing_token = 1;
  expires_at = now + seconds lease_seconds;
  version = 1;
  updated_at = now;
}

abbrev pub next_lease : Lease → String → ℕ → ℕ → Lease
next_lease l owner lease_seconds now = record {
  owner_id = owner;
  fencing_token = suc l.fencing_token;
  expires_at = now + seconds lease_seconds;
  version = suc l.version;
  updated_at = now;
}

-- the lease that a successful acquisition writes
abbrev pub new_lease : Option Lease → String → ℕ → ℕ → Lease
new_lease none owner lease_seconds now = first_lease owner lease_seconds now
new_lease (some l) owner lease_seconds now = next_lease l owner lease_seconds now

abbrev pub granted : Rows → Lease → Option LeaseIdentity × Rows
granted db l = (some (identity_of l), record db { lease = some l })

-- the insert of the first row, which fails on the row that another session has inserted meanwhile
abbrev pub insert_lease : Rows → Option Lease → Lease → Option LeaseIdentity × Rows
insert_lease db none l = granted db l
insert_lease db (some other) l = (none, record db { lease = some other })

-- `acquire_lease`. A row that is found stays locked; `raced` is the row that another session
-- inserts before this one commits, if there was none.
unfoldable pub acquire_lease : Rows → Option Lease → String → ℕ → ℕ → Option LeaseIdentity × Rows
acquire_lease db raced owner lease_seconds now = elim db.lease [
  | none ↦ insert_lease db raced (new_lease none owner lease_seconds now)
  | some l ↦
      if ltb now l.expires_at && not (str_eq l.owner_id owner)
      then (none, db)
      else granted db (new_lease (some l) owner lease_seconds now)
]

abbrev pub extended : Lease → ℕ → ℕ → Lease
extended l lease_seconds now = record l {
  expires_at = now + seconds lease_seconds;
  version = suc l.version;
  updated_at = now;
}

-- the heartbeat of the worker that has the token
abbrev pub heartbeat : Option Worker → ℕ → ℕ → Option Worker
heartbeat none token now = none
heartbeat (some w) token now =
    if w.worker_token == token then some (record w { last_heartbeat_at = now }) else some w

-- `renew_lease`
unfoldable pub renew_lease : Rows → LeaseIdentity → ℕ → ℕ → Bool × Rows
renew_lease db i lease_seconds now = elim db.lease [
  | none ↦ (false, db)
  | some l ↦ if not (is_held_by l i) || leb l.expires_at now then (false, db) else (
    true,
    record db {
      lease = some (extended l lease_seconds now);
      worker = heartbeat db.worker i.token now;
    },
  )
]

-- the arguments of `update_worker_state`
pub record Update : Type 0 where
  pub state_name : String
  pub connected : Bool
  pub ready : Bool
  pub new_gate_status : Option String
  pub new_gate_reason : Option String
  pub error_code : Option String
  pub reconciliation_run_id : Option String

abbrev pub reconciled_at : Option String → Option ℕ → ℕ → Option ℕ
reconciled_at none old now = old
reconciled_at (some run) old now = some now

abbrev pub reconciled_run : Option String → Option String → Option String
reconciled_run none old = old
reconciled_run (some run) old = some run

abbrev pub started : Option Worker → ℕ → ℕ
started none now = now
started (some w) now = w.started_at

abbrev pub old_run : Option Worker → Option String
old_run none = none
old_run (some w) = w.last_reconciliation_run_id

abbrev pub old_reconciliation : Option Worker → Option ℕ
old_reconciliation none = none
old_reconciliation (some w) = w.last_reconciliation_at

-- the row that the update leaves, new or changed
abbrev pub updated_worker : Option Worker → LeaseIdentity → Update → ℕ → Worker
updated_worker w i u now = record {
  state = u.state_name;
  worker_token = i.token;
  websocket_connected = u.connected;
  subscriptions_ready = u.ready;
  last_heartbeat_at = now;
  last_reconciliation_at = reconciled_at u.reconciliation_run_id (old_reconciliation w) now;
  last_reconciliation_run_id = reconciled_run u.reconciliation_run_id (old_run w);
  last_error_code = u.error_code;
  started_at = started w now;
  worker_updated_at = now;
}

abbrev pub updated_gate : Option Gate → Option String → Option String → Option Gate
updated_gate g none reason = g
updated_gate none (some status) reason =
    some (record { gate_status = status; gate_reason = reason; gate_version = 1 })
updated_gate (some g) (some status) reason =
    some (record { gate_status = status; gate_reason = reason; gate_version = suc g.gate_version })

-- `update_worker_state`
unfoldable pub update_worker_state : Rows → LeaseIdentity → Update → ℕ → Bool × Rows
update_worker_state db i u now = elim db.lease [
  | none ↦ (false, db)
  | some l ↦ if not (is_held_by l i) || leb l.expires_at now then (false, db) else (
    true,
    record db {
      worker = some (updated_worker db.worker i u now);
      gate = updated_gate db.gate u.new_gate_status u.new_gate_reason;
    },
  )
]

abbrev pub stopped : Worker → ℕ → Worker
stopped w now = record w {
  state = "STOPPED";
  websocket_connected = false;
  subscriptions_ready = false;
  last_heartbeat_at = now;
  worker_updated_at = now;
}

abbrev pub stop_worker : Option Worker → ℕ → ℕ → Option Worker
stop_worker none token now = none
stop_worker (some w) token now = if w.worker_token == token then some (stopped w now) else some w

-- `release_lease`
unfoldable pub release_lease : Rows → LeaseIdentity → ℕ → Bool × Rows
release_lease db i now = elim db.lease [
  | none ↦ (false, db)
  | some l ↦ if not (is_held_by l i) then (false, db) else (
    true,
    record db { lease = some (extended l 0 now); worker = stop_worker db.worker i.token now },
  )
]

pub record BrokerStatus : Type 0 where
  pub shown_state : String
  pub shown_gate : Option Gate
  pub shown_token : Option ℕ
  pub lease_valid : Bool
  pub shown_connected : Bool
  pub shown_ready : Bool

abbrev pub is_valid_lease : Option Lease → ℕ → Bool
is_valid_lease none now = false
is_valid_lease (some l) now = ltb now l.expires_at

-- the fields that depend on the worker's row, given whether the lease is valid
abbrev pub worker_status : Option Worker → Option Gate → Bool → BrokerStatus
worker_status none gate valid = record {
  shown_state = "NOT_STARTED";
  shown_gate = gate;
  shown_token = none;
  lease_valid = valid;
  shown_connected = false;
  shown_ready = false;
}
worker_status (some w) gate valid = record {
  shown_state = if not valid && not (str_eq w.state "STOPPED") then "STALE" else w.state;
  shown_gate = gate;
  shown_token = some w.worker_token;
  lease_valid = valid;
  shown_connected = w.websocket_connected && valid;
  shown_ready = w.subscriptions_ready && valid;
}

-- `get_broker_status`, but for the times and codes that it copies
unfoldable pub get_broker_status : Rows → ℕ → BrokerStatus
get_broker_status db now = worker_status db.worker db.gate (is_valid_lease db.lease now)
