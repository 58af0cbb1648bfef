-- ===== src/Lease/Holding.antt =====
-- A lease that runs is exclusive; a free one is granted; a released one shows as stopped
-- (backend/app/broker/worker_state.py).
use cresta.Base.{
  ℕ, ◌+◌, ◌≤◌, ◌≡◌, ◌≢◌, ◌⊎◌, inl, inr, refl, sym, ap, ◌∙◌, Bool, true, false, not, ◌&&◌, Option,
  none, some, String, str_eq, str_eq_iff, str_eq_refl, ltb, arith, if◌then◌else◌, Bool-cases,
}
use cresta.Lease.{
  Lease, Gate, new_lease, LeaseIdentity, Worker, Rows, identity_of, acquire_lease, release_lease,
  lease_is_current, is_held_by, seconds, get_broker_status, worker_status, is_valid_lease,
}
use cresta.Lease.Fencing.{IsRefused, not_held-IsRefused, rows_of}

other_holder :
    (l : Lease) (i j : LeaseIdentity) → is_held_by l i ≡ true → j ≢ i → is_held_by l j ≡ false
other_holder l i j held other = elim (Bool-cases (is_held_by l j)) [
  | inl both ↦
      let same_i = (str_eq_iff l.owner_id i.holder).0 (ground arith) in
      let same_j = (str_eq_iff l.owner_id j.holder).0 (ground arith) in
      absurd (other (ground arith))
  | inr foreign ↦ foreign
]

owner_differs :
    (held owner holder : String) → held ≡ holder → owner ≢ holder → str_eq held owner ≡ false
owner_differs held owner holder same other = elim (Bool-cases (str_eq held owner)) [
  | inl e ↦ absurd (other (sym ((str_eq_iff held owner).0 e) ∙ same))
  | inr e ↦ e
]

exclusive :
    (l : Option Lease) (w : Option Worker) (g : Option Gate) (i : LeaseIdentity) (now : ℕ)
    → lease_is_current (rows_of l w g) i now ≡ true
    → ((raced : Option Lease) (owner : String) (lease_seconds : ℕ)
        → owner ≢ i.holder
        → acquire_lease (rows_of l w g) raced owner lease_seconds now ≡ (none, rows_of l w g))
      × ((j : LeaseIdentity) → j ≢ i → IsRefused (rows_of l w g) j)
unfolding lease_is_current acquire_lease
exclusive none w g i now current = cc
exclusive (some l) w g i now current =
    let held : is_held_by l i ≡ true = ground arith in
    let same = (str_eq_iff l.owner_id i.holder).0 (ground arith) in
    (
      λ raced owner secs other.
          let different = owner_differs l.owner_id owner i.holder same other in ground arith,
      λ j other. not_held-IsRefused l w g j (other_holder l i j held other),
    )

-- While an identity is current, no other owner acquires the lease and no other identity renews,
-- updates or releases: each such call is refused and changes no row.
pub current_exclusive :
    (rows : Rows) (i j : LeaseIdentity) (now : ℕ) (raced : Option Lease) (owner : String)
    (lease_seconds : ℕ)
    → lease_is_current rows i now ≡ true
    → owner ≢ i.holder
    → j ≢ i
    → (acquire_lease rows raced owner lease_seconds now ≡ (none, rows)) × IsRefused rows j
current_exclusive rows i j now raced owner lease_seconds current other foreign =
    let (no_acquisition, refused) = exclusive rows.lease rows.worker rows.gate i now current in
    (no_acquisition raced owner lease_seconds other, refused j foreign)

-- the lease is absent, has expired or belongs to the owner itself
abbrev pub IsFree : Option Lease → String → ℕ → Type 0
IsFree none owner now = Unit
IsFree (some l) owner now = (l.expires_at ≤ now) ⊎ (l.owner_id ≡ owner)

own_current :
    (rows : Rows) (l : Lease) (t : ℕ)
    → lease_is_current (record rows { lease = some l }) (identity_of l) t ≡ ltb t l.expires_at
unfolding lease_is_current
own_current rows l t = rw (str_eq_refl l.owner_id) (ground arith)

grants :
    (l : Option Lease) (w : Option Worker) (g : Option Gate) (owner : String) (secs now : ℕ)
    → IsFree l owner now
    → acquire_lease (rows_of l w g) none owner secs now ≡ (
      some (identity_of (new_lease l owner secs now)),
      rows_of (some (new_lease l owner secs now)) w g,
    )
unfolding acquire_lease
grants none w g owner secs now free = refl
grants (some l) w g owner secs now (inl expired) = ground arith
grants (some l) w g owner secs now (inr own) =
    let same = (str_eq_iff l.owner_id owner).1 own in ground arith

new_lease_fields :
    (l : Option Lease) (owner : String) (secs now : ℕ)
    → ((new_lease l owner secs now).owner_id ≡ owner)
      × ((new_lease l owner secs now).expires_at ≡ now + seconds secs)
new_lease_fields none owner secs now = (refl, refl)
new_lease_fields (some l) owner secs now = (refl, refl)

-- If the lease is absent, has expired or belongs to the owner itself, and no other session
-- inserts the first row meanwhile, the owner is granted an identity of its own; that is current
-- exactly until `lease_seconds` have passed, if no further call is made, and the rows of the worker
-- and the gate stay.
pub acquire_lease_grants :
    (rows : Rows) (owner : String) (lease_seconds now t : ℕ)
    → IsFree rows.lease owner now
    → (i : LeaseIdentity) × (after : Rows) × (acquire_lease rows none owner lease_seconds now
        ≡ (some i, after))
      × (i.holder ≡ owner)
      × (lease_is_current after i t ≡ ltb t (now + seconds lease_seconds))
      × (after.worker ≡ rows.worker)
      × (after.gate ≡ rows.gate)
acquire_lease_grants rows owner secs now t free =
    let l = new_lease rows.lease owner secs now in
    let (own, until) = new_lease_fields rows.lease owner secs now in
    (
      _,
      _,
      grants rows.lease rows.worker rows.gate owner secs now free,
      own,
      own_current rows l t ∙ ap (ltb t) until,
      refl,
      refl,
    )

-- The states that the status shows of a worker without a lease.
abbrev pub IsIdle : String → Type 0
IsIdle state = (state ≡ "NOT_STARTED") ⊎ ((state ≡ "STOPPED") ⊎ (state ≡ "STALE"))

shown-IsIdle :
    (state : String) (stopped : Bool)
    → str_eq state "STOPPED" ≡ stopped
    → IsIdle (if true && not stopped then "STALE" else state)
shown-IsIdle state true e = inr (inl ((str_eq_iff state "STOPPED").0 e))
shown-IsIdle state false e = inr (inr refl)

idle :
    (w : Option Worker) (g : Option Gate)
    → ((worker_status w g false).lease_valid ≡ false)
      × IsIdle (worker_status w g false).shown_state
      × ((worker_status w g false).shown_connected ≡ false)
      × ((worker_status w g false).shown_ready ≡ false)
idle none g = (refl, inl refl, refl, refl)
idle (some w) g =
    (refl, shown-IsIdle w.state (str_eq w.state "STOPPED") refl, ground arith, ground arith)

expired_after_release :
    (l : Option Lease) (w : Option Worker) (g : Option Gate) (i : LeaseIdentity) (now t : ℕ)
    (after : Rows)
    → release_lease (rows_of l w g) i now ≡ (true, after)
    → now ≤ t
    → is_valid_lease after.lease t ≡ false
unfolding release_lease
expired_after_release none w g i now t after e le = cc
expired_after_release (some l) w g i now t after e le = ground arith

-- After a release that succeeds, the status at any later time, if no further call is made, shows
-- an invalid lease, no connection, no subscriptions, and the state NOT_STARTED, STOPPED or STALE.
pub release_lease-status :
    (rows : Rows) (i : LeaseIdentity) (now t : ℕ) (after : Rows)
    → release_lease rows i now ≡ (true, after)
    → now ≤ t
    → ((get_broker_status after t).lease_valid ≡ false)
      × IsIdle (get_broker_status after t).shown_state
      × ((get_broker_status after t).shown_connected ≡ false)
      × ((get_broker_status after t).shown_ready ≡ false)
unfolding get_broker_status
release_lease-status rows i now t after e le =
    rw (expired_after_release rows.lease rows.worker rows.gate i now t after e le)
      (idle after.worker after.gate)
