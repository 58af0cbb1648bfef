-- ===== src/Lease/Steps.antt =====
-- What the workers do to the rows of the lease, with the identities granted so far:
-- backend/app/broker/worker_state.py.
use cresta.Base.{ℕ, ◌≡◌, none, some, String, List, [], ◌∷◌}
use cresta.Lease.{
  LeaseIdentity, Rows, Update, identity_of, first_lease, acquire_lease, renew_lease,
  update_worker_state, release_lease,
}

pub record System : Type 0 where
  pub rows : Rows
  -- the newest first
  pub grants : List LeaseIdentity

abbrev pub new_system : System
new_system = record { rows = record { lease = none; worker = none; gate = none }; grants = [] }

abbrev pub after : System → Rows → System
after s rows = record s { rows = rows }

-- Any call of any worker, at any time.
pub data Step : System → System → Type 0 where
  acquire :
      (s : System) (owner : String) (lease_seconds now : ℕ) (i : LeaseIdentity) (rows : Rows)
      → acquire_lease s.rows none owner lease_seconds now ≡ (some i, rows)
      → Step s (record { rows = rows; grants = i ∷ s.grants })
  acquire_refused :
      (s : System) (owner : String) (lease_seconds now : ℕ) (rows : Rows)
      → acquire_lease s.rows none owner lease_seconds now ≡ (none, rows)
      → Step s (after s rows)
  -- two workers insert the first row; the one named `winner` is granted the lease
  acquire_raced :
      (s : System) (owner winner : String) (lease_seconds now winner_seconds winner_now : ℕ)
      (rows : Rows)
      → s.rows.lease ≡ none
      → acquire_lease s.rows
          (some (first_lease winner winner_seconds winner_now))
          owner
          lease_seconds
          now
        ≡ (none, rows)
      → Step s (record {
        rows = rows;
        grants = identity_of (first_lease winner winner_seconds winner_now) ∷ s.grants;
      })
  renew :
      (s : System) (i : LeaseIdentity) (lease_seconds now : ℕ)
      → Step s (after s (renew_lease s.rows i lease_seconds now).1)
  update :
      (s : System) (i : LeaseIdentity) (u : Update) (now : ℕ)
      → Step s (after s (update_worker_state s.rows i u now).1)
  release :
      (s : System) (i : LeaseIdentity) (now : ℕ) → Step s (after s (release_lease s.rows i now).1)

pub data Reach : System → Type 0 where
  start : Reach new_system
  next : {s t : System} → Reach s → Step s t → Reach t
