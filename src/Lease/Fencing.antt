-- ===== src/Lease/Fencing.antt =====
-- Fencing: of the identities that were granted only the newest is accepted
-- (backend/app/broker/worker_state.py).
use cresta.Base.{
  ℕ, ◌≤◌, ◌<◌, ◌≡◌, subst, false, Option, none, some, List, [], ◌∷◌, All, String, arith,
}
use cresta.Lease.{
  Lease, Gate, new_lease, LeaseIdentity, Worker, Rows, Update, identity_of, first_lease,
  acquire_lease, renew_lease, update_worker_state, release_lease, lease_is_current, is_held_by,
}
use cresta.Lease.Steps.{System, after, Step, Reach}

-- tokens that descend from a bound
abbrev pub Below : ℕ → List LeaseIdentity → Type 0
Below bound [] = Unit
Below bound (i ∷ is) = (i.token < bound) × Below i.token is

-- The lease is that of the newest grant, and the tokens of the grants descend.
abbrev pub IsNewest : Option Lease → List LeaseIdentity → Type 0
IsNewest none [] = Unit
IsNewest none (i ∷ is) = ⊥
IsNewest (some l) [] = ⊥
IsNewest (some l) (i ∷ is) = (i ≡ identity_of l) × Below l.fencing_token is

-- the token of the worker's row is not above that of the lease
abbrev pub IsBounded : Option Lease → Option Worker → Type 0
IsBounded l none = Unit
IsBounded none (some w) = ⊥
IsBounded (some l) (some w) = w.worker_token ≤ l.fencing_token

abbrev pub AreFenced : Rows → List LeaseIdentity → Type 0
AreFenced rows grants = IsNewest rows.lease grants × IsBounded rows.lease rows.worker

abbrev pub IsFenced : System → Type 0
IsFenced s = AreFenced s.rows s.grants

abbrev pub rows_of : Option Lease → Option Worker → Option Gate → Rows
rows_of l w g = record { lease = l; worker = w; gate = g }

-- the grant of the lease, and the bound on the worker's token that it raises
granted-IsNewest :
    (l : Option Lease) (w : Option Worker) (is : List LeaseIdentity) (owner : String) (secs now : ℕ)
    → IsNewest l is
    → IsBounded l w
    → IsNewest (some (new_lease l owner secs now)) (identity_of (new_lease l owner secs now) ∷ is)
      × IsBounded (some (new_lease l owner secs now)) w
granted-IsNewest none none [] owner secs now newest bounded = ground arith
granted-IsNewest none (some w) is owner secs now newest bounded = absurd bounded
granted-IsNewest none none (i ∷ is) owner secs now newest bounded = absurd newest
granted-IsNewest (some l) w [] owner secs now newest bounded = absurd newest
granted-IsNewest (some l) none (i ∷ is) owner secs now newest bounded = ground arith
granted-IsNewest (some l) (some w) (i ∷ is) owner secs now newest bounded = ground arith

-- What a successful acquisition writes.
acquire_lem :
    (l : Option Lease) (w : Option Worker) (g : Option Gate) (owner : String) (secs now : ℕ)
    (i : LeaseIdentity) (after : Rows)
    → acquire_lease (rows_of l w g) none owner secs now ≡ (some i, after)
    → (i ≡ identity_of (new_lease l owner secs now))
      × (after ≡ rows_of (some (new_lease l owner secs now)) w g)
unfolding acquire_lease
acquire_lem none w g owner secs now i after e = ground arith
acquire_lem (some l) w g owner secs now i after e = ground arith

refused_lem :
    (l : Option Lease) (w : Option Worker) (g : Option Gate) (owner : String) (secs now : ℕ)
    (after : Rows)
    → acquire_lease (rows_of l w g) none owner secs now ≡ (none, after)
    → after ≡ rows_of l w g
unfolding acquire_lease
refused_lem none w g owner secs now after e = cc
refused_lem (some l) w g owner secs now after e = ground arith

raced_fenced :
    (l : Option Lease) (w : Option Worker) (g : Option Gate) (is : List LeaseIdentity)
    (winner owner : String) (secs now ws at : ℕ) (after : Rows)
    → l ≡ none
    → acquire_lease (rows_of l w g) (some (first_lease winner ws at)) owner secs now ≡ (none, after)
    → AreFenced (rows_of l w g) is
    → AreFenced after (identity_of (first_lease winner ws at) ∷ is)
unfolding acquire_lease
raced_fenced (some l) w g is winner owner secs now ws at after free e fenced = cc
raced_fenced none none g [] winner owner secs now ws at after free e fenced = ground arith
raced_fenced none (some w) g [] winner owner secs now ws at after free e fenced = absurd fenced.1
raced_fenced none w g (i ∷ is) winner owner secs now ws at after free e fenced = absurd fenced.0

renew_fenced :
    (l : Option Lease) (w : Option Worker) (g : Option Gate) (is : List LeaseIdentity)
    (i : LeaseIdentity) (secs now : ℕ)
    → AreFenced (rows_of l w g) is
    → AreFenced (renew_lease (rows_of l w g) i secs now).1 is
unfolding renew_lease
renew_fenced none w g is i secs now fenced = fenced
renew_fenced (some l) w g [] i secs now fenced = absurd fenced.0
renew_fenced (some l) none g (j ∷ is) i secs now fenced = ground arith
renew_fenced (some l) (some w) g (j ∷ is) i secs now fenced = ground arith

update_fenced :
    (l : Option Lease) (w : Option Worker) (g : Option Gate) (is : List LeaseIdentity)
    (i : LeaseIdentity) (u : Update) (now : ℕ)
    → AreFenced (rows_of l w g) is
    → AreFenced (update_worker_state (rows_of l w g) i u now).1 is
unfolding update_worker_state
update_fenced none w g is i u now fenced = fenced
update_fenced (some l) w g [] i u now fenced = absurd fenced.0
update_fenced (some l) w g (j ∷ is) i u now fenced = ground arith

release_fenced :
    (l : Option Lease) (w : Option Worker) (g : Option Gate) (is : List LeaseIdentity)
    (i : LeaseIdentity) (now : ℕ)
    → AreFenced (rows_of l w g) is
    → AreFenced (release_lease (rows_of l w g) i now).1 is
unfolding release_lease
release_fenced none w g is i now fenced = fenced
release_fenced (some l) w g [] i now fenced = absurd fenced.0
release_fenced (some l) none g (j ∷ is) i now fenced = ground arith
release_fenced (some l) (some w) g (j ∷ is) i now fenced = ground arith

Step-IsFenced : (s t : System) → Step s t → IsFenced s → IsFenced t
Step-IsFenced _ _ (Step.acquire s owner secs now i rows e) f =
    let (same_grant, same_rows) =
      acquire_lem s.rows.lease s.rows.worker s.rows.gate owner secs now i rows e in
    rw (same_grant, same_rows)
      (granted-IsNewest s.rows.lease s.rows.worker s.grants owner secs now f.0 f.1)
Step-IsFenced _ _ (Step.acquire_refused s owner secs now rows e) f =
    rw (refused_lem s.rows.lease s.rows.worker s.rows.gate owner secs now rows e) f
Step-IsFenced _ _ (Step.acquire_raced s owner winner secs now ws at rows free e) f =
    raced_fenced s.rows.lease s.rows.worker s.rows.gate s.grants winner owner secs now ws at rows
      free e f
Step-IsFenced _ _ (Step.renew s i secs now) f =
    renew_fenced s.rows.lease s.rows.worker s.rows.gate s.grants i secs now f
Step-IsFenced _ _ (Step.update s i u now) f =
    update_fenced s.rows.lease s.rows.worker s.rows.gate s.grants i u now f
Step-IsFenced _ _ (Step.release s i now) f =
    release_fenced s.rows.lease s.rows.worker s.rows.gate s.grants i now f

-- In every system that the calls of the workers lead to from the empty one, the lease is that of
-- the newest grant, the tokens of the grants descend strictly from it, and the worker's row bears
-- no token above it.
pub Reach-IsFenced : (s : System) → Reach s → IsFenced s
Reach-IsFenced _ Reach.start = (tt, tt)
Reach-IsFenced _ (Reach.next {s = s} {t = t} r step) = Step-IsFenced s t step (Reach-IsFenced s r)

-- What is refused to an identity: nothing it asks for is done.
pub record IsRefused (rows : Rows) (i : LeaseIdentity) : Type 0 where
  pub not_current : (now : ℕ) → lease_is_current rows i now ≡ false
  pub no_renewal : (lease_seconds now : ℕ) → renew_lease rows i lease_seconds now ≡ (false, rows)
  pub no_update : (u : Update) (now : ℕ) → update_worker_state rows i u now ≡ (false, rows)
  pub no_release : (now : ℕ) → release_lease rows i now ≡ (false, rows)

pub not_held-IsRefused :
    (l : Lease) (w : Option Worker) (g : Option Gate) (i : LeaseIdentity)
    → is_held_by l i ≡ false
    → IsRefused (rows_of (some l) w g) i
unfolding lease_is_current renew_lease update_worker_state release_lease
not_held-IsRefused l w g i foreign = record {
  not_current = λ now. ground arith;
  no_renewal = λ secs now. ground arith;
  no_update = λ u now. ground arith;
  no_release = λ now. ground arith;
}

older-IsRefused :
    (l : Lease) (w : Option Worker) (g : Option Gate) (bound : ℕ) (is : List LeaseIdentity)
    → bound ≤ l.fencing_token
    → Below bound is
    → All (IsRefused (rows_of (some l) w g)) is
older-IsRefused l w g bound [] le below = tt
older-IsRefused l w g bound (i ∷ is) le below = (
  not_held-IsRefused l w g i (ground arith),
  older-IsRefused l w g i.token is (omega arith) below.1,
)

newest-IsRefused :
    (l : Option Lease) (w : Option Worker) (g : Option Gate) (i : LeaseIdentity)
    (is : List LeaseIdentity)
    → IsNewest l (i ∷ is)
    → All (IsRefused (rows_of l w g)) is
newest-IsRefused none w g i is newest = absurd newest
newest-IsRefused (some l) w g i is newest =
    older-IsRefused l w g l.fencing_token is (omega arith) newest.1

-- Once a lease has been granted again, each identity that was granted before is refused for good:
-- it is current at no time, and its renewals, updates and releases answer False and change no row.
pub superseded-IsRefused :
    (s : System) (newest : LeaseIdentity) (older : List LeaseIdentity)
    → Reach s
    → s.grants ≡ newest ∷ older
    → All (IsRefused s.rows) older
superseded-IsRefused s newest older r e =
    newest-IsRefused s.rows.lease s.rows.worker s.rows.gate newest older
      (subst (λ is. IsNewest s.rows.lease is) e (Reach-IsFenced s r).0)
