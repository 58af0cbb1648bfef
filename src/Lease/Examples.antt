-- ===== src/Lease/Examples.antt =====
-- Two workers and their lease, and the theorems on the lease at their calls.
use cresta.Base.{ap, str_eq_iff, ◌≡◌, ◌≢◌, refl, true, none, some, str_eq, [], ◌∷◌, All}
use cresta.Lease.{LeaseIdentity, Rows, acquire_lease, release_lease, lease_is_current}
use cresta.Lease.Steps.{new_system, Step, Reach}
use cresta.Lease.Fencing.{IsFenced, Reach-IsFenced, IsRefused, superseded-IsRefused}
use cresta.Lease.Holding.{current_exclusive, acquire_lease_grants}

abbrev first : LeaseIdentity
first = record { holder = "worker-a"; token = 1 }

abbrev second : LeaseIdentity
second = record { holder = "worker-b"; token = 2 }

-- `worker-a` acquires the lease for 30 seconds at time 0
abbrev held : Rows
held = (acquire_lease new_system.rows none "worker-a" 30 0).1

-- `worker-b` acquires it after they have passed
abbrev taken : Rows
taken = (acquire_lease held none "worker-b" 30 40_000_000).1

first_granted : acquire_lease new_system.rows none "worker-a" 30 0 ≡ (some first, held)
unfolding acquire_lease
first_granted = refl

refused_meanwhile : acquire_lease held none "worker-b" 30 20_000_000 ≡ (none, held)
unfolding acquire_lease str_eq
refused_meanwhile = refl

second_granted : acquire_lease held none "worker-b" 30 40_000_000 ≡ (some second, taken)
unfolding acquire_lease str_eq
second_granted = refl

to_taken : Reach (record { rows = taken; grants = second ∷ first ∷ [] })
to_taken =
    Reach.next
      (Reach.next Reach.start (Step.acquire new_system "worker-a" 30 0 first held first_granted))
      (Step.acquire (record { rows = held; grants = first ∷ [] }) "worker-b" 30 40_000_000 second
        taken second_granted)

Reach-IsFenced_example : IsFenced (record { rows = taken; grants = second ∷ first ∷ [] })
Reach-IsFenced_example =
    Reach-IsFenced (record { rows = taken; grants = second ∷ first ∷ [] }) to_taken

superseded-IsRefused_example : All (IsRefused taken) (first ∷ [])
superseded-IsRefused_example =
    superseded-IsRefused (record { rows = taken; grants = second ∷ first ∷ [] }) second (first ∷ [])
      to_taken refl

held_current : lease_is_current held first 20_000_000 ≡ true
unfolding lease_is_current acquire_lease str_eq
held_current = refl

differs : str_eq "worker-b" "worker-a" ≢ true
unfolding str_eq
differs e = cc

different_owner : second.holder ≢ first.holder
different_owner e = differs ((str_eq_iff "worker-b" "worker-a").1 e)

different_identity : second ≢ first
different_identity e = different_owner (ap (λ (i : LeaseIdentity). i.holder) e)

current_exclusive_example :
    (acquire_lease held none "worker-b" 30 20_000_000 ≡ (none, held)) × IsRefused held second
current_exclusive_example =
    current_exclusive held first second 20_000_000 none "worker-b" 30 held_current different_owner
      different_identity

acquire_lease_grants_example :
    (i : LeaseIdentity) × (after : Rows) × (acquire_lease new_system.rows none "worker-a" 30 0
      ≡ (some i, after))
    × (lease_is_current after i 20_000_000 ≡ true)
acquire_lease_grants_example =
    let (i, after, granted, _, until, _, _) =
      acquire_lease_grants new_system.rows "worker-a" 30 0 20_000_000 tt in
    (i, after, granted, until)

released : release_lease held first 10_000_000 ≡ (true, (release_lease held first 10_000_000).1)
unfolding release_lease acquire_lease str_eq
released = refl
