-- ===== src/Tests/Locks.antt =====
-- The lock queue with two clients.
use corpochain_beacon_client.Base.{ℕ, ◌+◌, ◌≤◌, ◌<◌, ◌≡◌, ◌⊎◌, refl, true, [], ◌∷◌, arith}
use corpochain_beacon_client.Beacon.LockQueue.{
  Entry, LockQueue, init, put, get, acquire, call, Step, gets, acquires, calls, Reachable, created,
  joined, stepped, Steps, stop, go, waiting,
}
use corpochain_beacon_client.Beacon.LockQueue.Exclusion.{Reachable-exclusive}
use corpochain_beacon_client.Beacon.LockQueue.Service.{
  steps_left, pending, times_called, Steps-serve,
}

-- Client 7 asks with the number 1, and client 8 with the number 0.
abbrev first : Entry
first = record { priority = 1; client = 7 }

abbrev second : Entry
second = record { priority = 0; client = 8 }

abbrev both_wait : LockQueue
both_wait = put second (put first init)

both_wait-Reachable : Reachable both_wait
both_wait-Reachable = joined second (joined first created)

-- The later client has the lower number and goes first.
abbrev second_inside : LockQueue
second_inside = call second (acquire second (get second (first ∷ []) both_wait))

second_enters : Steps 3 both_wait second_inside
second_enters =
    go (gets second [] (first ∷ []) refl refl (omega arith, (omega arith, tt)))
      (go (acquires second refl refl) (go (calls second refl) stop))

Steps-serve_example :
    (3 ≤ steps_left both_wait)
    × (3 < steps_left both_wait → (s'' : LockQueue) × Step second_inside s'')
    × (◌≡◌ {A = ℕ} 3 (steps_left both_wait)
        → (second_inside.task_queue ≡ [])
          × (second_inside.inside ≡ [])
          × ((client : ℕ)
              → times_called client second_inside.called
                ≡ times_called client both_wait.called + pending client both_wait))
Steps-serve_example = Steps-serve both_wait-Reachable second_enters

second_inside-Reachable : Reachable second_inside
second_inside-Reachable =
    stepped
      (stepped
        (stepped both_wait-Reachable
          (gets second [] (first ∷ []) refl refl (omega arith, (omega arith, tt))))
        (acquires second refl refl))
      (calls second refl)

Reachable-exclusive_example :
    (second_inside.inside ≡ [])
    ⊎ ((client : ℕ) × (second_inside.inside ≡ client ∷ [])
        × (second_inside.locked ≡ true)
        × (second_inside.loop ≡ waiting))
Reachable-exclusive_example = Reachable-exclusive second_inside-Reachable
