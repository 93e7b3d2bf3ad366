-- ===== src/Beacon/LockQueue.antt =====
-- A lock that is given by priority: corpochain/beacon/lock_queue.py. The tasks of the event loop
-- run in any order, so what happens is a sequence of steps: a client joins (`LockClient.__aenter__`
-- up to its wait), the task of `_run` goes on at one of its awaits, or a client whose callback was
-- called leaves (`__aexit__`). `inner_lock` and the events of asyncio are Booleans. The priority
-- queue gives out an entry of the lowest number, any one of them where several have it.
pub mod Exclusion
pub mod Service
use corpochain_beacon_client.Base.{ℕ, ◌+◌, ◌≤◌, ◌≡◌, Bool, true, false, List, [], ◌∷◌, ◌++◌, All}

-- `PrioritizedCallable`: the priority, and the client that the callback wakes.
pub record Entry : Type 0 where
  pub priority : ℕ
  pub client : ℕ

-- Where `_run` stands: before `get`, before `acquire`, before the callback, before `wait`.
pub data Loop : Type 0 where
  getting : Loop
  acquiring : Entry → Loop
  calling : Entry → Loop
  waiting : Loop

pub record LockQueue : Type 0 where
  pub task_queue : List Entry
  pub locked : Bool
  pub release_event : Bool
  pub loop : Loop
  pub inside : List ℕ  -- the clients whose callback was called and that have not left
  pub called : List ℕ  -- the clients whose callback was called, the last first

abbrev pub init : LockQueue
init = record {
  task_queue = [];
  locked = false;
  release_event = false;
  loop = getting;
  inside = [];
  called = [];
}

abbrev pub put : Entry → LockQueue → LockQueue
put e s = record s { task_queue = e ∷ s.task_queue }

-- `get`, which leaves the entries `before` and `after`, and the new event.
abbrev pub get : Entry → List Entry → LockQueue → LockQueue
get e rest s = record s { task_queue = rest; release_event = false; loop = acquiring e }

abbrev pub acquire : Entry → LockQueue → LockQueue
acquire e s = record s { locked = true; loop = calling e }

abbrev pub call : Entry → LockQueue → LockQueue
call e s = record s { loop = waiting; inside = e.client ∷ s.inside; called = e.client ∷ s.called }

abbrev pub wake : LockQueue → LockQueue
wake s = record s { loop = getting }

-- `release`, by a client that stands between `before` and `after` in the list.
abbrev pub release : List ℕ → LockQueue → LockQueue
release rest s = record s { locked = false; release_event = true; inside = rest }

-- A step of the loop's task or of a client that leaves.
pub data Step : LockQueue → LockQueue → Type 0 where
  gets :
      {s : LockQueue} (e : Entry) (before after : List Entry)
      → s.loop ≡ getting
      → s.task_queue ≡ before ++ e ∷ after
      → All (λ other. e.priority ≤ other.priority) s.task_queue
      → Step s (get e (before ++ after) s)
  acquires :
      {s : LockQueue} (e : Entry) → s.loop ≡ acquiring e → s.locked ≡ false → Step s (acquire e s)
  calls : {s : LockQueue} (e : Entry) → s.loop ≡ calling e → Step s (call e s)
  wakes : {s : LockQueue} → s.loop ≡ waiting → s.release_event ≡ true → Step s (wake s)
  leaves :
      {s : LockQueue} (client : ℕ) (before after : List ℕ)
      → s.inside ≡ before ++ client ∷ after
      → Step s (release (before ++ after) s)

-- What happens to the lock from its creation on.
pub data Reachable : LockQueue → Type 0 where
  created : Reachable init
  joined : {s : LockQueue} (e : Entry) → Reachable s → Reachable (put e s)
  stepped : {s s' : LockQueue} → Reachable s → Step s s' → Reachable s'

-- A number of steps with nobody joining.
pub data Steps : ℕ → LockQueue → LockQueue → Type 0 where
  stop : {s : LockQueue} → Steps 0 s s
  go : {n : ℕ} {s s' s'' : LockQueue} → Step s s' → Steps n s' s'' → Steps (n + 1) s s''
