-- ===== src/Scheduler/Executor.antt =====
-- circuit/src/scheduler/executor/dispatcher.rs: tasks that are handed to a remote dispatcher, at most a
-- given number at a time. What the dispatcher answers to a task is a parameter; the addresses of
-- the requests, which are made of the dispatcher's, are left out.
pub mod Polling
pub mod Permits
pub mod Progress
use worldcoin_aggregation.Prelude.{
  ℕ, zero, suc, ◌≡◌, Bool, Option, none, some, List, ◌∷◌, ◌++◌, Result, Fault, ok, err, bail,
  Reason, if◌then◌else◌, ◌==◌, ◌>>=◌,
}

pub data TaskStatus : Type 0 where
  pending preparing proving done failed : TaskStatus

-- The answer to a request for the status of a task: none, one that cannot be read, or a status.
pub data Reply : Type 0 where
  no_reply unreadable : Reply
  status : TaskStatus → Reply

-- What the dispatcher answers to one task: to its creation, to each request for its status, and
-- to the request for its proof.
pub record Service (TaskId Proof : Type 0) : Type 0 where
  pub created : Result TaskId
  pub replies : ℕ → Reply
  pub snark : Result Proof

-- One round of the loop of `wait_task_done`; nothing where the loop goes on.
unfoldable pub poll : Reply → Option (Result (Unit {0}))
poll no_reply = some (err (bail Reason.request_failed))
poll unreadable = some (err (bail Reason.parse_failed))
poll (status done) = some (ok tt)
poll (status failed) = some (err (bail Reason.task_failed))
poll (status pending) = none
poll (status preparing) = none
poll (status proving) = none

unfoldable pub or_else :
    Option (Result (Unit {0})) → Option (Result (Unit {0})) → Option (Result (Unit {0}))
or_else none later = later
or_else (some ended) later = some ended

-- `wait_task_done`, from a request for the status on, for a number of rounds; nothing if the loop
-- has not ended then.
unfoldable pub wait_task_done : ℕ → ℕ → (ℕ → Reply) → Option (Result (Unit {0}))
wait_task_done zero i replies = none
wait_task_done (suc rounds) i replies =
    or_else (poll (replies i)) (wait_task_done rounds (suc i) replies)

-- What a task does while it has a permit: it is created, and done when its status says so.
unfoldable pub finish_wait :
    {TaskId : Type 0} → TaskId → Option (Result (Unit {0})) → Option (Result TaskId)
finish_wait task_id none = none
finish_wait task_id (some (ok u)) = some (ok task_id)
finish_wait task_id (some (err e)) = some (err e)

unfoldable pub create_and_wait :
    {TaskId : Type 0} → ℕ → Result TaskId → (ℕ → Reply) → Option (Result TaskId)
create_and_wait rounds (err e) replies = some (err e)
create_and_wait rounds (ok task_id) replies = finish_wait task_id (wait_task_done rounds 0 replies)

module _ {TaskId Proof : Type 0} where
  -- `get_prover_proof`, after the permit is dropped.
  unfoldable pub fetch : TaskId → Service TaskId Proof → Result (TaskId × Proof)
  fetch task_id service = do proof ← service.snark; ok (task_id, proof)

  unfoldable pub fetch_after :
      Service TaskId Proof → Option (Result TaskId) → Option (Result (TaskId × Proof))
  fetch_after service none = none
  fetch_after service (some (err e)) = some (err e)
  fetch_after service (some (ok task_id)) = some (fetch task_id service)

  -- `execute_impl`, for a number of rounds.
  unfoldable pub execute_impl : ℕ → Service TaskId Proof → Option (Result (TaskId × Proof))
  execute_impl rounds service =
      fetch_after service (create_and_wait rounds service.created service.replies)

-- The permits of `DispatcherExecutor::new`, if their number is limited.
unfoldable pub semaphore : ℕ → Option ℕ
semaphore proof_concurrency = if proof_concurrency == 0 then none else some proof_concurrency

-- A dropped permit.
abbrev pub give_back : Option ℕ → Option ℕ
give_back none = none
give_back (some n) = some (suc n)

-- How far `execute_impl` has come with a task.
pub data Phase (TaskId Proof : Type 0) : Type 0 where
  waiting holding : Phase TaskId Proof
  fetching : TaskId → Phase TaskId Proof
  finished : Result (TaskId × Proof) → Phase TaskId Proof

pub record Pool (TaskId Proof : Type 0) : Type 0 where
  pub permits : Option ℕ
  pub tasks : List (Service TaskId Proof × Phase TaskId Proof)

-- What one task does next: it acquires a permit, it ends with an error and drops its permit, it is
-- done and drops its permit, or it fetches its proof.
pub data Move {TaskId Proof : Type 0} (service : Service TaskId Proof)
    : Phase TaskId Proof → Option ℕ → Phase TaskId Proof → Option ℕ → Type 0 where
  acquire : (n : ℕ) → Move service waiting (some (suc n)) holding (some n)
  acquire_unlimited : Move service waiting none holding none
  fail :
      (permits : Option ℕ) (rounds : ℕ) (e : Fault)
      → create_and_wait rounds service.created service.replies ≡ some (err e)
      → Move service holding permits (finished (err e)) (give_back permits)
  release :
      (permits : Option ℕ) (rounds : ℕ) (task_id : TaskId)
      → create_and_wait rounds service.created service.replies ≡ some (ok task_id)
      → Move service holding permits (fetching task_id) (give_back permits)
  fetched :
      (permits : Option ℕ) (task_id : TaskId)
      → Move service (fetching task_id) permits (finished (fetch task_id service)) permits

-- One of the tasks moves.
pub data Step {TaskId Proof : Type 0} : Pool TaskId Proof → Pool TaskId Proof → Type 0 where
  move :
      (before after : List (Service TaskId Proof × Phase TaskId Proof))
      (service : Service TaskId Proof) {p q : Phase TaskId Proof} {m n : Option ℕ}
      → Move service p m q n
      → Step
          (record { permits = m; tasks = before ++ ((service, p) ∷ after) })
          (record { permits = n; tasks = before ++ ((service, q) ∷ after) })
