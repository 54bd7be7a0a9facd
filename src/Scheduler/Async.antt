-- ===== src/Scheduler/Async.antt =====
-- circuit/src/scheduler/async_scheduler.rs: the scheduler that has the dependencies of a request proved
-- at the same time. What a run records, and how it ends, is a relation: the tasks of the
-- dependencies are recorded in any order that keeps the order of each. The executor, a remote
-- service, is a relation too. A panic ends a run like an error: that it also stops the
-- dependencies that run beside it is left out.
pub mod Refines
pub mod Tasks
pub mod Total
pub mod Tracker
use worldcoin_aggregation.Prelude.{
  Bool, true, false, Option, none, some, List, [], ◌∷◌, ◌++◌, ◌≡◌, Result, ok, err, bail, panic,
  Reason, Fault, or_fault, traverse, ◌>>=◌,
}
use worldcoin_aggregation.Prelude.Maps.{HashMap, get}
use worldcoin_aggregation.Circuits.Snarks.{Snark}
use worldcoin_aggregation.Scheduler.NodeParams.{NodeParams}
use worldcoin_aggregation.Scheduler.NodeParams.Order.{same}
use worldcoin_aggregation.Scheduler.Request.{RecursiveRequest, dependencies}
use worldcoin_aggregation.Scheduler.Local.{
  RequestRouter, ProverProof, handle_recursive_request, snark_of,
}
use worldcoin_aggregation.Prelude.Interleave.{Interleave}

-- `ExecutionResult`
pub record ExecutionResult (CircuitId EvmProof TaskId : Type 0) : Type 0 where
  pub task_id : TaskId
  pub proof : ProverProof CircuitId EvmProof

-- `AsyncScheduler`: its tables, and what its executor may answer to a task.
pub record AsyncScheduler (Root Claim CircuitId EvmProof TaskId : Type 0) : Type 1 where
  pub circuit_id_repo : HashMap NodeParams CircuitId
  pub cid_to_params : HashMap CircuitId NodeParams
  pub same_id : CircuitId → CircuitId → Bool
  pub Executes :
      CircuitId
      → RequestRouter Root Claim
      → Bool
      → Result (ExecutionResult CircuitId EvmProof TaskId)
      → Type 0

-- `get_snarks_for_deps`, once all dependencies have ended.
unfoldable pub collect :
    {CircuitId EvmProof : Type 0}
    → List (Result (ProverProof CircuitId EvmProof))
    → Result (List Snark)
collect outcomes = traverse (λ outcome. outcome >>= snark_of) outcomes

module _ {Root Claim CircuitId EvmProof TaskId : Type 0} where
  -- `get_circuit_id`
  unfoldable pub get_circuit_id :
      AsyncScheduler Root Claim CircuitId EvmProof TaskId
      → RecursiveRequest Root Claim
      → Result CircuitId
  get_circuit_id s req =
      or_fault (get same req.params s.circuit_id_repo) (bail Reason.circuit_id_not_found)

  -- The task of a request: its circuit and its input.
  unfoldable pub task_for :
      AsyncScheduler Root Claim CircuitId EvmProof TaskId
      → RecursiveRequest Root Claim
      → List (Result (ProverProof CircuitId EvmProof))
      → Result (CircuitId × RequestRouter Root Claim)
  task_for s req outcomes = do
    snarks ← collect outcomes
    router ← handle_recursive_request req snarks
    circuit_id ← get_circuit_id s req
    ok (circuit_id, router)

  -- The node under which `post_proof_gen_processing` records a task.
  unfoldable pub recorded_params :
      AsyncScheduler Root Claim CircuitId EvmProof TaskId → CircuitId → Result NodeParams
  recorded_params s circuit_id =
      or_fault (get s.same_id circuit_id s.cid_to_params) (panic Reason.unwrap_none)

mutual
  -- A run of `recursive_gen_proof`: the tasks that it records, in order, and how it ends.
  pub data Run {Root Claim CircuitId EvmProof TaskId : Type 0}
      (s : AsyncScheduler Root Claim CircuitId EvmProof TaskId)
      : RecursiveRequest Root Claim
        → Bool
        → List (TaskId × NodeParams)
        → Result (ProverProof CircuitId EvmProof)
        → Type 0 where
    -- The request is not broken down.
    invalid :
        (req : RecursiveRequest Root Claim) (is_evm_proof : Bool) {e : Fault}
        → dependencies req ≡ err e
        → Run s req is_evm_proof [] (err e)
    -- No task is made of the proofs of the dependencies.
    refused :
        (req : RecursiveRequest Root Claim) (is_evm_proof : Bool)
        {deps : List (RecursiveRequest Root Claim)} {tasks : List (TaskId × NodeParams)}
        {outcomes : List (Result (ProverProof CircuitId EvmProof))} {e : Fault}
        → dependencies req ≡ ok deps
        → RunAll s deps tasks outcomes
        → task_for s req outcomes ≡ err e
        → Run s req is_evm_proof tasks (err e)
    -- The executor fails.
    failed :
        (req : RecursiveRequest Root Claim) (is_evm_proof : Bool)
        {deps : List (RecursiveRequest Root Claim)} {tasks : List (TaskId × NodeParams)}
        {outcomes : List (Result (ProverProof CircuitId EvmProof))}
        {task : CircuitId × RequestRouter Root Claim} {e : Fault}
        → dependencies req ≡ ok deps
        → RunAll s deps tasks outcomes
        → task_for s req outcomes ≡ ok task
        → s.Executes task.0 task.1 is_evm_proof (err e)
        → Run s req is_evm_proof tasks (err e)
    -- The task is proved, but its circuit has no node.
    unrecorded :
        (req : RecursiveRequest Root Claim) (is_evm_proof : Bool)
        {deps : List (RecursiveRequest Root Claim)} {tasks : List (TaskId × NodeParams)}
        {outcomes : List (Result (ProverProof CircuitId EvmProof))}
        {task : CircuitId × RequestRouter Root Claim}
        {result : ExecutionResult CircuitId EvmProof TaskId} {e : Fault}
        → dependencies req ≡ ok deps
        → RunAll s deps tasks outcomes
        → task_for s req outcomes ≡ ok task
        → s.Executes task.0 task.1 is_evm_proof (ok result)
        → recorded_params s task.0 ≡ err e
        → Run s req is_evm_proof tasks (err e)
    -- The task is proved and recorded, after those of the dependencies.
    done :
        (req : RecursiveRequest Root Claim) (is_evm_proof : Bool)
        {deps : List (RecursiveRequest Root Claim)} {tasks all_tasks : List (TaskId × NodeParams)}
        {outcomes : List (Result (ProverProof CircuitId EvmProof))}
        {task : CircuitId × RequestRouter Root Claim}
        {result : ExecutionResult CircuitId EvmProof TaskId} {params : NodeParams}
        → dependencies req ≡ ok deps
        → RunAll s deps tasks outcomes
        → task_for s req outcomes ≡ ok task
        → s.Executes task.0 task.1 is_evm_proof (ok result)
        → recorded_params s task.0 ≡ ok params
        → all_tasks ≡ tasks ++ ((result.task_id, params) ∷ [])
        → Run s req is_evm_proof all_tasks (ok result.proof)

  -- The runs of the dependencies, which `join_all` waits for, at the same time.
  pub data RunAll {Root Claim CircuitId EvmProof TaskId : Type 0}
      (s : AsyncScheduler Root Claim CircuitId EvmProof TaskId)
      : List (RecursiveRequest Root Claim)
        → List (TaskId × NodeParams)
        → List (Result (ProverProof CircuitId EvmProof))
        → Type 0 where
    all_joined : RunAll s [] [] []
    join :
        (dep : RecursiveRequest Root Claim) {deps : List (RecursiveRequest Root Claim)}
        {tasks others both : List (TaskId × NodeParams)}
        {outcome : Result (ProverProof CircuitId EvmProof)}
        {outcomes : List (Result (ProverProof CircuitId EvmProof))}
        → Run s dep false tasks outcome
        → RunAll s deps others outcomes
        → Interleave tasks others both
        → RunAll s (dep ∷ deps) both (outcome ∷ outcomes)
