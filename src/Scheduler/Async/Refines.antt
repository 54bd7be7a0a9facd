-- ===== src/Scheduler/Async/Refines.antt =====
-- The asynchronous scheduler returns what the local scheduler returns.
use worldcoin_aggregation.Prelude.{
  ℕ, zero, suc, ◌+◌, ◌≤◌, ◌≡◌, refl, ◌∙◌, Bool, false, List, Result, ok, arith, traverse, >>=-eq-ok,
  ok-injective, ◌>>=◌,
}
use worldcoin_aggregation.Prelude.Maps.{get}
use worldcoin_aggregation.Circuits.Snarks.{Snark}
use worldcoin_aggregation.Scheduler.NodeParams.{NodeParams}
use worldcoin_aggregation.Scheduler.NodeParams.Order.{same}
use worldcoin_aggregation.Scheduler.Request.{RecursiveRequest, dependencies}
use worldcoin_aggregation.Scheduler.Local.{
  LocalScheduler, RequestRouter, ProverProof, handle_recursive_request, generate_proof, snark_of,
  recursive_gen_proof,
}
use worldcoin_aggregation.Scheduler.Local as Local
use worldcoin_aggregation.Scheduler.Async.{
  AsyncScheduler, ExecutionResult, Run, RunAll, invalid, refused, failed, unrecorded, done,
  all_joined, join, collect, task_for, get_circuit_id,
}

-- The local scheduler has the same table, and its prover returns the proofs of the executor.
pub record Agrees {Root Claim CircuitId EvmProof TaskId : Type 0}
    (s : AsyncScheduler Root Claim CircuitId EvmProof TaskId)
    (l : LocalScheduler Root Claim CircuitId EvmProof) : Type 0 where
  pub same_table : (p : NodeParams) → l.circuit_id_repo p ≡ get same p s.circuit_id_repo
  pub same_proofs :
      (id : CircuitId) (router : RequestRouter Root Claim) (is_evm_proof : Bool)
      (result : ExecutionResult CircuitId EvmProof TaskId)
      → s.Executes id router is_evm_proof (ok result)
      → generate_proof l id router is_evm_proof ≡ ok result.proof

pub suc_fuel : (P : ℕ → Type 0) (n fuel : ℕ) → suc n ≤ fuel → ((f : ℕ) → n ≤ f → P (suc f)) → P fuel
suc_fuel P n zero le h = absurd (omega arith)
suc_fuel P n (suc f) le h = h f (omega arith)

module _ {Root Claim CircuitId EvmProof TaskId : Type 0}
    (s : AsyncScheduler Root Claim CircuitId EvmProof TaskId) where
  pub task_for-eq-ok :
      (req : RecursiveRequest Root Claim)
      (outcomes : List (Result (ProverProof CircuitId EvmProof)))
      {task : CircuitId × RequestRouter Root Claim}
      → task_for s req outcomes ≡ ok task
      → (snarks : List Snark) × (collect outcomes ≡ ok snarks)
        × (handle_recursive_request req snarks ≡ ok task.1)
        × (get_circuit_id s req ≡ ok task.0)
  unfolding task_for
  task_for-eq-ok req outcomes e =
      let (snarks, collected, e1) = >>=-eq-ok (collect outcomes) _ e in
      let (router, routed, e2) = >>=-eq-ok (handle_recursive_request req snarks) _ e1 in
      let (id, known, e3) = >>=-eq-ok (get_circuit_id s req) _ e2 in
      let same_task = ok-injective e3 in
      (snarks, collected, rw (← same_task) routed, rw (← same_task) known)

module _ {Root Claim CircuitId EvmProof TaskId : Type 0}
    {s : AsyncScheduler Root Claim CircuitId EvmProof TaskId}
    {l : LocalScheduler Root Claim CircuitId EvmProof} (agrees : Agrees s l) where
  -- With enough fuel, the local scheduler returns the proof.
  abbrev Returns : RecursiveRequest Root Claim → Bool → ProverProof CircuitId EvmProof → Type 0
  Returns req is_evm_proof proof =
      (n : ℕ) × ((fuel : ℕ) → n ≤ fuel → recursive_gen_proof fuel l req is_evm_proof ≡ ok proof)

  -- What the local scheduler does once its dependencies are proved.
  finish_local :
      (req : RecursiveRequest Root Claim) (is_evm_proof : Bool)
      {deps : List (RecursiveRequest Root Claim)} {snarks : List Snark}
      {task : CircuitId × RequestRouter Root Claim} {proof : ProverProof CircuitId EvmProof}
      (fuel : ℕ)
      → dependencies req ≡ ok deps
      → traverse (λ dep. recursive_gen_proof fuel l dep false >>= snark_of) deps ≡ ok snarks
      → handle_recursive_request req snarks ≡ ok task.1
      → get_circuit_id s req ≡ ok task.0
      → generate_proof l task.0 task.1 is_evm_proof ≡ ok proof
      → recursive_gen_proof (suc fuel) l req is_evm_proof ≡ ok proof
  unfolding recursive_gen_proof get_circuit_id Local.get_circuit_id
  finish_local req is_evm_proof fuel split gathered routed known proved =
      rw (split, gathered, routed, agrees.same_table req.params, known, proved)

  mutual
    unfolding collect traverse

    Run-refines :
        {req : RecursiveRequest Root Claim} {is_evm_proof : Bool}
        {tasks : List (TaskId × NodeParams)} {outcome : Result (ProverProof CircuitId EvmProof)}
        (proof : ProverProof CircuitId EvmProof)
        → Run s req is_evm_proof tasks outcome
        → outcome ≡ ok proof
        → Returns req is_evm_proof proof
    Run-refines proof (invalid req is_evm_proof fails) e = cc
    Run-refines proof (refused req is_evm_proof split runs fails) e = cc
    Run-refines proof (failed req is_evm_proof split runs made fails) e = cc
    Run-refines proof (unrecorded req is_evm_proof split runs made executed fails) e = cc
    Run-refines proof
          (done req is_evm_proof {outcomes} {task} {result} split runs made executed known all) e =
        let (snarks, collected, routed, found) = task_for-eq-ok s req outcomes made in
        let (n, below) = all_refines snarks runs collected in
        let proved = agrees.same_proofs task.0 task.1 is_evm_proof result executed ∙ e in
        (
          suc n,
          λ fuel le.
              suc_fuel (λ f. recursive_gen_proof f l req is_evm_proof ≡ ok proof) n fuel le
                (λ f le2. finish_local req is_evm_proof f split (below f le2) routed found proved),
        )

    all_refines :
        {deps : List (RecursiveRequest Root Claim)} {tasks : List (TaskId × NodeParams)}
        {outcomes : List (Result (ProverProof CircuitId EvmProof))} (snarks : List Snark)
        → RunAll s deps tasks outcomes
        → collect outcomes ≡ ok snarks
        → (n : ℕ) × ((fuel : ℕ)
            → n ≤ fuel
            → traverse (λ dep. recursive_gen_proof fuel l dep false >>= snark_of) deps ≡ ok snarks)
    all_refines snarks all_joined e = (0, λ fuel le. e)
    all_refines snarks (join dep {deps} {outcome} {outcomes} run rest mixed) e =
        let (snark1, first, e1) = >>=-eq-ok (outcome >>= snark_of) _ e in
        let (proof, ended, is_snark) = >>=-eq-ok outcome snark_of first in
        let (others, collected, e2) = >>=-eq-ok (collect outcomes) _ e1 in
        let (n, below) = Run-refines proof run ended in
        let (m, beside) = all_refines others rest collected in
        (n + m, λ fuel le. rw (below fuel (omega arith), is_snark, beside fuel (omega arith)) e2)

  -- If the local scheduler has the same table of circuit ids and its prover returns the proofs
  -- that the executor returns, a run of the asynchronous scheduler that ends with a proof, in
  -- whatever order its tasks are done, ends with the proof that the local scheduler returns, for
  -- every fuel from some number on.
  pub Run-Returns :
      {req : RecursiveRequest Root Claim} {is_evm_proof : Bool} {tasks : List (TaskId × NodeParams)}
      {proof : ProverProof CircuitId EvmProof}
      → Run s req is_evm_proof tasks (ok proof)
      → (n : ℕ) × ((more : ℕ) → recursive_gen_proof (n + more) l req is_evm_proof ≡ ok proof)
  Run-Returns {proof} run =
      let (n, returns) = Run-refines proof run refl in (n, λ more. returns (n + more) (omega arith))
