-- ===== src/Scheduler/Async/Tasks.antt =====
-- The tasks that a run of the asynchronous scheduler records.
use mathlib.Core.List.{Perm}
use mathlib.Core.List.Perm
use worldcoin_aggregation.Prelude.{
  ℕ, zero, suc, ◌+◌, ◌≤◌, ◌≡◌, refl, sym, ap, ◌∙◌, Bool, some, List, [], ◌∷◌, ◌++◌, Result, ok, err,
  arith, map, traverse, >>=-eq-ok, or_fault-ok, ◌>>=◌,
}
use worldcoin_aggregation.Prelude.Interleave.{
  Interleave, both_done, from_first, from_second, Interleave-Perm,
}
use worldcoin_aggregation.Prelude.Maps.{get}
use worldcoin_aggregation.Scheduler.NodeParams.{NodeParams}
use worldcoin_aggregation.Scheduler.NodeParams.Order.{same}
use worldcoin_aggregation.Scheduler.Request.{RecursiveRequest, dependencies}
use worldcoin_aggregation.Scheduler.Local.{ProverProof, snark_of}
use worldcoin_aggregation.Scheduler.Async.{
  AsyncScheduler, Run, RunAll, invalid, refused, failed, unrecorded, done, all_joined, join,
  collect, get_circuit_id, recorded_params,
}
use worldcoin_aggregation.Scheduler.Async.Refines.{suc_fuel, task_for-eq-ok}
use worldcoin_aggregation.Circuits.Snarks.{Snark}

module _ {Root Claim : Type 0} where
  -- The nodes of the tree of a request, those of its dependencies first. They depend on the
  -- request alone.
  abbrev deps_of : Result (List (RecursiveRequest Root Claim)) → List (RecursiveRequest Root Claim)
  deps_of (ok deps) = deps
  deps_of (err e) = []

  abbrev all_nodes :
      (RecursiveRequest Root Claim → List NodeParams)
      → List (RecursiveRequest Root Claim)
      → List NodeParams
  all_nodes f [] = []
  all_nodes f (dep ∷ deps) = f dep ++ all_nodes f deps

  unfoldable pub nodes : ℕ → RecursiveRequest Root Claim → List NodeParams
  nodes zero req = []
  nodes (suc fuel) req = all_nodes (nodes fuel) (deps_of (dependencies req)) ++ (req.params ∷ [])

-- The tables of a scheduler: the node of a circuit id is the one that it stands for.
pub record HasInverse {Root Claim CircuitId EvmProof TaskId : Type 0}
    (s : AsyncScheduler Root Claim CircuitId EvmProof TaskId) : Type 0 where
  pub back :
      (p : NodeParams) (id : CircuitId)
      → get same p s.circuit_id_repo ≡ some id
      → get s.same_id id s.cid_to_params ≡ some p

-- The nodes of recorded tasks.
abbrev pub params_of : {TaskId : Type 0} → List (TaskId × NodeParams) → List NodeParams
params_of tasks = map (λ task. task.1) tasks

params_of-append :
    {TaskId : Type 0} (xs ys : List (TaskId × NodeParams))
    → params_of (xs ++ ys) ≡ params_of xs ++ params_of ys
params_of-append [] ys = refl
params_of-append (x ∷ xs) ys = ap (λ zs. x.1 ∷ zs) (params_of-append xs ys)

params_of-Interleave :
    {TaskId : Type 0} {xs ys zs : List (TaskId × NodeParams)}
    → Interleave xs ys zs
    → Interleave (params_of xs) (params_of ys) (params_of zs)
params_of-Interleave both_done = both_done
params_of-Interleave (from_first x i) = from_first x.1 (params_of-Interleave i)
params_of-Interleave (from_second y i) = from_second y.1 (params_of-Interleave i)

module _ {Root Claim CircuitId EvmProof TaskId : Type 0}
    {s : AsyncScheduler Root Claim CircuitId EvmProof TaskId} (inverse : HasInverse s) where
  own_node :
      (req : RecursiveRequest Root Claim) (id : CircuitId) {params : NodeParams}
      → get_circuit_id s req ≡ ok id
      → recorded_params s id ≡ ok params
      → params ≡ req.params
  unfolding get_circuit_id recorded_params
  own_node req id found known =
      let there = or_fault-ok (get same req.params s.circuit_id_repo) _ found in
      let back = inverse.back req.params id there in
      let recorded = or_fault-ok (get s.same_id id s.cid_to_params) _ known in
      let both = sym recorded ∙ back in cc

  -- The tasks are those of the tree, if there is enough fuel for it.
  abbrev AreNodes : List (TaskId × NodeParams) → (ℕ → List NodeParams) → Type 0
  AreNodes tasks tree = (n : ℕ) × ((fuel : ℕ) → n ≤ fuel → Perm (params_of tasks) (tree fuel))

  mutual
    unfolding nodes collect traverse

    run_tasks :
        {req : RecursiveRequest Root Claim} {is_evm_proof : Bool}
        {tasks : List (TaskId × NodeParams)} {outcome : Result (ProverProof CircuitId EvmProof)}
        (proof : ProverProof CircuitId EvmProof)
        → Run s req is_evm_proof tasks outcome
        → outcome ≡ ok proof
        → AreNodes tasks (λ fuel. nodes fuel req)
    run_tasks proof (invalid req is_evm_proof fails) e = cc
    run_tasks proof (refused req is_evm_proof split runs fails) e = cc
    run_tasks proof (failed req is_evm_proof split runs made fails) e = cc
    run_tasks proof (unrecorded req is_evm_proof split runs made executed fails) e = cc
    run_tasks proof
          (done req is_evm_proof {deps} {tasks} {all_tasks = whole} {outcomes} {task} {result}
            {params} split runs made executed known all)
          e =
        let (snarks, collected, routed, found) = task_for-eq-ok s req outcomes made in
        let (n, below) = all_tasks snarks runs collected in
        let own = own_node req task.0 found known in
        (
          suc n,
          λ fuel le.
              suc_fuel (λ f. Perm (params_of whole) (nodes f req)) n fuel le
                (λ f le2.
                  rw (all, params_of-append tasks ((result.task_id, params) ∷ []), own, split)
                    (Perm.append_right (req.params ∷ []) (below f le2))),
        )

    all_tasks :
        {deps : List (RecursiveRequest Root Claim)} {tasks : List (TaskId × NodeParams)}
        {outcomes : List (Result (ProverProof CircuitId EvmProof))} (snarks : List Snark)
        → RunAll s deps tasks outcomes
        → collect outcomes ≡ ok snarks
        → AreNodes tasks (λ fuel. all_nodes (nodes fuel) deps)
    all_tasks snarks all_joined e = (0, λ fuel le. Perm.refl [])
    all_tasks snarks (join dep {deps} {tasks} {others} {both} {outcome} {outcomes} run rest mixed)
          e =
        let (snark1, ended_first, e1) = >>=-eq-ok (outcome >>= snark_of) _ e in
        let (proof, ended, is_snark) = >>=-eq-ok outcome snark_of ended_first in
        let (snarks2, collected, e2) = >>=-eq-ok (collect outcomes) _ e1 in
        let (n, below) = run_tasks proof run ended in
        let (m, beside) = all_tasks snarks2 rest collected in
        (
          n + m,
          λ fuel le.
              Perm.trans (Interleave-Perm (params_of-Interleave mixed))
                (Perm.append (below fuel (omega arith)) (beside fuel (omega arith))),
        )

  -- If every circuit id stands for the node that has it, a run of the asynchronous scheduler that
  -- ends with a proof records, in whatever order its tasks are done, one task for each node of
  -- the tree of its request and no others: the nodes of the tasks are those of the tree up to the
  -- order, for every fuel from some number on.
  pub Run-nodes :
      {req : RecursiveRequest Root Claim} {is_evm_proof : Bool} {tasks : List (TaskId × NodeParams)}
      {proof : ProverProof CircuitId EvmProof}
      → Run s req is_evm_proof tasks (ok proof)
      → (n : ℕ) × ((more : ℕ) → Perm (params_of tasks) (nodes (n + more) req))
  Run-nodes {proof} run =
      let (n, are_nodes) = run_tasks proof run refl in
      (n, λ more. are_nodes (n + more) (omega arith))
