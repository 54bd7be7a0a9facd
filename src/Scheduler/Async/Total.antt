-- ===== src/Scheduler/Async/Total.antt =====
-- A valid request is proved by the asynchronous scheduler.
use worldcoin_aggregation.Prelude.{
  ℕ, zero, suc, ◌<◌, ◌≡◌, refl, ap, ◌∙◌, inl, inr, true, false, some, List, [], ◌∷◌, ◌++◌, Result,
  ok, arith, All, traverse, length, Bool-cases, ◌==◌,
}
use worldcoin_aggregation.Prelude.Interleave.{in_order}
use worldcoin_aggregation.Prelude.Maps.{get}
use worldcoin_aggregation.Circuits.Snarks.{Snark}
use worldcoin_aggregation.Scheduler.NodeParams.{NodeType, NodeParams}
use worldcoin_aggregation.Scheduler.NodeParams.Children.{height}
use worldcoin_aggregation.Scheduler.NodeParams.Chain.{Below, next}
use worldcoin_aggregation.Scheduler.NodeParams.Order.{same}
use worldcoin_aggregation.Scheduler.Request.{RecursiveRequest, dependencies}
use worldcoin_aggregation.Scheduler.Request.Splits.{IsValid, IsDependency, dependencies-Splits}
use worldcoin_aggregation.Scheduler.Local.{
  RequestRouter, ProverProof, WorldcoinRequestEvm, handle_recursive_request, snark_of,
}
use worldcoin_aggregation.Scheduler.Local.Routes.{
  leaf_request_total, dependencies-leaf, above_total, IsEvm,
}
use worldcoin_aggregation.Scheduler.Async.{
  AsyncScheduler, Run, RunAll, done, all_joined, join, collect, task_for, get_circuit_id,
  recorded_params,
}

-- The tables have the circuits of the nodes from `top` down, and the node of each of their
-- circuit ids; and the executor can prove every task.
pub record IsComplete {Root Claim CircuitId EvmProof TaskId : Type 0} (top : NodeParams)
    (s : AsyncScheduler Root Claim CircuitId EvmProof TaskId) : Type 0 where
  pub knows :
      (p : NodeParams) → Below top p → (id : CircuitId) × (get same p s.circuit_id_repo ≡ some id)
  pub names :
      (p : NodeParams) (id : CircuitId)
      → get same p s.circuit_id_repo ≡ some id
      → (q : NodeParams) × (get s.same_id id s.cid_to_params ≡ some q)
  pub proves :
      (id : CircuitId) (router : RequestRouter Root Claim)
      → (task_id : TaskId) × (inner : Snark) × s.Executes id router false
          (ok (record { task_id = task_id; proof = ProverProof.snark id inner }))
  pub proves_evm :
      (id : CircuitId) (request : WorldcoinRequestEvm)
      → (task_id : TaskId) × (proof : EvmProof) × s.Executes id
          (RequestRouter.evm request)
          true
          (ok (record { task_id = task_id; proof = ProverProof.evm_proof proof }))

module _ {Root Claim CircuitId EvmProof TaskId : Type 0} {top : NodeParams}
    {s : AsyncScheduler Root Claim CircuitId EvmProof TaskId} (complete : IsComplete top s) where
  -- The request is proved by some run.
  abbrev pub IsProved : RecursiveRequest Root Claim → Type 0
  IsProved req =
      (tasks : List (TaskId × NodeParams)) × (id : CircuitId) × (inner : Snark) × Run s req false
        tasks (ok (ProverProof.snark id inner))

  -- All dependencies are proved, and their snarks collected.
  record Gathered (deps : List (RecursiveRequest Root Claim)) : Type 0 where
    tasks : List (TaskId × NodeParams)
    outcomes : List (Result (ProverProof CircuitId EvmProof))
    snarks : List Snark
    runs : RunAll s deps tasks outcomes
    collected : collect outcomes ≡ ok snarks
    counted : length snarks ≡ length deps

  gather :
      (P : RecursiveRequest Root Claim → Type 0)
      → ((dep : RecursiveRequest Root Claim) → P dep → IsProved dep)
      → (deps : List (RecursiveRequest Root Claim)) → All P deps
      → Gathered deps
  unfolding collect traverse snark_of
  gather P proved [] h = record {
    tasks = [];
    outcomes = [];
    snarks = [];
    runs = all_joined;
    collected = refl;
    counted = refl;
  }
  gather P proved (dep ∷ deps) h =
      let (tasks, id, inner, run) = proved dep h.0 in
      let others = gather P proved deps h.1 in
      record {
        tasks = tasks ++ others.tasks;
        outcomes = ok (ProverProof.snark id inner) ∷ others.outcomes;
        snarks = inner ∷ others.snarks;
        runs = join dep run others.runs (in_order tasks others.tasks);
        collected = rw others.collected refl;
        counted = ap suc others.counted;
      }

  -- The task of a request whose dependencies are proved.
  task_total :
      (req : RecursiveRequest Root Claim)
      (outcomes : List (Result (ProverProof CircuitId EvmProof))) (snarks : List Snark)
      (router : RequestRouter Root Claim)
      → Below top req.params
      → collect outcomes ≡ ok snarks
      → handle_recursive_request req snarks ≡ ok router
      → (id : CircuitId) × (task_for s req outcomes ≡ ok (id, router))
        × (q : NodeParams) × (recorded_params s id ≡ ok q)
  unfolding task_for get_circuit_id recorded_params
  task_total req outcomes snarks router down collected routed =
      let (id, known) = complete.knows req.params down in
      let (q, named) = complete.names req.params id known in
      (id, rw (collected, routed, known), q, rw named)

  -- A request whose task is made.
  record Prepared (req : RecursiveRequest Root Claim) : Type 0 where
    deps : List (RecursiveRequest Root Claim)
    tasks : List (TaskId × NodeParams)
    outcomes : List (Result (ProverProof CircuitId EvmProof))
    id : CircuitId
    router : RequestRouter Root Claim
    node : NodeParams
    split : dependencies req ≡ ok deps
    runs : RunAll s deps tasks outcomes
    made : task_for s req outcomes ≡ ok (id, router)
    named : recorded_params s id ≡ ok node
    evm :
        (round : ℕ)
        → req.params.node_type ≡ NodeType.evm round
        → req.params.initial_depth < req.params.depth
        → IsEvm router

  prepare_leaf :
      (req : RecursiveRequest Root Claim)
      → Below top req.params
      → IsValid req
      → (req.params.depth == req.params.initial_depth) ≡ true
      → Prepared req
  unfolding handle_recursive_request collect traverse
  prepare_leaf req down v flat =
      let (request, built) = leaf_request_total req v in
      let (id, made, q, named) =
        task_total req [] [] (RequestRouter.leaf request) down refl (rw (flat, built)) in
      record {
        deps = [];
        tasks = [];
        outcomes = [];
        id = id;
        router = RequestRouter.leaf request;
        node = q;
        split = dependencies-leaf req v (ground arith);
        runs = all_joined;
        made = made;
        named = named;
        evm = λ round e above. absurd (ground arith);
      }

  prepare_above :
      (req : RecursiveRequest Root Claim)
      → Below top req.params
      → IsValid req
      → req.params.initial_depth < req.params.depth
      → ((dep : RecursiveRequest Root Claim) → IsDependency req dep → IsProved dep)
      → Prepared req
  prepare_above req down v above proved =
      let (deps, split, splits) = dependencies-Splits req v above in
      let below = gather (IsDependency req) proved deps splits.each in
      let (router, built, evm) =
        above_total req below.snarks v above (omega (arith, splits.some_dep, below.counted))
          (omega (arith, splits.at_most_two, below.counted))
          (λ round e. below.counted ∙ splits.one_for_evm round e) in
      let (id, made, q, named) =
        task_total req below.outcomes below.snarks router down below.collected built in
      record {
        deps = deps;
        tasks = below.tasks;
        outcomes = below.outcomes;
        id = id;
        router = router;
        node = q;
        split = split;
        runs = below.runs;
        made = made;
        named = named;
        evm = λ round e up. evm round e;
      }

  prepare :
      (req : RecursiveRequest Root Claim)
      → Below top req.params
      → IsValid req
      → ((dep : RecursiveRequest Root Claim) → IsDependency req dep → IsProved dep)
      → Prepared req
  prepare req down v proved = elim (Bool-cases (req.params.depth == req.params.initial_depth)) [
    | inl flat ↦ prepare_leaf req down v flat
    | inr tall ↦ prepare_above req down v (ground (arith, v.placed)) proved
  ]

  Below-IsProved :
      (fuel : ℕ) (req : RecursiveRequest Root Claim)
      → Below top req.params
      → IsValid req
      → height req.params < fuel
      → IsProved req
  Below-IsProved zero req down v l = elim l [ ]
  Below-IsProved (suc fuel) req down v l =
      let p = prepare req down v (λ dep is.
        Below-IsProved fuel dep (next down is.is_child.found) is.valid
          (omega (arith, is.is_child.lower))) in
      let (task_id, inner, executed) = complete.proves p.id p.router in
      (
        p.tasks ++ ((task_id, p.node) ∷ []),
        p.id,
        inner,
        done req false p.split p.runs p.made executed p.named refl,
      )

  -- If the tables have the circuits of the nodes from `top` down, and the executor can prove
  -- every task, some run proves a valid request for an EVM node among these nodes, above the
  -- depth of the leaves: it ends with an EVM proof.
  pub IsComplete-Run :
      (round : ℕ) (req : RecursiveRequest Root Claim)
      → Below top req.params
      → IsValid req
      → req.params.node_type ≡ NodeType.evm round
      → req.params.initial_depth < req.params.depth
      → (tasks : List (TaskId × NodeParams)) × (proof : EvmProof) × Run s req true tasks
          (ok (ProverProof.evm_proof proof))
  IsComplete-Run round req down v e above =
      let p = prepare req down v (λ dep is.
        Below-IsProved (suc (height dep.params)) dep (next down is.is_child.found) is.valid
          (omega arith)) in
      let (request, shape) = p.evm round e above in
      let (task_id, proof, executed) = complete.proves_evm p.id request in
      (
        p.tasks ++ ((task_id, p.node) ∷ []),
        proof,
        done req true p.split p.runs p.made (rw shape executed) p.named refl,
      )
