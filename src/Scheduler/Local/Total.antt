-- ===== src/Scheduler/Local/Total.antt =====
-- A valid request is proved: no assertion of the scheduler fails.
use worldcoin_aggregation.Prelude.{
  ℕ, zero, suc, ◌<◌, ◌≡◌, ◌∙◌, inl, inr, true, false, some, List, ok, err, arith, All, traverse,
  length, Bool-cases, Reason, panic, ◌==◌, ◌>>=◌,
}
use worldcoin_aggregation.Circuits.Snarks.{Snark}
use worldcoin_aggregation.Scheduler.NodeParams.{NodeType, NodeParams}
use worldcoin_aggregation.Scheduler.NodeParams.Children.{height}
use worldcoin_aggregation.Scheduler.NodeParams.Chain.{Below, next}
use worldcoin_aggregation.Scheduler.Request.{RecursiveRequest}
use worldcoin_aggregation.Scheduler.Request.Splits.{IsValid, IsDependency, dependencies-Splits}
use worldcoin_aggregation.Scheduler.Local.{
  LocalScheduler, RequestRouter, ProverProof, WorldcoinRequestEvm, handle_recursive_request,
  get_circuit_id, generate_proof, snark_of, recursive_gen_proof,
}
use worldcoin_aggregation.Scheduler.Local.Routes.{
  traverse_total, leaf_request_total, dependencies-leaf, above_total,
}

-- A scheduler that knows the circuit of every node from `top` down.
abbrev pub KnowsNodes :
    {Root Claim CircuitId EvmProof : Type 0}
    → NodeParams
    → LocalScheduler Root Claim CircuitId EvmProof
    → Type 0
KnowsNodes {CircuitId = CircuitId} top s =
    (p : NodeParams) → Below top p → (id : CircuitId) × (s.circuit_id_repo p ≡ some id)

-- A scheduler that knows the circuit of every node from `top` down, and whose prover does not fail.
pub record IsComplete {Root Claim CircuitId EvmProof : Type 0} (top : NodeParams)
    (s : LocalScheduler Root Claim CircuitId EvmProof) : Type 0 where
  pub knows : (p : NodeParams) → Below top p → (id : CircuitId) × (s.circuit_id_repo p ≡ some id)
  pub proves :
      (id : CircuitId) (request : RequestRouter Root Claim)
      → (proof : Snark) × (s.get_snark id request ≡ ok proof)
  pub proves_evm :
      (id : CircuitId) (request : WorldcoinRequestEvm)
      → (proof : EvmProof) × (s.get_evm_proof id request ≡ ok proof)

module _ {Root Claim CircuitId EvmProof : Type 0} {top : NodeParams}
    {s : LocalScheduler Root Claim CircuitId EvmProof} (complete : IsComplete top s) where
  generate_proof_total :
      (id : CircuitId) (router : RequestRouter Root Claim)
      → (proof : Snark) × (generate_proof s id router false ≡ ok (ProverProof.snark id proof))
  unfolding generate_proof
  generate_proof_total id (RequestRouter.leaf request) =
      let (proof, e) = complete.proves id (RequestRouter.leaf request) in (proof, rw e)
  generate_proof_total id (RequestRouter.intermediate request) =
      let (proof, e) = complete.proves id (RequestRouter.intermediate request) in (proof, rw e)
  generate_proof_total id (RequestRouter.root request) =
      let (proof, e) = complete.proves id (RequestRouter.root request) in (proof, rw e)
  generate_proof_total id (RequestRouter.evm request) =
      let (proof, e) = complete.proves id (RequestRouter.evm request) in (proof, rw e)

  -- The dependencies of a request are proved, if each request below it is.
  snarks_total :
      (fuel : ℕ) (req : RecursiveRequest Root Claim)
      → ((dep : RecursiveRequest Root Claim)
          → IsDependency req dep
          → (proof : Snark) × (id : CircuitId) × (recursive_gen_proof fuel s dep false
              ≡ ok (ProverProof.snark id proof)))
      → (deps : List (RecursiveRequest Root Claim)) → All (IsDependency req) deps
      → (snarks : List Snark) × (traverse
            (λ dep. recursive_gen_proof fuel s dep false >>= snark_of)
            deps
          ≡ ok snarks)
        × (length snarks ≡ length deps)
  unfolding snark_of
  snarks_total fuel req below deps h =
      traverse_total (λ dep. recursive_gen_proof fuel s dep false >>= snark_of) (IsDependency req)
        (λ dep is. let (proof, id, e) = below dep is in (proof, rw e)) deps h

  -- If the prover succeeds and the circuits of the nodes from top down are known, a valid request
  -- for one of these nodes is proved as a snark, with fuel above the height of its node: no
  -- assertion of the scheduler fails and nothing unreachable is reached.
  pub recursive_gen_proof_total :
      (fuel : ℕ) (req : RecursiveRequest Root Claim)
      → Below top req.params
      → IsValid req
      → height req.params < fuel
      → (proof : Snark) × (id : CircuitId) × (recursive_gen_proof fuel s req false
          ≡ ok (ProverProof.snark id proof))
  unfolding recursive_gen_proof get_circuit_id
  recursive_gen_proof_total zero req down v l = elim l [ ]
  recursive_gen_proof_total (suc fuel) req down v l =
      let (id, known) = complete.knows req.params down in
      elim (Bool-cases (req.params.depth == req.params.initial_depth)) [
        | inl same ↦
            let (request, built) = leaf_request_total req v in
            let (proof, proved) = generate_proof_total id (RequestRouter.leaf request) in
            (
              proof,
              id,
              unfold handle_recursive_request traverse in
                  rw (dependencies-leaf req v (ground arith), same, built, known, proved),
            )
        | inr other ↦
            let (deps, split, splits) = dependencies-Splits req v (ground arith) in
            let (snarks, gathered, len) =
              snarks_total fuel req
                (λ dep is.
                  recursive_gen_proof_total fuel dep (next down is.is_child.found) is.valid
                    (omega (arith, is.is_child.lower)))
                deps splits.each in
            let (router, built, evm) =
              above_total req snarks v (ground arith) (omega (arith, splits.some_dep))
                (omega (arith, splits.at_most_two)) (λ round e. len ∙ splits.one_for_evm round e) in
            let (proof, proved) = generate_proof_total id router in
            (proof, id, rw (split, gathered, built, known, proved))
      ]

  -- If the prover succeeds and the circuits of the nodes from top down are known, a valid request
  -- for an EVM node among these nodes above the depth of the leaves is answered by an EVM proof,
  -- with fuel above the height of its node.
  pub recursive_gen_proof_total_evm :
      (fuel round : ℕ) (req : RecursiveRequest Root Claim)
      → Below top req.params
      → IsValid req
      → req.params.node_type ≡ NodeType.evm round
      → req.params.initial_depth < req.params.depth
      → height req.params < fuel
      → (proof : EvmProof) × (recursive_gen_proof fuel s req true
          ≡ ok (ProverProof.evm_proof proof))
  unfolding recursive_gen_proof get_circuit_id generate_proof
  recursive_gen_proof_total_evm zero round req down v e above l = elim l [ ]
  recursive_gen_proof_total_evm (suc fuel) round req down v e above l =
      let (id, known) = complete.knows req.params down in
      let (deps, split, splits) = dependencies-Splits req v above in
      let (snarks, gathered, len) =
        snarks_total fuel req
          (λ dep is.
            recursive_gen_proof_total fuel dep (next down is.is_child.found) is.valid
              (omega (arith, is.is_child.lower)))
          deps splits.each in
      let (router, built, evm) =
        above_total req snarks v above (omega (arith, splits.some_dep))
          (omega (arith, splits.at_most_two)) (λ round e. len ∙ splits.one_for_evm round e) in
      let (request, shape) = evm round e in
      let (proof, proved) = complete.proves_evm id request in
      (proof, rw (split, gathered, built, known, shape, proved))

module _ {Root Claim CircuitId EvmProof : Type 0} {top : NodeParams}
    (s : LocalScheduler Root Claim CircuitId EvmProof) (knows : KnowsNodes top s) where
  -- If the circuits of the nodes from top down are known, a valid request for one of these nodes
  -- at the depth of the leaves, whatever its node type, that asks for an EVM proof reaches code
  -- that is marked unreachable.
  pub recursive_gen_proof_evm_leaf :
      (fuel : ℕ) (req : RecursiveRequest Root Claim)
      → Below top req.params
      → IsValid req
      → req.params.depth ≡ req.params.initial_depth
      → recursive_gen_proof (suc fuel) s req true ≡ err (panic Reason.unreachable)
  unfolding recursive_gen_proof get_circuit_id generate_proof
  recursive_gen_proof_evm_leaf fuel req down v e =
      let (id, known) = knows req.params down in
      let (request, built) = leaf_request_total req v in
      let same : (req.params.depth == req.params.initial_depth) ≡ true = ground arith in
      unfold handle_recursive_request traverse in rw (dependencies-leaf req v e, same, built, known)
