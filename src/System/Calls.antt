-- ===== src/System/Calls.antt =====
-- One call of the scheduler for a node that joins two proofs.
use worldcoin_aggregation.Prelude.{
  ℕ, suc, ◌<◌, ◌≡◌, false, Option, List, [], ◌∷◌, Result, ok, arith, traverse, length, ◌==◌, ◌>>=◌,
  some,
}
use worldcoin_aggregation.Circuits.Snarks.{Snark}
use worldcoin_aggregation.Scheduler.NodeParams.{NodeType, NodeParams}
use worldcoin_aggregation.Scheduler.NodeParams.Children.{IsJoining}
use worldcoin_aggregation.Scheduler.Request.{RecursiveRequest, dependencies}
use worldcoin_aggregation.Scheduler.Local.{
  ProverProof, RequestRouter, WorldcoinRequestEvm, WorldcoinRequestNode, two_snarks,
  handle_recursive_request, route, node_request, get_circuit_id, generate_proof, snark_of,
  recursive_gen_proof,
}
use worldcoin_aggregation.System.{scheduler}
use worldcoin_aggregation.System.Snarks.{node_of}

-- The local scheduler, asked for a snark.
abbrev pub gen :
    {Root Claim CircuitId EvmProof : Type 0}
    → (RequestRouter Root Claim → Result Snark)
    → (NodeParams → Option CircuitId)
    → (CircuitId → WorldcoinRequestEvm → Result EvmProof)
    → ℕ
    → RecursiveRequest Root Claim
    → Result (ProverProof CircuitId EvmProof)
gen prove circuit_id_repo get_evm_proof fuel req =
    recursive_gen_proof fuel (scheduler prove circuit_id_repo get_evm_proof) req false

-- The request for a node that joins two proofs.
abbrev pub router_of :
    {Root Claim : Type 0} → NodeType → WorldcoinRequestNode → RequestRouter Root Claim
router_of NodeType.root node = RequestRouter.root node
router_of NodeType.leaf node = RequestRouter.intermediate node
router_of NodeType.intermediate node = RequestRouter.intermediate node
router_of (NodeType.evm round) node = RequestRouter.intermediate node

module _ {Root Claim CircuitId EvmProof : Type 0} (prove : RequestRouter Root Claim → Result Snark)
    (circuit_id_repo : NodeParams → Option CircuitId)
    (get_evm_proof : CircuitId → WorldcoinRequestEvm → Result EvmProof) where
  route-router_of :
      (type : NodeType) (req : RecursiveRequest Root Claim) (snarks : List Snark) (x y : Snark)
      → IsJoining type
      → two_snarks snarks ≡ ok (x ∷ y ∷ [])
      → route type req snarks
        ≡ ok (
            router_of type
              (node_of req.start req.end req.params.depth req.params.initial_depth x y))
  unfolding route node_request
  route-router_of NodeType.leaf req snarks x y j two = absurd j
  route-router_of NodeType.intermediate req snarks x y j two = rw two
  route-router_of NodeType.root req snarks x y j two = rw two
  route-router_of (NodeType.evm round) req snarks x y j two = absurd j

  pub generate_proof-prove :
      (id : CircuitId) (router : RequestRouter Root Claim) {out : Snark}
      → prove router ≡ ok out
      → generate_proof (scheduler prove circuit_id_repo get_evm_proof) id router false
        ≡ ok (ProverProof.snark id out)
  unfolding generate_proof
  generate_proof-prove id (RequestRouter.leaf request) e = rw e
  generate_proof-prove id (RequestRouter.intermediate request) e = rw e
  generate_proof-prove id (RequestRouter.root request) e = rw e
  generate_proof-prove id (RequestRouter.evm request) e = rw e

  pub gen-joining :
      (fuel : ℕ) (req : RecursiveRequest Root Claim) (deps : List (RecursiveRequest Root Claim))
      (snarks : List Snark) (x y : Snark) (id : CircuitId) {out : Snark}
      → dependencies req ≡ ok deps
      → traverse (λ dep. gen prove circuit_id_repo get_evm_proof fuel dep >>= snark_of) deps
        ≡ ok snarks
      → 0 < length snarks
      → two_snarks snarks ≡ ok (x ∷ y ∷ [])
      → req.params.initial_depth < req.params.depth
      → IsJoining req.params.node_type
      → circuit_id_repo req.params ≡ some id
      → prove (
          router_of req.params.node_type
            (node_of req.start req.end req.params.depth req.params.initial_depth x y))
        ≡ ok out
      → gen prove circuit_id_repo get_evm_proof (suc fuel) req ≡ ok (ProverProof.snark id out)
  unfolding recursive_gen_proof get_circuit_id handle_recursive_request
  gen-joining fuel req deps snarks x y id split made pos two above joining known proved =
      let inner : (req.params.depth == req.params.initial_depth) ≡ false = ground arith in
      let some_snark : (length snarks == 0) ≡ false = ground arith in
      rw (
        split,
        made,
        inner,
        some_snark,
        route-router_of req.params.node_type req snarks x y joining two,
        known,
        generate_proof-prove id _ proved,
      )
