-- ===== src/Scheduler/Local.antt =====
-- circuit/src/scheduler/mod.rs and circuit/src/scheduler/local_scheduler.rs: the scheduler that
-- proves everything in one process. The prover and the table of circuit ids are its parameters; the
-- verifying key, a constant, is left out of the leaf requests, and the task ids out of the results.
pub mod Routes
pub mod Total
use worldcoin_aggregation.Prelude.{
  ℕ, zero, suc, Bool, true, false, not, Option, none, some, List, [], ◌∷◌, Result, ok, err, bail,
  panic, Reason, assert, bail_if, or_fault, traverse, index, resize, length, ltb, leb,
  if◌then◌else◌, ◌==◌, ◌>>=◌, ◌>>◌,
}
use worldcoin_aggregation.Prelude.Words.{sub32, shl32}
use worldcoin_aggregation.Circuits.Snarks.{Snark}
use worldcoin_aggregation.Scheduler.NodeParams.{NodeType, NodeParams}
use worldcoin_aggregation.Scheduler.Request.{RecursiveRequest, dependencies}

pub record WorldcoinRequestLeaf (Root Claim : Type 0) : Type 0 where
  pub start : ℕ
  pub end : ℕ
  pub depth : ℕ
  pub root : Root
  pub claims : List Claim

-- `WorldcoinRequestIntermediate` and `WorldcoinRequestRoot`
pub record WorldcoinRequestNode : Type 0 where
  pub start : ℕ
  pub end : ℕ
  pub depth : ℕ
  pub initial_depth : ℕ
  pub snarks : List Snark

pub record WorldcoinRequestEvm : Type 0 where
  pub start : ℕ
  pub end : ℕ
  pub depth : ℕ
  pub initial_depth : ℕ
  pub round : ℕ
  pub snark : Snark

pub data RequestRouter (Root Claim : Type 0) : Type 0 where
  leaf : WorldcoinRequestLeaf Root Claim → RequestRouter Root Claim
  intermediate root : WorldcoinRequestNode → RequestRouter Root Claim
  evm : WorldcoinRequestEvm → RequestRouter Root Claim

pub data ProverProof (CircuitId EvmProof : Type 0) : Type 0 where
  snark : CircuitId → Snark → ProverProof CircuitId EvmProof
  evm_proof : EvmProof → ProverProof CircuitId EvmProof

-- `LocalScheduler`: the table of circuit ids and the two calls that it makes of its prover.
pub record LocalScheduler (Root Claim CircuitId EvmProof : Type 0) : Type 0 where
  pub circuit_id_repo : NodeParams → Option CircuitId
  pub get_snark : CircuitId → RequestRouter Root Claim → Result Snark
  pub get_evm_proof : CircuitId → WorldcoinRequestEvm → Result EvmProof

-- One snark is doubled: the second is a dummy.
unfoldable pub two_snarks : List Snark → Result (List Snark)
two_snarks snarks = do
  assert (leb (length snarks) 2)
  if length snarks == 2 then ok snarks else do first ← index snarks 0; ok (resize 2 first snarks)

unfoldable pub snark_of :
    {CircuitId EvmProof : Type 0} → ProverProof CircuitId EvmProof → Result Snark
snark_of (ProverProof.snark circuit_id inner) = ok inner
snark_of (ProverProof.evm_proof proof) = err (panic Reason.unreachable)

module _ {Root Claim : Type 0} where
  unfoldable pub get_request_leaf :
      ℕ → ℕ → ℕ → Root → List Claim → Result (WorldcoinRequestLeaf Root Claim)
  get_request_leaf start end depth world_root claims = do
    bail_if (ltb (shl32 depth) (sub32 end start)) Reason.too_many_proofs
    ok (record { start = start; end = end; depth = depth; root = world_root; claims = claims })

  unfoldable pub node_request :
      RecursiveRequest Root Claim → List Snark → Result WorldcoinRequestNode
  node_request req snarks = do
    two ← two_snarks snarks
    ok (record {
      start = req.start;
      end = req.end;
      depth = req.params.depth;
      initial_depth = req.params.initial_depth;
      snarks = two;
    })

  -- The request above the leaves, by the type of its node.
  unfoldable pub route :
      NodeType → RecursiveRequest Root Claim → List Snark → Result (RequestRouter Root Claim)
  route NodeType.leaf req snarks = err (panic Reason.unreachable)
  route NodeType.intermediate req snarks = do
    node ← node_request req snarks
    ok (RequestRouter.intermediate node)
  route NodeType.root req snarks = do node ← node_request req snarks; ok (RequestRouter.root node)
  route (NodeType.evm round) req snarks = do
    assert (length snarks == 1)
    last ← index snarks 0
    ok (
        RequestRouter.evm (record {
          start = req.start;
          end = req.end;
          depth = req.params.depth;
          initial_depth = req.params.initial_depth;
          round = round;
          snark = last;
        }))

  unfoldable pub leaf_request : RecursiveRequest Root Claim → Result (RequestRouter Root Claim)
  leaf_request req = do
    request ← get_request_leaf req.start req.end req.params.depth req.root req.claims
    ok (RequestRouter.leaf request)

  -- `handle_recursive_request`, after the snarks of the dependencies.
  unfoldable pub handle_recursive_request :
      RecursiveRequest Root Claim → List Snark → Result (RequestRouter Root Claim)
  handle_recursive_request req snarks =
      if req.params.depth == req.params.initial_depth
      then leaf_request req
      else do assert (not (length snarks == 0)); route req.params.node_type req snarks

module _ {Root Claim CircuitId EvmProof : Type 0} where
  unfoldable pub get_circuit_id :
      LocalScheduler Root Claim CircuitId EvmProof → RecursiveRequest Root Claim → Result CircuitId
  get_circuit_id s req = or_fault (s.circuit_id_repo req.params) (bail Reason.circuit_id_not_found)

  unfoldable pub generate_proof :
      LocalScheduler Root Claim CircuitId EvmProof
      → CircuitId
      → RequestRouter Root Claim
      → Bool
      → Result (ProverProof CircuitId EvmProof)
  generate_proof s circuit_id (RequestRouter.evm request) true = do
    proof ← s.get_evm_proof circuit_id request
    ok (ProverProof.evm_proof proof)
  generate_proof s circuit_id (RequestRouter.leaf request) true = err (panic Reason.unreachable)
  generate_proof s circuit_id (RequestRouter.intermediate request) true =
      err (panic Reason.unreachable)
  generate_proof s circuit_id (RequestRouter.root request) true = err (panic Reason.unreachable)
  generate_proof s circuit_id request false = do
    inner ← s.get_snark circuit_id request
    ok (ProverProof.snark circuit_id inner)

  -- `recursive_gen_proof`, with fuel for the levels of the tree; the round of `traverse` is
  -- `get_snarks_for_deps`.
  unfoldable pub recursive_gen_proof :
      ℕ
      → LocalScheduler Root Claim CircuitId EvmProof
      → RecursiveRequest Root Claim
      → Bool
      → Result (ProverProof CircuitId EvmProof)
  recursive_gen_proof zero s req is_evm_proof = err (panic Reason.out_of_fuel)
  recursive_gen_proof (suc fuel) s req is_evm_proof = do
    deps ← dependencies req
    snarks ← traverse (λ dep. recursive_gen_proof fuel s dep false >>= snark_of) deps
    router ← handle_recursive_request req snarks
    circuit_id ← get_circuit_id s req
    generate_proof s circuit_id router is_evm_proof
