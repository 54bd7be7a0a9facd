-- ===== src/System.antt =====
-- The parts of the program together: the scheduler splits a request, the
-- factories build the inputs of the circuits, and the circuits show the claims. A prover is taken
-- here as what it does with one request (circuit/src/prover/mod.rs without its caches): the snark of
-- a circuit has the circuit's public instances, and those of an aggregation circuit begin with its
-- accumulator. The circuits that wrap the root proof are made outside the repository.
pub mod Fill
pub mod Snarks
pub mod Tree
pub mod Calls
pub mod Gathered
pub mod Nodes
pub mod Proved
pub mod Honest
pub mod Leaves
pub mod Ranges
pub mod V1
pub mod V2
pub mod Runs
use worldcoin_aggregation.Prelude.{ℕ, false, false, Option, List, [], Result, ok, ◌>>=◌}
use worldcoin_aggregation.Halo2.{Chip}
use worldcoin_aggregation.Circuits.Snarks.{Snark, Aggregator}
use worldcoin_aggregation.Circuits.Snarks.Removal.{positions}
use worldcoin_aggregation.Circuits.V1.Leaf as V1Leaf
use worldcoin_aggregation.Circuits.V1.Intermediate as V1Intermediate
use worldcoin_aggregation.Circuits.V1.Root as V1Root
use worldcoin_aggregation.Circuits.V2.Leaf as V2Leaf
use worldcoin_aggregation.Circuits.V2.Intermediate as V2Intermediate
use worldcoin_aggregation.Circuits.V2.Root as V2Root
use worldcoin_aggregation.Scheduler.NodeParams.{NodeParams}
use worldcoin_aggregation.Scheduler.Local.{LocalScheduler, RequestRouter, WorldcoinRequestEvm}
use worldcoin_aggregation.Scheduler.Factory.{
  Parsers, build_leaf, build_intermediate, build_intermediate_v2, build_root, build_root_v2,
}

-- What a prover is started with.
pub record Setup (Vk Root Claim : Type 0) : Type 0 where
  pub chip : Chip
  pub aggregator : Aggregator
  pub parsers : Parsers Vk Root Claim
  pub vk : Vk
  pub wrap : WorldcoinRequestEvm → Result Snark

-- A snark of an aggregation circuit.
abbrev pub aggregation_snark : Aggregator → List ℕ → Snark
aggregation_snark a out = record {
  instances = out;
  accumulator_indices = positions 0 a.num_fe_accumulator;
}

module _ {Vk Root Claim : Type 0} (s : Setup Vk Root Claim) where
  -- `get_snark` for each kind of request, without caches (Prover) and the file of the snark: the
  -- circuit is built and proved.
  unfoldable pub prove : RequestRouter Root Claim → Result Snark
  prove (RequestRouter.leaf request) = do
    input ← build_leaf s.parsers s.vk request
    out ← V1Leaf.virtual_assign_phase0 s.chip input
    ok (record { instances = out; accumulator_indices = [] })
  prove (RequestRouter.intermediate request) = do
    input ← build_intermediate request
    out ← V1Intermediate.build s.chip s.aggregator input
    ok (aggregation_snark s.aggregator out)
  prove (RequestRouter.root request) = do
    input ← build_root s.aggregator request
    out ← V1Root.virtual_assign_phase0 s.chip s.aggregator input
    ok (aggregation_snark s.aggregator out)
  prove (RequestRouter.evm request) = s.wrap request

  -- The same with the circuits of V2.
  unfoldable pub prove_v2 : RequestRouter Root Claim → Result Snark
  prove_v2 (RequestRouter.leaf request) = do
    input ← build_leaf s.parsers s.vk request
    out ← V2Leaf.virtual_assign_phase0 s.chip input
    ok (record { instances = out; accumulator_indices = [] })
  prove_v2 (RequestRouter.intermediate request) = do
    input ← build_intermediate_v2 s.aggregator request
    out ← V2Intermediate.virtual_assign_phase0_helper s.chip s.aggregator input false
    ok (aggregation_snark s.aggregator out)
  prove_v2 (RequestRouter.root request) = do
    input ← build_root_v2 s.aggregator request
    out ← V2Root.virtual_assign_phase0 s.chip s.aggregator input
    ok (aggregation_snark s.aggregator out)
  prove_v2 (RequestRouter.evm request) = s.wrap request

-- The local scheduler with such a prover.
abbrev pub scheduler :
    {Root Claim CircuitId EvmProof : Type 0}
    → (RequestRouter Root Claim → Result Snark)
    → (NodeParams → Option CircuitId)
    → (CircuitId → WorldcoinRequestEvm → Result EvmProof)
    → LocalScheduler Root Claim CircuitId EvmProof
scheduler prove circuit_id_repo get_evm_proof = record {
  circuit_id_repo = circuit_id_repo;
  get_snark = λ circuit_id request. prove request;
  get_evm_proof = get_evm_proof;
}
