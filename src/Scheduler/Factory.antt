-- ===== src/Scheduler/Factory.antt =====
-- circuit/src/circuit_factory: the checks that a proof request passes before its circuit is built,
-- and the input of the circuit; and `WorldcoinLeafInput::new` of circuit/src/circuits/v1/leaf.rs. The
-- circuits themselves are built by a library. The parsers of the texts in a claim are a parameter.
pub mod Inputs
pub mod Native
pub mod Sent
use worldcoin_aggregation.Prelude.{
  ℕ, ◌+◌, not, Option, List, Result, ok, err, bail, panic, Reason, assert, bail_if, or_fault,
  traverse, index, resize, length, take, ltb, leb, ◌==◌, ◌>>=◌, ◌>>◌,
}
use worldcoin_aggregation.Prelude.Words.{sub32, shl32, shl64}
use worldcoin_aggregation.Circuits.Utils.{max_groth16_pi}
use worldcoin_aggregation.Circuits.Claims.{ClaimInput, WorldcoinLeafInput}
use worldcoin_aggregation.Circuits.Snarks.{Aggregator}
use worldcoin_aggregation.Circuits.V1.Intermediate.{WorldcoinIntermediateAggregationInput}
use worldcoin_aggregation.Circuits.V1.Intermediate as V1Intermediate
use worldcoin_aggregation.Circuits.V1.Root.{WorldcoinRootAggregationInput}
use worldcoin_aggregation.Circuits.V1.Root as V1Root
use worldcoin_aggregation.Circuits.V2.Intermediate.{WorldcoinIntermediateAggregationInputV2}
use worldcoin_aggregation.Circuits.V2.Intermediate as V2Intermediate
use worldcoin_aggregation.Circuits.V2.Root.{WorldcoinRootAggregationInputV2}
use worldcoin_aggregation.Circuits.V2.Root as V2Root
use worldcoin_aggregation.Scheduler.Local.{WorldcoinRequestLeaf, WorldcoinRequestNode}

-- The texts of a key, a root and a claim as field elements, where they can be read.
pub record Parsers (Vk Root Claim : Type 0) : Type 0 where
  pub parse_vk : Vk → ℕ → Option (List ℕ)
  pub parse_root : Root → Option ℕ
  pub parse_claim : Claim → Option ClaimInput

module _ {Vk Root Claim : Type 0} (parsers : Parsers Vk Root Claim) where
  -- `WorldcoinLeafInput::new`
  unfoldable pub new_leaf_input : Vk → Root → ℕ → ℕ → ℕ → List Claim → Result WorldcoinLeafInput
  new_leaf_input vk world_root start end max_depth claims = do
    let num_proofs = sub32 end start
    assert (length claims == num_proofs)
    assert (ltb 0 num_proofs)
    let max_proofs = shl64 max_depth
    vk_bytes ← or_fault (parsers.parse_vk vk max_groth16_pi) (panic Reason.unwrap_none)
    claims_input ←
        traverse (λ claim. or_fault (parsers.parse_claim claim) (panic Reason.unwrap_none)) claims
    first ← index claims_input 0
    root_element ← or_fault (parsers.parse_root world_root) (panic Reason.unwrap_none)
    ok (record {
      start = start;
      end = end;
      vk_bytes = vk_bytes;
      root = root_element;
      claims = resize max_proofs first claims_input;
      num_public_inputs = max_groth16_pi + 1;
      max_depth = max_depth;
    })

  -- `WorldcoinRequestLeaf::build`
  unfoldable pub build_leaf : Vk → WorldcoinRequestLeaf Root Claim → Result WorldcoinLeafInput
  build_leaf vk request = do
    bail_if (leb request.end request.start) Reason.invalid_range
    let num_proofs = sub32 request.end request.start
    bail_if (ltb (shl32 request.depth) num_proofs) Reason.too_many_proofs
    new_leaf_input vk request.root request.start request.end request.depth request.claims

-- `WorldcoinRequestIntermediate::build` of V1, up to the input of the circuit.
unfoldable pub build_intermediate :
    WorldcoinRequestNode → Result WorldcoinIntermediateAggregationInput
build_intermediate request =
    V1Intermediate.new request.snarks (sub32 request.end request.start) request.depth
      request.initial_depth

-- `WorldcoinRequestIntermediate::build` of V2.
unfoldable pub build_intermediate_v2 :
    Aggregator → WorldcoinRequestNode → Result WorldcoinIntermediateAggregationInputV2
build_intermediate_v2 a request =
    V2Intermediate.new a request.snarks (sub32 request.end request.start) request.depth
      request.initial_depth

-- The checks of `WorldcoinRequestRoot::build`; returns the number of proofs.
unfoldable pub check_root : WorldcoinRequestNode → Result ℕ
check_root request = do
  bail_if (ltb request.end request.start) Reason.invalid_range
  let num_proofs = sub32 request.end request.start
  bail_if (ltb (shl32 request.depth) num_proofs) Reason.too_many_proofs
  ok num_proofs

-- `WorldcoinRequestRoot::build` of V1 and of V2.
unfoldable pub build_root : Aggregator → WorldcoinRequestNode → Result WorldcoinRootAggregationInput
build_root a request = do
  num_proofs ← check_root request
  V1Root.new a request.snarks num_proofs request.depth request.initial_depth

unfoldable pub build_root_v2 :
    Aggregator → WorldcoinRequestNode → Result WorldcoinRootAggregationInputV2
build_root_v2 a request = do
  num_proofs ← check_root request
  V2Root.new a request.snarks num_proofs request.depth request.initial_depth
