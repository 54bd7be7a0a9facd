-- ===== src/Tests/Trees.antt =====
-- The theorems on the aggregation tree, applied to two leaves and the root above them.
use worldcoin_aggregation.Prelude.{
  ℕ, ◌+◌, ◌<◌, ◌≡◌, refl, List, [], ◌∷◌, ◌++◌, Result, ok, err, arith, All, replicate, slice,
  traverse,
}
use worldcoin_aggregation.Halo2.{HiLo}
use worldcoin_aggregation.Circuits.Claims.{ClaimInput, WorldcoinLeafInput}
use worldcoin_aggregation.Circuits.Snarks.{Snark, remove_old_accumulators}
use worldcoin_aggregation.Circuits.V1.Leaf
use worldcoin_aggregation.Circuits.V1.Intermediate.{WorldcoinIntermediateAggregationInput}
use worldcoin_aggregation.Circuits.V1.Batch.{Batch}
use worldcoin_aggregation.Circuits.V1.Tree.{Accepted, Accepted-Batch}
use worldcoin_aggregation.Circuits.V1.Root.{WorldcoinRootAggregationInput}
use worldcoin_aggregation.Circuits.V1.Root
use worldcoin_aggregation.Circuits.V1.Root.Output.{RootOutput, virtual_assign_phase0_sound}
use worldcoin_aggregation.Circuits.V2.Leaf.Leaves.{InField}
use worldcoin_aggregation.Circuits.V2.Intermediate.{WorldcoinIntermediateAggregationInputV2}
use worldcoin_aggregation.Circuits.V2.ClaimTrees.{ClaimTree}
use worldcoin_aggregation.Circuits.V2.Tree.{AcceptedV2, AcceptedV2-ClaimTree}
use worldcoin_aggregation.Circuits.V2.Root.{
  WorldcoinRootAggregationInputV2, RootOutputV2, virtual_assign_phase0-RootOutputV2,
}
use worldcoin_aggregation.Circuits.V2.Leaf as LeafV2
use worldcoin_aggregation.Circuits.V2.Root as RootV2
use mathlib.Core.List.{flatten}
use worldcoin_aggregation.Prelude.Words.{shl64, sub64, word64}
use worldcoin_aggregation.Halo2.{be_bytes, from_be_bytes}
use worldcoin_aggregation.Circuits.Utils.{bytes_of, get_vk_hash}
use worldcoin_aggregation.Circuits.Claims.{check_range, verify_claim}
use worldcoin_aggregation.Circuits.Snarks.{remove_each, sorted_rev, insert_desc, remove}
use worldcoin_aggregation.Circuits.Shared.{
  check_and_join_shared_instances, join_indices, constrain_equal_range,
}
use worldcoin_aggregation.Circuits.Merkle.{
  compute_keccak_merkle_tree, merkle_tree_fuel, is_power_of_two, next_level,
  compute_keccak_for_branch_nodes, dummy_claim_roots, dummy_levels,
}
use worldcoin_aggregation.Circuits.V1.Intermediate as IntermediateV1
use worldcoin_aggregation.Circuits.V2.Intermediate as IntermediateV2
use worldcoin_aggregation.Tests.Chips.{lookups, toy_chip, toy_chip-IsChip, toy_aggregator}

abbrev claim_of : ℕ → ClaimInput
claim_of i = record {
  receiver = 100 + i;
  nullifier_hash = 200 + i;
  grant_id = 30;
  proof_bytes = 7 ∷ i ∷ [];
}

-- The leaf of depth 0 for the claim `i`.
abbrev leaf_input : ℕ → WorldcoinLeafInput
leaf_input i = record {
  start = i;
  end = i + 1;
  vk_bytes = replicate 48 5;
  root = 12345;
  claims = claim_of i ∷ [];
  num_public_inputs = 4;
  max_depth = 0;
}

claim_of-InField : (i : ℕ) → i < 100 → All (InField toy_chip) (claim_of i ∷ [])
unfolding toy_chip
claim_of-InField i l = (
  record { grant_id_lt = omega arith; receiver_lt = omega arith; nullifier_hash_lt = omega arith },
  tt,
)

abbrev value : Result (List ℕ) → List ℕ
value (ok xs) = xs
value (err e) = []

abbrev leaf_out : ℕ → List ℕ
leaf_out i = value (Leaf.virtual_assign_phase0 toy_chip (leaf_input i))

leaf_runs_0 : Leaf.virtual_assign_phase0 toy_chip (leaf_input 0) ≡ ok (leaf_out 0)
unfolding Leaf.virtual_assign_phase0 toy_chip check_range shl64 get_vk_hash bytes_of traverse
    flatten be_bytes verify_claim
leaf_runs_0 = refl

leaf_runs_1 : Leaf.virtual_assign_phase0 toy_chip (leaf_input 1) ≡ ok (leaf_out 1)
unfolding Leaf.virtual_assign_phase0 toy_chip check_range shl64 get_vk_hash bytes_of traverse
    flatten be_bytes verify_claim
leaf_runs_1 = refl

accepted_0 : Accepted toy_chip 0 (leaf_out 0)
accepted_0 = Accepted.leaf (leaf_input 0) refl refl leaf_runs_0

accepted_1 : Accepted toy_chip 0 (leaf_out 1)
accepted_1 = Accepted.leaf (leaf_input 1) refl refl leaf_runs_1

Accepted-Batch_example : Batch toy_chip 0 (leaf_out 1)
Accepted-Batch_example = Accepted-Batch toy_chip-IsChip (omega arith) accepted_1

abbrev snark_of_leaf : ℕ → Snark
snark_of_leaf i = record { instances = leaf_out i; accumulator_indices = [] }

abbrev root_input : WorldcoinRootAggregationInput
root_input = record {
  inner = record {
    num_proofs = 2;
    snarks = snark_of_leaf 0 ∷ snark_of_leaf 1 ∷ [];
    max_depth = 1;
    initial_depth = 0;
  };
  prev_acc_indices = [] ∷ [] ∷ [];
}

abbrev root_out : List ℕ
root_out = value (Root.virtual_assign_phase0 toy_chip toy_aggregator root_input)

root_runs : Root.virtual_assign_phase0 toy_chip toy_aggregator root_input ≡ ok root_out
unfolding Root.virtual_assign_phase0 Root.output_hash Root.output_of
    IntermediateV1.join_previous_instances IntermediateV1.get_num_instance
    Leaf.virtual_assign_phase0 toy_chip check_range shl64 get_vk_hash bytes_of traverse flatten
    be_bytes verify_claim from_be_bytes slice word64 sub64 remove_old_accumulators remove_each
    sorted_rev insert_desc remove check_and_join_shared_instances join_indices constrain_equal_range
    lookups
root_runs = refl

virtual_assign_phase0_sound_example :
    (hash : HiLo) × (root_out ≡ (1 ∷ 2 ∷ []) ++ (hash.hi ∷ hash.lo ∷ []))
    × RootOutput toy_chip 1 2 hash
unfolding remove_old_accumulators remove_each sorted_rev
virtual_assign_phase0_sound_example =
    virtual_assign_phase0_sound toy_chip-IsChip toy_aggregator root_input 0 (omega arith) refl refl
      refl accepted_0 accepted_1 root_runs

abbrev leaf_out_v2 : ℕ → List ℕ
leaf_out_v2 i = value (LeafV2.virtual_assign_phase0 toy_chip (leaf_input i))

leaf_v2_runs_0 : LeafV2.virtual_assign_phase0 toy_chip (leaf_input 0) ≡ ok (leaf_out_v2 0)
unfolding LeafV2.virtual_assign_phase0 toy_chip check_range shl64 get_vk_hash bytes_of traverse
    flatten be_bytes verify_claim LeafV2.izip LeafV2.leaf_of compute_keccak_merkle_tree
    merkle_tree_fuel is_power_of_two next_level compute_keccak_for_branch_nodes
leaf_v2_runs_0 = refl

leaf_v2_runs_1 : LeafV2.virtual_assign_phase0 toy_chip (leaf_input 1) ≡ ok (leaf_out_v2 1)
unfolding LeafV2.virtual_assign_phase0 toy_chip check_range shl64 get_vk_hash bytes_of traverse
    flatten be_bytes verify_claim LeafV2.izip LeafV2.leaf_of compute_keccak_merkle_tree
    merkle_tree_fuel is_power_of_two next_level compute_keccak_for_branch_nodes
leaf_v2_runs_1 = refl

accepted_v2_0 : AcceptedV2 toy_chip 0 (leaf_out_v2 0)
accepted_v2_0 =
    AcceptedV2.leaf (leaf_input 0) refl (claim_of-InField 0 (omega arith)) leaf_v2_runs_0

accepted_v2_1 : AcceptedV2 toy_chip 0 (leaf_out_v2 1)
accepted_v2_1 =
    AcceptedV2.leaf (leaf_input 1) refl (claim_of-InField 1 (omega arith)) leaf_v2_runs_1

AcceptedV2-ClaimTree_example : ClaimTree toy_chip 0 (leaf_out_v2 1)
AcceptedV2-ClaimTree_example = AcceptedV2-ClaimTree toy_chip-IsChip (omega arith) accepted_v2_1

abbrev snark_of_leaf_v2 : ℕ → Snark
snark_of_leaf_v2 i = record { instances = leaf_out_v2 i; accumulator_indices = [] }

abbrev root_input_v2 : WorldcoinRootAggregationInputV2
root_input_v2 = record {
  inner = record {
    num_proofs = 2;
    snarks = snark_of_leaf_v2 0 ∷ snark_of_leaf_v2 1 ∷ [];
    max_depth = 1;
    initial_depth = 0;
    prev_acc_indices = [] ∷ [] ∷ [];
  };
}

abbrev root_out_v2 : List ℕ
root_out_v2 = value (RootV2.virtual_assign_phase0 toy_chip toy_aggregator root_input_v2)

root_v2_runs : RootV2.virtual_assign_phase0 toy_chip toy_aggregator root_input_v2 ≡ ok root_out_v2
unfolding RootV2.virtual_assign_phase0 IntermediateV2.virtual_assign_phase0_helper
    IntermediateV2.exposed IntermediateV2.join_previous_instances IntermediateV2.join_claim_roots
    dummy_claim_roots dummy_levels LeafV2.virtual_assign_phase0 toy_chip check_range shl64
    get_vk_hash bytes_of traverse flatten be_bytes verify_claim from_be_bytes slice word64 sub64
    remove_old_accumulators remove_each sorted_rev insert_desc remove
    check_and_join_shared_instances join_indices constrain_equal_range LeafV2.izip LeafV2.leaf_of
    compute_keccak_merkle_tree merkle_tree_fuel is_power_of_two next_level
    compute_keccak_for_branch_nodes lookups
root_v2_runs = refl

virtual_assign_phase0-RootOutputV2_example :
    (shown : List ℕ) × (root_out_v2 ≡ (1 ∷ 2 ∷ []) ++ shown) × RootOutputV2 toy_chip 1 2 shown
unfolding remove_old_accumulators remove_each sorted_rev
virtual_assign_phase0-RootOutputV2_example =
    virtual_assign_phase0-RootOutputV2 toy_chip-IsChip toy_aggregator root_input_v2 0 (omega arith)
      refl refl refl accepted_v2_0 accepted_v2_1 root_v2_runs
