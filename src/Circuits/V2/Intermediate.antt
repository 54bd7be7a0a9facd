-- ===== src/Circuits/V2/Intermediate.antt =====
-- circuit/src/circuits/v2/intermediate.rs: the V2 aggregation circuit joins two proofs and the
-- Merkle roots of their claims.
use worldcoin_aggregation.Prelude.{
  ℕ, ◌+◌, Bool, true, false, List, [], ◌∷◌, ◌++◌, Result, ok, assert, index, slice, length, ◌==◌,
  ◌>>=◌, ◌>>◌,
}
use worldcoin_aggregation.Prelude.Words.{sub64, word64}
use worldcoin_aggregation.Halo2.{Chip, from_be_bytes}
use worldcoin_aggregation.Circuits.Shared.{check_and_join_shared_instances}
use worldcoin_aggregation.Circuits.Merkle.{compute_keccak_for_branch_nodes, dummy_claim_roots}
use worldcoin_aggregation.Circuits.Snarks.{
  Snark, Aggregator, get_accumulator_indices, check_accumulators, remove_old_accumulators, pair_of,
}

pub record WorldcoinIntermediateAggregationInputV2 : Type 0 where
  pub num_proofs : ℕ
  pub snarks : List Snark
  pub max_depth : ℕ
  pub initial_depth : ℕ
  pub prev_acc_indices : List (List ℕ)

-- `WorldcoinIntermediateAggregationInputV2::new`, which the root circuit's `new` calls.
unfoldable pub new :
    Aggregator → List Snark → ℕ → ℕ → ℕ → Result WorldcoinIntermediateAggregationInputV2
new a snarks num_proofs max_depth initial_depth = do
  let prev_acc_indices = get_accumulator_indices snarks
  check_accumulators a prev_acc_indices max_depth initial_depth
  ok (record {
    num_proofs = num_proofs;
    snarks = snarks;
    max_depth = max_depth;
    initial_depth = initial_depth;
    prev_acc_indices = prev_acc_indices;
  })

abbrev pub num_instance : ℕ
num_instance = 7

abbrev pub root_num_instance : ℕ
root_num_instance = 6

-- The claim root of the two proofs, where that of a dummy proof is replaced.
unfoldable pub join_claim_roots : Chip → List ℕ → List ℕ → ℕ → ℕ → Result (List ℕ)
join_claim_roots c instances0 instances1 is_2nd_proof_dummy max_depth = do
  roots ← dummy_claim_roots c
  dummy_claim_root ← index roots (sub64 max_depth 1)
  dummy_hi_bytes ← slice dummy_claim_root 0 16
  dummy_lo_bytes ← slice dummy_claim_root 16 (length dummy_claim_root)
  left_hi ← index instances0 5
  left_lo ← index instances0 6
  right_hi ← index instances1 5
  right_lo ← index instances1 6
  claim_root ←
      compute_keccak_for_branch_nodes c (record { hi = left_hi; lo = left_lo })
        (record {
          hi = c.select (from_be_bytes dummy_hi_bytes) right_hi is_2nd_proof_dummy;
          lo = c.select (from_be_bytes dummy_lo_bytes) right_lo is_2nd_proof_dummy;
        })
  ok (claim_root.hi ∷ claim_root.lo ∷ [])

-- The instances of the joined proof, from those of the two proofs without their accumulators.
unfoldable pub join_previous_instances : Chip → List ℕ → List ℕ → ℕ → ℕ → Result (List ℕ)
join_previous_instances c instances0 instances1 num_proofs max_depth = do
  joined ← check_and_join_shared_instances c instances0 instances1 num_proofs max_depth num_instance
  claim_root ← join_claim_roots c instances0 instances1 joined.1 max_depth
  ok (joined.0 ++ claim_root)

-- What the circuit exposes besides the accumulator.
unfoldable pub exposed : List ℕ → ℕ → Bool → Result (List ℕ)
exposed new_instances num_proofs true = do
  shared ← slice new_instances 2 5
  claim_root ← slice new_instances 5 7
  ok (shared ++ (num_proofs ∷ claim_root))
exposed new_instances num_proofs false = slice new_instances 0 7

-- The number of instances that the two kinds of circuit expose besides the accumulator.
abbrev pub num_exposed : Bool → ℕ
num_exposed true = root_num_instance
num_exposed false = num_instance

-- The public instances, if the constraints hold; `expose_num_proofs` in the root circuit.
unfoldable pub virtual_assign_phase0_helper :
    Chip → Aggregator → WorldcoinIntermediateAggregationInputV2 → Bool → Result (List ℕ)
virtual_assign_phase0_helper c a input expose_num_proofs = do
  aggregated ← a.aggregate_snarks input.snarks
  previous_instances ← remove_old_accumulators aggregated.0 input.prev_acc_indices
  two ← pair_of previous_instances
  new_instances ← join_previous_instances c two.0 two.1 input.num_proofs input.max_depth
  shown ← exposed new_instances input.num_proofs expose_num_proofs
  let assigned_instances = aggregated.1 ++ shown
  assert
      (length assigned_instances == word64 (a.num_fe_accumulator + num_exposed expose_num_proofs))
  ok assigned_instances
