-- ===== src/Circuits/V1/Root.antt =====
-- circuit/src/circuits/v1/root.rs: the V1 root circuit joins two proofs and hashes the result.
pub mod Output
use worldcoin_aggregation.Prelude.{
  ℕ, ◌+◌, ◌*◌, List, [], ◌∷◌, ◌++◌, Result, ok, assert, slice, length, ◌==◌, ◌>>=◌, ◌>>◌,
}
use worldcoin_aggregation.Prelude.Words.{shl64, word64}
use worldcoin_aggregation.Halo2.{Chip, HiLo}
use worldcoin_aggregation.Circuits.Utils.{bytes_of}
use worldcoin_aggregation.Circuits.Snarks.{
  Snark, Aggregator, get_accumulator_indices, check_accumulators, remove_old_accumulators, pair_of,
}
use worldcoin_aggregation.Circuits.V1.Intermediate.{
  WorldcoinIntermediateAggregationInput, join_previous_instances,
}
use worldcoin_aggregation.Circuits.V1.Intermediate

pub record WorldcoinRootAggregationInput : Type 0 where
  pub inner : WorldcoinIntermediateAggregationInput
  pub prev_acc_indices : List (List ℕ)

-- `WorldcoinRootAggregationInput::new`
unfoldable pub new : Aggregator → List Snark → ℕ → ℕ → ℕ → Result WorldcoinRootAggregationInput
new a snarks num_proofs max_depth initial_depth = do
  let prev_acc_indices = get_accumulator_indices snarks
  check_accumulators a prev_acc_indices max_depth initial_depth
  inner ← Intermediate.new snarks num_proofs max_depth initial_depth
  ok (record { inner = inner; prev_acc_indices = prev_acc_indices })

-- What the root circuit hashes:
-- [vk_hash_hi, vk_hash_lo, root, num_proofs, ...grant_ids, ...receivers, ...nullifier_hashes]
unfoldable pub output_of : List ℕ → ℕ → ℕ → Result (List ℕ)
output_of new_instances num_proofs max_depth = do
  shared ← slice new_instances 2 5
  claims ← slice new_instances 5 (word64 (5 + 3 * shl64 max_depth))
  ok (shared ++ (num_proofs ∷ claims))

-- The hash of the output.
unfoldable pub output_hash : Chip → List ℕ → ℕ → ℕ → Result HiLo
output_hash c new_instances num_proofs max_depth = do
  output ← output_of new_instances num_proofs max_depth
  output_bytes ← bytes_of c 32 output
  assert (length output_bytes == word64 (32 * (4 + 3 * shl64 max_depth)))
  ok (c.keccak_fixed_len output_bytes)

-- The public instances, if the constraints hold.
unfoldable pub virtual_assign_phase0 :
    Chip → Aggregator → WorldcoinRootAggregationInput → Result (List ℕ)
virtual_assign_phase0 c a input = do
  aggregated ← a.aggregate_snarks input.inner.snarks
  previous_instances ← remove_old_accumulators aggregated.0 input.prev_acc_indices
  two ← pair_of previous_instances
  new_instances ← join_previous_instances c two.0 two.1 input.inner.num_proofs input.inner.max_depth
  hash ← output_hash c new_instances input.inner.num_proofs input.inner.max_depth
  let assigned_instances = aggregated.1 ++ (hash.hi ∷ hash.lo ∷ [])
  assert (length assigned_instances == word64 (a.num_fe_accumulator + 2))
  ok assigned_instances
