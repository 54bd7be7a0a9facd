-- ===== src/Circuits/V1/Intermediate.antt =====
-- circuit/src/circuits/v1/intermediate.rs: the V1 intermediate circuit joins two proofs.
use worldcoin_aggregation.Prelude.{
  ℕ, ◌+◌, ◌*◌, List, [], ◌∷◌, ◌++◌, Result, ok, err, bail, Reason, assert, slice, length, not, ltb,
  leb, ◌==◌, ◌>>=◌, ◌>>◌,
}
use worldcoin_aggregation.Prelude.Words.{sub64, shl64, shl32, word64}
use worldcoin_aggregation.Halo2.{Chip}
use worldcoin_aggregation.Circuits.Shared.{check_and_join_shared_instances}
use worldcoin_aggregation.Circuits.Snarks.{
  Snark, Aggregator, get_accumulator_indices, check_accumulators, remove_old_accumulators, pair_of,
}

pub record WorldcoinIntermediateAggregationInput : Type 0 where
  pub num_proofs : ℕ
  pub snarks : List Snark
  pub max_depth : ℕ
  pub initial_depth : ℕ

-- `WorldcoinIntermediateAggregationInput::new`
unfoldable pub new : List Snark → ℕ → ℕ → ℕ → Result WorldcoinIntermediateAggregationInput
new snarks num_proofs max_depth initial_depth = do
  assert (not (num_proofs == 0))
  assert (length snarks == 2)
  assert (ltb initial_depth max_depth)
  assert (leb num_proofs (shl32 max_depth))
  ok (record {
    num_proofs = num_proofs;
    snarks = snarks;
    max_depth = max_depth;
    initial_depth = initial_depth;
  })

unfoldable pub get_num_instance : ℕ → ℕ
get_num_instance max_depth = word64 (5 + 3 * shl64 max_depth)

-- The instances of the joined proof, from those of the two proofs without their accumulators.
unfoldable pub join_previous_instances : Chip → List ℕ → List ℕ → ℕ → ℕ → Result (List ℕ)
join_previous_instances c instance0 instance1 num_proofs max_depth = do
  let prev_depth = sub64 max_depth 1
  joined ←
      check_and_join_shared_instances c instance0 instance1 num_proofs max_depth
        (get_num_instance prev_depth)
  let m = shl64 prev_depth
  let after1 = word64 (5 + m)
  let after2 = word64 (5 + 2 * m)
  let after3 = word64 (5 + 3 * m)
  grant_ids0 ← slice instance0 5 after1
  grant_ids1 ← slice instance1 5 after1
  receivers0 ← slice instance0 after1 after2
  receivers1 ← slice instance1 after1 after2
  nullifier_hashes0 ← slice instance0 after2 after3
  nullifier_hashes1 ← slice instance1 after2 after3
  ok (
      joined.0
      ++ (grant_ids0
          ++ (grant_ids1
              ++ (receivers0 ++ (receivers1 ++ (nullifier_hashes0 ++ nullifier_hashes1))))))

-- The one column of instances of the aggregation circuit, extended by the new instances.
unfoldable pub extend_instances : Aggregator → List (List ℕ) → List ℕ → ℕ → Result (List ℕ)
extend_instances a (assigned_instances ∷ []) new_instances max_depth = do
  assert (length assigned_instances == a.num_fe_accumulator)
  let all = assigned_instances ++ new_instances
  assert (length all == word64 (a.num_fe_accumulator + get_num_instance max_depth))
  ok all
extend_instances a columns new_instances max_depth = err (bail Reason.instance_columns)

-- `build`: the public instances of the circuit, if its constraints hold.
unfoldable pub build : Chip → Aggregator → WorldcoinIntermediateAggregationInput → Result (List ℕ)
build c a input = do
  let prev_acc_indices = get_accumulator_indices input.snarks
  check_accumulators a prev_acc_indices input.max_depth input.initial_depth
  circuit ← a.aggregate_snarks input.snarks
  prev_instances ← remove_old_accumulators circuit.0 prev_acc_indices
  two ← pair_of prev_instances
  new_instances ← join_previous_instances c two.0 two.1 input.num_proofs input.max_depth
  extend_instances a (circuit.1 ∷ []) new_instances input.max_depth
