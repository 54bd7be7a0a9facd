-- ===== src/Circuits/Shared.antt =====
-- `check_and_join_shared_instances` of circuit/src/circuits/v1/intermediate.rs: the part that the
-- V1 and the V2 aggregation circuits share. The first five public instances of a proof are
-- start, end, vk_hash_hi, vk_hash_lo and root.
pub mod Spec
pub mod Range
use worldcoin_aggregation.Prelude.{
  ℕ, zero, suc, ◌+◌, List, [], ◌∷◌, Result, ok, unsat, panic, Reason, assert, constrain, or_fault,
  index, slice, length, ◌>>=◌, ◌>>◌, ◌==◌,
}
use worldcoin_aggregation.Prelude.Words.{sub64, shl64}
use worldcoin_aggregation.Halo2.{Chip}

-- `for _i in i..i + n { ctx.constrain_equal(&instances0[_i], &instances1[_i]) }`
unfoldable pub constrain_equal_range : Chip → List ℕ → List ℕ → ℕ → ℕ → Result (Unit {0})
constrain_equal_range c instances0 instances1 i zero = ok tt
constrain_equal_range c instances0 instances1 i (suc n) = do
  a ← index instances0 i
  b ← index instances1 i
  constrain (c.constrain_equal a b)
  constrain_equal_range c instances0 instances1 (i + 1) n

-- Joins the ranges of the two proofs; returns the new end, and whether the second is a dummy.
unfoldable pub join_indices : Chip → ℕ → ℕ → ℕ → ℕ → ℕ → ℕ → Result (ℕ × ℕ)
join_indices c start_idx intermed_idx0 intermed_idx1 end_idx1 num_proofs max_depth = do
  let num_proofs0 = c.sub intermed_idx0 start_idx
  let num_proofs1 = c.sub end_idx1 intermed_idx1
  let prev_depth = sub64 max_depth 1
  let prev_max_proofs_plus_one = shl64 prev_depth + 1
  constrain (c.check_less_than_safe num_proofs0 prev_max_proofs_plus_one)
  constrain (c.check_less_than_safe num_proofs1 prev_max_proofs_plus_one)
  is_2nd_proof_dummy ← or_fault (c.is_less_than_safe num_proofs prev_max_proofs_plus_one) unsat
  let end_idx = c.select intermed_idx0 end_idx1 is_2nd_proof_dummy
  let linked = c.or (c.is_equal intermed_idx0 intermed_idx1) is_2nd_proof_dummy
  constrain (c.assert_is_const linked 1)
  prev_max_proofs ← index c.pow_of_two prev_depth
  let full = c.or (c.is_equal num_proofs0 prev_max_proofs) is_2nd_proof_dummy
  constrain (c.assert_is_const full 1)
  constrain (c.constrain_equal (c.sub end_idx start_idx) num_proofs)
  ok (end_idx, is_2nd_proof_dummy)

-- The new shared instances, and whether the second proof is a dummy.
unfoldable pub check_and_join_shared_instances :
    Chip → List ℕ → List ℕ → ℕ → ℕ → ℕ → Result (List ℕ × ℕ)
check_and_join_shared_instances c instances0 instances1 num_proofs max_depth num_instance_prev = do
  assert (num_instance_prev == length instances0)
  assert (num_instance_prev == length instances1)
  start_idx ← index instances0 0
  intermed_idx0 ← index instances0 1
  intermed_idx1 ← index instances1 0
  end_idx1 ← index instances1 1
  joined ← join_indices c start_idx intermed_idx0 intermed_idx1 end_idx1 num_proofs max_depth
  constrain_equal_range c instances0 instances1 2 3
  shared ← slice instances0 2 5
  ok (start_idx ∷ joined.0 ∷ shared, joined.1)
