-- ===== src/Circuits/V2/Leaf.antt =====
-- circuit/src/circuits/v2/leaf.rs: the V2 leaf circuit, whose instances end with the Merkle root of
-- the claims.
pub mod Leaves
use worldcoin_aggregation.Prelude.{
  ℕ, List, [], ◌∷◌, ◌++◌, Result, ok, unsat, assert, or_fault, traverse, index, length, ◌>>=◌, ◌>>◌,
  ◌==◌,
}
use worldcoin_aggregation.Prelude.Words.{shl64}
use worldcoin_aggregation.Halo2.{Chip, HiLo}
use worldcoin_aggregation.Circuits.Utils.{get_vk_hash}
use worldcoin_aggregation.Circuits.Claims.{
  ClaimInput, WorldcoinLeafInput, check_range, verify_claim,
}
use worldcoin_aggregation.Circuits.Merkle.{compute_keccak_merkle_tree}

unfoldable pub izip {ℓ κ} : {A : Type ℓ} {B : Type κ} → List A → List B → List (A × B)
izip [] ys = []
izip (x ∷ xs) [] = []
izip (x ∷ xs) (y ∷ ys) = (x, y) ∷ izip xs ys

-- keccak256(abi.encodePacked(grant_id, receiver, nullifier_hash)), each multiplied by the mask.
unfoldable pub leaf_of : Chip → List ℕ → ℕ → ℕ → ClaimInput × ℕ → Result HiLo
leaf_of c vk root num_public_inputs input = do
  let claim = input.0
  let mask = input.1
  verify_claim c vk root num_public_inputs claim
  grant_id_bytes ← or_fault (c.uint_to_bytes_be (c.mul claim.grant_id mask) 32) unsat
  receiver_bytes ← or_fault (c.uint_to_bytes_be (c.mul claim.receiver mask) 20) unsat
  nullifier_bytes ← or_fault (c.uint_to_bytes_be (c.mul claim.nullifier_hash mask) 32) unsat
  ok (c.keccak_fixed_len (grant_id_bytes ++ (receiver_bytes ++ nullifier_bytes)))

-- The public instances, if the constraints hold.
unfoldable pub virtual_assign_phase0 : Chip → WorldcoinLeafInput → Result (List ℕ)
virtual_assign_phase0 c input = do
  num_proofs ← check_range c input.start input.end input.max_depth
  assert (length input.vk_bytes == c.num_fe_hilo_vkey)
  vk_hash ← get_vk_hash c input.vk_bytes
  let vk = c.unflatten_vk input.vk_bytes c.gamma_abc_g1_len
  let selector = c.unsafe_lt_mask num_proofs (shl64 input.max_depth)
  assert (length input.claims == length selector)
  leaves ← traverse (leaf_of c vk input.root input.num_public_inputs) (izip input.claims selector)
  merkle_tree ← compute_keccak_merkle_tree c leaves
  claim_root ← index merkle_tree 0
  ok (
      input.start ∷ input.end ∷ vk_hash.hi ∷ vk_hash.lo ∷ input.root ∷ claim_root.hi ∷ claim_root.lo
      ∷ [])
