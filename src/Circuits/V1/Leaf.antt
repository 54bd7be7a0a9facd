-- ===== src/Circuits/V1/Leaf.antt =====
-- circuit/src/circuits/v1/leaf.rs: the V1 leaf circuit.
use worldcoin_aggregation.Prelude.{
  ℕ, List, ◌∷◌, ◌++◌, Result, ok, assert, traverse, length, ◌>>=◌, ◌>>◌, ◌==◌,
}
use worldcoin_aggregation.Halo2.{Chip}
use worldcoin_aggregation.Circuits.Utils.{get_vk_hash}
use worldcoin_aggregation.Circuits.Claims.{
  WorldcoinLeafInput, grant_ids, receivers, nullifier_hashes, check_range, verify_claim,
}

-- The public instances, if the constraints hold.
unfoldable pub virtual_assign_phase0 : Chip → WorldcoinLeafInput → Result (List ℕ)
virtual_assign_phase0 c input = do
  check_range c input.start input.end input.max_depth
  assert (length input.vk_bytes == c.num_fe_hilo_vkey)
  vk_hash ← get_vk_hash c input.vk_bytes
  let vk = c.unflatten_vk input.vk_bytes c.gamma_abc_g1_len
  traverse (verify_claim c vk input.root input.num_public_inputs) input.claims
  ok (
      input.start
      ∷ input.end
      ∷ vk_hash.hi
      ∷ vk_hash.lo
      ∷ input.root
      ∷ (grant_ids input.claims ++ (receivers input.claims ++ nullifier_hashes input.claims)))
