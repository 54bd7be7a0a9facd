-- ===== src/Circuits/Claims.antt =====
-- `ClaimInput` of circuit/src/types.rs, the input of the leaf circuits, and the constraints that
-- circuit/src/circuits/v1/leaf.rs and circuit/src/circuits/v2/leaf.rs share.
pub mod Verified
use worldcoin_aggregation.Prelude.{
  ℕ, ◌≡◌, List, [], ◌∷◌, map, Result, ok, panic, Reason, assert, constrain, or_fault, length, ◌>>=◌,
  ◌>>◌, ◌==◌,
}
use worldcoin_aggregation.Prelude.Words.{shl64}
use worldcoin_aggregation.Halo2.{Chip, HiLo}

pub record ClaimInput : Type 0 where
  pub receiver : ℕ
  pub nullifier_hash : ℕ
  pub grant_id : ℕ
  pub proof_bytes : List ℕ

pub record WorldcoinLeafInput : Type 0 where
  pub start : ℕ
  pub end : ℕ
  pub vk_bytes : List ℕ
  pub root : ℕ
  pub claims : List ClaimInput
  pub num_public_inputs : ℕ
  pub max_depth : ℕ

-- What `multiunzip` takes the claims apart into.
abbrev pub grant_ids : List ClaimInput → List ℕ
grant_ids = map (λ (claim : ClaimInput). claim.grant_id)

abbrev pub receivers : List ClaimInput → List ℕ
receivers = map (λ (claim : ClaimInput). claim.receiver)

abbrev pub nullifier_hashes : List ClaimInput → List ℕ
nullifier_hashes = map (λ (claim : ClaimInput). claim.nullifier_hash)

-- 0 <= start < end < 2^64 and end - start <= 2^max_depth; returns end - start.
unfoldable pub check_range : Chip → ℕ → ℕ → ℕ → Result ℕ
check_range c start end max_depth = do
  constrain (c.range_check start 64)
  constrain (c.range_check end 64)
  constrain (c.check_less_than start end 64)
  let num_proofs = c.sub end start
  let max_proofs = shl64 max_depth
  let max_proofs_plus_one = c.add max_proofs 1
  constrain (c.range_check num_proofs 64)
  constrain (c.check_less_than num_proofs max_proofs_plus_one 64)
  ok num_proofs

-- The Groth16 verification of one claim.
unfoldable pub verify_claim : Chip → List ℕ → ℕ → ℕ → ClaimInput → Result (Unit {0})
verify_claim c vk root num_public_inputs claim = do
  let public_inputs = root ∷ claim.nullifier_hash ∷ claim.receiver ∷ claim.grant_id ∷ []
  proof ← or_fault (c.unflatten_proof claim.proof_bytes) (panic Reason.unwrap_none)
  let success = c.groth16_verify vk proof num_public_inputs public_inputs
  constrain (c.constrain_equal success.hi 0)
  constrain (c.constrain_equal success.lo 1)
