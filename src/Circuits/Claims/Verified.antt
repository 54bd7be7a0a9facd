-- ===== src/Circuits/Claims/Verified.antt =====
-- What the constraints on the range and on one claim establish.
use worldcoin_aggregation.Prelude.{
  ℕ, ◌+◌, ◌-◌, ◌^◌, ◌≤◌, ◌<◌, ◌≡◌, List, [], ◌∷◌, ok, arith, Option-cases, All, traverse,
  traverse-All, inl, inr,
}
use worldcoin_aggregation.Prelude.Words.{shl64-eq, pow_mono, u64_mod}
use worldcoin_aggregation.Halo2.{Chip, IsChip, HiLo}
use worldcoin_aggregation.Halo2.Laws.{add-eq, sub-eq}
use worldcoin_aggregation.Circuits.Utils.{get_vk_hash}
use worldcoin_aggregation.Circuits.Claims.{ClaimInput, check_range, verify_claim}

-- The claim has a proof that the Groth16 component accepts under a key with this hash, for the
-- public inputs root, nullifier hash, receiver and grant id. The number of public inputs is a
-- witness that the leaf circuits do not constrain themselves.
pub record Verified (c : Chip) (vk_hash : HiLo) (root : ℕ) (claim : ClaimInput) : Type 0 where
  pub vk_bytes : List ℕ
  pub proof : List ℕ
  pub num_public_inputs : ℕ
  pub hashed : get_vk_hash c vk_bytes ≡ ok vk_hash
  pub accepted :
      c.groth16_verify
        (c.unflatten_vk vk_bytes c.gamma_abc_g1_len)
        proof
        num_public_inputs
        (root ∷ claim.nullifier_hash ∷ claim.receiver ∷ claim.grant_id ∷ [])
      ≡ record { hi = 0; lo = 1 }

module _ {c : Chip} (chip : IsChip c) where
  -- If the range constraints of a leaf circuit of depth d, for d below 62, hold, start is below
  -- end, end is below 2^64, they are at most 2^d apart, and the number of proofs is their
  -- difference.
  pub check_range_sound :
      (start end d : ℕ) {n : ℕ}
      → d < 62
      → check_range c start end d ≡ ok n
      → (start < end) × (end < u64_mod) × (end ≤ start + 2 ^ d) × (n ≡ end - start)
  unfolding check_range
  check_range_sound start end d small h =
      let pow : 2 ^ d ≤ 2 ^ 62 = pow_mono d 62 (omega arith) in
      let plus : c.add (2 ^ d) 1 ≡ 2 ^ d + 1 = add-eq chip (2 ^ d) 1 (omega arith) (omega arith) in
      ground (
        arith,
        plus,
        shl64-eq d,
        sub-eq chip end start,
        chip.range_check_lem start 64,
        chip.range_check_lem end 64,
        chip.check_less_than_lem start end 64,
        chip.range_check_lem (end - start) 64,
        chip.check_less_than_lem (end - start) (2 ^ d + 1) 64,
      )

  -- A start below an end that is below 2^64 and at most 2^d larger, for d below 62, satisfies the
  -- range constraints of a leaf circuit.
  pub check_range_complete :
      (start end d : ℕ)
      → d < 62
      → start < end
      → end < u64_mod
      → end ≤ start + 2 ^ d
      → check_range c start end d ≡ ok (end - start)
  unfolding check_range
  check_range_complete start end d small l w f =
      let pow : 2 ^ d ≤ 2 ^ 62 = pow_mono d 62 (omega arith) in
      let plus : c.add (2 ^ d) 1 ≡ 2 ^ d + 1 = add-eq chip (2 ^ d) 1 (omega arith) (omega arith) in
      ground (
        arith,
        plus,
        shl64-eq d,
        sub-eq chip end start,
        chip.range_check_lem start 64,
        chip.range_check_lem end 64,
        chip.check_less_than_lem start end 64,
        chip.range_check_lem (end - start) 64,
        chip.check_less_than_lem (end - start) (2 ^ d + 1) 64,
      )

  pub verify_claim_sound :
      (vk_bytes : List ℕ) (vk_hash : HiLo) (root n : ℕ) (claim : ClaimInput) {u : Unit {0}}
      → get_vk_hash c vk_bytes ≡ ok vk_hash
      → verify_claim c (c.unflatten_vk vk_bytes c.gamma_abc_g1_len) root n claim ≡ ok u
      → Verified c vk_hash root claim
  unfolding verify_claim
  verify_claim_sound vk_bytes vk_hash root n claim hashed h =
      elim (Option-cases (c.unflatten_proof claim.proof_bytes)) [
        | inl missing ↦ absurd (ground arith)
        | inr (proof, found) ↦ record {
          vk_bytes = vk_bytes;
          proof = proof;
          num_public_inputs = n;
          hashed = hashed;
          accepted = ground (
            arith,
            chip.constrain_equal_lem
                (c.groth16_verify (c.unflatten_vk vk_bytes c.gamma_abc_g1_len) proof n
                  (root ∷ claim.nullifier_hash ∷ claim.receiver ∷ claim.grant_id ∷ [])).hi
                0,
            chip.constrain_equal_lem
                (c.groth16_verify (c.unflatten_vk vk_bytes c.gamma_abc_g1_len) proof n
                  (root ∷ claim.nullifier_hash ∷ claim.receiver ∷ claim.grant_id ∷ [])).lo
                1,
          );
        }
      ]

  pub verify_claims_sound :
      (vk_bytes : List ℕ) (vk_hash : HiLo) (root n : ℕ) (claims : List ClaimInput)
      {us : List (Unit {0})}
      → get_vk_hash c vk_bytes ≡ ok vk_hash
      → traverse (verify_claim c (c.unflatten_vk vk_bytes c.gamma_abc_g1_len) root n) claims ≡ ok us
      → All (Verified c vk_hash root) claims
  verify_claims_sound vk_bytes vk_hash root n claims hashed h =
      traverse-All _ (Verified c vk_hash root)
        (λ claim u k. verify_claim_sound vk_bytes vk_hash root n claim {u = u} hashed k) claims h
