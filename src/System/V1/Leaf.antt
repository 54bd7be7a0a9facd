-- ===== src/System/V1/Leaf.antt =====
-- What a V1 leaf shows of good claims.
use worldcoin_aggregation.Prelude.{
  ℕ, ◌+◌, ◌-◌, ◌^◌, ◌≤◌, ◌<◌, ◌≡◌, true, List, [], map, ok, arith, All, length, ◌==◌,
}
use worldcoin_aggregation.Prelude.Words.{u32_mod}
use worldcoin_aggregation.Halo2.{IsChip}
use worldcoin_aggregation.Circuits.Claims.{verify_claim}
use worldcoin_aggregation.Circuits.Claims.Verified.{check_range_complete}
use worldcoin_aggregation.Circuits.Shared.Spec.{instances_of}
use worldcoin_aggregation.Circuits.Utils.{max_groth16_pi}
use worldcoin_aggregation.Circuits.V1.Batch.{columns}
use worldcoin_aggregation.Circuits.V1.Leaf as V1Leaf
use worldcoin_aggregation.Scheduler.Local.{RequestRouter}
use worldcoin_aggregation.Scheduler.Local.Routes.{traverse_total}
use worldcoin_aggregation.System.{Setup, prove}
use worldcoin_aggregation.System.Fill.{pad, All-pad}
use worldcoin_aggregation.System.Honest.{Terms, IsHonest, Accepts, IsGood, header_for, read_claims}
use worldcoin_aggregation.System.Leaves.{leaf_request_of, build_leaf-leaf_input_of}

module _ {Vk Root Claim : Type 0} (s : Setup Vk Root Claim) (t : Terms Root Claim) where
  pub prove-leaf :
      (start end d : ℕ) (claims : List Claim)
      → IsChip s.chip
      → IsHonest s t (prove s)
      → start < end
      → end < u32_mod
      → end ≤ start + 2 ^ d
      → d < 31
      → length claims ≡ end - start
      → All (IsGood s t) claims
      → prove s (RequestRouter.leaf (leaf_request_of s t start end d claims))
        ≡ ok (record {
          instances =
              instances_of (header_for t start end) (columns (pad (2 ^ d) (map t.read claims)));
          accumulator_indices = [];
        })
  unfolding prove V1Leaf.virtual_assign_phase0
  prove-leaf start end d claims chip honest pos word fits small counted good =
      let key : (length t.vk_bytes == s.chip.num_fe_hilo_vkey) ≡ true =
        ground (arith, IsHonest.key_length honest) in
      let (all, accepted) = read_claims s t claims good in
      let (us, verified, count) =
        traverse_total
          (verify_claim s.chip (s.chip.unflatten_vk t.vk_bytes s.chip.gamma_abc_g1_len) t.root
            (max_groth16_pi + 1))
          (Accepts s t) (λ input h. (tt, Accepts.verifies h)) (pad (2 ^ d) (map t.read claims))
          (All-pad (Accepts s t) (2 ^ d) (map t.read claims) accepted) in
      rw (
        build_leaf-leaf_input_of s t start end d claims honest pos word fits small counted good,
        check_range_complete chip start end d (omega arith) pos (omega arith) fits,
        key,
        IsHonest.key_hashed honest,
        verified,
      )
