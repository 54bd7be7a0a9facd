-- ===== src/System/V2/Leaf.antt =====
-- What a V2 leaf shows of good claims.
use worldcoin_aggregation.Prelude.{
  ℕ, zero, suc, ◌+◌, ◌-◌, ◌^◌, ◌≤◌, ◌<◌, ◌≡◌, ◌⊎◌, refl, sym, ap, ◌∙◌, inl, inr, true, List, [],
  ◌∷◌, ◌++◌, map, Result, ok, or_fault, unsat, arith, All, length, take, traverse, ltb, ◌==◌,
}
use worldcoin_aggregation.Prelude.Words.{u32_mod, shl64, shl64-eq}
use worldcoin_aggregation.Halo2.{Chip, IsChip, HiLo, be_bytes, lt_mask}
use worldcoin_aggregation.Circuits.Claims.{ClaimInput}
use worldcoin_aggregation.Circuits.Claims.Verified.{check_range_complete}
use worldcoin_aggregation.Circuits.Merkle.Tree.{compute_keccak_merkle_tree-root}
use worldcoin_aggregation.Circuits.Shared.Spec.{instances_of}
use worldcoin_aggregation.Circuits.Utils.{max_groth16_pi, get_vk_hash}
use worldcoin_aggregation.Circuits.V2.Leaf.{leaf_of, izip}
use worldcoin_aggregation.Circuits.V2.Leaf as V2Leaf
use worldcoin_aggregation.Circuits.V2.Leaf.Leaves.{InField, padded, mul-one, mul-zero}
use worldcoin_aggregation.Circuits.V2.Padding.{length-padded, padded-IsWord}
use worldcoin_aggregation.Circuits.V2.ClaimTrees.{claim_root, selected_sound, length-lt_mask}
use worldcoin_aggregation.Circuits.V2.Roots.{hi_lo}
use worldcoin_aggregation.Scheduler.Local.{RequestRouter}
use worldcoin_aggregation.Scheduler.Local.Routes.{traverse_total}
use worldcoin_aggregation.System.{Setup, prove_v2}
use worldcoin_aggregation.System.Fill.{fill, pad, All-pad, length-fill, take-fill}
use worldcoin_aggregation.System.Honest.{Terms, IsHonest, Accepts, IsGood, header_for, length-map}
use worldcoin_aggregation.System.Leaves.{leaf_request_of, leaf_input_of, build_leaf-leaf_input_of}

-- The fields of a claim are field elements, and its receiver is an address of 20 bytes.
pub record IsPacked (c : Chip) (input : ClaimInput) : Type 0 where
  pub in_field : InField c input
  pub receiver_address : input.receiver < 256 ^ 20

module _ {c : Chip} (chip : IsChip c) where
  bytes_total :
      (x n : ℕ) → x < 256 ^ n → or_fault (c.uint_to_bytes_be x n) unsat ≡ ok (be_bytes n x)
  bytes_total x n l =
      let fits : ltb x (256 ^ n) ≡ true = ground arith in rw (chip.uint_to_bytes_be_lem x n, fits)

  -- A masked field of a claim can be spelled.
  masked_total :
      (x n mask : ℕ)
      → x < c.p
      → x < 256 ^ n
      → 0 < 256 ^ n
      → (mask ≡ 0) ⊎ (mask ≡ 1)
      → (bs : List ℕ) × (or_fault (c.uint_to_bytes_be (c.mul x mask) n) unsat ≡ ok bs)
  masked_total x n mask l fits some_byte (inl off) =
      (be_bytes n 0, rw (off, mul-zero chip x l) (bytes_total 0 n some_byte))
  masked_total x n mask l fits some_byte (inr on) =
      (be_bytes n x, rw (on, mul-one chip x l) (bytes_total x n fits))

module _ {Vk Root Claim : Type 0} (s : Setup Vk Root Claim) (t : Terms Root Claim)
    (chip : IsChip s.chip) where
  pub record AcceptsV2 (input : ClaimInput) : Type 0 where
    pub accepted : Accepts s t input
    pub packed : IsPacked s.chip input

  abbrev Masked : ClaimInput × ℕ → Type 0
  Masked (claim, mask) = AcceptsV2 claim × ((mask ≡ 0) ⊎ (mask ≡ 1))

  abbrev leaf : ClaimInput × ℕ → Result HiLo
  leaf =
      leaf_of s.chip (s.chip.unflatten_vk t.vk_bytes s.chip.gamma_abc_g1_len) t.root
        (max_groth16_pi + 1)

  leaf_total : (x : ClaimInput × ℕ) → Masked x → (h : HiLo) × (leaf x ≡ ok h)
  unfolding leaf_of
  leaf_total (claim, mask) (good, bit) =
      let a = AcceptsV2.accepted good in
      let f = IsPacked.in_field (AcceptsV2.packed good) in
      let (b0, e0) =
        masked_total chip claim.grant_id 32 mask f.grant_id_lt a.grant_id_word (omega arith) bit in
      let (b1, e1) =
        masked_total chip claim.receiver 20 mask f.receiver_lt
          (IsPacked.receiver_address (AcceptsV2.packed good)) (omega arith) bit in
      let (b2, e2) =
        masked_total chip claim.nullifier_hash 32 mask f.nullifier_hash_lt a.nullifier_hash_word
          (omega arith) bit in
      (s.chip.keccak_fixed_len (b0 ++ (b1 ++ b2)), rw (Accepts.verifies a, e0, e1, e2))

  All-Masked :
      (n m : ℕ) (xs : List ClaimInput) → All AcceptsV2 xs → All Masked (izip xs (lt_mask n m))
  unfolding izip
  All-Masked n m [] h = tt
  All-Masked n zero (x ∷ xs) h = tt
  All-Masked zero (suc m) (x ∷ xs) h = ((h.0, inl refl), All-Masked zero m xs h.1)
  All-Masked (suc n) (suc m) (x ∷ xs) h = ((h.0, inr refl), All-Masked n m xs h.1)

  All-InField : (xs : List ClaimInput) → All AcceptsV2 xs → All (InField s.chip) xs
  All-InField [] h = tt
  All-InField (x ∷ xs) h = (IsPacked.in_field (AcceptsV2.packed h.0), All-InField xs h.1)

  selected :
      (i : ℕ) (claims : List Claim)
      → 0 < length claims
      → length claims ≤ 2 ^ i
      → (length (pad (2 ^ i) (map t.read claims)) ≡ 2 ^ i)
        × (take (length claims) (pad (2 ^ i) (map t.read claims)) ≡ map t.read claims)
  unfolding fill
  selected i claims some_claim few =
      let e : i + 0 ≡ i = omega arith in
      let len = length-map t.read claims in
      let pos : 0 < length (map t.read claims) = omega arith in
      let room : length (map t.read claims) ≤ 2 ^ (i + 0) = rw e (omega arith) in
      (
        rw e at (length-fill i 0 (map t.read claims) pos room),
        ap (λ n. take n (pad (2 ^ i) (map t.read claims))) (sym len)
            ∙ take-fill i 0 (map t.read claims) pos room,
      )

  -- The hashes of the claims are computed.
  leaves_complete :
      (start end i : ℕ) (claims : List Claim) {n : ℕ}
      → i < 31
      → n ≡ length claims
      → 0 < n
      → n ≤ 2 ^ i
      → get_vk_hash s.chip t.vk_bytes ≡ ok t.vk_hash
      → All AcceptsV2 (map t.read claims)
      → ((length (pad (2 ^ i) (map t.read claims)) == length (s.chip.unsafe_lt_mask n (shl64 i)))
          ≡ true)
        × (traverse leaf
              (izip (pad (2 ^ i) (map t.read claims)) (s.chip.unsafe_lt_mask n (shl64 i)))
            ≡ ok (padded s.chip (2 ^ i) (map t.read claims)))
  leaves_complete start end i claims {n} small count pos room hashed good =
      let xs = pad (2 ^ i) (map t.read claims) in
      let (full, front) = selected i claims (omega arith) (omega arith) in
      let mask : s.chip.unsafe_lt_mask n (shl64 i) ≡ lt_mask n (2 ^ i) =
        rw (shl64-eq i (omega arith)) (chip.unsafe_lt_mask_lem n (2 ^ i) room) in
      let len : length (s.chip.unsafe_lt_mask n (shl64 i)) ≡ 2 ^ i =
        rw mask (length-lt_mask n (2 ^ i)) in
      let same : (length xs == length (s.chip.unsafe_lt_mask n (shl64 i))) ≡ true = ground arith in
      let accepted = All-pad AcceptsV2 (2 ^ i) (map t.read claims) good in
      let (leaves, all, size) =
        traverse_total leaf Masked leaf_total (izip xs (s.chip.unsafe_lt_mask n (shl64 i)))
          (rw mask (All-Masked n (2 ^ i) xs accepted)) in
      let (v, exact, shape) =
        selected_sound chip (leaf_input_of s t start end i claims) i n t.vk_hash (omega arith) room
          refl (All-InField xs accepted) hashed same all in
      (same, all ∙ ap ok (shape ∙ ap (padded s.chip (2 ^ i)) (ap (λ m. take m xs) count ∙ front)))

  pub prove-leaf :
      (start end i : ℕ) (claims : List Claim)
      → IsHonest s t (prove_v2 s)
      → start < end
      → end < u32_mod
      → end ≤ start + 2 ^ i
      → i < 31
      → length claims ≡ end - start
      → All (IsGood s t) claims
      → All AcceptsV2 (map t.read claims)
      → prove_v2 s (RequestRouter.leaf (leaf_request_of s t start end i claims))
        ≡ ok (record {
          instances =
              instances_of
                (header_for t start end)
                (hi_lo (claim_root s.chip i (map t.read claims)));
          accumulator_indices = [];
        })
  unfolding prove_v2 V2Leaf.virtual_assign_phase0 claim_root
  prove-leaf start end i claims honest pos word fits small counted good packed =
      let key : (length t.vk_bytes == s.chip.num_fe_hilo_vkey) ≡ true =
        ground (arith, IsHonest.key_length honest) in
      let len = length-map t.read claims in
      let few : length (map t.read claims) ≤ 2 ^ i = omega arith in
      let (same, leaves) =
        leaves_complete start end i claims {n = end - start} small (sym counted) (omega arith)
          (omega arith) (IsHonest.key_hashed honest) packed in
      let (rest, tree, size) =
        compute_keccak_merkle_tree-root chip i (padded s.chip (2 ^ i) (map t.read claims))
          (omega arith) (length-padded s.chip (2 ^ i) (map t.read claims) few)
          (padded-IsWord chip (2 ^ i) (map t.read claims) few) in
      rw (
        build_leaf-leaf_input_of s t start end i claims honest pos word fits small counted good,
        check_range_complete chip start end i (omega arith) pos (omega arith) fits,
        key,
        IsHonest.key_hashed honest,
        same,
        leaves,
        tree,
      )
