-- ===== src/Circuits/V1/Root/Output.antt =====
-- What the hash of the V1 root circuit commits to.
use mathlib.Core.List.{append-nil}
use worldcoin_aggregation.Prelude.{
  ℕ, suc, ◌+◌, ◌*◌, ◌^◌, ◌≤◌, ◌<◌, ◌≡◌, refl, sym, ap, ◌∙◌, List, [], ◌∷◌, ◌++◌, ok, arith, All,
  slice, slice-append, length, length-append, ok-injective, >>=-eq-ok, assert-eq-ok,
}
use worldcoin_aggregation.Prelude.Words.{shl64-eq, word64, word64-eq, pow_mono}
use worldcoin_aggregation.Halo2.{Chip, IsChip, HiLo}
use worldcoin_aggregation.Circuits.Utils.{bytes_of}
use worldcoin_aggregation.Circuits.Utils.Bytes.{all_bytes, bytes_of_sound}
use worldcoin_aggregation.Circuits.Shared.Spec.{Header, instances_of}
use worldcoin_aggregation.Circuits.Shared.Range.{JoinedRange-count}
use worldcoin_aggregation.Circuits.Claims.{ClaimInput, grant_ids, receivers, nullifier_hashes}
use worldcoin_aggregation.Circuits.Claims.Verified.{Verified}
use worldcoin_aggregation.Circuits.Snarks.{Aggregator, remove_old_accumulators}
use worldcoin_aggregation.Circuits.V1.Batch.{
  Batch, JoinedBatch, vk_hash, length-column, columns, join_previous_instances_sound,
}
use worldcoin_aggregation.Circuits.V1.Tree.{Accepted, Accepted-Batch, join_batches}
use worldcoin_aggregation.Circuits.V1.Intermediate.{join_previous_instances}
use worldcoin_aggregation.Circuits.V1.Root.{
  WorldcoinRootAggregationInput, output_of, output_hash, virtual_assign_phase0,
}

-- The preimage of the hash, for the claims of a batch.
abbrev pub preimage : HiLo → ℕ → ℕ → List ClaimInput → List ℕ
preimage hash root num_claims claims =
    all_bytes 32 (hash.hi ∷ hash.lo ∷ root ∷ num_claims ∷ columns claims)

-- The instances of a root proof of depth `d` beside its accumulator: the hash of a number of
-- claims between 1 and 2^d and of 2^d claims, which are all verified.
pub record RootOutput (c : Chip) (d num_claims : ℕ) (hash : HiLo) : Type 0 where
  pub vk : HiLo
  pub root : ℕ
  pub claims : List ClaimInput
  pub nonzero : 0 < num_claims
  pub fits : num_claims ≤ 2 ^ d
  pub filled : length claims ≡ 2 ^ d
  pub verified : All (Verified c vk root) claims
  pub hashed : hash ≡ c.keccak_fixed_len (preimage vk root num_claims claims)

pub length-columns : (xs : List ClaimInput) (m : ℕ) → length xs ≡ m → length (columns xs) ≡ 3 * m
length-columns xs m h =
    length-append (grant_ids xs) (receivers xs ++ nullifier_hashes xs)
    ∙ omega (
      arith,
      length-append (receivers xs) (nullifier_hashes xs),
      length-column (λ (x : ClaimInput). x.grant_id) xs,
      length-column (λ (x : ClaimInput). x.receiver) xs,
      length-column (λ (x : ClaimInput). x.nullifier_hash) xs,
    )

pub output_of-batch :
    (h : Header) (xs : List ClaimInput) (n d : ℕ)
    → d < 60
    → length xs ≡ 2 ^ d
    → output_of (instances_of h (columns xs)) n d
      ≡ ok (h.vk_hash_hi ∷ h.vk_hash_lo ∷ h.root ∷ n ∷ columns xs)
unfolding output_of
output_of-batch h xs n d small filled =
    let pow = pow_mono d 60 (omega arith) in
    let bound : word64 (5 + 3 * 2 ^ d) ≡ 5 + 3 * 2 ^ d = word64-eq _ (omega arith) in
    let shared : slice (instances_of h (columns xs)) 2 5
        ≡ ok (h.vk_hash_hi ∷ h.vk_hash_lo ∷ h.root ∷ []) =
      slice-append (h.start ∷ h.end ∷ []) (h.vk_hash_hi ∷ h.vk_hash_lo ∷ h.root ∷ []) (columns xs) 2
        5 refl refl in
    let claims : slice (instances_of h (columns xs ++ [])) 5 (5 + 3 * 2 ^ d) ≡ ok (columns xs) =
      slice-append (instances_of h []) (columns xs) [] 5 (5 + 3 * 2 ^ d) refl
        (omega (arith, length-columns xs (2 ^ d) filled)) in
    rw (shl64-eq d (omega arith), bound, shared, rw (append-nil (columns xs)) at claims)

module _ {c : Chip} (chip : IsChip c) where
  output_hash_sound :
      (h : Header) (xs : List ClaimInput) (n d : ℕ) {hash : HiLo}
      → d < 60
      → length xs ≡ 2 ^ d
      → output_hash c (instances_of h (columns xs)) n d ≡ ok hash
      → hash ≡ c.keccak_fixed_len (preimage (vk_hash h) h.root n xs)
  unfolding output_hash
  output_hash_sound h xs n d small filled k =
      let (bytes, spelled, rest) =
        >>=-eq-ok (bytes_of c 32 _) _ (rw (output_of-batch h xs n d small filled) at k) in
      let (len, last) = assert-eq-ok _ _ rest in
      sym (ok-injective last) ∙ ap c.keccak_fixed_len (bytes_of_sound chip 32 _ spelled)

  -- Two joined batches, hashed.
  joined_output :
      (n d : ℕ) {instance0 instance1 new_instances : List ℕ} {hash : HiLo}
      (b0 : Batch c d instance0) (b1 : Batch c d instance1)
      → d < 59
      → JoinedBatch d n b0.header b1.header (columns (b0.claims ++ b1.claims)) new_instances
      → output_hash c new_instances n (suc d) ≡ ok hash
      → RootOutput c (suc d) n hash
  joined_output n d b0 b1 small joined h =
      let b = join_batches chip b0 b1 joined in
      let (same, (e, parts, shown)) = joined in
      let count = JoinedRange-count d n parts in
      record {
        vk = vk_hash b.header;
        root = b.header.root;
        claims = b.claims;
        nonzero = omega (arith, count, b.range.nonempty);
        fits = omega (arith, count, b.range.fits);
        filled = b.filled;
        verified = b.verified;
        hashed =
            output_hash_sound b.header b.claims n (suc d) (omega arith) b.filled (rw b.shown at h);
      }

  -- If the constraints of the V1 root circuit hold for two accepted proofs of depth d, for d
  -- below 59, and the old accumulators are removed, its instances are the new accumulator and the
  -- hash of a verifying key's hash, a root, the number of claims that the circuit was built for,
  -- which lies between 1 and 2^(d + 1), and the grant ids, receivers and nullifier hashes of 2^(d
  -- + 1) verified claims.
  pub virtual_assign_phase0_sound :
      (a : Aggregator) (input : WorldcoinRootAggregationInput) (d : ℕ) {previous : List (List ℕ)}
      {accumulator instance0 instance1 out : List ℕ}
      → d < 59
      → input.inner.max_depth ≡ suc d
      → a.aggregate_snarks input.inner.snarks ≡ ok (previous, accumulator)
      → remove_old_accumulators previous input.prev_acc_indices ≡ ok (instance0 ∷ instance1 ∷ [])
      → Accepted c d instance0
      → Accepted c d instance1
      → virtual_assign_phase0 c a input ≡ ok out
      → (hash : HiLo) × (out ≡ accumulator ++ (hash.hi ∷ hash.lo ∷ []))
        × RootOutput c (suc d) input.inner.num_proofs hash
  unfolding virtual_assign_phase0
  virtual_assign_phase0_sound a input d {previous} {accumulator} {instance0} {instance1} small depth
        aggregated removed a0 a1 h =
      let n = input.inner.num_proofs in
      let b0 = Accepted-Batch chip (omega arith) a0 in
      let b1 = Accepted-Batch chip (omega arith) a1 in
      let (new_instances, joined, rest) =
        >>=-eq-ok (join_previous_instances c instance0 instance1 n (suc d)) _
          (rw (aggregated, removed, depth) at h) in
      let (hash, hashed, rest') = >>=-eq-ok (output_hash c new_instances n (suc d)) _ rest in
      let (len, last) = assert-eq-ok _ _ rest' in
      (
        hash,
        sym (ok-injective last),
        joined_output n d b0 b1 small
            (join_previous_instances_sound chip (omega arith) b0.header b1.header b0.claims
              b1.claims n b0.range b1.range b0.filled b1.filled (rw (b0.shown, b1.shown) at joined))
            hashed,
      )
