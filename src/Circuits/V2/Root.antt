-- ===== src/Circuits/V2/Root.antt =====
-- circuit/src/circuits/v2/root.rs: the V2 root circuit, the aggregation circuit that exposes the
-- number of proofs instead of the range.
use worldcoin_aggregation.Prelude.{
  ℕ, suc, ◌^◌, ◌≤◌, ◌<◌, ◌≡◌, refl, sym, ◌∙◌, true, List, [], ◌∷◌, ◌++◌, Result, ok, arith, All,
  length, slice, ◌>>=◌, >>=-eq-ok, assert-eq-ok, ok-injective,
}
use worldcoin_aggregation.Halo2.{Chip, IsChip, HiLo}
use worldcoin_aggregation.Circuits.Claims.{ClaimInput}
use worldcoin_aggregation.Circuits.Claims.Verified.{Verified}
use worldcoin_aggregation.Circuits.Merkle.{max_dummy_depth}
use worldcoin_aggregation.Circuits.Shared.Spec.{Header, instances_of}
use worldcoin_aggregation.Circuits.Snarks.{Aggregator, Snark, remove_old_accumulators}
use worldcoin_aggregation.Circuits.V1.Batch.{vk_hash}
use worldcoin_aggregation.Circuits.V2.Roots.{hi_lo}
use worldcoin_aggregation.Circuits.V2.Intermediate.{
  WorldcoinIntermediateAggregationInputV2, join_previous_instances, exposed,
  virtual_assign_phase0_helper,
}
use worldcoin_aggregation.Circuits.V2.Intermediate
use worldcoin_aggregation.Circuits.V2.ClaimTrees.{claim_root}
use worldcoin_aggregation.Circuits.V2.Tree.{AcceptedV2, AcceptedV2-ClaimTree, node-ClaimTree}

pub record WorldcoinRootAggregationInputV2 : Type 0 where
  pub inner : WorldcoinIntermediateAggregationInputV2

-- `WorldcoinRootAggregationInputV2::new`
unfoldable pub new : Aggregator → List Snark → ℕ → ℕ → ℕ → Result WorldcoinRootAggregationInputV2
new a snarks num_proofs max_depth initial_depth = do
  inner ← Intermediate.new a snarks num_proofs max_depth initial_depth
  ok (record { inner = inner })

-- The public instances, if the constraints hold.
unfoldable pub virtual_assign_phase0 :
    Chip → Aggregator → WorldcoinRootAggregationInputV2 → Result (List ℕ)
virtual_assign_phase0 c a input = virtual_assign_phase0_helper c a input.inner true

-- The instances of a root proof of depth `d` beside its accumulator.
pub record RootOutputV2 (c : Chip) (d num_claims : ℕ) (shown : List ℕ) : Type 0 where
  pub vk : HiLo
  pub root : ℕ
  pub claims : List ClaimInput
  pub nonzero : 0 < num_claims
  pub fits : num_claims ≤ 2 ^ d
  pub count : length claims ≡ num_claims
  pub verified : All (Verified c vk root) claims
  pub instances : shown ≡ vk.hi ∷ vk.lo ∷ root ∷ num_claims ∷ hi_lo (claim_root c d claims)

pub exposed-instances :
    (h : Header) (r : HiLo) (n : ℕ)
    → exposed (instances_of h (hi_lo r)) n true
      ≡ ok (h.vk_hash_hi ∷ h.vk_hash_lo ∷ h.root ∷ n ∷ hi_lo r)
unfolding exposed
exposed-instances h r n = unfold slice in refl

module _ {c : Chip} (chip : IsChip c) where
  -- If the constraints of the V2 root circuit hold for two accepted proofs of depth d, for d up
  -- to 13, and the old accumulators are removed, its instances are the new accumulator, then the
  -- hash of a verifying key, a root, the number of claims that the circuit was built for, which
  -- lies between 1 and 2^(d + 1), and the Merkle root of exactly that many verified claims,
  -- padded with empty ones to 2^(d + 1).
  pub virtual_assign_phase0-RootOutputV2 :
      (a : Aggregator) (input : WorldcoinRootAggregationInputV2) (d : ℕ) {previous : List (List ℕ)}
      {accumulator instances0 instances1 out : List ℕ}
      → d ≤ max_dummy_depth
      → input.inner.max_depth ≡ suc d
      → a.aggregate_snarks input.inner.snarks ≡ ok (previous, accumulator)
      → remove_old_accumulators previous input.inner.prev_acc_indices
        ≡ ok (instances0 ∷ instances1 ∷ [])
      → AcceptedV2 c d instances0
      → AcceptedV2 c d instances1
      → virtual_assign_phase0 c a input ≡ ok out
      → (shown : List ℕ) × (out ≡ accumulator ++ shown)
        × RootOutputV2 c (suc d) input.inner.num_proofs shown
  unfolding virtual_assign_phase0 virtual_assign_phase0_helper
  virtual_assign_phase0-RootOutputV2 a input d {previous} {accumulator} {instances0} {instances1}
        small depth aggregated removed a0 a1 h =
      let n = input.inner.num_proofs in
      let t0 = AcceptedV2-ClaimTree chip (omega arith) a0 in
      let t1 = AcceptedV2-ClaimTree chip (omega arith) a1 in
      let (new_instances, joined, rest) =
        >>=-eq-ok (join_previous_instances c instances0 instances1 n (suc d)) _
          (rw (aggregated, removed, depth) at h) in
      let (shown, extended, rest') = >>=-eq-ok (exposed new_instances n true) _ rest in
      let (len, last) = assert-eq-ok _ _ rest' in
      let (t, count) = node-ClaimTree chip d n small t0 t1 joined in
      let root = claim_root c (suc d) t.claims in
      (
        shown,
        sym (ok-injective last),
        record {
          vk = vk_hash t.header;
          root = t.header.root;
          claims = t.claims;
          nonzero = omega (arith, t.range.nonempty, count);
          fits = omega (arith, t.range.fits, count);
          count = omega (arith, t.count, count);
          verified = t.verified;
          instances =
              ok-injective (sym (rw t.shown at extended) ∙ exposed-instances t.header root n);
        },
      )
