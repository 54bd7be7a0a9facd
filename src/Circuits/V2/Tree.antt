-- ===== src/Circuits/V2/Tree.antt =====
-- The proofs of the V2 aggregation tree, and that each shows the Merkle root of verified claims.
use native.Mathlib.Nat.{pow-suc}
use worldcoin_aggregation.Prelude.{
  ℕ, suc, ◌+◌, ◌^◌, ◌≤◌, ◌≡◌, sym, ap, ◌∙◌, true, false, inl, inr, List, ◌++◌, ok, arith, All,
  All-append, length, length-append, >>=-eq-ok, ok-injective, replicate,
}
use worldcoin_aggregation.Halo2.{Chip, IsChip}
use worldcoin_aggregation.Circuits.Shared.{check_and_join_shared_instances}
use worldcoin_aggregation.Circuits.Shared.Spec.{
  instances_of, extend, SameBatch, JoinedRange, join_sound,
}
use worldcoin_aggregation.Circuits.Shared.Range.{JoinedRange-IsRange, JoinedRange-count}
use worldcoin_aggregation.Circuits.Claims.{ClaimInput, WorldcoinLeafInput}
use worldcoin_aggregation.Circuits.Claims.Verified.{Verified}
use worldcoin_aggregation.Circuits.Merkle.{max_dummy_depth}
use worldcoin_aggregation.Circuits.Merkle.Spec.{branch_hash, merkle_root-append}
use worldcoin_aggregation.Circuits.Merkle.Dummy.{dummy_root, dummy_leaf}
use worldcoin_aggregation.Circuits.V1.Batch.{vk_hash}
use worldcoin_aggregation.Circuits.V2.Leaf
use worldcoin_aggregation.Circuits.V2.Leaf.{leaf_of, izip}
use worldcoin_aggregation.Circuits.V2.Leaf.Leaves.{padded, InField}
use worldcoin_aggregation.Circuits.V2.Intermediate.{
  join_claim_roots, join_previous_instances, num_instance,
}
use worldcoin_aggregation.Circuits.V2.Padding.{padded-add, padded-append, length-padded}
use worldcoin_aggregation.Circuits.V2.Roots.{hi_lo, join_claim_roots_sound}
use worldcoin_aggregation.Circuits.V2.ClaimTrees.{claim_root, ClaimTree, leaf-ClaimTree}

-- The public instances, without accumulators, of the proofs that the circuits of each depth accept.
pub data AcceptedV2 (c : Chip) : ℕ → List ℕ → Type 0 where
  leaf :
      (input : WorldcoinLeafInput) {d : ℕ} {out : List ℕ}
      → input.max_depth ≡ d
      → All (InField c) input.claims
      → Leaf.virtual_assign_phase0 c input ≡ ok out
      → AcceptedV2 c d out
  node :
      (num_proofs : ℕ) {d : ℕ} {instances0 instances1 out : List ℕ}
      → AcceptedV2 c d instances0
      → AcceptedV2 c d instances1
      → join_previous_instances c instances0 instances1 num_proofs (suc d) ≡ ok out
      → AcceptedV2 c (suc d) out

module _ {c : Chip} (chip : IsChip c) where
  -- The roots of the halves.
  pub claim_root-alone :
      (d : ℕ) (xs : List ClaimInput)
      → length xs ≤ 2 ^ d
      → branch_hash c (claim_root c d xs) (dummy_root c d) ≡ claim_root c (suc d) xs
  unfolding claim_root dummy_root
  claim_root-alone d xs fits =
      let twice : 2 ^ suc d ≡ 2 ^ d + 2 ^ d = omega (arith, pow-suc 2 d) in
      rw (
        twice,
        padded-add c (2 ^ d) (2 ^ d) xs fits,
        merkle_root-append c d (padded c (2 ^ d) xs) (replicate (2 ^ d) (dummy_leaf c))
            (length-padded c (2 ^ d) xs fits),
      )

  pub claim_root-append :
      (d : ℕ) (xs ys : List ClaimInput)
      → length xs ≡ 2 ^ d
      → branch_hash c (claim_root c d xs) (claim_root c d ys) ≡ claim_root c (suc d) (xs ++ ys)
  unfolding claim_root
  claim_root-append d xs ys full =
      let twice : 2 ^ suc d ≡ 2 ^ d + 2 ^ d = omega (arith, pow-suc 2 d) in
      rw (
        twice,
        padded-append c (2 ^ d) (2 ^ d) xs ys full,
        merkle_root-append c d (padded c (2 ^ d) xs) (padded c (2 ^ d) ys)
            (length-padded c (2 ^ d) xs (omega arith)),
      )

  -- Two trees, joined.
  pub join_trees :
      (d n : ℕ) {instances0 instances1 root out : List ℕ} {e : ℕ × ℕ}
      (t0 : ClaimTree c d instances0) (t1 : ClaimTree c d instances1)
      → d ≤ max_dummy_depth
      → SameBatch t0.header t1.header
      → JoinedRange d n t0.header t1.header e
      → join_claim_roots c
          (instances_of t0.header (hi_lo (claim_root c d t0.claims)))
          (instances_of t1.header (hi_lo (claim_root c d t1.claims)))
          e.1
          (suc d)
        ≡ ok root
      → out ≡ instances_of (extend t0.header e.0) root
      → (t : ClaimTree c (suc d) out) × (t.header.end ≡ t.header.start + n)
  join_trees d n {e = e} t0 t1 small same (inl (alone, eq)) h shown = (
    record {
      header = extend t0.header e.0;
      claims = t0.claims;
      range = JoinedRange-IsRange d n t0.range t1.range (inl (alone, eq));
      count = omega (arith, ap (λ (t : ℕ × ℕ). t.0) eq, t0.count);
      verified = t0.verified;
      shown =
          shown
          ∙ ap (instances_of (extend t0.header e.0)) (
              join_claim_roots_sound chip d t0.header t1.header _ _ true small
                (rw (ap (λ (t : ℕ × ℕ). t.1) eq) at h)
              ∙ ap hi_lo (claim_root-alone d t0.claims (omega (arith, t0.count, t0.range.fits))));
    },
    JoinedRange-count d n {h1 = t1.header} (inl (alone, eq)),
  )
  join_trees d n {e = e} t0 t1 small same (inr (chained, eq)) h shown = (
    record {
      header = extend t0.header e.0;
      claims = t0.claims ++ t1.claims;
      range = JoinedRange-IsRange d n t0.range t1.range (inr (chained, eq));
      count = omega (
        arith,
        ap (λ (t : ℕ × ℕ). t.0) eq,
        t0.count,
        t1.count,
        chained.linked,
        length-append t0.claims t1.claims,
      );
      verified =
          All-append (Verified c (vk_hash t0.header) t0.header.root) t0.claims t1.claims t0.verified
            (rw (same.same_hi, same.same_lo, same.same_root) t1.verified);
      shown =
          shown
          ∙ ap (instances_of (extend t0.header e.0)) (
              join_claim_roots_sound chip d t0.header t1.header _ _ false small
                (rw (ap (λ (t : ℕ × ℕ). t.1) eq) at h)
              ∙ ap hi_lo (
                  claim_root-append d t0.claims t1.claims (omega (arith, t0.count, chained.full))));
    },
    JoinedRange-count d n {h1 = t1.header} (inr (chained, eq)),
  )

  -- What an aggregation circuit shows, if its two proofs do.
  pub node-ClaimTree :
      (d n : ℕ) {instances0 instances1 out : List ℕ}
      → d ≤ max_dummy_depth
      → (t0 : ClaimTree c d instances0) → ClaimTree c d instances1
      → join_previous_instances c instances0 instances1 n (suc d) ≡ ok out
      → (t : ClaimTree c (suc d) out) × (t.header.end ≡ t.header.start + n)
  unfolding join_previous_instances
  node-ClaimTree d n small t0 t1 h =
      let i0 = instances_of t0.header (hi_lo (claim_root c d t0.claims)) in
      let i1 = instances_of t1.header (hi_lo (claim_root c d t1.claims)) in
      let (joined, shared, rest) =
        >>=-eq-ok (check_and_join_shared_instances c i0 i1 n (suc d) num_instance) _
          (rw (t0.shown, t1.shown) at h) in
      let (root, rooted, last) = >>=-eq-ok (join_claim_roots c i0 i1 joined.1 (suc d)) _ rest in
      let (same, (e, parts, shown)) =
        join_sound chip (omega arith) t0.range t1.range _ _ n num_instance shared in
      let flag = ap (λ (t : List ℕ × ℕ). t.1) shown in
      join_trees d n t0 t1 small same parts (rw flag at rooted)
        (sym (ok-injective last) ∙ ap (λ (t : List ℕ × ℕ). t.0 ++ root) shown)

  -- Every proof of depth at most 14 that the V2 leaf and intermediate circuits accept shows a
  -- nonempty range of at most 2^depth claims, and the Merkle root of exactly the claims of the
  -- range, which are all verified, padded with empty claims.
  pub AcceptedV2-ClaimTree :
      {d : ℕ} {out : List ℕ} → d ≤ 14 → AcceptedV2 c d out → ClaimTree c d out
  AcceptedV2-ClaimTree small (leaf input depth fields h) =
      leaf-ClaimTree chip input _ (omega arith) depth fields h
  AcceptedV2-ClaimTree small (node n a0 a1 h) =
      (node-ClaimTree _ n (omega arith) (AcceptedV2-ClaimTree (omega arith) a0)
        (AcceptedV2-ClaimTree (omega arith) a1) h).0
