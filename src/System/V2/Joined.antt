-- ===== src/System/V2/Joined.antt =====
-- What the V2 circuits make of two proofs that may be joined: the constraints hold, and the instances
-- are those of all the claims.
use worldcoin_aggregation.Prelude.{
  ℕ, zero, suc, ◌+◌, ◌^◌, ◌≤◌, ◌<◌, ◌≡◌, refl, ap, ◌∙◌, inl, inr, Bool, true, false, List, [], ◌∷◌,
  ◌++◌, ok, arith, All, length, replicate, length-replicate, bit, if◌then◌else◌,
}
use worldcoin_aggregation.Prelude.Words.{pow_mono}
use worldcoin_aggregation.Halo2.{Chip, IsChip, HiLo}
use worldcoin_aggregation.Circuits.Claims.{ClaimInput}
use worldcoin_aggregation.Circuits.Merkle.{max_dummy_depth}
use worldcoin_aggregation.Circuits.Merkle.Spec.{branch_hash, merkle_root, first}
use worldcoin_aggregation.Circuits.Merkle.Tree.{IsWord, keccak-IsWord, branch_nodes-eq}
use worldcoin_aggregation.Circuits.Merkle.Dummy.{
  dummy_root, dummy_leaf, word_of, dummy_claim_roots-index,
}
use worldcoin_aggregation.Circuits.Shared.Spec.{
  Header, instances_of, extend, Alone, Chained, JoinedRange, join_complete, join_sound,
  prev_depth-eq,
}
use worldcoin_aggregation.Circuits.Shared.Range.{JoinedRange-count}
use worldcoin_aggregation.Circuits.V2.Intermediate.{join_claim_roots, join_previous_instances}
use worldcoin_aggregation.Circuits.V2.Leaf.Leaves.{padded}
use worldcoin_aggregation.Circuits.V2.Padding.{padded-IsWord, replicate-IsWord, length-padded}
use worldcoin_aggregation.Circuits.V2.Roots.{hi_lo, slice-halves, select-HiLo}
use worldcoin_aggregation.Circuits.V2.ClaimTrees.{claim_root}
use worldcoin_aggregation.Circuits.V2.Tree.{claim_root-alone, claim_root-append}
use worldcoin_aggregation.System.Ranges.{Linked}

module _ {c : Chip} (chip : IsChip c) where
  first-IsWord : (xs : List HiLo) → 0 < length xs → All IsWord xs → IsWord (first xs)
  first-IsWord [] l h = elim l [ ]
  first-IsWord (x ∷ xs) l h = h.0

  merkle_root-IsWord :
      (d : ℕ) (xs : List HiLo) → 0 < length xs → All IsWord xs → IsWord (merkle_root c d xs)
  unfolding merkle_root branch_hash
  merkle_root-IsWord zero xs some_leaf h = first-IsWord xs some_leaf h
  merkle_root-IsWord (suc d) xs some_leaf h = keccak-IsWord chip _

  claim_root-IsWord :
      (d : ℕ) (xs : List ClaimInput) → length xs ≤ 2 ^ d → IsWord (claim_root c d xs)
  unfolding claim_root
  claim_root-IsWord d xs fits =
      merkle_root-IsWord d (padded c (2 ^ d) xs)
        (omega (arith, length-padded c (2 ^ d) xs fits, pow_mono 0 d (omega arith)))
        (padded-IsWord chip (2 ^ d) xs fits)

  dummy_root-IsWord : (d : ℕ) → IsWord (dummy_root c d)
  unfolding dummy_root
  dummy_root-IsWord d =
      merkle_root-IsWord d (replicate (2 ^ d) (dummy_leaf c))
        (omega (arith, length-replicate (2 ^ d) (dummy_leaf c), pow_mono 0 d (omega arith)))
        (replicate-IsWord chip (2 ^ d))

  choice-IsWord : (s : Bool) (a b : HiLo) → IsWord a → IsWord b → IsWord (if s then a else b)
  choice-IsWord true a b x y = x
  choice-IsWord false a b x y = y

  -- The new claim root.
  join_claim_roots_complete :
      (d : ℕ) (h0 h1 : Header) (r0 r1 : HiLo) (dummy : Bool)
      → d ≤ max_dummy_depth
      → IsWord r0
      → IsWord r1
      → join_claim_roots c
          (instances_of h0 (hi_lo r0))
          (instances_of h1 (hi_lo r1))
          (bit dummy)
          (suc d)
        ≡ ok (hi_lo (branch_hash c r0 (if dummy then dummy_root c d else r1)))
  unfolding join_claim_roots
  join_claim_roots_complete d h0 h1 r0 r1 dummy l word0 word1 =
      let (roots, bs, computed, at, is) = dummy_claim_roots-index chip d l in
      let (hi_half, lo_half) = slice-halves chip bs is.long in
      let right : record {
        hi = c.select (word_of bs).hi r1.hi (bit dummy);
        lo = c.select (word_of bs).lo r1.lo (bit dummy);
      }
          ≡ (if dummy then dummy_root c d else r1) =
        select-HiLo chip (word_of bs) r1 dummy ∙ ap (λ r. if dummy then r else r1) is.root in
      rw (
        computed,
        prev_depth-eq d (omega arith),
        at,
        hi_half,
        lo_half,
        right,
        branch_nodes-eq chip r0 (if dummy then dummy_root c d else r1) word0
            (choice-IsWord dummy (dummy_root c d) r1 (dummy_root-IsWord d) word1),
      )

  module _ (d n : ℕ) (h0 h1 : Header) (xs ys whole : List ClaimInput) (small : d ≤ max_dummy_depth)
      (few0 : length xs ≤ 2 ^ d) (few1 : length ys ≤ 2 ^ d) (alone : Alone d n h0 → whole ≡ xs)
      (chained : Chained d n h0 h1 → (whole ≡ xs ++ ys) × (length xs ≡ 2 ^ d)) where
    root_of_parts :
        {e : ℕ × ℕ}
        → JoinedRange d n h0 h1 e
        → join_claim_roots c
            (instances_of h0 (hi_lo (claim_root c d xs)))
            (instances_of h1 (hi_lo (claim_root c d ys)))
            e.1
            (suc d)
          ≡ ok (hi_lo (claim_root c (suc d) whole))
    root_of_parts (inl (one, shape)) =
        let made =
          join_claim_roots_complete d h0 h1 (claim_root c d xs) (claim_root c d ys) true small
            (claim_root-IsWord d xs few0) (claim_root-IsWord d ys few1) in
        rw (shape, alone one) (made ∙ ap (λ r. ok (hi_lo r)) (claim_root-alone chip d xs few0))
    root_of_parts (inr (two, shape)) =
        let (all, full) = chained two in
        let made =
          join_claim_roots_complete d h0 h1 (claim_root c d xs) (claim_root c d ys) false small
            (claim_root-IsWord d xs few0) (claim_root-IsWord d ys few1) in
        rw (shape, all) (made ∙ ap (λ r. ok (hi_lo r)) (claim_root-append chip d xs ys full))

    -- Joining two proofs that follow each other, or one with itself.
    pub join_previous_instances_complete :
        Linked d n h0 h1
        → n < 2 ^ c.safe_bits (2 ^ d + 1)
        → join_previous_instances c
            (instances_of h0 (hi_lo (claim_root c d xs)))
            (instances_of h1 (hi_lo (claim_root c d ys)))
            n
            (suc d)
          ≡ ok (instances_of (extend h0 (h0.start + n)) (hi_lo (claim_root c (suc d) whole)))
    unfolding join_previous_instances
    join_previous_instances_complete linked room =
        let r0 = hi_lo (claim_root c d xs) in
        let r1 = hi_lo (claim_root c d ys) in
        let (joined, joins) =
          join_complete chip (omega arith) linked.range linked.range1 r0 r1 n 7 refl refl room
            linked.same linked.parts in
        let (same, (e, range, shape)) =
          join_sound chip (omega arith) linked.range linked.range1 r0 r1 n 7 joins in
        let new_end = JoinedRange-count d n range in rw (joins, shape, root_of_parts range, new_end)
