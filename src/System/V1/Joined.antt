-- ===== src/System/V1/Joined.antt =====
-- What the V1 circuits make of two proofs that may be joined: the constraints hold, and the instances
-- are those of all the claims.
use worldcoin_aggregation.Prelude.{
  ℕ, suc, ◌+◌, ◌*◌, ◌^◌, ◌<◌, ◌≡◌, ◌⊎◌, refl, ap, ◌∙◌, List, ◌++◌, ok, arith, length,
}
use worldcoin_aggregation.Halo2.{Chip, IsChip}
use worldcoin_aggregation.Circuits.Claims.{ClaimInput}
use worldcoin_aggregation.Circuits.Shared.Spec.{
  Header, instances_of, extend, IsRange, SameBatch, Alone, Chained, join_complete,
}
use worldcoin_aggregation.Circuits.Shared.Range.{JoinedRange-count}
use worldcoin_aggregation.Circuits.V1.Batch.{
  columns, join_previous_instances-eq, join_previous_instances_sound,
}
use worldcoin_aggregation.Circuits.V1.Intermediate.{join_previous_instances}
use worldcoin_aggregation.Circuits.V1.Root.Output.{length-columns}

module _ {c : Chip} (chip : IsChip c) {d : ℕ} (small : d < 60) where
  -- Joining two batches that follow each other, or one with itself.
  pub join_previous_instances_complete :
      (h0 h1 : Header) (xs ys : List ClaimInput) (n : ℕ)
      → IsRange d h0
      → IsRange d h1
      → length xs ≡ 2 ^ d
      → length ys ≡ 2 ^ d
      → n < 2 ^ c.safe_bits (2 ^ d + 1)
      → SameBatch h0 h1
      → Alone d n h0 ⊎ Chained d n h0 h1
      → join_previous_instances c
          (instances_of h0 (columns xs))
          (instances_of h1 (columns ys))
          n
          (suc d)
        ≡ ok (instances_of (extend h0 (h0.start + n)) (columns (xs ++ ys)))
  join_previous_instances_complete h0 h1 xs ys n range0 range1 len0 len1 w same parts =
      let (joined, ok_joined) =
        join_complete chip (omega arith) range0 range1 (columns xs) (columns ys) n (5 + 3 * 2 ^ d)
          (omega (arith, length-columns xs (2 ^ d) len0))
          (omega (arith, length-columns ys (2 ^ d) len1)) w same parts in
      let eq = join_previous_instances-eq h0 h1 xs ys (2 ^ d) d small refl c n len0 len1 in
      let run : join_previous_instances c (instances_of h0 (columns xs))
            (instances_of h1 (columns ys)) n (suc d)
          ≡ ok (joined.0 ++ columns (xs ++ ys)) =
        eq ∙ rw ok_joined in
      let (same_batch, (e, range, shown)) =
        join_previous_instances_sound chip small h0 h1 xs ys n range0 range1 len0 len1 run in
      run ∙ ap ok (shown ∙ rw (JoinedRange-count d n range))
