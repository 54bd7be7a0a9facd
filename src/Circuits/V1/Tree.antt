-- ===== src/Circuits/V1/Tree.antt =====
-- The proofs of the V1 aggregation tree, and that each shows a batch of verified claims.
use native.Mathlib.Nat.{pow-suc}
use worldcoin_aggregation.Prelude.{
  ℕ, suc, ◌^◌, ◌<◌, ◌≡◌, sym, ◌∙◌, List, ◌++◌, ok, arith, All-append, length, length-append,
  >>=-eq-ok, assert-eq-ok, ok-injective,
}
use worldcoin_aggregation.Halo2.{Chip, IsChip}
use worldcoin_aggregation.Circuits.Shared.Spec.{extend}
use worldcoin_aggregation.Circuits.Shared.Range.{JoinedRange-IsRange}
use worldcoin_aggregation.Circuits.Claims.{WorldcoinLeafInput, check_range}
use worldcoin_aggregation.Circuits.Claims.Verified.{
  Verified, check_range_sound, verify_claims_sound,
}
use worldcoin_aggregation.Circuits.V1.Leaf
use worldcoin_aggregation.Circuits.V1.Intermediate.{join_previous_instances}
use worldcoin_aggregation.Circuits.V1.Batch.{
  Batch, vk_hash, columns, JoinedBatch, join_previous_instances_sound,
}

-- The public instances, without accumulators, of the proofs that the circuits of each depth accept:
-- a leaf, or two proofs of the depth below joined by an intermediate circuit.
pub data Accepted (c : Chip) : ℕ → List ℕ → Type 0 where
  leaf :
      (input : WorldcoinLeafInput) {d : ℕ} {out : List ℕ}
      → input.max_depth ≡ d
      → length input.claims ≡ 2 ^ d
      → Leaf.virtual_assign_phase0 c input ≡ ok out
      → Accepted c d out
  node :
      (num_proofs : ℕ) {d : ℕ} {instance0 instance1 out : List ℕ}
      → Accepted c d instance0
      → Accepted c d instance1
      → join_previous_instances c instance0 instance1 num_proofs (suc d) ≡ ok out
      → Accepted c (suc d) out

module _ {c : Chip} (chip : IsChip c) where
  -- What the leaf circuit shows.
  pub virtual_assign_phase0-Batch :
      (input : WorldcoinLeafInput) (d : ℕ) {out : List ℕ}
      → d < 60
      → input.max_depth ≡ d
      → length input.claims ≡ 2 ^ d
      → Leaf.virtual_assign_phase0 c input ≡ ok out
      → Batch c d out
  unfolding Leaf.virtual_assign_phase0
  virtual_assign_phase0-Batch input d small depth filled h =
      let (n, range, h1) = >>=-eq-ok (check_range c input.start input.end input.max_depth) _ h in
      let (len, h2) = assert-eq-ok _ _ h1 in
      let (hash, hashed, h3) = >>=-eq-ok _ _ h2 in
      let (us, all, shown) = >>=-eq-ok _ _ h3 in
      let (lt, word, fits, count) =
        check_range_sound chip input.start input.end d (omega arith) (rw depth at range) in
      record {
        header = record {
          start = input.start;
          end = input.end;
          vk_hash_hi = hash.hi;
          vk_hash_lo = hash.lo;
          root = input.root;
        };
        claims = input.claims;
        range = record { nonempty = lt; word = word; fits = fits };
        filled = filled;
        verified =
            verify_claims_sound chip input.vk_bytes hash input.root input.num_public_inputs
              input.claims hashed all;
        shown = sym (ok-injective shown);
      }

  pub join_batches :
      {d n : ℕ} {instance0 instance1 out : List ℕ} (b0 : Batch c d instance0)
      (b1 : Batch c d instance1)
      → JoinedBatch d n b0.header b1.header (columns (b0.claims ++ b1.claims)) out
      → Batch c (suc d) out
  join_batches {d} {n} b0 b1 (same, (e, parts, shown)) = record {
    header = extend b0.header e.0;
    claims = b0.claims ++ b1.claims;
    range = JoinedRange-IsRange d n b0.range b1.range parts;
    filled = length-append b0.claims b1.claims ∙ omega (arith, pow-suc 2 d, b0.filled, b1.filled);
    verified =
        All-append (Verified c (vk_hash b0.header) b0.header.root) b0.claims b1.claims b0.verified
          (rw (same.same_hi, same.same_lo, same.same_root) b1.verified);
    shown = shown;
  }

  -- What an intermediate circuit shows, if its two proofs do.
  node-Batch :
      (d n : ℕ) {instance0 instance1 out : List ℕ}
      → d < 60
      → Batch c d instance0
      → Batch c d instance1
      → join_previous_instances c instance0 instance1 n (suc d) ≡ ok out
      → Batch c (suc d) out
  node-Batch d n {out = out} small b0 b1 h = join_batches b0 b1 (
      join_previous_instances_sound chip small b0.header b1.header b0.claims b1.claims n b0.range
        b1.range b0.filled b1.filled (rw (b0.shown, b1.shown) at h))

  -- Every proof of depth below 60 that the V1 leaf and intermediate circuits accept shows a
  -- nonempty range of at most 2^depth claims, and the columns of 2^depth claims that are all
  -- verified.
  pub Accepted-Batch : {d : ℕ} {out : List ℕ} → d < 60 → Accepted c d out → Batch c d out
  Accepted-Batch small (leaf input depth filled h) =
      virtual_assign_phase0-Batch input _ small depth filled h
  Accepted-Batch small (node n a0 a1 h) =
      node-Batch _ n (omega arith) (Accepted-Batch (omega arith) a0)
        (Accepted-Batch (omega arith) a1) h
