-- ===== src/System/V2/Node.antt =====
-- What the V2 aggregation circuits show of good claims.
use native.Mathlib.Nat.{pow-suc}
use worldcoin_aggregation.Prelude.{
  ℕ, suc, ◌+◌, ◌-◌, ◌*◌, ◌^◌, ◌≤◌, ◌<◌, ◌≡◌, refl, ◌∙◌, true, false, Bool, List, [], ◌∷◌, ◌++◌, map,
  ok, slice, arith, length, length-append, ◌==◌,
}
use worldcoin_aggregation.Prelude.Words.{word64, word64-eq, u32_mod}
use worldcoin_aggregation.Halo2.{IsChip}
use worldcoin_aggregation.Circuits.Merkle.{max_dummy_depth}
use worldcoin_aggregation.Circuits.Snarks.{Snark}
use worldcoin_aggregation.Circuits.V2.Intermediate.{
  WorldcoinIntermediateAggregationInputV2, join_previous_instances, exposed, num_exposed,
  virtual_assign_phase0_helper,
}
use worldcoin_aggregation.Circuits.V2.Intermediate as V2Intermediate
use worldcoin_aggregation.Circuits.V2.Root as V2Root
use worldcoin_aggregation.Circuits.V2.Root.{exposed-instances}
use worldcoin_aggregation.Circuits.V2.ClaimTrees.{claim_root}
use worldcoin_aggregation.Circuits.V2.Roots.{hi_lo}
use worldcoin_aggregation.Scheduler.Local.{RequestRouter}
use worldcoin_aggregation.Scheduler.Factory.{build_intermediate_v2, build_root_v2}
use worldcoin_aggregation.System.{Setup, prove_v2, aggregation_snark}
use worldcoin_aggregation.System.Honest.{Terms, IsHonest, header_for}
use worldcoin_aggregation.System.Ranges.{Linked-count, counted, check_root-eq}
use worldcoin_aggregation.System.Snarks.{node_of, cleaned, checked}
use worldcoin_aggregation.System.V2.Halves.{Joinable, ShowsV2, tree_of}
use worldcoin_aggregation.System.V2.Joined.{join_previous_instances_complete}

module _ {Vk Root Claim : Type 0} (s : Setup Vk Root Claim) (t : Terms Root Claim)
    (chip : IsChip s.chip) (honest : IsHonest s t (prove_v2 s)) (i k start end : ℕ)
    (claims : List Claim) (x y : Snark) (pos : start < end) (word : end < u32_mod)
    (small : i + k ≤ max_dummy_depth)
    (wide : 2 ^ suc (i + k) < 2 ^ s.chip.safe_bits (2 ^ (i + k) + 1))
    (j : Joinable s t i k start end claims x y) where
  few : end - start ≤ 2 * 2 ^ (i + k)
  few = Linked-count j.linked

  abbrev whole : List ℕ
  whole = tree_of s t (suc (i + k)) (header_for t start end) (map t.read claims)

  joins :
      join_previous_instances s.chip
        (tree_of s t (i + k) (header_for t start j.mid) j.xs)
        (tree_of s t (i + k) j.h1 j.ys)
        (end - start)
        (suc (i + k))
      ≡ ok whole
  joins =
      let back : start + (end - start) ≡ end = omega arith in
      let room : end - start < 2 ^ s.chip.safe_bits (2 ^ (i + k) + 1) =
        omega (arith, few, pow-suc 2 (i + k), wide) in
      let joined =
        join_previous_instances_complete chip (i + k) (end - start) (header_for t start j.mid) j.h1
          j.xs j.ys (map t.read claims) small j.few0 j.few1 j.alone j.chained j.linked room in
      rw back at joined

  abbrev input : WorldcoinIntermediateAggregationInputV2
  input = record {
    num_proofs = end - start;
    snarks = x ∷ y ∷ [];
    max_depth = suc (i + k);
    initial_depth = i;
    prev_acc_indices = x.accumulator_indices ∷ y.accumulator_indices ∷ [];
  }

  input-new : V2Intermediate.new s.aggregator (x ∷ y ∷ []) (end - start) (suc (i + k)) i ≡ ok input
  unfolding V2Intermediate.new
  input-new = rw (checked (prove_v2 s) s.aggregator k j.first j.second i (omega arith))

  -- The constraints of the circuit hold, whatever it exposes.
  assigned :
      (is_root : Bool) (shown : List ℕ)
      → exposed whole (end - start) is_root ≡ ok shown
      → length shown ≡ num_exposed is_root
      → num_exposed is_root ≤ 7
      → (acc : List ℕ) × (length acc ≡ s.aggregator.num_fe_accumulator)
        × (virtual_assign_phase0_helper s.chip s.aggregator input is_root ≡ ok (acc ++ shown))
  unfolding virtual_assign_phase0_helper
  assigned is_root shown shows size bounded =
      let (acc, len, aggregated) =
        honest.aggregates j.first.request j.second.request x y j.first.proved j.second.proved in
      let total : length (acc ++ shown) ≡ s.aggregator.num_fe_accumulator + num_exposed is_root =
        length-append acc shown ∙ omega arith in
      let fits =
        word64-eq (s.aggregator.num_fe_accumulator + num_exposed is_root)
          (omega (arith, honest.acc_small)) in
      let same : (length (acc ++ shown)
            == word64 (s.aggregator.num_fe_accumulator + num_exposed is_root))
          ≡ true =
        ground arith in
      (
        acc,
        len,
        rw (aggregated, cleaned (prove_v2 s) s.aggregator k j.first j.second, joins, shows, same),
      )

  exposed-whole : exposed whole (end - start) false ≡ ok whole
  unfolding exposed slice
  exposed-whole = refl

  pub intermediate-ShowsV2 :
      (sn : Snark) × (prove_v2 s
          (RequestRouter.intermediate (node_of start end (suc (i + k)) i x y))
        ≡ ok sn)
      × ShowsV2 s t i (suc k) start end claims sn
  unfolding prove_v2 build_intermediate_v2
  intermediate-ShowsV2 =
      let (acc, len, made) = assigned false whole exposed-whole refl (omega arith) in
      let proved : prove_v2 s (RequestRouter.intermediate (node_of start end (suc (i + k)) i x y))
          ≡ ok (aggregation_snark s.aggregator (acc ++ whole)) =
        rw (counted start end pos word, input-new, made) in
      let up : i + suc k ≡ suc (i + k) = omega arith in
      (
        aggregation_snark s.aggregator (acc ++ whole),
        proved,
        record {
          request = RequestRouter.intermediate (node_of start end (suc (i + k)) i x y);
          proved = proved;
          acc = acc;
          size = len;
          indices = refl;
          instances = rw up refl;
        },
      )

  -- What the root shows behind its accumulator.
  abbrev pub root_shown : List ℕ
  root_shown =
      t.vk_hash.hi
      ∷ t.vk_hash.lo
      ∷ t.root
      ∷ (end - start)
      ∷ hi_lo (claim_root s.chip (suc (i + k)) (map t.read claims))

  pub root-root_shown :
      (acc : List ℕ) × (length acc ≡ s.aggregator.num_fe_accumulator)
      × (prove_v2 s (RequestRouter.root (node_of start end (suc (i + k)) i x y))
          ≡ ok (aggregation_snark s.aggregator (acc ++ root_shown)))
  unfolding prove_v2 build_root_v2 V2Root.new V2Root.virtual_assign_phase0
  root-root_shown =
      let (acc, len, made) =
        assigned true root_shown
          (exposed-instances (header_for t start end)
            (claim_root s.chip (suc (i + k)) (map t.read claims)) (end - start))
          refl (omega arith) in
      (
        acc,
        len,
        rw (check_root-eq (i + k) i start end x y pos word (omega arith) few, input-new, made),
      )
