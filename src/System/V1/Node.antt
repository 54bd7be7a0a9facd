-- ===== src/System/V1/Node.antt =====
-- What the V1 aggregation circuits show of good claims.
use native.Mathlib.Nat.{pow-suc}
use worldcoin_aggregation.Prelude.{
  ℕ, suc, ◌+◌, ◌-◌, ◌*◌, ◌^◌, ◌≤◌, ◌<◌, ◌≡◌, refl, sym, ap, ◌∙◌, true, false, List, [], ◌∷◌, ◌++◌,
  map, ok, arith, All, length, length-append, leb, ltb, ◌==◌,
}
use worldcoin_aggregation.Prelude.Words.{shl32-eq, shl64-eq, word64, word64-eq, pow_mono, u32_mod}
use worldcoin_aggregation.Halo2.{IsChip, HiLo}
use worldcoin_aggregation.Circuits.Shared.Spec.{instances_of}
use worldcoin_aggregation.Circuits.Snarks.{Snark}
use worldcoin_aggregation.Circuits.V1.Batch.{columns}
use worldcoin_aggregation.Circuits.V1.Intermediate.{
  WorldcoinIntermediateAggregationInput, join_previous_instances, get_num_instance,
  extend_instances,
}
use worldcoin_aggregation.Circuits.V1.Intermediate as V1Intermediate
use worldcoin_aggregation.Circuits.V1.Root as V1Root
use worldcoin_aggregation.Circuits.V1.Root.Output.{length-columns, preimage}
use worldcoin_aggregation.Scheduler.Local.{RequestRouter}
use worldcoin_aggregation.Scheduler.Factory.{build_intermediate, build_root}
use worldcoin_aggregation.System.{Setup, prove, aggregation_snark}
use worldcoin_aggregation.System.Fill.{All-fill}
use worldcoin_aggregation.System.Honest.{Terms, IsHonest, IsGood, Accepts, header_for, read_claims}
use worldcoin_aggregation.System.Ranges.{Linked-count, counted, check_root-eq}
use worldcoin_aggregation.System.Snarks.{node_of, cleaned, checked}
use worldcoin_aggregation.System.V1.Halves.{Joinable, ShowsV1, shown_claims}
use worldcoin_aggregation.System.V1.Joined.{join_previous_instances_complete}
use worldcoin_aggregation.System.V1.Hashed.{
  output_hash_complete, columns-FitsWord, get_vk_hash-FitsWord,
}

module _ {Vk Root Claim : Type 0} (s : Setup Vk Root Claim) (t : Terms Root Claim)
    (chip : IsChip s.chip) (honest : IsHonest s t (prove s)) (i k start end : ℕ)
    (claims : List Claim) (x y : Snark) (pos : start < end) (word : end < u32_mod)
    (small : i + k < 30) (wide : 2 ^ suc (i + k) < 2 ^ s.chip.safe_bits (2 ^ (i + k) + 1))
    (j : Joinable s t i k start end claims x y) where
  few : end - start ≤ 2 * 2 ^ (i + k)
  few = Linked-count j.linked

  joins :
      join_previous_instances s.chip
        (instances_of (header_for t start j.mid) (columns j.xs))
        (instances_of j.h1 (columns j.ys))
        (end - start)
        (suc (i + k))
      ≡ ok (instances_of (header_for t start end) (columns (shown_claims s t i (suc k) claims)))
  joins =
      let back : start + (end - start) ≡ end = omega arith in
      let room : end - start < 2 ^ s.chip.safe_bits (2 ^ (i + k) + 1) =
        omega (arith, few, pow-suc 2 (i + k), wide) in
      let joined =
        join_previous_instances_complete chip (omega arith) (header_for t start j.mid) j.h1 j.xs
          j.ys (end - start) j.linked.range j.linked.range1 j.filled0 j.filled1 room j.linked.same
          j.linked.parts in
      rw (back, j.whole) at joined

  filled : length (shown_claims s t i (suc k) claims) ≡ 2 ^ suc (i + k)
  filled =
      ap length (sym j.whole)
      ∙ (length-append j.xs j.ys ∙ omega (arith, j.filled0, j.filled1, pow-suc 2 (i + k)))

  -- The input of the circuit of the node.
  abbrev input : WorldcoinIntermediateAggregationInput
  input = record {
    num_proofs = end - start;
    snarks = x ∷ y ∷ [];
    max_depth = suc (i + k);
    initial_depth = i;
  }

  input-new : V1Intermediate.new (x ∷ y ∷ []) (end - start) (suc (i + k)) i ≡ ok input
  unfolding V1Intermediate.new
  input-new =
      let some_proof : (end - start == 0) ≡ false = ground arith in
      let above : ltb i (suc (i + k)) ≡ true = ground arith in
      let fits : leb (end - start) (2 ^ suc (i + k)) ≡ true =
        ground (arith, few, pow-suc 2 (i + k)) in
      rw (some_proof, above, shl32-eq (suc (i + k)) (omega arith), fits)

  abbrev shown : List ℕ
  shown = instances_of (header_for t start end) (columns (shown_claims s t i (suc k) claims))

  extends :
      (acc : List ℕ)
      → length acc ≡ s.aggregator.num_fe_accumulator
      → extend_instances s.aggregator (acc ∷ []) shown (suc (i + k)) ≡ ok (acc ++ shown)
  unfolding extend_instances get_num_instance
  extends acc len =
      let pow = pow_mono (suc (i + k)) 31 (omega arith) in
      let bound : word64 (5 + 3 * 2 ^ suc (i + k)) ≡ 5 + 3 * 2 ^ suc (i + k) =
        word64-eq _ (omega arith) in
      let size = length-columns (shown_claims s t i (suc k) claims) (2 ^ suc (i + k)) filled in
      let fits : word64 (s.aggregator.num_fe_accumulator + (5 + 3 * 2 ^ suc (i + k)))
          ≡ s.aggregator.num_fe_accumulator + (5 + 3 * 2 ^ suc (i + k)) =
        word64-eq _ (omega (arith, honest.acc_small)) in
      let total : length (acc ++ shown)
          ≡ s.aggregator.num_fe_accumulator + (5 + 3 * 2 ^ suc (i + k)) =
        length-append acc shown ∙ omega arith in
      let e1 : (length acc == s.aggregator.num_fe_accumulator) ≡ true = ground arith in
      let e2 : (length (acc ++ shown)
            == s.aggregator.num_fe_accumulator + (5 + 3 * 2 ^ suc (i + k)))
          ≡ true =
        ground arith in
      rw (e1, shl64-eq (suc (i + k)) (omega arith), bound, fits, e2)

  pub intermediate-ShowsV1 :
      (sn : Snark) × (prove s (RequestRouter.intermediate (node_of start end (suc (i + k)) i x y))
        ≡ ok sn)
      × ShowsV1 s t i (suc k) start end claims sn
  unfolding prove build_intermediate V1Intermediate.build
  intermediate-ShowsV1 =
      let (acc, len, aggregated) =
        honest.aggregates j.first.request j.second.request x y j.first.proved j.second.proved in
      let proved : prove s (RequestRouter.intermediate (node_of start end (suc (i + k)) i x y))
          ≡ ok (aggregation_snark s.aggregator (acc ++ shown)) =
        rw (
          counted start end pos word,
          input-new,
          checked (prove s) s.aggregator k j.first j.second i (omega arith),
          aggregated,
          cleaned (prove s) s.aggregator k j.first j.second,
          joins,
          extends acc len,
        ) in
      (
        aggregation_snark s.aggregator (acc ++ shown),
        proved,
        record {
          request = RequestRouter.intermediate (node_of start end (suc (i + k)) i x y);
          proved = proved;
          acc = acc;
          size = len;
          indices = refl;
          instances = refl;
        },
      )

  -- The hash that the root shows.
  abbrev pub shown_hash : HiLo
  shown_hash =
      s.chip.keccak_fixed_len
        (preimage t.vk_hash t.root (end - start) (shown_claims s t i (suc k) claims))

  hashes :
      All (IsGood s t) claims
      → V1Root.output_hash s.chip shown (end - start) (suc (i + k)) ≡ ok shown_hash
  hashes good =
      let (hi, lo) = get_vk_hash-FitsWord chip t.vk_bytes honest.key_hashed in
      let (all, accepted) = read_claims s t claims good in
      output_hash_complete chip (header_for t start end) (shown_claims s t i (suc k) claims)
        (end - start) (suc (i + k)) (omega arith) filled hi lo honest.root_word (omega arith)
        (columns-FitsWord s t (shown_claims s t i (suc k) claims)
          (All-fill (Accepts s t) i (suc k) (map t.read claims) accepted))

  -- The root proof shows this hash behind its accumulator.
  pub root-shown_hash :
      All (IsGood s t) claims
      → (acc : List ℕ) × (length acc ≡ s.aggregator.num_fe_accumulator)
        × (prove s (RequestRouter.root (node_of start end (suc (i + k)) i x y))
            ≡ ok (aggregation_snark s.aggregator (acc ++ (shown_hash.hi ∷ shown_hash.lo ∷ []))))
  unfolding prove build_root V1Root.new V1Root.virtual_assign_phase0
  root-shown_hash good =
      let (acc, len, aggregated) =
        honest.aggregates j.first.request j.second.request x y j.first.proved j.second.proved in
      let total : length (acc ++ (shown_hash.hi ∷ shown_hash.lo ∷ []))
          ≡ s.aggregator.num_fe_accumulator + 2 =
        length-append acc (shown_hash.hi ∷ shown_hash.lo ∷ []) ∙ omega arith in
      let bound =
        word64-eq (s.aggregator.num_fe_accumulator + 2) (omega (arith, honest.acc_small)) in
      let same : (length (acc ++ (shown_hash.hi ∷ shown_hash.lo ∷ []))
            == word64 (s.aggregator.num_fe_accumulator + 2))
          ≡ true =
        ground arith in
      (
        acc,
        len,
        rw (
          check_root-eq (i + k) i start end x y pos word small few,
          checked (prove s) s.aggregator k j.first j.second i (omega arith),
          input-new,
          aggregated,
          cleaned (prove s) s.aggregator k j.first j.second,
          joins,
          hashes good,
          same,
        ),
      )
