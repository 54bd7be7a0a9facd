-- ===== src/System/V2/Halves.antt =====
-- The two proofs that a V2 aggregation circuit joins.
use mathlib.Core.List.{map-append}
use worldcoin_aggregation.Prelude.{
  ℕ, ◌+◌, ◌-◌, ◌^◌, ◌≤◌, ◌<◌, ◌≡◌, refl, sym, ap, ◌∙◌, inl, inr, List, ◌++◌, map, arith, length,
}
use worldcoin_aggregation.Prelude.Words.{pow_mono, u32_mod}
use worldcoin_aggregation.Circuits.Claims.{ClaimInput}
use worldcoin_aggregation.Circuits.Shared.Spec.{Header, Alone, Chained, instances_of}
use worldcoin_aggregation.Circuits.Snarks.{Snark}
use worldcoin_aggregation.Circuits.V2.ClaimTrees.{claim_root}
use worldcoin_aggregation.Circuits.V2.Roots.{hi_lo}
use worldcoin_aggregation.System.{Setup, prove_v2}
use worldcoin_aggregation.System.Honest.{Terms, header_for, length-map}
use worldcoin_aggregation.System.Ranges.{Linked, one-Linked, two-Linked}
use worldcoin_aggregation.System.Snarks.{Shown}
use worldcoin_aggregation.System.Tree.{Halves, Showing}

module _ {Vk Root Claim : Type 0} (s : Setup Vk Root Claim) (t : Terms Root Claim) where
  -- The instances of a V2 proof of depth `d`.
  abbrev pub tree_of : ℕ → Header → List ClaimInput → List ℕ
  tree_of d h claims = instances_of h (hi_lo (claim_root s.chip d claims))

  abbrev pub ShowsV2 : ℕ → ℕ → Showing Claim
  ShowsV2 i k start end claims sn =
      Shown (prove_v2 s) s.aggregator k
        (tree_of (i + k) (header_for t start end) (map t.read claims)) sn

  -- Two proofs that a circuit joins.
  pub record Joinable (i k start end : ℕ) (claims : List Claim) (x y : Snark) : Type 0 where
    pub mid : ℕ
    pub h1 : Header
    pub xs : List ClaimInput
    pub ys : List ClaimInput
    pub first : Shown (prove_v2 s) s.aggregator k (tree_of (i + k) (header_for t start mid) xs) x
    pub second : Shown (prove_v2 s) s.aggregator k (tree_of (i + k) h1 ys) y
    pub linked : Linked (i + k) (end - start) (header_for t start mid) h1
    pub few0 : length xs ≤ 2 ^ (i + k)
    pub few1 : length ys ≤ 2 ^ (i + k)
    pub alone : Alone (i + k) (end - start) (header_for t start mid) → map t.read claims ≡ xs
    pub chained :
        Chained (i + k) (end - start) (header_for t start mid) h1
        → (map t.read claims ≡ xs ++ ys) × (length xs ≡ 2 ^ (i + k))

  pub joinable :
      (i k start end : ℕ) (claims : List Claim) (x y : Snark)
      → start < end
      → end < u32_mod
      → Halves (ShowsV2 i k) (2 ^ (i + k)) start end claims x y
      → Joinable i k start end claims x y
  joinable i k start end claims x y pos word (inl one) =
      let len = length-map t.read claims in
      let few : length (map t.read claims) ≤ 2 ^ (i + k) = omega (arith, one.count, one.fits) in
      record {
        mid = end;
        h1 = header_for t start end;
        xs = map t.read claims;
        ys = map t.read claims;
        first = one.shows;
        second = rw one.same one.shows;
        linked = one-Linked t (i + k) start end pos word one.fits;
        few0 = few;
        few1 = few;
        alone = λ a. refl;
        chained = λ c. absurd (omega (arith, Chained.large c, one.fits));
      }
  joinable i k start end claims x y pos word (inr two) =
      let len = length-map t.read two.xs in
      let len' = length-map t.read two.ys in
      let some_half = pow_mono 0 (i + k) (omega arith) in
      record {
        mid = two.mid;
        h1 = header_for t two.mid end;
        xs = map t.read two.xs;
        ys = map t.read two.ys;
        first = two.first;
        second = two.second;
        linked = two-Linked t (i + k) start two.mid end two.full two.more word two.fits;
        few0 = omega (arith, two.count_xs, two.full);
        few1 = omega (arith, two.count_ys, two.fits);
        alone = λ a. absurd (omega (arith, Alone.small a, two.full, two.more));
        chained = λ c. (
          ap (map t.read) (sym two.whole) ∙ map-append t.read two.xs two.ys,
          omega (arith, two.count_xs, two.full),
        );
      }
