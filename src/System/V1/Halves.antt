-- ===== src/System/V1/Halves.antt =====
-- The two proofs that a V1 aggregation circuit joins.
use mathlib.Core.List.{map-append}
use worldcoin_aggregation.Prelude.{
  ℕ, suc, ◌+◌, ◌-◌, ◌^◌, ◌≤◌, ◌<◌, ◌≡◌, sym, ap, ◌∙◌, inl, inr, List, ◌++◌, map, arith, length,
}
use worldcoin_aggregation.Prelude.Words.{pow_mono, u32_mod}
use worldcoin_aggregation.Circuits.Claims.{ClaimInput}
use worldcoin_aggregation.Circuits.Shared.Spec.{Header, instances_of}
use worldcoin_aggregation.Circuits.Snarks.{Snark}
use worldcoin_aggregation.Circuits.V1.Batch.{columns}
use worldcoin_aggregation.System.{Setup, prove}
use worldcoin_aggregation.System.Fill.{fill, fill-one, fill-two, length-fill}
use worldcoin_aggregation.System.Honest.{Terms, header_for, length-map}
use worldcoin_aggregation.System.Ranges.{Linked, one-Linked, two-Linked}
use worldcoin_aggregation.System.Snarks.{Shown}
use worldcoin_aggregation.System.Tree.{Halves, Showing}

module _ {Vk Root Claim : Type 0} (s : Setup Vk Root Claim) (t : Terms Root Claim) where
  -- The claims that a V1 proof shows.
  abbrev pub shown_claims : ℕ → ℕ → List Claim → List ClaimInput
  shown_claims i k claims = fill i k (map t.read claims)

  abbrev pub ShowsV1 : ℕ → ℕ → Showing Claim
  ShowsV1 i k start end claims sn =
      Shown (prove s) s.aggregator k
        (instances_of (header_for t start end) (columns (shown_claims i k claims))) sn

  -- Two proofs that a circuit joins.
  pub record Joinable (i k start end : ℕ) (claims : List Claim) (x y : Snark) : Type 0 where
    pub mid : ℕ
    pub h1 : Header
    pub xs : List ClaimInput
    pub ys : List ClaimInput
    pub first :
        Shown (prove s) s.aggregator k (instances_of (header_for t start mid) (columns xs)) x
    pub second : Shown (prove s) s.aggregator k (instances_of h1 (columns ys)) y
    pub linked : Linked (i + k) (end - start) (header_for t start mid) h1
    pub filled0 : length xs ≡ 2 ^ (i + k)
    pub filled1 : length ys ≡ 2 ^ (i + k)
    pub whole : xs ++ ys ≡ shown_claims i (suc k) claims

  filled_part :
      (i k n : ℕ) (claims : List Claim)
      → length claims ≡ n
      → 0 < n
      → n ≤ 2 ^ (i + k)
      → length (shown_claims i k claims) ≡ 2 ^ (i + k)
  filled_part i k n claims count pos fits =
      let len = length-map t.read claims in
      length-fill i k (map t.read claims) (omega arith) (omega arith)

  pub joinable :
      (i k start end : ℕ) (claims : List Claim) (x y : Snark)
      → start < end
      → end < u32_mod
      → Halves (ShowsV1 i k) (2 ^ (i + k)) start end claims x y
      → Joinable i k start end claims x y
  joinable i k start end claims x y pos word (inl one) =
      let len = length-map t.read claims in
      let filled =
        filled_part i k (end - start) claims one.count (omega arith) (omega (arith, one.fits)) in
      record {
        mid = end;
        h1 = header_for t start end;
        xs = shown_claims i k claims;
        ys = shown_claims i k claims;
        first = one.shows;
        second = rw one.same one.shows;
        linked = one-Linked t (i + k) start end pos word one.fits;
        filled0 = filled;
        filled1 = filled;
        whole = sym (fill-one i k (map t.read claims) (omega (arith, one.count, one.fits)));
      }
  joinable i k start end claims x y pos word (inr two) =
      let len = length-map t.read two.xs in
      let len' = length-map t.read two.ys in
      let some_half = pow_mono 0 (i + k) (omega arith) in
      record {
        mid = two.mid;
        h1 = header_for t two.mid end;
        xs = shown_claims i k two.xs;
        ys = shown_claims i k two.ys;
        first = two.first;
        second = two.second;
        linked = two-Linked t (i + k) start two.mid end two.full two.more word two.fits;
        filled0 =
            filled_part i k (two.mid - start) two.xs two.count_xs (omega (arith, two.full))
              (omega (arith, two.full));
        filled1 =
            filled_part i k (end - two.mid) two.ys two.count_ys (omega (arith, two.more))
              (omega (arith, two.fits));
        whole =
            sym (
              fill-two i k (map t.read two.xs) (map t.read two.ys)
                (omega (arith, two.count_xs, two.full)) (omega (arith, two.count_ys, two.more)))
            ∙ ap (fill i (suc k))
                (sym (map-append t.read two.xs two.ys) ∙ ap (map t.read) two.whole);
      }
