-- ===== src/System/Leaves.antt =====
-- The input that the leaf factory builds for good claims.
use worldcoin_aggregation.Prelude.{
  ℕ, ◌+◌, ◌-◌, ◌^◌, ◌≤◌, ◌<◌, ◌≡◌, true, false, List, [], ◌∷◌, map, Result, ok, arith, All, length,
  leb, ltb, ◌==◌,
}
use worldcoin_aggregation.Prelude.Words.{sub32, shl32, sub32-eq, shl32-eq, shl64-eq, u32_mod}
use worldcoin_aggregation.Circuits.Utils.{max_groth16_pi}
use worldcoin_aggregation.Circuits.Claims.{WorldcoinLeafInput}
use worldcoin_aggregation.Circuits.Snarks.{Snark}
use worldcoin_aggregation.Scheduler.Local.{RequestRouter, WorldcoinRequestLeaf}
use worldcoin_aggregation.Scheduler.Factory.{build_leaf, new_leaf_input}
use worldcoin_aggregation.System.{Setup}
use worldcoin_aggregation.System.Fill.{pad}
use worldcoin_aggregation.System.Honest.{Terms, IsHonest, IsGood, read_claims}

module _ {Vk Root Claim : Type 0} (s : Setup Vk Root Claim) (t : Terms Root Claim) where
  abbrev pub leaf_request_of : ℕ → ℕ → ℕ → List Claim → WorldcoinRequestLeaf Root Claim
  leaf_request_of start end d claims = record {
    start = start;
    end = end;
    depth = d;
    root = t.root_text;
    claims = claims;
  }

  -- The claims are read, and the first is repeated to the end.
  abbrev pub leaf_input_of : ℕ → ℕ → ℕ → List Claim → WorldcoinLeafInput
  leaf_input_of start end d claims = record {
    start = start;
    end = end;
    vk_bytes = t.vk_bytes;
    root = t.root;
    claims = pad (2 ^ d) (map t.read claims);
    num_public_inputs = max_groth16_pi + 1;
    max_depth = d;
  }

  pub build_leaf-leaf_input_of :
      {prove : RequestRouter Root Claim → Result Snark} (start end d : ℕ) (claims : List Claim)
      → IsHonest s t prove
      → start < end
      → end < u32_mod
      → end ≤ start + 2 ^ d
      → d < 31
      → length claims ≡ end - start
      → All (IsGood s t) claims
      → build_leaf s.parsers s.vk (leaf_request_of start end d claims)
        ≡ ok (leaf_input_of start end d claims)
  unfolding build_leaf new_leaf_input
  build_leaf-leaf_input_of start end d [] honest pos word fits small counted good =
      absurd (omega arith)
  build_leaf-leaf_input_of start end d (claim ∷ claims) honest pos word fits small counted good =
      let n : sub32 end start ≡ end - start = sub32-eq end start (omega arith) word in
      let nonempty : leb end start ≡ false = ground arith in
      let few : ltb (shl32 d) (sub32 end start) ≡ false = ground (arith, n, shl32-eq d) in
      let len : (length (claim ∷ claims) == sub32 end start) ≡ true = ground (arith, n) in
      let some_claim : ltb 0 (sub32 end start) ≡ true = ground (arith, n) in
      let (all, accepted) = read_claims s t (claim ∷ claims) good in
      rw (
        nonempty,
        few,
        len,
        some_claim,
        IsHonest.key_read honest,
        all,
        IsHonest.root_read honest,
        shl64-eq d (omega arith),
      )
