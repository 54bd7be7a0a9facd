-- ===== src/System/Honest.antt =====
-- The conditions under which a prover is expected to succeed.
use worldcoin_aggregation.Prelude.{
  ℕ, suc, ◌+◌, ◌^◌, ◌<◌, ◌≡◌, refl, ap, some, List, [], ◌∷◌, map, Result, ok, panic, Reason,
  or_fault, traverse, All, length,
}
use worldcoin_aggregation.Prelude.Words.{u32_mod}
use worldcoin_aggregation.Halo2.{Chip, HiLo}
use worldcoin_aggregation.Circuits.Utils.{get_vk_hash, max_groth16_pi}
use worldcoin_aggregation.Circuits.Claims.{ClaimInput, verify_claim}
use worldcoin_aggregation.Circuits.Shared.Spec.{Header}
use worldcoin_aggregation.Circuits.Snarks.{Snark}
use worldcoin_aggregation.Scheduler.Local.{RequestRouter}
use worldcoin_aggregation.System.{Setup}

-- In a tree of depth `deep` the safe comparison has room for the number of claims of two full proofs.
-- It checks the bits of its bound, rounded up to whole lookups, so that this holds of every tree
-- whose depth is below the number of bits of the lookup table.
abbrev pub HasRoom : Chip → ℕ → Type 0
HasRoom c deep = (d : ℕ) → d < deep → 2 ^ suc d < 2 ^ c.safe_bits (2 ^ d + 1)

-- The root, the key and the claims of a batch, and the field elements that they are read as.
pub record Terms (Root Claim : Type 0) : Type 0 where
  pub root_text : Root
  pub root : ℕ
  pub vk_bytes : List ℕ
  pub vk_hash : HiLo
  pub read : Claim → ClaimInput

abbrev pub header_for : {Root Claim : Type 0} → Terms Root Claim → ℕ → ℕ → Header
header_for t start end = record {
  start = start;
  end = end;
  vk_hash_hi = t.vk_hash.hi;
  vk_hash_lo = t.vk_hash.lo;
  root = t.root;
}

module _ {Vk Root Claim : Type 0} (s : Setup Vk Root Claim) (t : Terms Root Claim) where
  -- The key and the root can be read, and the aggregator accepts the snarks that the prover makes.
  pub record IsHonest (prove : RequestRouter Root Claim → Result Snark) : Type 0 where
    pub key_read : s.parsers.parse_vk s.vk max_groth16_pi ≡ some t.vk_bytes
    pub key_length : length t.vk_bytes ≡ s.chip.num_fe_hilo_vkey
    pub key_hashed : get_vk_hash s.chip t.vk_bytes ≡ ok t.vk_hash
    pub root_read : s.parsers.parse_root t.root_text ≡ some t.root
    pub root_word : t.root < 256 ^ 32
    pub aggregates :
        (r r' : RequestRouter Root Claim) (x y : Snark)
        → prove r ≡ ok x
        → prove r' ≡ ok y
        → (acc : List ℕ) × (length acc ≡ s.aggregator.num_fe_accumulator)
          × (s.aggregator.aggregate_snarks (x ∷ y ∷ []) ≡ ok (x.instances ∷ y.instances ∷ [], acc))
    pub acc_small : s.aggregator.num_fe_accumulator < u32_mod

  -- The Groth16 proof of the claim verifies, and its values are words of 32 bytes.
  pub record Accepts (input : ClaimInput) : Type 0 where
    pub verifies :
        verify_claim s.chip
          (s.chip.unflatten_vk t.vk_bytes s.chip.gamma_abc_g1_len)
          t.root
          (max_groth16_pi + 1)
          input
        ≡ ok tt
    pub grant_id_word : input.grant_id < 256 ^ 32
    pub receiver_word : input.receiver < 256 ^ 32
    pub nullifier_hash_word : input.nullifier_hash < 256 ^ 32

  pub record IsGood (claim : Claim) : Type 0 where
    pub parsed : s.parsers.parse_claim claim ≡ some (t.read claim)
    pub accepted : Accepts (t.read claim)

pub length-map : {A B : Type 0} (f : A → B) (xs : List A) → length (map f xs) ≡ length xs
length-map f [] = refl
length-map f (x ∷ xs) = ap suc (length-map f xs)

module _ {Vk Root Claim : Type 0} (s : Setup Vk Root Claim) (t : Terms Root Claim) where
  pub read_claims :
      (claims : List Claim)
      → All (IsGood s t) claims
      → (traverse
            (λ claim. or_fault (s.parsers.parse_claim claim) (panic Reason.unwrap_none))
            claims
          ≡ ok (map t.read claims))
        × All (Accepts s t) (map t.read claims)
  unfolding traverse
  read_claims [] h = (refl, tt)
  read_claims (claim ∷ claims) (good, rest) =
      let (all, accepted) = read_claims claims rest in
      (rw (IsGood.parsed good, all), (IsGood.accepted good, accepted))
