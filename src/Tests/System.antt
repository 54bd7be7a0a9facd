-- ===== src/Tests/System.antt =====
-- The theorems on the whole system, with the chip and the aggregator of the tests.
use mathlib.Core.List.{flatten}
use worldcoin_aggregation.Prelude.{
  ◌≤◌, ◌*◌, ℕ, suc, ◌+◌, ◌^◌, ◌<◌, ◌≡◌, refl, some, Option, List, [], ◌∷◌, ◌++◌, Result, ok, err,
  arith, All, replicate, length, take, traverse, panic, Reason,
}
use worldcoin_aggregation.Prelude.Words.{pow_mono}
use worldcoin_aggregation.Halo2.{HiLo, Chip, be_bytes}
use worldcoin_aggregation.Circuits.Utils.{bytes_of, get_vk_hash}
use worldcoin_aggregation.Circuits.Claims.{ClaimInput, verify_claim}
use worldcoin_aggregation.Circuits.Snarks.{Snark}
use worldcoin_aggregation.Circuits.V1.Root.Output.{preimage}
use worldcoin_aggregation.Circuits.V2.Roots.{hi_lo}
use worldcoin_aggregation.Scheduler.NodeParams.{NodeType, NodeParams}
use worldcoin_aggregation.Scheduler.NodeParams.Chain.{here}
use worldcoin_aggregation.Scheduler.Request.{RecursiveRequest}
use worldcoin_aggregation.Scheduler.Request.Splits.{IsValid}
use worldcoin_aggregation.Scheduler.Local.{ProverProof, RequestRouter, WorldcoinRequestEvm}
use worldcoin_aggregation.System.V2.{IsGoodV2, root_shown_v2, gen-claim_root}
use worldcoin_aggregation.System.{Setup, prove, prove_v2, aggregation_snark}
use worldcoin_aggregation.System.Honest.{HasRoom, Terms, IsHonest, IsGood, Accepts}
use worldcoin_aggregation.System.Calls.{gen}
use worldcoin_aggregation.System.Proved.{gen-RootShows}
use worldcoin_aggregation.System.V1.{tree_prover_v1, RootShowsV1, gen-shown_hash}
use worldcoin_aggregation.Tests.Chips.{
  lookup_bits, lookups, lookups-nonzero, toy_chip, toy_chip-IsChip, toy_aggregator,
}

abbrev pub key : List ℕ
key = replicate 48 5

-- A claim is a number.
abbrev pub claim_of : ℕ → ClaimInput
claim_of n = record { receiver = n; nullifier_hash = 200; grant_id = 30; proof_bytes = 7 ∷ n ∷ [] }

abbrev pub setup : Setup ℕ ℕ ℕ
setup = record {
  chip = toy_chip;
  aggregator = toy_aggregator;
  parsers = record {
    parse_vk = λ vk n. some key;
    parse_root = some;
    parse_claim = λ claim. some (claim_of claim);
  };
  vk = 1;
  wrap = λ request. err (panic Reason.unreachable);
}

abbrev pub hash_or_zero : Result HiLo → HiLo
hash_or_zero (ok hash) = hash
hash_or_zero (err e) = record { hi = 0; lo = 0 }

abbrev pub terms : Terms ℕ ℕ
terms = record {
  root_text = 12345;
  root = 12345;
  vk_bytes = key;
  vk_hash = hash_or_zero (get_vk_hash toy_chip key);
  read = claim_of;
}

key_hashed_lem : get_vk_hash toy_chip key ≡ ok (hash_or_zero (get_vk_hash toy_chip key))
unfolding get_vk_hash bytes_of toy_chip traverse flatten be_bytes
key_hashed_lem = refl

key_length_lem : length key ≡ Chip.num_fe_hilo_vkey toy_chip
unfolding toy_chip
key_length_lem = refl

room_in : (d b : ℕ) → d < 18 → 0 < lookups b 0 b → 2 ^ suc d < 2 ^ (lookup_bits * lookups b 0 b)
room_in d b l some_lookup = omega (
  arith,
  pow_mono (suc d) 18 (omega arith),
  pow_mono 19 (lookup_bits * lookups b 0 b) (omega arith),
)

pub toy_chip-HasRoom : (deep : ℕ) → deep ≤ 18 → HasRoom toy_chip deep
unfolding toy_chip
toy_chip-HasRoom deep l d below =
    room_in d (2 ^ d + 1) (omega arith) (lookups-nonzero (2 ^ d + 1) (omega arith))

-- Whatever circuits the prover has.
pub setup-IsHonest : (p : RequestRouter ℕ ℕ → Result Snark) → IsHonest setup terms p
setup-IsHonest p = record {
  key_read = refl;
  key_length = key_length_lem;
  key_hashed = key_hashed_lem;
  root_read = refl;
  root_word = omega arith;
  aggregates = λ r r' x y e e'. (1 ∷ 2 ∷ [], refl, refl);
  acc_small = omega arith;
}

accepts : (n : ℕ) → n < 1000 → Accepts setup terms (claim_of n)
unfolding toy_chip verify_claim
accepts n l = record {
  verifies = refl;
  grant_id_word = omega arith;
  receiver_word = omega arith;
  nullifier_hash_word = omega arith;
}

abbrev top : NodeParams
top = record { node_type = NodeType.root; depth = 2; initial_depth = 0 }

abbrev three_claims : RecursiveRequest ℕ ℕ
three_claims = record { start = 10; end = 13; root = 12345; claims = 1 ∷ 2 ∷ 3 ∷ []; params = top }

three_claims-IsValid : IsValid three_claims
three_claims-IsValid = record {
  nonempty = omega arith;
  word = omega arith;
  fits = omega arith;
  counted = refl;
  placed = omega arith;
  small = omega arith;
}

pub good : (n : ℕ) → n < 1000 → IsGood setup terms n
good n l = record { parsed = refl; accepted = accepts n l }

three_claims-IsGood : All (IsGood setup terms) three_claims.claims
three_claims-IsGood = (good 1 (omega arith), (good 2 (omega arith), (good 3 (omega arith), tt)))

abbrev repo : NodeParams → Option ℕ
repo p = some p.depth

abbrev pub wrapped : ℕ → WorldcoinRequestEvm → Result ℕ
wrapped id request = ok id

gen-shown_hash_example :
    (id : ℕ) × (acc : List ℕ) × (shown : List ClaimInput) × (length acc ≡ 2)
    × (length shown ≡ 4)
    × (take 3 shown ≡ claim_of 1 ∷ claim_of 2 ∷ claim_of 3 ∷ [])
    × (gen (prove setup) repo wrapped 3 three_claims
        ≡ ok (
            ProverProof.snark id (
              aggregation_snark toy_aggregator (
                acc
                ++ hi_lo (Chip.keccak_fixed_len toy_chip (preimage terms.vk_hash 12345 3 shown))))))
gen-shown_hash_example =
    gen-shown_hash setup terms repo wrapped {top = top} (λ p down. (p.depth, refl)) 3 18
      three_claims toy_chip-IsChip (toy_chip-HasRoom 18 (omega arith)) (omega arith)
      (setup-IsHonest (prove setup)) three_claims-IsValid refl here (omega arith) refl
      three_claims-IsGood (omega arith)

gen-RootShows_example :
    (sn : Snark) × (id : ℕ) × (gen (prove setup) repo wrapped 3 three_claims
      ≡ ok (ProverProof.snark id sn))
    × RootShowsV1 setup terms 0 2 10 13 (1 ∷ 2 ∷ 3 ∷ []) sn
gen-RootShows_example =
    gen-RootShows
      (tree_prover_v1 setup terms toy_chip-IsChip (setup-IsHonest (prove setup)) 18 (omega arith)
        (toy_chip-HasRoom 18 (omega arith)))
      repo wrapped {top = top} (λ p down. (p.depth, refl)) 3 three_claims three_claims-IsValid refl
      here (omega arith) refl three_claims-IsGood (omega arith)

good_v2 : (n : ℕ) → n < 1000 → IsGoodV2 setup terms n
unfolding toy_chip
good_v2 n l = record {
  good = good n l;
  packed = record {
    in_field = record {
      grant_id_lt = omega arith;
      receiver_lt = omega arith;
      nullifier_hash_lt = omega arith;
    };
    receiver_address = omega arith;
  };
}

gen-claim_root_example :
    (id : ℕ) × (acc : List ℕ) × (length acc ≡ 2)
    × (gen (prove_v2 setup) repo wrapped 3 three_claims
        ≡ ok (
            ProverProof.snark id (
              aggregation_snark toy_aggregator
                (acc ++ root_shown_v2 setup terms 2 3 (1 ∷ 2 ∷ 3 ∷ [])))))
gen-claim_root_example =
    gen-claim_root setup terms repo wrapped {top = top} (λ p down. (p.depth, refl)) 3 14
      three_claims toy_chip-IsChip (toy_chip-HasRoom 14 (omega arith)) (omega arith)
      (setup-IsHonest (prove_v2 setup)) three_claims-IsValid refl here (omega arith) refl
      (good_v2 1 (omega arith), (good_v2 2 (omega arith), (good_v2 3 (omega arith), tt)))
      (omega arith)
