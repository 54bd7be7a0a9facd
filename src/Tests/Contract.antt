-- ===== src/Tests/Contract.antt =====
-- The theorems on the circuits of key generation and on the claims sent to the contract.
use worldcoin_aggregation.Prelude.{
  ℕ, ◌≡◌, refl, some, none, List, [], ◌∷◌, ok, length, traverse, arith,
}
use worldcoin_aggregation.Prelude.Words.{shl32, sub32}
use worldcoin_aggregation.Circuits.Snarks.{Snark}
use worldcoin_aggregation.Circuits.V1.Intermediate.{WorldcoinIntermediateAggregationInput, new}
use worldcoin_aggregation.Scheduler.Local.{WorldcoinRequestNode}
use worldcoin_aggregation.Scheduler.Factory.{build_intermediate}
use worldcoin_aggregation.Scheduler.Contract.{
  ClaimNative, V1ClaimParams, Readers, claim_params, IsSent, claim_params-IsSent,
}
use worldcoin_aggregation.Keygen.{AggTrees, IntentNode}
use worldcoin_aggregation.Keygen.Circuits.{
  keygen_intermediate, HasRoom, keygen_intermediate-HasRoom,
}

abbrev some_snark : Snark
some_snark = record { instances = []; accumulator_indices = [] }

abbrev intent : IntentNode ℕ ℕ
intent = record {
  k = 20;
  to_agg = AggTrees.no_trees;
  dependency = record { vk = 1; num_instance = []; accumulator_indices = none };
  depth = 3;
  initial_depth = 2;
}

abbrev five_claims : WorldcoinRequestNode
five_claims = record {
  start = 10;
  end = 15;
  depth = 3;
  initial_depth = 2;
  snarks = some_snark ∷ some_snark ∷ [];
}

abbrev five_input : WorldcoinIntermediateAggregationInput
five_input = record {
  num_proofs = 5;
  snarks = some_snark ∷ some_snark ∷ [];
  max_depth = 3;
  initial_depth = 2;
}

five_are_built : build_intermediate five_claims ≡ ok five_input
unfolding build_intermediate new sub32 shl32
five_are_built = refl

keygen_intermediate-HasRoom_example :
    (keygen : WorldcoinIntermediateAggregationInput) × (keygen_intermediate intent
        (some_snark ∷ some_snark ∷ [])
      ≡ ok keygen)
    × HasRoom keygen five_input
keygen_intermediate-HasRoom_example =
    keygen_intermediate-HasRoom intent five_claims (some_snark ∷ some_snark ∷ []) five_input refl
      refl (omega arith) refl five_are_built

-- Texts that are numbers.
abbrev readers : Readers ℕ
readers = record { read_h256 = some; read_decimal = some; read_hex = λ text. some (text ∷ []) }

abbrev claim_of : ℕ → ClaimNative ℕ ℕ
claim_of n = record { receiver = n; nullifier_hash = n; grant_id = 30; proof = [] }

abbrev two_claims : List (ClaimNative ℕ ℕ)
two_claims = claim_of 1 ∷ claim_of 2 ∷ []

abbrev two_params : V1ClaimParams ℕ
two_params = record {
  vkey_hash = 8;
  num_claims = 2;
  root = 99;
  grant_ids = 30 ∷ 30 ∷ [];
  receivers = 1 ∷ 2 ∷ [];
  nullifier_hashes = 1 ∷ 2 ∷ [];
  proof = 7 ∷ [];
}

two_are_sent : claim_params readers 8 99 two_claims 7 ≡ ok two_params
unfolding claim_params traverse
two_are_sent = refl

claim_params-IsSent_example :
    (two_params.num_claims ≡ length two_claims)
    × (some two_params.root ≡ readers.read_decimal 99)
    × IsSent readers two_params 1 (claim_of 2)
claim_params-IsSent_example =
    claim_params-IsSent readers 8 99 7 two_claims two_params 1 (claim_of 2) two_are_sent refl
