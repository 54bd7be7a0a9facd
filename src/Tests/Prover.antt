-- ===== src/Tests/Prover.antt =====
-- The theorems on the prover, at a prover whose files and proofs are numbers.
use worldcoin_aggregation.Prelude.{
  ℕ, suc, ◌+◌, ◌≡◌, refl, sym, ◌∙◌, true, Option, none, some, [], ◌∷◌, Result, ok, ok-injective,
  ◌==◌,
}
use worldcoin_aggregation.Prelude.Maps.{HashMap, get, put, ℕ-IsTest}
use worldcoin_aggregation.Circuits.Snarks.{Snark}
use worldcoin_aggregation.Scheduler.Local.{RequestRouter}
use worldcoin_aggregation.Prover.{ProverLib, new, get_snark, get_evm_proof}
use worldcoin_aggregation.Prover.Spec.{snark_spec, evm_spec, build_spec}
use worldcoin_aggregation.Prover.Coherent.{State, IsProverLib, IsCoherent, new-IsCoherent}
use worldcoin_aggregation.Prover.Proofs.{get_snark-snark_spec, get_evm_proof-evm_spec}
use worldcoin_aggregation.Prover.Again.{get_evm_proof-again}
use worldcoin_aggregation.Prover.Server.{serve, serve_spec, serve-serve_spec}

-- The files of snarks, and the coins that are used.
abbrev World : Type 0
World = HashMap ℕ Snark × ℕ

abbrev snark_with : ℕ → Snark
snark_with coins = record { instances = coins ∷ []; accumulator_indices = [] }

abbrev found_snark : ℕ → World → Option Snark → World × Result Snark
found_snark path (snarks, coins) (some snark) = ((snarks, coins), ok snark)
found_snark path (snarks, coins) none =
    ((put path (snark_with coins) snarks, suc coins), ok (snark_with coins))

abbrev toy_gen_snark : Option ℕ → World → World × Result Snark
toy_gen_snark none (snarks, coins) = ((snarks, suc coins), ok (snark_with coins))
toy_gen_snark (some path) world = found_snark path world (get ◌==◌ path world.0)

-- A prover whose files hold their own names, whose key depends on the parameters, and whose proofs
-- depend on the coins. The proof of a circuit goes to the file that is named by its circuit id.
abbrev toy_prover : ProverLib ℕ (RequestRouter ℕ ℕ) ℕ ℕ ℕ ℕ ℕ ℕ Snark ℕ World
toy_prover = record {
  read_srs = ok;
  read_pinning = ok;
  read_pk = λ id params. ok (id + params);
  parse_pinning = ok;
  get_k = λ pinning. pinning;
  prover_circuit = λ req pinning srs. ok pinning;
  params = λ circuit. circuit;
  gen_snark = λ srs pk circuit path. toy_gen_snark path;
  gen_evm_proof = λ srs pk circuit (snarks, coins). ((snarks, suc coins), ok (pk ∷ coins ∷ []));
  snark_path = λ id req. some id;
  evm_proof_path = λ id req. some id;
  writable = λ path. true;
  same_id = ◌==◌;
  same_path = ◌==◌;
}

toy_prover-IsProverLib : IsProverLib toy_prover
toy_prover-IsProverLib = record {
  is_id = ℕ-IsTest;
  params_of = λ pinning. pinning;
  pinned = λ req pinning srs circuit e. sym (ok-injective e);
}

abbrev empty_state : State toy_prover
empty_state = record {
  srs = [];
  pinning = [];
  pk = [];
  disk = record { files = []; world = ([], 0) };
}

empty_state-IsCoherent : IsCoherent toy_prover toy_prover-IsProverLib empty_state
unfolding new
empty_state-IsCoherent =
    new-IsCoherent toy_prover toy_prover-IsProverLib (record { files = []; world = ([], 0) })

abbrev evm_request : RequestRouter ℕ ℕ
evm_request =
    RequestRouter.evm
      (record { start = 0; end = 1; depth = 3; initial_depth = 2; round = 0; snark = snark_with 9 })

get_snark-snark_spec_example :
    ((get_snark toy_prover 5 evm_request empty_state).1
      ≡ (snark_spec toy_prover 5 evm_request empty_state.disk).1)
    × ((get_snark toy_prover 5 evm_request empty_state).0.disk
        ≡ (snark_spec toy_prover 5 evm_request empty_state.disk).0)
    × IsCoherent toy_prover toy_prover-IsProverLib
        (get_snark toy_prover 5 evm_request empty_state).0
get_snark-snark_spec_example =
    get_snark-snark_spec toy_prover toy_prover-IsProverLib 5 evm_request empty_state
      empty_state-IsCoherent

get_evm_proof-evm_spec_example :
    ((get_evm_proof toy_prover 5 evm_request empty_state).1
      ≡ (evm_spec toy_prover 5 evm_request empty_state.disk).1)
    × ((get_evm_proof toy_prover 5 evm_request empty_state).0.disk
        ≡ (evm_spec toy_prover 5 evm_request empty_state.disk).0)
    × IsCoherent toy_prover toy_prover-IsProverLib
        (get_evm_proof toy_prover 5 evm_request empty_state).0
get_evm_proof-evm_spec_example =
    get_evm_proof-evm_spec toy_prover toy_prover-IsProverLib 5 evm_request empty_state
      empty_state-IsCoherent

evm_spec-toy : (evm_spec toy_prover 5 evm_request empty_state.disk).1 ≡ ok (10 ∷ 0 ∷ [])
unfolding evm_spec build_spec get
evm_spec-toy = refl

proved_once : (get_evm_proof toy_prover 5 evm_request empty_state).1 ≡ ok (10 ∷ 0 ∷ [])
proved_once =
    (get_evm_proof-evm_spec toy_prover toy_prover-IsProverLib 5 evm_request empty_state
      empty_state-IsCoherent).0
    ∙ evm_spec-toy

get_evm_proof-again_example :
    get_evm_proof toy_prover 5 evm_request (get_evm_proof toy_prover 5 evm_request empty_state).0
    ≡ ((get_evm_proof toy_prover 5 evm_request empty_state).0, ok (10 ∷ 0 ∷ []))
get_evm_proof-again_example =
    get_evm_proof-again toy_prover ℕ-IsTest 5 evm_request 5 empty_state refl proved_once

serve-serve_spec_example :
    ((serve toy_prover 5 evm_request true empty_state).1
      ≡ (serve_spec toy_prover 5 evm_request true empty_state.disk).1)
    × ((serve toy_prover 5 evm_request true empty_state).0.disk
        ≡ (serve_spec toy_prover 5 evm_request true empty_state.disk).0)
    × IsCoherent toy_prover toy_prover-IsProverLib
        (serve toy_prover 5 evm_request true empty_state).0
serve-serve_spec_example =
    serve-serve_spec toy_prover toy_prover-IsProverLib 5 evm_request true empty_state
      empty_state-IsCoherent
