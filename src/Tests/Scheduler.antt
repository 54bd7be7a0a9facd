-- ===== src/Tests/Scheduler.antt =====
-- The theorems on the scheduler, at concrete requests.
use worldcoin_aggregation.Prelude.{
  ℕ, ◌≡◌, refl, true, false, some, List, [], ◌∷◌, ok, err, panic, Reason, arith,
}
use worldcoin_aggregation.Prelude.{none, Option, Result, ◌+◌, ◌<◌, ◌≤◌, ◌^◌}
use worldcoin_aggregation.Prelude.Words.{sub32, shl32, shl64}
use worldcoin_aggregation.Circuits.Snarks.{Snark}
use worldcoin_aggregation.Circuits.Claims.{WorldcoinLeafInput}
use worldcoin_aggregation.Scheduler.Local.{WorldcoinRequestLeaf}
use worldcoin_aggregation.Scheduler.Factory.{Parsers, build_leaf, new_leaf_input}
use worldcoin_aggregation.Scheduler.Factory.Inputs.{IsLeafInput, build_leaf-IsLeafInput}
use worldcoin_aggregation.Scheduler.Server.{ProveRequest, serve, serve_total, serve_default}
use worldcoin_aggregation.Prelude.{traverse}
use worldcoin_aggregation.Scheduler.NodeParams.{NodeType, NodeParams}
use worldcoin_aggregation.Scheduler.NodeParams.Chain.{here}
use worldcoin_aggregation.Scheduler.Request.{RecursiveRequest, dependencies}
use worldcoin_aggregation.Scheduler.Request.Splits.{IsValid, Splits, dependencies-Splits}
use worldcoin_aggregation.Scheduler.Local.{LocalScheduler, ProverProof, recursive_gen_proof}
use worldcoin_aggregation.Scheduler.Local.Total.{
  IsComplete, recursive_gen_proof_total, recursive_gen_proof_total_evm,
  recursive_gen_proof_evm_leaf,
}

abbrev params_of : NodeType → NodeParams
params_of t = record { node_type = t; depth = 3; initial_depth = 1 }

-- Seven claims from index 10 on, in a tree of depth 3 with leaves of depth 1.
abbrev seven_claims : NodeType → RecursiveRequest ℕ ℕ
seven_claims t = record {
  start = 10;
  end = 17;
  root = 99;
  claims = 1 ∷ 2 ∷ 3 ∷ 4 ∷ 5 ∷ 6 ∷ 7 ∷ [];
  params = params_of t;
}

seven_root-IsValid : IsValid (seven_claims NodeType.root)
seven_root-IsValid = record {
  nonempty = omega arith;
  word = omega arith;
  fits = omega arith;
  counted = refl;
  placed = omega arith;
  small = omega arith;
}

seven_evm-IsValid : IsValid (seven_claims (NodeType.evm 1))
seven_evm-IsValid = record {
  nonempty = omega arith;
  word = omega arith;
  fits = omega arith;
  counted = refl;
  placed = omega arith;
  small = omega arith;
}

-- One claim in one leaf, requested as an EVM proof.
abbrev evm_of_leaf : RecursiveRequest ℕ ℕ
evm_of_leaf = record {
  start = 0;
  end = 1;
  root = 99;
  claims = 5 ∷ [];
  params = record { node_type = NodeType.evm 0; depth = 3; initial_depth = 3 };
}

evm_of_leaf-IsValid : IsValid evm_of_leaf
evm_of_leaf-IsValid = record {
  nonempty = omega arith;
  word = omega arith;
  fits = omega arith;
  counted = refl;
  placed = omega arith;
  small = omega arith;
}

abbrev some_snark : Snark
some_snark = record { instances = []; accumulator_indices = [] }

abbrev toy_scheduler : LocalScheduler ℕ ℕ ℕ ℕ
toy_scheduler = record {
  circuit_id_repo = λ p. some p.depth;
  get_snark = λ id request. ok some_snark;
  get_evm_proof = λ id request. ok id;
}

toy_scheduler-IsComplete : {top : NodeParams} → IsComplete top toy_scheduler
toy_scheduler-IsComplete = record {
  knows = λ p down. (p.depth, refl);
  proves = λ id request. (some_snark, refl);
  proves_evm = λ id request. (id, refl);
}

dependencies-Splits_example :
    (deps : List (RecursiveRequest ℕ ℕ)) × (dependencies (seven_claims NodeType.root) ≡ ok deps)
    × Splits (seven_claims NodeType.root) deps
dependencies-Splits_example =
    dependencies-Splits (seven_claims NodeType.root) seven_root-IsValid (omega arith)

recursive_gen_proof_total_example :
    (proof : Snark) × (id : ℕ) × (recursive_gen_proof 3 toy_scheduler
        (seven_claims NodeType.root)
        false
      ≡ ok (ProverProof.snark id proof))
recursive_gen_proof_total_example =
    recursive_gen_proof_total toy_scheduler-IsComplete 3 (seven_claims NodeType.root) here
      seven_root-IsValid (omega arith)

recursive_gen_proof_total_evm_example :
    (proof : ℕ) × (recursive_gen_proof 5 toy_scheduler (seven_claims (NodeType.evm 1)) true
      ≡ ok (ProverProof.evm_proof proof))
recursive_gen_proof_total_evm_example =
    recursive_gen_proof_total_evm toy_scheduler-IsComplete 5 1 (seven_claims (NodeType.evm 1)) here
      seven_evm-IsValid refl (omega arith) (omega arith)

recursive_gen_proof_evm_leaf_example :
    recursive_gen_proof 1 toy_scheduler evm_of_leaf true ≡ err (panic Reason.unreachable)
recursive_gen_proof_evm_leaf_example =
    recursive_gen_proof_evm_leaf {top = evm_of_leaf.params} toy_scheduler
      (λ p down. (p.depth, refl)) 0 evm_of_leaf here evm_of_leaf-IsValid refl

abbrev toy_parsers : Parsers ℕ ℕ ℕ
toy_parsers = record {
  parse_vk = λ vk max_pi. some (vk ∷ max_pi ∷ []);
  parse_root = some;
  parse_claim = λ claim.
      some
        (record { receiver = claim; nullifier_hash = claim + 1; grant_id = 30; proof_bytes = [] });
}

abbrev leaf_request_of_three : WorldcoinRequestLeaf ℕ ℕ
leaf_request_of_three = record {
  start = 10;
  end = 13;
  depth = 2;
  root = 99;
  claims = 1 ∷ 2 ∷ 3 ∷ [];
}

abbrev value : Result WorldcoinLeafInput → WorldcoinLeafInput
value (ok input) = input
value (err e) = record {
  start = 0;
  end = 0;
  vk_bytes = [];
  root = 0;
  claims = [];
  num_public_inputs = 0;
  max_depth = 0;
}

abbrev input_of_three : WorldcoinLeafInput
input_of_three = value (build_leaf toy_parsers 7 leaf_request_of_three)

three_are_built : build_leaf toy_parsers 7 leaf_request_of_three ≡ ok input_of_three
unfolding build_leaf new_leaf_input sub32 shl32 shl64 traverse
three_are_built = refl

build_leaf-IsLeafInput_example :
    (10 < 13) × (13 ≤ 10 + 2 ^ 2) × IsLeafInput toy_parsers leaf_request_of_three input_of_three
build_leaf-IsLeafInput_example =
    build_leaf-IsLeafInput toy_parsers 7 leaf_request_of_three (omega arith) (omega arith)
      three_are_built

abbrev task_of : Option ℕ → Option ℕ → ProveRequest ℕ ℕ
task_of depth initial_depth = record {
  start = 0;
  end = 1;
  root = 99;
  claims = 5 ∷ [];
  depth = depth;
  initial_depth = initial_depth;
  is_final = none;
  for_evm = none;
  rounds = none;
}

serve_total_example :
    (proof : ℕ) × (serve 6 toy_scheduler (task_of (some 4) (some 3)) ≡ ok (some proof))
serve_total_example =
    serve_total toy_scheduler-IsComplete 6 4 3 (task_of (some 4) (some 3)) refl refl refl refl here
      (record {
        nonempty = omega arith;
        word = omega arith;
        fits = omega arith;
        counted = refl;
        placed = omega arith;
        small = omega arith;
      })
      (omega arith) (omega arith)

serve_default_example : serve 1 toy_scheduler (task_of none none) ≡ err (panic Reason.unreachable)
serve_default_example =
    serve_default {top = record { node_type = NodeType.evm 1; depth = 3; initial_depth = 3 }}
      toy_scheduler (λ p down. (p.depth, refl)) 0 (task_of none none) refl refl refl refl here
      (record {
        nonempty = omega arith;
        word = omega arith;
        fits = omega arith;
        counted = refl;
        placed = omega arith;
        small = omega arith;
      })
