-- ===== src/Tests/Runs.antt =====
-- The theorems on the asynchronous scheduler, at a node over two leaves, and on its executor.
use worldcoin_aggregation.Prelude.{
  ℕ, ◌+◌, ◌≡◌, refl, sym, ap, ◌∙◌, inl, inr, false, some, List, [], ◌∷◌, ok, traverse, slice,
  ok-injective, ◌==◌,
}
use mathlib.Core.List.{Perm}
use worldcoin_aggregation.Prelude.Words.{add32, sub32, sub64, shl32, shl64, word64}
use worldcoin_aggregation.Prelude.Maps.{HashMap, get}
use worldcoin_aggregation.Prelude.Interleave.{from_first, from_second, both_done}
use worldcoin_aggregation.Circuits.Snarks.{Snark}
use worldcoin_aggregation.Scheduler.NodeParams.{
  NodeType, NodeParams, child, child_of, inner_child, new,
}
use worldcoin_aggregation.Scheduler.NodeParams.Order.{same}
use worldcoin_aggregation.Scheduler.Request.{
  RecursiveRequest, dependencies, dependency, step_by, steps,
}
use worldcoin_aggregation.Scheduler.Local.{
  LocalScheduler, ProverProof, handle_recursive_request, generate_proof, snark_of,
  recursive_gen_proof, leaf_request, get_request_leaf, route, node_request, two_snarks,
}
use worldcoin_aggregation.Scheduler.Async.{
  AsyncScheduler, ExecutionResult, Run, done, all_joined, join, collect, task_for, get_circuit_id,
  recorded_params,
}
use worldcoin_aggregation.Scheduler.Async.Refines.{Agrees, Run-Returns}
use worldcoin_aggregation.Scheduler.Async.Tasks.{HasInverse, params_of, nodes, Run-nodes}
use mathlib.Core.Option.{some_inj}
use worldcoin_aggregation.Prelude.{Bool-cases}
use worldcoin_aggregation.Scheduler.NodeParams.Order.{same→≡}

abbrev leaf_node : NodeParams
leaf_node = record { node_type = NodeType.leaf; depth = 1; initial_depth = 1 }

abbrev upper_node : NodeParams
upper_node = record { node_type = NodeType.intermediate; depth = 2; initial_depth = 1 }

abbrev two_circuits : HashMap NodeParams ℕ
two_circuits = (leaf_node, 4) ∷ (upper_node, 5) ∷ []

abbrev some_snark : Snark
some_snark = record { instances = []; accumulator_indices = [] }

abbrev local : LocalScheduler ℕ ℕ ℕ ℕ
local = record {
  circuit_id_repo = λ p. get same p two_circuits;
  get_snark = λ id request. ok some_snark;
  get_evm_proof = λ id request. ok id;
}

-- An executor that answers as the local prover does.
abbrev executor : AsyncScheduler ℕ ℕ ℕ ℕ ℕ
executor = record {
  circuit_id_repo = two_circuits;
  cid_to_params = (4, leaf_node) ∷ (5, upper_node) ∷ [];
  same_id = ◌==◌;
  Executes = λ id router is_evm_proof result.
      (proof : ProverProof ℕ ℕ) × (generate_proof local id router is_evm_proof ≡ ok proof)
      × (result ≡ ok (record { task_id = id; proof = proof }));
}

executor-Agrees : Agrees executor local
executor-Agrees = record {
  same_table = λ p. refl;
  same_proofs = λ id router is_evm_proof result (proof, proved, e).
      let shape = ok-injective e in proved ∙ ap (λ r. ok (ExecutionResult.proof r)) (sym shape);
}

abbrev request_for : ℕ → ℕ → List ℕ → NodeParams → RecursiveRequest ℕ ℕ
request_for start end claims params = record {
  start = start;
  end = end;
  root = 99;
  claims = claims;
  params = params;
}

abbrev proof_with : ℕ → ProverProof ℕ ℕ
proof_with id = ProverProof.snark id some_snark

abbrev first_leaf : RecursiveRequest ℕ ℕ
first_leaf = request_for 0 2 (1 ∷ 2 ∷ []) leaf_node

abbrev second_leaf : RecursiveRequest ℕ ℕ
second_leaf = request_for 2 3 (3 ∷ []) leaf_node

first_leaf-Run : Run executor first_leaf false ((4, leaf_node) ∷ []) (ok (proof_with 4))
unfolding dependencies sub32 shl32 task_for collect traverse handle_recursive_request leaf_request
    get_request_leaf get_circuit_id get same recorded_params generate_proof
first_leaf-Run =
    done first_leaf false {result = record { task_id = 4; proof = proof_with 4 }} refl all_joined
      refl (proof_with 4, refl, refl) refl refl

second_leaf-Run : Run executor second_leaf false ((4, leaf_node) ∷ []) (ok (proof_with 4))
unfolding dependencies sub32 shl32 task_for collect traverse handle_recursive_request leaf_request
    get_request_leaf get_circuit_id get same recorded_params generate_proof
second_leaf-Run =
    done second_leaf false {result = record { task_id = 4; proof = proof_with 4 }} refl all_joined
      refl (proof_with 4, refl, refl) refl refl

abbrev upper : RecursiveRequest ℕ ℕ
upper = request_for 0 3 (1 ∷ 2 ∷ 3 ∷ []) upper_node

abbrev three_tasks : List (ℕ × NodeParams)
three_tasks = (4, leaf_node) ∷ (4, leaf_node) ∷ (5, upper_node) ∷ []

-- The leaf of the second half is recorded first.
upper-Run : Run executor upper false three_tasks (ok (proof_with 5))
unfolding dependencies dependency step_by steps child child_of inner_child new slice sub32 sub64
    add32 shl32 shl64 word64 task_for collect traverse snark_of handle_recursive_request route
    node_request two_snarks get_circuit_id get same recorded_params generate_proof
upper-Run =
    done upper false {result = record { task_id = 5; proof = proof_with 5 }} refl
      (join first_leaf first_leaf-Run
        (join second_leaf second_leaf-Run all_joined (from_first (4, leaf_node) both_done))
        (from_second (4, leaf_node) (from_first (4, leaf_node) both_done)))
      refl (proof_with 5, refl, refl) refl refl

Run-Returns_example :
    (n : ℕ) × ((more : ℕ) → recursive_gen_proof (n + more) local upper false ≡ ok (proof_with 5))
Run-Returns_example = Run-Returns executor-Agrees upper-Run

circuit_back :
    (p : NodeParams) (id : ℕ)
    → get same p two_circuits ≡ some id
    → get ◌==◌ id ((4, leaf_node) ∷ (5, upper_node) ∷ []) ≡ some p
unfolding get
circuit_back p id e = elim (Bool-cases (same p leaf_node)) [
  | inl lower ↦
      let value : 4 ≡ id = some_inj.0 (rw lower at e) in
      rw (← value) (ap some (sym (same→≡ p leaf_node lower)))
  | inr other ↦
      let e2 = rw other at e in
      elim (Bool-cases (same p upper_node)) [
        | inl higher ↦
            let value : 5 ≡ id = some_inj.0 (rw higher at e2) in
            rw (← value) (ap some (sym (same→≡ p upper_node higher)))
        | inr neither ↦ let bad = rw neither at e2 in cc
      ]
]

executor-HasInverse : HasInverse executor
executor-HasInverse = record { back = circuit_back }

Run-nodes_example : (n : ℕ) × ((more : ℕ) → Perm (params_of three_tasks) (nodes (n + more) upper))
Run-nodes_example = Run-nodes executor-HasInverse upper-Run
