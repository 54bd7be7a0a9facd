-- ===== src/Tests/SystemRuns.antt =====
-- A run of the asynchronous scheduler over the V1 circuits, with an executor that answers as their
-- prover does.
use worldcoin_aggregation.Prelude.{
  ℕ, ◌+◌, ◌≡◌, refl, false, some, Option, List, [], ◌∷◌, ok, arith, traverse, ◌⊎◌, inl, inr, sym,
  ap, ◌∙◌, ok-injective, ◌==◌, slice,
}
use worldcoin_aggregation.Prelude.Words.{add32, sub32, sub64, shl32, shl64, word64}
use worldcoin_aggregation.Circuits.Snarks.{Snark}
use worldcoin_aggregation.Scheduler.NodeParams.{
  NodeType, NodeParams, child, child_of, inner_child, new,
}
use worldcoin_aggregation.Scheduler.NodeParams.Chain.{Below, here, next}
use worldcoin_aggregation.Scheduler.Request.{
  RecursiveRequest, dependencies, dependency, step_by, steps,
}
use worldcoin_aggregation.Scheduler.Request.Splits.{IsValid}
use worldcoin_aggregation.Scheduler.Local.{
  ProverProof, RequestRouter, LocalScheduler, handle_recursive_request, generate_proof, snark_of,
  leaf_request, get_request_leaf, route, node_request, two_snarks,
}
use worldcoin_aggregation.System.{prove, scheduler}
use worldcoin_aggregation.System.Calls.{generate_proof-prove}
use worldcoin_aggregation.System.V1.{tree_prover_v1, leaf-ShowsV1, RootShowsV1}
use worldcoin_aggregation.System.V1.Halves.{ShowsV1}
use worldcoin_aggregation.System.Leaves.{leaf_request_of}
use worldcoin_aggregation.System.Tree.{TreeProver}
use worldcoin_aggregation.System.Snarks.{node_of}
use worldcoin_aggregation.System.Runs.{Run-RootShows}
use worldcoin_aggregation.Prelude.Maps.{HashMap, get}
use worldcoin_aggregation.Prelude.Interleave.{from_first, from_second, both_done}
use worldcoin_aggregation.Scheduler.Async.{
  AsyncScheduler, ExecutionResult, Run, done, all_joined, join, collect, task_for, get_circuit_id,
  recorded_params,
}
use worldcoin_aggregation.Scheduler.Async.Refines.{Agrees}
use worldcoin_aggregation.Scheduler.NodeParams.Order.{same}
use mathlib.Core.Option.{some_inj}
use worldcoin_aggregation.Tests.Chips.{toy_chip-IsChip}
use worldcoin_aggregation.Tests.System.{
  setup, terms, wrapped, setup-IsHonest, toy_chip-HasRoom, good,
}

abbrev leaf_node : NodeParams
leaf_node = record { node_type = NodeType.leaf; depth = 0; initial_depth = 0 }

abbrev root_node : NodeParams
root_node = record { node_type = NodeType.root; depth = 1; initial_depth = 0 }

abbrev two_circuits : HashMap NodeParams ℕ
two_circuits = (leaf_node, 4) ∷ (root_node, 5) ∷ []

abbrev known : NodeParams → Option ℕ
known p = get same p two_circuits

-- The root has one leaf below it, for all its children.
Below-root : (p : NodeParams) → Below root_node p → (p ≡ root_node) ⊎ (p ≡ leaf_node)
unfolding child child_of inner_child new word64
Below-root p here = inl refl
Below-root p (next {p = r} down e) = elim (Below-root r down) [
  | inl same_root ↦
      let e2 : child root_node ≡ ok (some p) = rw same_root at e in
      inr (sym (some_inj.0 (ok-injective e2)))
  | inr same_leaf ↦ let e2 : child leaf_node ≡ ok (some p) = rw same_leaf at e in cc
]

both_known : (p : NodeParams) → Below root_node p → (id : ℕ) × (known p ≡ some id)
unfolding get same
both_known p down = elim (Below-root p down) [
  | inl same_root ↦ rw same_root (5, refl)
  | inr same_leaf ↦ rw same_leaf (4, refl)
]

abbrev local : LocalScheduler ℕ ℕ ℕ ℕ
local = scheduler (prove setup) known wrapped

-- An executor that answers as the prover does.
abbrev executor : AsyncScheduler ℕ ℕ ℕ ℕ ℕ
executor = record {
  circuit_id_repo = two_circuits;
  cid_to_params = (4, leaf_node) ∷ (5, root_node) ∷ [];
  same_id = ◌==◌;
  Executes = λ id router is_evm_proof result.
      (proof : ProverProof ℕ ℕ) × (generate_proof local id router is_evm_proof ≡ ok proof)
      × (result ≡ ok (record { task_id = id; proof = proof }));
}

executor-Agrees : Agrees executor local
executor-Agrees = record {
  same_table = λ p. refl;
  same_proofs = λ id router is_evm_proof result (proof, proved, e).
      let shape = ok-injective e in proved ∙ ap (λ r. ok (ExecutionResult.proof r)) (sym shape);
}

abbrev request_for : ℕ → ℕ → List ℕ → NodeParams → RecursiveRequest ℕ ℕ
request_for start end claims params = record {
  start = start;
  end = end;
  root = 12345;
  claims = claims;
  params = params;
}

-- A leaf for the claim at the index `i`.
abbrev leaf_for : ℕ → ℕ → RecursiveRequest ℕ ℕ
leaf_for i claim = request_for i (i + 1) (claim ∷ []) leaf_node

abbrev two_claims : RecursiveRequest ℕ ℕ
two_claims = request_for 10 12 (1 ∷ 2 ∷ []) root_node

abbrev prover : TreeProver ℕ ℕ
prover =
    tree_prover_v1 setup terms toy_chip-IsChip (setup-IsHonest (prove setup)) 18 (omega arith)
      (toy_chip-HasRoom 18 (omega arith))

abbrev LeafProof : ℕ → ℕ → Type 0
LeafProof i claim =
    (sn : Snark) × (prove setup
        (RequestRouter.leaf (leaf_request_of setup terms i (i + 1) 0 (claim ∷ [])))
      ≡ ok sn)
    × ShowsV1 setup terms 0 0 i (i + 1) (claim ∷ []) sn

first_proof : LeafProof 10 1
first_proof =
    leaf-ShowsV1 setup terms toy_chip-IsChip (setup-IsHonest (prove setup)) 0 10 11 (1 ∷ [])
      (omega arith) (omega arith) (omega arith) (omega arith) refl (good 1 (omega arith), tt)

second_proof : LeafProof 11 2
second_proof =
    leaf-ShowsV1 setup terms toy_chip-IsChip (setup-IsHonest (prove setup)) 0 11 12 (2 ∷ [])
      (omega arith) (omega arith) (omega arith) (omega arith) refl (good 2 (omega arith), tt)

first_leaf-Run :
    Run executor
      (leaf_for 10 1)
      false
      ((4, leaf_node) ∷ [])
      (ok (ProverProof.snark 4 (first_proof.0)))
unfolding dependencies sub32 shl32 task_for collect traverse handle_recursive_request leaf_request
    get_request_leaf get_circuit_id get same recorded_params
first_leaf-Run =
    done (leaf_for 10 1) false
      {result = record { task_id = 4; proof = ProverProof.snark 4 (first_proof.0) }} refl all_joined
      refl
      (
        ProverProof.snark 4 (first_proof.0),
        generate_proof-prove (prove setup) known wrapped 4
            (RequestRouter.leaf (leaf_request_of setup terms 10 (10 + 1) 0 (1 ∷ [])))
            (first_proof.1),
        refl,
      )
      refl refl

second_leaf-Run :
    Run executor
      (leaf_for 11 2)
      false
      ((4, leaf_node) ∷ [])
      (ok (ProverProof.snark 4 (second_proof.0)))
unfolding dependencies sub32 shl32 task_for collect traverse handle_recursive_request leaf_request
    get_request_leaf get_circuit_id get same recorded_params
second_leaf-Run =
    done (leaf_for 11 2) false
      {result = record { task_id = 4; proof = ProverProof.snark 4 (second_proof.0) }} refl
      all_joined refl
      (
        ProverProof.snark 4 (second_proof.0),
        generate_proof-prove (prove setup) known wrapped 4
            (RequestRouter.leaf (leaf_request_of setup terms 11 (11 + 1) 0 (2 ∷ [])))
            (second_proof.1),
        refl,
      )
      refl refl

abbrev root_of_two : RequestRouter ℕ ℕ
root_of_two = RequestRouter.root (node_of 10 12 1 0 (first_proof.0) (second_proof.0))

root_proof :
    (sn : Snark) × (prove setup root_of_two ≡ ok sn)
    × RootShowsV1 setup terms 0 1 10 12 (1 ∷ 2 ∷ []) sn
root_proof =
    TreeProver.root_shows prover 0 0 10 12 (1 ∷ 2 ∷ []) (first_proof.0) (second_proof.0)
      (omega arith) (omega arith) (omega arith) (good 1 (omega arith), (good 2 (omega arith), tt))
      (inr (record {
        mid = 11;
        xs = 1 ∷ [];
        ys = 2 ∷ [];
        full = refl;
        more = omega arith;
        fits = omega arith;
        count_xs = refl;
        count_ys = refl;
        first = first_proof.2;
        second = second_proof.2;
        whole = refl;
      }))

two_claims-Run :
    Run executor two_claims false
      ((4, leaf_node) ∷ (4, leaf_node) ∷ (5, root_node) ∷ [])
      (ok (ProverProof.snark 5 (root_proof.0)))
unfolding dependencies dependency step_by steps child child_of inner_child new slice sub32 sub64
    add32 shl32 shl64 word64 task_for collect traverse snark_of handle_recursive_request route
    node_request two_snarks get_circuit_id get same recorded_params
two_claims-Run =
    done two_claims false
      {result = record { task_id = 5; proof = ProverProof.snark 5 (root_proof.0) }} refl
      (join (leaf_for 10 1) first_leaf-Run
        (join (leaf_for 11 2) second_leaf-Run all_joined (from_first (4, leaf_node) both_done))
        (from_second (4, leaf_node) (from_first (4, leaf_node) both_done)))
      refl
      (
        ProverProof.snark 5 (root_proof.0),
        generate_proof-prove (prove setup) known wrapped 5 root_of_two (root_proof.1),
        refl,
      )
      refl refl

two_claims-IsValid : IsValid two_claims
two_claims-IsValid = record {
  nonempty = omega arith;
  word = omega arith;
  fits = omega arith;
  counted = refl;
  placed = omega arith;
  small = omega arith;
}

Run-RootShows_example :
    (sn : Snark) × (id : ℕ) × (◌≡◌ {A = ProverProof ℕ ℕ}
      (ProverProof.snark 5 (root_proof.0))
      (ProverProof.snark id sn))
    × RootShowsV1 setup terms 0 1 10 12 (1 ∷ 2 ∷ []) sn
Run-RootShows_example =
    Run-RootShows prover known wrapped {top = root_node} both_known executor executor-Agrees
      two_claims-IsValid refl here (omega arith) refl
      (good 1 (omega arith), (good 2 (omega arith), tt)) two_claims-Run
