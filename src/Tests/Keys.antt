-- ===== src/Tests/Keys.antt =====
-- The theorems on key generation and the scheduler server, at a tree of depth 3 over leaves of depth 1.
use worldcoin_aggregation.Prelude.{
  ℕ, false, err, bail, panic, Reason, none, sym, inl, inr, All, Option, ok-injective, ◌∙◌, ltb,
  if◌then◌else◌, ◌^◌, ◌≤◌, ◌<◌, ◌≡◌, refl, true, some, List, [], ◌∷◌, ok, length, arith, ◌==◌,
}
use worldcoin_aggregation.Prelude.Maps.{IsTest, ℕ-IsTest}
use worldcoin_aggregation.Prelude.Words.{shl64}
use worldcoin_aggregation.Circuits.Snarks.{Snark}
use worldcoin_aggregation.Scheduler.NodeParams.{NodeType, NodeParams, child, child_of}
use worldcoin_aggregation.Scheduler.NodeParams.Order.{same, less}
use worldcoin_aggregation.Scheduler.Request.{RecursiveRequest}
use worldcoin_aggregation.Scheduler.Local.{ProverProof}
use worldcoin_aggregation.Scheduler.Async.{Run}
use worldcoin_aggregation.Scheduler.Startup.{Tables, load_tables, task_request}
use worldcoin_aggregation.Scheduler.Startup.Request.{Requests, task_request-Requests}
use worldcoin_aggregation.Scheduler.NodeParams.Children.{IsPlaced, child_depth-bounds}
use worldcoin_aggregation.Scheduler.NodeParams.Chain.{chain_lem, leaf-child}
use worldcoin_aggregation.Keygen.Table.{Repo, lookup, insert}
use worldcoin_aggregation.Keygen.Chained.{IsTable}
use worldcoin_aggregation.Keygen.Steps.{IsCompleteLib, AllFit}
use worldcoin_aggregation.Keygen.Total.{create_total}
use worldcoin_aggregation.Keygen.Keeps.{create-lookup}
use worldcoin_aggregation.Keygen.Served.{Executor, IsProving, scheduler_of, create-served}
use worldcoin_aggregation.Keygen.{
  AggTreeId, AggTrees, DependencyIntent, child_intent, create_node, intent_of, record_id,
  check_replaced, KeygenLib, Intent, Made, create_and_serialize_proving_key,
}

-- A library whose keys are the sizes of the circuits, and whose circuit ids are those keys. There are
-- parameters for sizes up to 25, and the circuits above depth 14 are not built.
abbrev toy_key : Intent ℕ ℕ → ℕ
toy_key (Intent.leaf intent) = intent.k
toy_key (Intent.intermediate intent) = intent.k
toy_key (Intent.root intent) = intent.k
toy_key (Intent.evm intent) = intent.k

-- The depth for which the circuit of an intent is built; the circuit of an EVM node has none.
abbrev depth_of : Intent ℕ ℕ → ℕ
depth_of (Intent.leaf intent) = intent.depth
depth_of (Intent.intermediate intent) = intent.depth
depth_of (Intent.root intent) = intent.depth
depth_of (Intent.evm intent) = 0

abbrev toy_keygen : KeygenLib ℕ ℕ ℕ ℕ ℕ
toy_keygen = record {
  read_srs_from_dir = λ k. if ltb 25 k then err (bail Reason.file_not_found) else ok k;
  create_pk_and_pinning = λ srs intent.
      if ltb 14 (depth_of intent)
      then err (panic Reason.index_out_of_bounds)
      else ok (toy_key intent, srs);
  get_vk = λ pk. pk;
  num_instance = λ pinning. ok (pinning ∷ []);
  accumulator_indices = 0 ∷ 1 ∷ [];
  write_pk_and_pinning = λ pk pinning. ok pk;
  same_id = ◌==◌;
}

abbrev ToyFits : NodeParams → ℕ → Type 0
ToyFits p k = (p.depth ≤ 14) × (p.initial_depth ≤ 14) × (k ≤ 25)

-- The size of a key is one for which there are parameters.
abbrev ToyKey : NodeParams → ℕ → ℕ → Type 0
ToyKey p pk pinning = pinning ≤ 25

intent_of-depth :
    (t : NodeType) (k : ℕ) (p : NodeParams) (dep : Option (AggTreeId ℕ × DependencyIntent ℕ))
    (routed : Intent ℕ ℕ × AggTrees ℕ)
    → ToyFits p k
    → intent_of toy_keygen t k p dep ≡ ok routed
    → depth_of routed.0 ≤ 14
unfolding intent_of
intent_of-depth NodeType.leaf k p dep routed (low, leaves, sized) e =
    let made = ok-injective e in rw (sym made) leaves
intent_of-depth NodeType.intermediate k p none routed fits e = cc
intent_of-depth NodeType.intermediate k p (some dep) routed (low, leaves, sized) e =
    let made = ok-injective e in rw (sym made) low
intent_of-depth NodeType.root k p none routed fits e = cc
intent_of-depth NodeType.root k p (some dep) routed (low, leaves, sized) e =
    let made = ok-injective e in rw (sym made) low
intent_of-depth (NodeType.evm round) k p none routed fits e = cc
intent_of-depth (NodeType.evm round) k p (some dep) routed fits e =
    let made = ok-injective e in rw (sym made) (omega arith)

toy_keygen-IsCompleteLib : IsCompleteLib toy_keygen ToyFits ToyKey
toy_keygen-IsCompleteLib = record {
  reads = λ p k (low, leaves, sized). let there : ltb 25 k ≡ false = ground arith in (k, rw there);
  creates = λ p k srs dep routed fits read depends route.
      let (low, leaves, sized) = fits in
      let shallow = intent_of-depth p.node_type k p dep routed fits route in
      let built : ltb 14 (depth_of routed.0) ≡ false = ground arith in
      let there : ltb 25 k ≡ false = ground arith in
      let same_size = ok-injective (rw there at read) in
      ((toy_key routed.0, srs), rw built, rw (sym same_size) sized);
  counts = λ p pk pinning key. (pinning ∷ [], refl);
  writes = λ p pk pinning key. (pk, refl);
}

abbrev evm_top : NodeParams
evm_top = record { node_type = NodeType.evm 1; depth = 3; initial_depth = 1 }

abbrev five_sizes : List ℕ
five_sizes = 23 ∷ 22 ∷ 21 ∷ 20 ∷ 19 ∷ []

placed_low : (t : NodeType) (d i : ℕ) → IsPlaced t d i → i ≤ d
placed_low NodeType.leaf d i placed = omega arith
placed_low NodeType.intermediate d i placed = omega arith
placed_low NodeType.root d i placed = omega arith
placed_low (NodeType.evm round) d i placed = omega arith

-- Sizes for which there are parameters fit every chain of nodes below depth 15.
sizes-AllFit :
    (ks : List ℕ) (p : NodeParams)
    → All (λ k. k ≤ 25) ks
    → IsPlaced p.node_type p.depth p.initial_depth
    → p.depth ≤ 14
    → AllFit ToyFits ks p
sizes-AllFit [] p sizes placed low = tt
sizes-AllFit (k ∷ ks) p (sized, sizes) placed low =
    let leaves = placed_low p.node_type p.depth p.initial_depth placed in
    (
      (low, omega arith, sized),
      λ c found. elim (chain_lem p placed (omega arith)) [
        | inl bottom ↦ let nothing = leaf-child p bottom in cc
        | inr (q, is) ↦
            let both = sym is.found ∙ found in
            let same : q ≡ c = cc in
            let (lo, hi) = child_depth-bounds p.node_type p.depth in
            rw (sym same) (sizes-AllFit ks q sizes is.placed (omega (arith, is.below)))
      ],
    )

five_sizes-AllFit : AllFit ToyFits five_sizes evm_top
five_sizes-AllFit =
    sizes-AllFit five_sizes evm_top
      (omega arith, (omega arith, (omega arith, (omega arith, (omega arith, tt))))) (omega arith)
      (omega arith)

create_total_example :
    (made : Made ℕ ℕ ℕ) × (create_and_serialize_proving_key toy_keygen 5
        (record { k_at_depth = five_sizes; params = evm_top })
        []
      ≡ ok made)
    × IsTable evm_top made.circuit_id made.cid_repo
    × ToyKey evm_top made.pk made.pinning
create_total_example =
    create_total toy_keygen-IsCompleteLib 5 five_sizes evm_top (omega arith) (omega arith)
      five_sizes-AllFit (omega arith) (omega arith)

abbrev leaf_node : ℕ → NodeParams
leaf_node depth = record { node_type = NodeType.leaf; depth = depth; initial_depth = depth }

-- A leaf, made after the keys of another leaf.
abbrev made_leaf : Made ℕ ℕ ℕ
made_leaf = record {
  tree_id = AggTreeId.tree 19 AggTrees.no_trees;
  circuit_id = 19;
  pk = 19;
  pinning = 19;
  cid_repo = (leaf_node 1, 18) ∷ (leaf_node 2, 19) ∷ [];
}

leaf_is_made :
    create_and_serialize_proving_key toy_keygen 1
      (record { k_at_depth = 19 ∷ []; params = leaf_node 2 })
      ((leaf_node 1, 18) ∷ [])
    ≡ ok made_leaf
unfolding create_and_serialize_proving_key child_intent child child_of create_node intent_of
    record_id check_replaced lookup insert same less
leaf_is_made = refl

abbrev one_leaf : Repo ℕ
one_leaf = (leaf_node 1, 18) ∷ []

leaf_is_known : lookup (leaf_node 1) one_leaf ≡ some 18
unfolding lookup same
leaf_is_known = refl

create-lookup_example : lookup (leaf_node 1) made_leaf.cid_repo ≡ some 18
create-lookup_example =
    create-lookup toy_keygen (IsTest.test→≡ ℕ-IsTest) 1
      (record { k_at_depth = 19 ∷ []; params = leaf_node 2 }) one_leaf made_leaf (leaf_node 1) 18
      leaf_is_made leaf_is_known

abbrev some_snark : Snark
some_snark = record { instances = []; accumulator_indices = [] }

-- An executor that proves everything, and may also fail.
abbrev any_executor : Executor ℕ ℕ ℕ ℕ ℕ
any_executor id router is_evm_proof result = Unit

any_executor-IsProving : IsProving any_executor
any_executor-IsProving = record {
  proves = λ id router. (0, some_snark, tt);
  proves_evm = λ id request. (0, 7, tt);
}

create-served_example :
    (made : Made ℕ ℕ ℕ) × (create_and_serialize_proving_key toy_keygen 5
        (record { k_at_depth = five_sizes; params = evm_top })
        []
      ≡ ok made)
    × (t : Tables ℕ) × (load_tables made.cid_repo ≡ ok t)
    × (t.final_circuit_params ≡ evm_top)
    × (req : RecursiveRequest ℕ ℕ) × (task_request t.final_circuit_params 99 (1 ∷ 2 ∷ 3 ∷ [])
        ≡ ok req)
    × Requests evm_top 99 (1 ∷ 2 ∷ 3 ∷ []) req
    × (tasks : List (ℕ × NodeParams)) × (proof : ℕ) × Run
        (scheduler_of ◌==◌ any_executor t)
        req
        true
        tasks
        (ok (ProverProof.evm_proof proof))
create-served_example =
    create-served ℕ-IsTest any_executor-IsProving toy_keygen-IsCompleteLib five_sizes 1 evm_top refl
      (omega arith) (omega arith) five_sizes-AllFit (omega arith) 99 (1 ∷ 2 ∷ 3 ∷ []) (omega arith)
      (omega arith)

abbrev three_request : RecursiveRequest ℕ ℕ
three_request = record { start = 0; end = 3; root = 99; claims = 1 ∷ 2 ∷ 3 ∷ []; params = evm_top }

three_are_asked : task_request evm_top 99 (1 ∷ 2 ∷ 3 ∷ []) ≡ ok three_request
unfolding task_request shl64
three_are_asked = refl

task_request-Requests_example :
    (0 < length three_request.claims)
    × (length three_request.claims ≤ 2 ^ 3)
    × Requests evm_top 99 (1 ∷ 2 ∷ 3 ∷ []) three_request
task_request-Requests_example =
    task_request-Requests evm_top 99 (1 ∷ 2 ∷ 3 ∷ []) three_request (omega arith) (omega arith)
      three_are_asked
