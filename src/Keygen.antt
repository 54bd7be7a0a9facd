-- ===== src/Keygen.antt =====
-- circuit/src/keygen/mod.rs: the proving keys of the nodes of an aggregation tree, made from the leaves
-- up, and the table of their circuit ids. The library's key generation and the files that are read
-- and written are parameters; the parameters of the polynomial commitment are left out of the
-- intents.
pub mod Table
pub mod Chained
pub mod Steps
pub mod Total
pub mod Circuits
pub mod Keeps
pub mod Served
use worldcoin_aggregation.Prelude.{
  ℕ, zero, suc, Bool, true, false, not, Option, none, some, List, [], ◌∷◌, drop, length, Result, ok,
  err, bail, panic, Reason, assert, bail_if, or_fault, index, ◌==◌, ◌>>=◌, ◌>>◌,
}
use worldcoin_aggregation.Scheduler.NodeParams.{NodeType, NodeParams, child}
use worldcoin_aggregation.Keygen.Table.{Repo, lookup, insert}

-- `RecursiveIntent`
pub record RecursiveIntent : Type 0 where
  pub k_at_depth : List ℕ
  pub params : NodeParams

-- `RecursiveIntent::child`
unfoldable pub child_intent : RecursiveIntent → Result (Option RecursiveIntent)
child_intent intent = do
  assert (not (length intent.k_at_depth == 0))
  found ← child intent.params
  elim found [
    | none ↦ ok none
    | some params ↦ ok (some (record { k_at_depth = drop 1 intent.k_at_depth; params = params }))
  ]

-- `AggTreeId` of the library that makes the keys, without its hash of the keys, which is empty.
mutual
  pub data AggTreeId (CircuitId : Type 0) : Type 0 where
    tree : CircuitId → AggTrees CircuitId → AggTreeId CircuitId

  pub data AggTrees (CircuitId : Type 0) : Type 0 where
    no_trees : AggTrees CircuitId
    more_trees : AggTreeId CircuitId → AggTrees CircuitId → AggTrees CircuitId

-- `AggregationDependencyIntentOwned`
pub record DependencyIntent (Vk : Type 0) : Type 0 where
  pub vk : Vk
  pub num_instance : List ℕ
  pub accumulator_indices : Option (List ℕ)

pub record IntentLeaf : Type 0 where
  pub k : ℕ
  pub depth : ℕ

-- `IntentIntermediate` and `IntentRoot`
pub record IntentNode (CircuitId Vk : Type 0) : Type 0 where
  pub k : ℕ
  pub to_agg : AggTrees CircuitId
  pub dependency : DependencyIntent Vk
  pub depth : ℕ
  pub initial_depth : ℕ

pub record IntentEvm (CircuitId Vk : Type 0) : Type 0 where
  pub k : ℕ
  pub to_agg : AggTreeId CircuitId
  pub dependency : DependencyIntent Vk

pub data Intent (CircuitId Vk : Type 0) : Type 0 where
  leaf : IntentLeaf → Intent CircuitId Vk
  intermediate root : IntentNode CircuitId Vk → Intent CircuitId Vk
  evm : IntentEvm CircuitId Vk → Intent CircuitId Vk

-- What is outside: the parameters of a size, key generation, and the files of a circuit.
pub record KeygenLib (CircuitId Srs Pk Vk Pinning : Type 0) : Type 0 where
  pub read_srs_from_dir : ℕ → Result Srs
  pub create_pk_and_pinning : Srs → Intent CircuitId Vk → Result (Pk × Pinning)
  pub get_vk : Pk → Vk
  pub num_instance : Pinning → Result (List ℕ)
  pub accumulator_indices : List ℕ
  pub write_pk_and_pinning : Pk → Pinning → Result CircuitId
  pub same_id : CircuitId → CircuitId → Bool

abbrev pub twice : {CircuitId : Type 0} → AggTreeId CircuitId → AggTrees CircuitId
twice id = AggTrees.more_trees id (AggTrees.more_trees id AggTrees.no_trees)

abbrev pub once : {CircuitId : Type 0} → AggTreeId CircuitId → AggTrees CircuitId
once id = AggTrees.more_trees id AggTrees.no_trees

abbrev pub is_leaf : NodeType → Bool
is_leaf NodeType.leaf = true
is_leaf NodeType.intermediate = false
is_leaf NodeType.root = false
is_leaf (NodeType.evm round) = false

-- The accumulator indices of a child: all aggregation circuits have the same.
abbrev pub indices_for : Bool → List ℕ → Option (List ℕ)
indices_for true indices = none
indices_for false indices = some indices

-- What a call returns: the tree of the node with its key and pinning, and the table.
pub record Made (CircuitId Pk Pinning : Type 0) : Type 0 where
  pub tree_id : AggTreeId CircuitId
  pub circuit_id : CircuitId
  pub pk : Pk
  pub pinning : Pinning
  pub cid_repo : Repo CircuitId

module _ {CircuitId Srs Pk Vk Pinning : Type 0} (lib : KeygenLib CircuitId Srs Pk Vk Pinning) where
  -- The dependency on a child whose keys are made.
  unfoldable pub dependency_of :
      NodeType → Made CircuitId Pk Pinning → Result (AggTreeId CircuitId × DependencyIntent Vk)
  dependency_of child_type made = do
    num_instance ← lib.num_instance made.pinning
    ok (
      made.tree_id,
      record {
        vk = lib.get_vk made.pk;
        num_instance = num_instance;
        accumulator_indices = indices_for (is_leaf child_type) lib.accumulator_indices;
      },
    )

  -- The intent of a node and its children, by the type of the node.
  unfoldable pub intent_of :
      NodeType
      → ℕ
      → NodeParams
      → Option (AggTreeId CircuitId × DependencyIntent Vk)
      → Result (Intent CircuitId Vk × AggTrees CircuitId)
  intent_of NodeType.leaf k params dep =
      ok (Intent.leaf (record { k = k; depth = params.initial_depth }), AggTrees.no_trees)
  intent_of NodeType.intermediate k params dep = do
    found ← or_fault dep (panic Reason.unwrap_none)
    ok (
      Intent.intermediate (record {
        k = k;
        to_agg = twice found.0;
        dependency = found.1;
        depth = params.depth;
        initial_depth = params.initial_depth;
      }),
      twice found.0,
    )
  intent_of NodeType.root k params dep = do
    found ← or_fault dep (panic Reason.unwrap_none)
    ok (
      Intent.root (record {
        k = k;
        to_agg = twice found.0;
        dependency = found.1;
        depth = params.depth;
        initial_depth = params.initial_depth;
      }),
      twice found.0,
    )
  intent_of (NodeType.evm round) k params dep = do
    found ← or_fault dep (panic Reason.unwrap_none)
    ok (Intent.evm (record { k = k; to_agg = found.0; dependency = found.1 }), once found.0)

  -- The circuit id that an insertion replaces is the same.
  unfoldable pub check_replaced : Option CircuitId → CircuitId → Result (Unit {0})
  check_replaced none circuit_id = ok tt
  check_replaced (some old_cid) circuit_id =
      bail_if (not (lib.same_id old_cid circuit_id)) Reason.cid_conflict

  -- `cid_repo.insert` with its check.
  unfoldable pub record_id : NodeParams → CircuitId → Repo CircuitId → Result (Repo CircuitId)
  record_id params circuit_id repo = do
    check_replaced (lookup params repo) circuit_id
    ok (insert params circuit_id repo)

  -- The keys of one node, once its child's are made.
  unfoldable pub create_node :
      RecursiveIntent
      → Option (AggTreeId CircuitId × DependencyIntent Vk)
      → Repo CircuitId
      → Result (Made CircuitId Pk Pinning)
  create_node intent dep repo = do
    assert (not (length intent.k_at_depth == 0))
    k ← index intent.k_at_depth 0
    kzg_params ← lib.read_srs_from_dir k
    routed ← intent_of intent.params.node_type k intent.params dep
    keys ← lib.create_pk_and_pinning kzg_params routed.0
    circuit_id ← lib.write_pk_and_pinning keys.0 keys.1
    repo2 ← record_id intent.params circuit_id repo
    ok (record {
      tree_id = AggTreeId.tree circuit_id routed.1;
      circuit_id = circuit_id;
      pk = keys.0;
      pinning = keys.1;
      cid_repo = repo2;
    })

  -- `create_and_serialize_proving_key`, with fuel for the levels of the tree.
  unfoldable pub create_and_serialize_proving_key :
      ℕ → RecursiveIntent → Repo CircuitId → Result (Made CircuitId Pk Pinning)
  create_and_serialize_proving_key zero intent repo = err (panic Reason.out_of_fuel)
  create_and_serialize_proving_key (suc fuel) intent repo = do
    found ← child_intent intent
    elim found [
      | none ↦ create_node intent none repo
      | some below ↦ do
        made ← create_and_serialize_proving_key fuel below repo
        dep ← dependency_of below.params.node_type made
        create_node intent (some dep) made.cid_repo
    ]
