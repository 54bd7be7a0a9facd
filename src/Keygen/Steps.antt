-- ===== src/Keygen/Steps.antt =====
-- The keys of one node are made.
use worldcoin_aggregation.Prelude.{
  ℕ, ◌≡◌, refl, false, none, some, Option, List, [], ◌∷◌, ◌++◌, ok, arith, length, ◌==◌,
}
use worldcoin_aggregation.Scheduler.NodeParams.{NodeType, NodeParams, child}
use worldcoin_aggregation.Keygen.Table.{Repo, Before, insert-Before, lookup-Before}
use worldcoin_aggregation.Keygen.{
  KeygenLib, Intent, AggTreeId, AggTrees, DependencyIntent, Made, child_intent, is_leaf,
  indices_for, dependency_of, intent_of, check_replaced, record_id, create_node,
}

-- What is said of the sizes and the keys of nodes, and of the library that makes them: the sizes for
-- which the parameters are there and in which the circuit of a node can be built, and the keys that
-- are made of it.
module _ {CircuitId Srs Pk Vk Pinning : Type 0} (lib : KeygenLib CircuitId Srs Pk Vk Pinning)
    (Fits : NodeParams → ℕ → Type 0) (IsKey : NodeParams → Pk → Pinning → Type 0) where
  -- The dependency of a node: its child, with keys of that node, if it has one.
  abbrev pub DependsOn : NodeParams → Option (AggTreeId CircuitId × DependencyIntent Vk) → Type 0
  DependsOn p none = child p ≡ ok none
  DependsOn p (some dep) =
      (c : NodeParams) × (made : Made CircuitId Pk Pinning) × (child p ≡ ok (some c))
      × IsKey c made.pk made.pinning
      × (dependency_of lib c.node_type made ≡ ok dep)

  -- Reading and writing succeed, and so does key generation for a node in a size that fits it, with
  -- the keys of its child. The repository's circuits are run there: no size fits a V2 node above
  -- depth 14, where DUMMY_CLAIM_ROOTS ends.
  pub record IsCompleteLib : Type 0 where
    pub reads :
        (p : NodeParams) (k : ℕ) → Fits p k → (srs : Srs) × (lib.read_srs_from_dir k ≡ ok srs)
    pub creates :
        (p : NodeParams) (k : ℕ) (srs : Srs)
        (dep : Option (AggTreeId CircuitId × DependencyIntent Vk))
        (routed : Intent CircuitId Vk × AggTrees CircuitId)
        → Fits p k
        → lib.read_srs_from_dir k ≡ ok srs
        → DependsOn p dep
        → intent_of lib p.node_type k p dep ≡ ok routed
        → (keys : Pk × Pinning) × (lib.create_pk_and_pinning srs routed.0 ≡ ok keys)
          × IsKey p keys.0 keys.1
    pub counts :
        (p : NodeParams) (pk : Pk) (pinning : Pinning)
        → IsKey p pk pinning
        → (n : List ℕ) × (lib.num_instance pinning ≡ ok n)
    pub writes :
        (p : NodeParams) (pk : Pk) (pinning : Pinning)
        → IsKey p pk pinning
        → (id : CircuitId) × (lib.write_pk_and_pinning pk pinning ≡ ok id)

-- The sizes fit the nodes of the chain below a node, one after the other.
abbrev pub AllFit : (NodeParams → ℕ → Type 0) → List ℕ → NodeParams → Type 0
AllFit Fits [] p = Unit
AllFit Fits (k ∷ ks) p = Fits p k × ((c : NodeParams) → child p ≡ ok (some c) → AllFit Fits ks c)

abbrev IsSome : {A : Type 0} → Option A → Type 0
IsSome {A} o = (a : A) × (o ≡ some a)

module _ {CircuitId Srs Pk Vk Pinning : Type 0} {lib : KeygenLib CircuitId Srs Pk Vk Pinning}
    {Fits : NodeParams → ℕ → Type 0} {IsKey : NodeParams → Pk → Pinning → Type 0}
    (complete : IsCompleteLib lib Fits IsKey) where
  -- A node that is not a leaf is given its child.
  abbrev pub HasDependency : NodeType → Option (AggTreeId CircuitId × DependencyIntent Vk) → Type 0
  HasDependency NodeType.leaf dep = Unit
  HasDependency NodeType.intermediate dep = IsSome dep
  HasDependency NodeType.root dep = IsSome dep
  HasDependency (NodeType.evm round) dep = IsSome dep

  intent_of_total :
      (t : NodeType) (k : ℕ) (params : NodeParams)
      (dep : Option (AggTreeId CircuitId × DependencyIntent Vk))
      → HasDependency t dep
      → (routed : Intent CircuitId Vk × AggTrees CircuitId) × (intent_of lib t k params dep
          ≡ ok routed)
  unfolding intent_of
  intent_of_total NodeType.leaf k params dep h = (_, refl)
  intent_of_total NodeType.intermediate k params none (found, e) = cc
  intent_of_total NodeType.intermediate k params (some found) h = (_, refl)
  intent_of_total NodeType.root k params none (found, e) = cc
  intent_of_total NodeType.root k params (some found) h = (_, refl)
  intent_of_total (NodeType.evm round) k params none (found, e) = cc
  intent_of_total (NodeType.evm round) k params (some found) h = (_, refl)

  record_id-Before :
      (p : NodeParams) (id : CircuitId) (repo : Repo CircuitId)
      → Before p repo
      → record_id lib p id repo ≡ ok (repo ++ ((p, id) ∷ []))
  unfolding record_id check_replaced
  record_id-Before p id repo b = rw (lookup-Before p repo b, insert-Before p id repo b)

  pub create_node_total :
      (k : ℕ) (ks : List ℕ) (p : NodeParams)
      (dep : Option (AggTreeId CircuitId × DependencyIntent Vk)) (repo : Repo CircuitId)
      → HasDependency p.node_type dep
      → DependsOn lib Fits IsKey p dep
      → Fits p k
      → Before p repo
      → (made : Made CircuitId Pk Pinning) × (create_node lib
            (record { k_at_depth = k ∷ ks; params = p })
            dep
            repo
          ≡ ok made)
        × (made.cid_repo ≡ repo ++ ((p, made.circuit_id) ∷ []))
        × IsKey p made.pk made.pinning
  unfolding create_node
  create_node_total k ks p dep repo h depends fits b =
      let some_k : (length (k ∷ ks) == 0) ≡ false = ground arith in
      let (srs, read) = complete.reads p k fits in
      let (routed, route) = intent_of_total p.node_type k p dep h in
      let (keys, created, is_key) = complete.creates p k srs dep routed fits read depends route in
      let (id, written) = complete.writes p keys.0 keys.1 is_key in
      (
        record {
          tree_id = AggTreeId.tree id routed.1;
          circuit_id = id;
          pk = keys.0;
          pinning = keys.1;
          cid_repo = repo ++ ((p, id) ∷ []);
        },
        rw (some_k, read, route, created, written, record_id-Before p id repo b),
        refl,
        is_key,
      )

  pub child_intent-eq :
      (k : ℕ) (ks : List ℕ) (p c : NodeParams)
      → child p ≡ ok (some c)
      → child_intent (record { k_at_depth = k ∷ ks; params = p })
        ≡ ok (some (record { k_at_depth = ks; params = c }))
  unfolding child_intent
  child_intent-eq k ks p c found =
      let some_k : (length (k ∷ ks) == 0) ≡ false = ground arith in rw (some_k, found)

  pub child_intent-leaf :
      (k : ℕ) (ks : List ℕ) (p : NodeParams)
      → child p ≡ ok none
      → child_intent (record { k_at_depth = k ∷ ks; params = p }) ≡ ok none
  unfolding child_intent
  child_intent-leaf k ks p found =
      let some_k : (length (k ∷ ks) == 0) ≡ false = ground arith in rw (some_k, found)

  pub dependency_of_total :
      (c : NodeParams) (made : Made CircuitId Pk Pinning)
      → IsKey c made.pk made.pinning
      → (dep : AggTreeId CircuitId × DependencyIntent Vk) × (dependency_of lib c.node_type made
          ≡ ok dep)
  unfolding dependency_of
  dependency_of_total c made is_key =
      let (n, counted) = complete.counts c made.pk made.pinning is_key in
      (
        (
          made.tree_id,
          record {
            vk = lib.get_vk made.pk;
            num_instance = n;
            accumulator_indices = indices_for (is_leaf c.node_type) lib.accumulator_indices;
          },
        ),
        rw counted,
      )

  pub some-HasDependency :
      (t : NodeType) (dep : AggTreeId CircuitId × DependencyIntent Vk) → HasDependency t (some dep)
  some-HasDependency NodeType.leaf dep = tt
  some-HasDependency NodeType.intermediate dep = (dep, refl)
  some-HasDependency NodeType.root dep = (dep, refl)
  some-HasDependency (NodeType.evm round) dep = (dep, refl)
