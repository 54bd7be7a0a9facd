-- ===== src/Keygen/Total.antt =====
-- Keys are made for every node of the chain below an intent.
use worldcoin_aggregation.Prelude.{
  ℕ, zero, suc, ◌<◌, ◌≡◌, inl, inr, none, some, List, [], ◌∷◌, ok, arith, length,
}
use worldcoin_aggregation.Scheduler.NodeParams.{NodeParams}
use worldcoin_aggregation.Scheduler.NodeParams.Children.{IsPlaced, height, child_depth-bounds}
use worldcoin_aggregation.Scheduler.NodeParams.Chain.{chain_lem, leaf-child}
use worldcoin_aggregation.Keygen.{KeygenLib, Made, create_and_serialize_proving_key}
use worldcoin_aggregation.Keygen.Chained.{IsTable, leaf-IsTable, node-IsTable}
use worldcoin_aggregation.Keygen.Steps.{
  IsCompleteLib, AllFit, create_node_total, child_intent-eq, child_intent-leaf, dependency_of_total,
  some-HasDependency,
}

module _ {CircuitId Srs Pk Vk Pinning : Type 0} {lib : KeygenLib CircuitId Srs Pk Vk Pinning}
    {Fits : NodeParams → ℕ → Type 0} {IsKey : NodeParams → Pk → Pinning → Type 0}
    (complete : IsCompleteLib lib Fits IsKey) where
  -- If the parameters of every size that fits a node are there, key generation succeeds for a
  -- node in such a size with the keys of its child (no size fits a V2 node above depth 14, whose
  -- circuit panics), and keys can be written and read, then the keys of a well-placed node with a
  -- depth below 31 are made from an empty table, with a fitting size for every level and fuel
  -- above the height of the node: they are keys of that node, no circuit ids conflict, and the
  -- table then has an entry for every node of the chain below the node, which stands last, after
  -- nodes that all come before it in the order of the keys.
  pub create_total :
      (fuel : ℕ) (ks : List ℕ) (p : NodeParams)
      → IsPlaced p.node_type p.depth p.initial_depth
      → p.depth < 31
      → AllFit Fits ks p
      → height p < fuel
      → height p < length ks
      → (made : Made CircuitId Pk Pinning) × (create_and_serialize_proving_key lib fuel
            (record { k_at_depth = ks; params = p })
            []
          ≡ ok made)
        × IsTable p made.circuit_id made.cid_repo
        × IsKey p made.pk made.pinning
  unfolding create_and_serialize_proving_key
  create_total zero ks p placed small fit f l = elim f [ ]
  create_total (suc fuel) [] p placed small fit f l = elim l [ ]
  create_total (suc fuel) (k ∷ ks) p placed small fit f l = elim (chain_lem p placed small) [
    | inl bottom ↦
        let none_below = leaf-child p bottom in
        let (made, created, table, is_key) =
          create_node_total complete k ks p none [] (rw bottom tt) none_below fit.0 tt in
        (
          made,
          rw (child_intent-leaf complete k ks p none_below) created,
          rw table (leaf-IsTable p made.circuit_id none_below),
          is_key,
        )
    | inr (c, is) ↦
        let (lo, hi) = child_depth-bounds p.node_type p.depth in
        let (below, made_below, table, child_key) =
          create_total fuel ks c is.placed (omega (arith, is.below)) (fit.1 c is.found)
            (omega (arith, is.lower)) (omega (arith, is.lower)) in
        let (dep, depends) = dependency_of_total complete c below child_key in
        let (all, grown) =
          node-IsTable p c below.circuit_id below.circuit_id below.cid_repo is.found small table in
        let (made, created, entries, is_key) =
          create_node_total complete k ks p (some dep) below.cid_repo
            (some-HasDependency complete p.node_type dep) (c, below, is.found, child_key, depends)
            fit.0 all in
        (
          made,
          rw (child_intent-eq complete k ks p c is.found, made_below, depends) created,
          rw entries
              (node-IsTable p c below.circuit_id made.circuit_id below.cid_repo is.found small
                table).1,
          is_key,
        )
  ]
