-- ===== src/Scheduler/NodeParams/Order.antt =====
-- The derived equality and order of NodeParams, circuit/src/keygen/node_params.rs: by node type (leaf,
-- intermediate, root, EVM by its round), then depth, then initial depth.
use worldcoin_aggregation.Prelude.{
  ℕ, ◌≡◌, refl, Bool, true, false, arith, ltb, if◌then◌else◌, ◌&&◌, ◌==◌,
}
use worldcoin_aggregation.Scheduler.NodeParams.{NodeType, NodeParams}

abbrev pub rank : NodeType → ℕ
rank NodeType.leaf = 0
rank NodeType.intermediate = 1
rank NodeType.root = 2
rank (NodeType.evm round) = 3

abbrev pub round_of : NodeType → ℕ
round_of NodeType.leaf = 0
round_of NodeType.intermediate = 0
round_of NodeType.root = 0
round_of (NodeType.evm round) = round

-- `==` on NodeParams
unfoldable pub same : NodeParams → NodeParams → Bool
same p q =
    (rank p.node_type == rank q.node_type)
    && ((round_of p.node_type == round_of q.node_type)
        && ((p.depth == q.depth) && (p.initial_depth == q.initial_depth)))

-- The lexicographic order on pairs, where the second is compared by `rest`.
abbrev then_by : ℕ → ℕ → Bool → Bool
then_by a b rest = if a == b then rest else ltb a b

-- `<` on NodeParams
unfoldable pub less : NodeParams → NodeParams → Bool
less p q = then_by (rank p.node_type) (rank q.node_type) (
    then_by (round_of p.node_type) (round_of q.node_type)
      (then_by p.depth q.depth (ltb p.initial_depth q.initial_depth)))

same_type : (s t : NodeType) → rank s ≡ rank t → round_of s ≡ round_of t → s ≡ t
same_type NodeType.leaf NodeType.leaf r o = refl
same_type NodeType.intermediate NodeType.intermediate r o = refl
same_type NodeType.root NodeType.root r o = refl
same_type (NodeType.evm a) (NodeType.evm b) r o = rw o refl
same_type NodeType.leaf NodeType.intermediate r o = absurd (omega arith)
same_type NodeType.leaf NodeType.root r o = absurd (omega arith)
same_type NodeType.leaf (NodeType.evm b) r o = absurd (omega arith)
same_type NodeType.intermediate NodeType.leaf r o = absurd (omega arith)
same_type NodeType.intermediate NodeType.root r o = absurd (omega arith)
same_type NodeType.intermediate (NodeType.evm b) r o = absurd (omega arith)
same_type NodeType.root NodeType.leaf r o = absurd (omega arith)
same_type NodeType.root NodeType.intermediate r o = absurd (omega arith)
same_type NodeType.root (NodeType.evm b) r o = absurd (omega arith)
same_type (NodeType.evm a) NodeType.leaf r o = absurd (omega arith)
same_type (NodeType.evm a) NodeType.intermediate r o = absurd (omega arith)
same_type (NodeType.evm a) NodeType.root r o = absurd (omega arith)

pub same_refl : (p : NodeParams) → same p p ≡ true
unfolding same
same_refl p = ground arith

pub same→≡ : (p q : NodeParams) → same p q ≡ true → p ≡ q
unfolding same
same→≡ p q h =
    let t : p.node_type ≡ q.node_type =
      same_type p.node_type q.node_type (ground arith) (ground arith) in
    let d : p.depth ≡ q.depth = ground arith in
    let i : p.initial_depth ≡ q.initial_depth = ground arith in cc

pub less_trans : (p q r : NodeParams) → less p q ≡ true → less q r ≡ true → less p r ≡ true
unfolding less
less_trans p q r h k = ground arith

pub less_irrefl : (p : NodeParams) → less p p ≡ false
unfolding less
less_irrefl p = ground arith

pub less-same : (p q : NodeParams) → less p q ≡ true → same q p ≡ false
unfolding less same
less-same p q h = ground arith

pub less_asym : (p q : NodeParams) → less p q ≡ true → less q p ≡ false
unfolding less
less_asym p q h = ground arith
