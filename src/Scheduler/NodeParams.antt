-- ===== src/Scheduler/NodeParams.antt =====
-- circuit/src/keygen/node_params.rs: the nodes of the aggregation tree.
pub mod Children
pub mod Order
pub mod Chain
use worldcoin_aggregation.Prelude.{
  ℕ, zero, suc, ◌+◌, ◌≤◌, ◌<◌, ◌≡◌, Option, none, some, Result, ok, assert, ltb, leb, if◌then◌else◌,
  ◌==◌, ◌>>=◌, ◌>>◌,
}
use worldcoin_aggregation.Prelude.Words.{sub64, word64}

pub data NodeType : Type 0 where
  leaf intermediate root : NodeType
  evm : ℕ → NodeType

pub record NodeParams : Type 0 where
  pub node_type : NodeType
  pub depth : ℕ
  pub initial_depth : ℕ

-- `NodeParams::new`
unfoldable pub new : NodeType → ℕ → ℕ → Result NodeParams
new node_type depth initial_depth = do
  assert (leb initial_depth depth)
  ok (record { node_type = node_type; depth = depth; initial_depth = initial_depth })

-- The children of an intermediate and of the root node.
unfoldable pub inner_child : NodeParams → Result NodeParams
inner_child params = do
  assert (ltb params.initial_depth params.depth)
  if params.depth == word64 (params.initial_depth + 1)
      then new NodeType.leaf params.initial_depth params.initial_depth
      else new NodeType.intermediate (sub64 params.depth 1) params.initial_depth

-- The child of a node that wraps one proof.
unfoldable pub evm_child : ℕ → NodeParams → Result NodeParams
evm_child zero params =
    new (if params.depth == params.initial_depth then NodeType.leaf else NodeType.root) params.depth
      params.initial_depth
evm_child (suc round) params = new (NodeType.evm round) params.depth params.initial_depth

-- `NodeParams::child`
unfoldable pub child_of : NodeType → NodeParams → Result (Option NodeParams)
child_of NodeType.leaf params = ok none
child_of NodeType.intermediate params = do c ← inner_child params; ok (some c)
child_of NodeType.root params = do c ← inner_child params; ok (some c)
child_of (NodeType.evm round) params = do c ← evm_child round params; ok (some c)

unfoldable pub child : NodeParams → Result (Option NodeParams)
child params = child_of params.node_type params
