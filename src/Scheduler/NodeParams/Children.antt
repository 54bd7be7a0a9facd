-- ===== src/Scheduler/NodeParams/Children.antt =====
-- The children of the nodes of the aggregation tree.
use worldcoin_aggregation.Prelude.{
  ℕ, zero, suc, ◌+◌, ◌-◌, ◌≤◌, ◌<◌, ◌≡◌, refl, sym, ◌∙◌, inl, inr, some, ok, arith, Bool-cases,
  >>=-eq-ok, assert-eq-ok, ok-injective, ltb, leb, ◌==◌, ◌>>=◌,
}
use worldcoin_aggregation.Prelude.Words.{sub64, word64, sub64-eq, word64-eq}
use worldcoin_aggregation.Scheduler.NodeParams.{
  NodeType, NodeParams, child, child_of, inner_child, evm_child, new,
}

-- Where the nodes of a type stand in a tree whose leaves have depth `initial_depth`.
abbrev pub IsPlaced : NodeType → ℕ → ℕ → Type 0
IsPlaced NodeType.leaf depth initial_depth = depth ≡ initial_depth
IsPlaced NodeType.intermediate depth initial_depth = initial_depth < depth
IsPlaced NodeType.root depth initial_depth = initial_depth < depth
IsPlaced (NodeType.evm round) depth initial_depth = initial_depth ≤ depth

-- The number of levels below a node.
abbrev pub height_of : NodeType → ℕ → ℕ
height_of NodeType.leaf levels = levels
height_of NodeType.intermediate levels = levels
height_of NodeType.root levels = levels
height_of (NodeType.evm round) levels = levels + round + 1

abbrev pub height : NodeParams → ℕ
height p = height_of p.node_type (p.depth - p.initial_depth)

-- The depth of the children.
abbrev pub child_depth : NodeType → ℕ → ℕ
child_depth NodeType.leaf depth = depth
child_depth NodeType.intermediate depth = depth - 1
child_depth NodeType.root depth = depth - 1
child_depth (NodeType.evm round) depth = depth

pub record IsChild (p q : NodeParams) : Type 0 where
  pub found : child p ≡ ok (some q)
  pub placed : IsPlaced q.node_type q.depth q.initial_depth
  pub same_leaves : q.initial_depth ≡ p.initial_depth
  pub below : q.depth ≡ child_depth p.node_type p.depth
  pub lower : height p ≡ suc (height q)

inner_child-eq :
    (p : NodeParams)
    → p.initial_depth < p.depth
    → p.depth < 31
    → (q : NodeParams) × (inner_child p ≡ ok q)
      × IsPlaced q.node_type q.depth q.initial_depth
      × (q.initial_depth ≡ p.initial_depth)
      × (q.depth ≡ p.depth - 1)
      × (p.depth - p.initial_depth ≡ suc (height q))
unfolding inner_child new
inner_child-eq p l small = elim (Bool-cases (p.depth == p.initial_depth + 1)) [
  | inl last ↦ (
    record { node_type = NodeType.leaf; depth = p.initial_depth; initial_depth = p.initial_depth },
    ground (arith, word64-eq (p.initial_depth + 1)),
    refl,
    refl,
    ground arith,
    ground arith,
  )
  | inr inner ↦ (
    record {
      node_type = NodeType.intermediate;
      depth = p.depth - 1;
      initial_depth = p.initial_depth;
    },
    ground (arith, word64-eq (p.initial_depth + 1), sub64-eq p.depth 1),
    ground arith,
    refl,
    refl,
    omega arith,
  )
]

abbrev pub node : NodeType → ℕ → ℕ → NodeParams
node t d i = record { node_type = t; depth = d; initial_depth = i }

inner-IsChild :
    (t : NodeType) (d i : ℕ)
    → (child (node t d i) ≡ (inner_child (node t d i) >>= λ c. ok (some c)))
    → i < d
    → d < 31
    → child_depth t d ≡ d - 1
    → height_of t (d - i) ≡ d - i
    → (q : NodeParams) × IsChild (node t d i) q
inner-IsChild t d i inner l small below level =
    let (q, found, placed, same, depth, lower) = inner_child-eq (node t d i) l small in
    (
      q,
      record {
        found = inner ∙ rw found;
        placed = placed;
        same_leaves = same;
        below = depth ∙ sym below;
        lower = level ∙ lower;
      },
    )

evm-IsChild : (round d i : ℕ) → i < d → (q : NodeParams) × IsChild (node (NodeType.evm round) d i) q
unfolding child child_of evm_child new
evm-IsChild zero d i l = (
  node NodeType.root d i,
  record {
    found = ground arith;
    placed = l;
    same_leaves = refl;
    below = refl;
    lower = omega arith;
  },
)
evm-IsChild (suc round) d i l = (
  node (NodeType.evm round) d i,
  record {
    found = ground arith;
    placed = omega arith;
    same_leaves = refl;
    below = refl;
    lower = omega arith;
  },
)

node-IsChild :
    (t : NodeType) (d i : ℕ)
    → IsPlaced t d i
    → i < d
    → d < 31
    → (q : NodeParams) × IsChild (node t d i) q
unfolding child child_of
node-IsChild NodeType.leaf d i placed l small = absurd (omega arith)
node-IsChild NodeType.intermediate d i placed l small =
    inner-IsChild NodeType.intermediate d i refl l small refl refl
node-IsChild NodeType.root d i placed l small =
    inner-IsChild NodeType.root d i refl l small refl refl
node-IsChild (NodeType.evm round) d i placed l small = evm-IsChild round d i l

-- A well-placed node above the depth of the leaves, with a depth below 31, has a child: it is
-- well placed, over the same leaves, one level lower in the tree, and its depth is the node's
-- under an EVM node and one less under the others.
pub child_lem :
    (p : NodeParams)
    → IsPlaced p.node_type p.depth p.initial_depth
    → p.initial_depth < p.depth
    → p.depth < 31
    → (q : NodeParams) × IsChild p q
child_lem p placed l small = node-IsChild p.node_type p.depth p.initial_depth placed l small

pub child_depth-bounds :
    (t : NodeType) (d : ℕ) → (child_depth t d ≤ d) × (d ≤ suc (child_depth t d))
child_depth-bounds NodeType.leaf d = (omega arith, omega arith)
child_depth-bounds NodeType.intermediate d = (omega arith, omega arith)
child_depth-bounds NodeType.root d = (omega arith, omega arith)
child_depth-bounds (NodeType.evm round) d = (omega arith, omega arith)

-- The types of the nodes that join two proofs, and of the nodes below them.
abbrev pub IsJoining : NodeType → Type 0
IsJoining NodeType.leaf = ⊥
IsJoining NodeType.intermediate = Unit
IsJoining NodeType.root = Unit
IsJoining (NodeType.evm round) = ⊥

abbrev pub IsInner : NodeType → Type 0
IsInner NodeType.leaf = Unit
IsInner NodeType.intermediate = Unit
IsInner NodeType.root = ⊥
IsInner (NodeType.evm round) = ⊥

inner_child-IsInner : (p : NodeParams) {q : NodeParams} → inner_child p ≡ ok q → IsInner q.node_type
unfolding inner_child new
inner_child-IsInner p {q} e =
    let (above, e1) = assert-eq-ok (ltb p.initial_depth p.depth) _ e in
    elim (Bool-cases (p.depth == word64 (p.initial_depth + 1))) [
      | inl last ↦
          let (ordered, e2) =
            assert-eq-ok (leb p.initial_depth p.initial_depth) _ (rw last at e1) in
          rw (← ok-injective e2) tt
      | inr inner ↦
          let (ordered, e2) =
            assert-eq-ok (leb p.initial_depth (sub64 p.depth 1)) _ (rw inner at e1) in
          rw (← ok-injective e2) tt
    ]

pub child-IsInner :
    (t : NodeType) (d i : ℕ) {q : NodeParams}
    → IsJoining t
    → child (node t d i) ≡ ok (some q)
    → IsInner q.node_type
unfolding child child_of
child-IsInner NodeType.leaf d i j e = absurd j
child-IsInner NodeType.intermediate d i {q} j e =
    let (c, found, last) = >>=-eq-ok (inner_child (node NodeType.intermediate d i)) _ e in
    let same : c ≡ q = cc in
    rw (← same) (inner_child-IsInner (node NodeType.intermediate d i) found)
child-IsInner NodeType.root d i {q} j e =
    let (c, found, last) = >>=-eq-ok (inner_child (node NodeType.root d i)) _ e in
    let same : c ≡ q = cc in rw (← same) (inner_child-IsInner (node NodeType.root d i) found)
child-IsInner (NodeType.evm round) d i j e = absurd j
