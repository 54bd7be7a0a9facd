-- ===== src/Scheduler/NodeParams/Chain.antt =====
-- The chain of nodes below a node: every node but a leaf has one kind of child.
use worldcoin_aggregation.Prelude.{
  ℕ, zero, suc, ◌-◌, ◌≤◌, ◌<◌, ◌≡◌, ◌⊎◌, refl, ap, ◌∙◌, inl, inr, true, none, some, ok, arith,
  Bool-cases, ok-injective, ◌==◌, ltb, leb, if◌then◌else◌, assert-eq-ok, ◌+◌, >>=-eq-ok,
}
use worldcoin_aggregation.Prelude.Words.{word64-eq, sub64-eq}
use worldcoin_aggregation.Scheduler.NodeParams.{
  NodeType, NodeParams, child, child_of, inner_child, evm_child, new,
}
use worldcoin_aggregation.Scheduler.NodeParams.Children.{IsPlaced, IsChild, node, child_lem}
use worldcoin_aggregation.Scheduler.NodeParams.Order.{less, rank, round_of}

-- The nodes from `top` down.
pub data Below (top : NodeParams) : NodeParams → Type 0 where
  here : Below top top
  next : {p q : NodeParams} → Below top p → child p ≡ ok (some q) → Below top q

pub Below-trans : {a b c : NodeParams} → Below a b → Below b c → Below a c
Below-trans up here = up
Below-trans up (next down e) = next (Below-trans up down) e

pub Below-split : {p c q : NodeParams} → Below p q → child p ≡ ok (some c) → (q ≡ p) ⊎ Below c q
Below-split here e = inl refl
Below-split {c} {q} (next {p = r} up found) e = elim (Below-split up e) [
  | inl same ↦ let first : c ≡ q = cc in inr (rw first here)
  | inr down ↦ inr (next down found)
]

pub Below-leaf : {p q : NodeParams} → Below p q → child p ≡ ok none → q ≡ p
Below-leaf here e = refl
Below-leaf (next up found) e = let same = Below-leaf up e in cc

-- An EVM node over leaves that are not joined.
flat_evm-IsChild : (round d : ℕ) → (q : NodeParams) × IsChild (node (NodeType.evm round) d d) q
unfolding child child_of evm_child new
flat_evm-IsChild zero d = (
  node NodeType.leaf d d,
  record {
    found = ground arith;
    placed = refl;
    same_leaves = refl;
    below = refl;
    lower = omega arith;
  },
)
flat_evm-IsChild (suc round) d = (
  node (NodeType.evm round) d d,
  record {
    found = ground arith;
    placed = omega arith;
    same_leaves = refl;
    below = refl;
    lower = omega arith;
  },
)

evm-IsChild :
    (round d i : ℕ) → i ≤ d → d < 31 → (q : NodeParams) × IsChild (node (NodeType.evm round) d i) q
evm-IsChild round d i le small = elim (Bool-cases (d == i)) [
  | inl e ↦ let same : d ≡ i = ground arith in rw (← same) (flat_evm-IsChild round d)
  | inr more ↦ child_lem (node (NodeType.evm round) d i) le (ground arith) small
]

node_chain :
    (t : NodeType) (d i : ℕ)
    → IsPlaced t d i
    → d < 31
    → (t ≡ NodeType.leaf) ⊎ ((q : NodeParams) × IsChild (node t d i) q)
node_chain NodeType.leaf d i placed small = inl refl
node_chain NodeType.intermediate d i placed small =
    inr (child_lem (node NodeType.intermediate d i) placed placed small)
node_chain NodeType.root d i placed small =
    inr (child_lem (node NodeType.root d i) placed placed small)
node_chain (NodeType.evm round) d i placed small = inr (evm-IsChild round d i placed small)

-- A well-placed node with a depth below 31 is a leaf or has a well-placed child.
pub chain_lem :
    (p : NodeParams)
    → IsPlaced p.node_type p.depth p.initial_depth
    → p.depth < 31
    → (p.node_type ≡ NodeType.leaf) ⊎ ((q : NodeParams) × IsChild p q)
chain_lem p placed small = node_chain p.node_type p.depth p.initial_depth placed small

pub leaf-child : (p : NodeParams) → p.node_type ≡ NodeType.leaf → child p ≡ ok none
unfolding child child_of
leaf-child p e = ap (λ t. child_of t p) e

-- The child of an intermediate or of the root node.
inner-less :
    (t : NodeType) (d i : ℕ) (q : NodeParams)
    → 1 ≤ rank t
    → inner_child (node t d i) ≡ ok q
    → d < 31
    → round_of t ≡ 0
    → less q (node t d i) ≡ true
unfolding inner_child new less
inner-less t d i q r e small o = elim (Bool-cases (ltb i d)) [
  | inl above ↦ elim (Bool-cases (d == i + 1)) [
    | inl last ↦
        let shape : node NodeType.leaf i i ≡ q = ok-injective (ground (arith, word64-eq (i + 1))) in
        rw (← shape) (ground arith)
    | inr inner ↦
        let shape : node NodeType.intermediate (d - 1) i ≡ q =
          ok-injective (ground (arith, word64-eq (i + 1), sub64-eq d 1)) in
        rw (← shape) (ground arith)
  ]
  | inr below ↦ absurd (ground arith)
]

new-eq : (t : NodeType) (d i : ℕ) (q : NodeParams) → new t d i ≡ ok q → node t d i ≡ q
unfolding new
new-eq t d i q e = let (deep, last) = assert-eq-ok (leb i d) _ e in ok-injective last

node-less :
    (t : NodeType) (d i : ℕ) (q : NodeParams)
    → child (node t d i) ≡ ok (some q)
    → d < 31
    → less q (node t d i) ≡ true
unfolding child child_of evm_child less
node-less NodeType.leaf d i q e small = cc
node-less NodeType.intermediate d i q e small =
    let (c, found, e2) = >>=-eq-ok (inner_child (node NodeType.intermediate d i)) _ e in
    inner-less NodeType.intermediate d i q (omega arith) (found ∙ cc) small refl
node-less NodeType.root d i q e small =
    let (c, found, e2) = >>=-eq-ok (inner_child (node NodeType.root d i)) _ e in
    inner-less NodeType.root d i q (omega arith) (found ∙ cc) small refl
node-less (NodeType.evm zero) d i q e small =
    let (c, found, last) = >>=-eq-ok (evm_child 0 (node (NodeType.evm 0) d i)) _ e in
    let shape : node (if d == i then NodeType.leaf else NodeType.root) d i ≡ q =
      new-eq (if d == i then NodeType.leaf else NodeType.root) d i c found ∙ cc in
    rw (← shape) (ground arith)
node-less (NodeType.evm (suc round)) d i q e small =
    let (c, found, last) =
      >>=-eq-ok (evm_child (suc round) (node (NodeType.evm (suc round)) d i)) _ e in
    let shape : node (NodeType.evm round) d i ≡ q = new-eq (NodeType.evm round) d i c found ∙ cc in
    rw (← shape) (ground arith)

-- A child stands before its parent in the order of the nodes.
pub child-less : (p q : NodeParams) → child p ≡ ok (some q) → p.depth < 31 → less q p ≡ true
child-less p q e small = node-less p.node_type p.depth p.initial_depth q e small
