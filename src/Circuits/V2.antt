-- ===== src/Circuits/V2.antt =====
-- circuit/src/circuits/v2: the circuits whose claims are hashed into a Merkle tree.
pub mod Leaf
pub mod Intermediate
pub mod Padding
pub mod Roots
pub mod ClaimTrees
pub mod Tree
pub mod Root
