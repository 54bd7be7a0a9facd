-- ===== src/Circuits/V1.antt =====
-- circuit/src/circuits/v1: the circuits whose output hashes every claim.
pub mod Leaf
pub mod Intermediate
pub mod Batch
pub mod Tree
pub mod Root
