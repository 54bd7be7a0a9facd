-- ===== src/Circuits.antt =====
-- circuit/src/circuits and circuit/src/utils.rs: the leaf, intermediate and root circuits of the
-- aggregation tree.
pub mod Shared
pub mod Utils
pub mod Claims
pub mod Merkle
pub mod Snarks
pub mod V1
pub mod V2
