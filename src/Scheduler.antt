-- ===== src/Scheduler.antt =====
-- circuit/src/scheduler and circuit/src/keygen/node_params.rs: how a request is broken down into the
-- proofs of the aggregation tree.
pub mod NodeParams
pub mod Request
pub mod Local
pub mod Async
pub mod Startup
pub mod Fulfil
pub mod Contract
pub mod Executor
pub mod Factory
pub mod Server
