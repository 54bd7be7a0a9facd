-- ===== src/Tests.antt =====
-- Runs of the definitions at concrete inputs, and the theorems applied there.
pub mod Chips
mod Circuits
mod Trees
mod Scheduler
mod Keys
mod Runs
mod Executor
mod Prover
mod Contract
mod Native
pub mod System
mod SystemRuns
