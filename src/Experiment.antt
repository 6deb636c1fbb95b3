-- ===== src/Experiment.antt =====
-- experiments/sqpoll_core_budget.cpp: rings of several threads, each with a workload of its own.
pub mod Protocol
pub mod Workload
pub mod Percentiles
pub mod Worker
pub mod Rings
pub mod Program
pub mod Causes
pub mod Outcome
pub mod Balanced
pub mod Pinned
mod Tests
