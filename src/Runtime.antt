-- ===== src/Runtime.antt =====
-- src/runmantle/runtime.py
pub mod Monad
pub mod Lifecycle
pub mod Execute
pub mod Run
pub mod Start
pub mod Progress
pub mod Settled
pub mod Gathered
pub mod Outcome
pub mod Claims
pub mod Whole
pub mod Distrust
