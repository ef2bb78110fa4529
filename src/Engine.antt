-- ===== src/Engine.antt =====
-- bot/engine/orchestrator.py: the pipeline from the market data to the executor.
pub mod Market
pub mod Cycle
pub mod Outcomes
pub mod Gate
pub mod Blocked
pub mod Approved
mod Tests
