-- ===== src/Strategies.antt =====
-- bot/strategies: the strategy that looks for price differences between exchanges.
pub mod Depth
pub mod Scan
pub mod Arbitrage
pub mod Filling
pub mod Counting
pub mod Admission
pub mod Soundness
mod Tests
