-- ===== src/Profitability.antt =====
-- bot/profitability: fees, slippage and the net profit that decides whether a trade is allowed.
pub mod Fees
pub mod Slippage
pub mod NetProfit
pub mod Costs
pub mod Verdict
mod Tests
