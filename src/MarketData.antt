-- ===== src/MarketData.antt =====
-- bot/market_data: the order book that is kept in step with an exchange.
pub mod LocalBook
pub mod Liquidity
pub mod Invariant
pub mod Serving
pub mod Gaps
pub mod Views
pub mod Service
pub mod Reading
pub mod Kept
pub mod Snapshots
pub mod Feed
mod FeedTests
mod Tests
