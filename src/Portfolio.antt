-- ===== src/Portfolio.antt =====
-- bot/portfolio: fill-driven balances, positions and statistics of the paper account.
pub mod Models
pub mod Accounting
pub mod Paper
pub mod Persistence
pub mod Balances
pub mod Reservations
pub mod Conservation
pub mod Fills
pub mod Settlement
pub mod Statistics
pub mod Reloading
mod Tests
mod StoreTests
