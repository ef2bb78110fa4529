-- ===== src/Execution.antt =====
-- bot/execution: the order registry, the fill tracker and the simulated executor.
pub mod Orders
pub mod Tracker
pub mod Executor
pub mod Walk
pub mod Rejection
pub mod Bounds
pub mod Accounting
pub mod Cancelling
mod Tests
