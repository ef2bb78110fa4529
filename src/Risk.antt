-- ===== src/Risk.antt =====
-- bot/risk: the kill switch, the position limits and the gate before execution.
pub mod Models
pub mod KillSwitch
pub mod Recovery
pub mod Limits
pub mod Engine
pub mod Approval
pub mod Decisions
pub mod Window
mod Tests
