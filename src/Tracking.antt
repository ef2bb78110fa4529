-- ===== src/Tracking.antt =====
-- bot/paper/tracker.py and bot/paper/models.py: what the paper bots count.
pub mod Models
pub mod Tracker
pub mod Trades
pub mod Sync
pub mod Tally
pub mod Counts
pub mod Reach
pub mod Report
mod Tests
