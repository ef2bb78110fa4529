-- ===== src/Exchanges.antt =====
-- bot/exchanges: the retries around the calls of an exchange.
pub mod Retry
pub mod Attempts
mod Tests
