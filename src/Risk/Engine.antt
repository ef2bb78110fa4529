-- ===== src/Risk/Engine.antt =====
-- bot/risk/risk_engine.py: `RiskEngine.evaluate`, as the sequence of its checks.
mod Gates
mod Evaluate
unfoldable pub use Gates.*
unfoldable pub use Evaluate.*
