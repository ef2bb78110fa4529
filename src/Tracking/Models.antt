-- ===== src/Tracking/Models.antt =====
-- bot/paper/models.py: the records that the tracker keeps.
use moreney.Prelude.{ℕ, Option}
use moreney.Decimal.{Decimal, zero_d}
use moreney.Core.Enums.{
  OpportunityLifecycleStatus, OrderStatus, RiskDecisionStatus, RiskRejectReason,
}
use moreney.Core.Text.{Str}
use moreney.Core.Models.{OpportunityMetadata}

-- The timestamp counts milliseconds; a text that is still empty is `none`.
pub record TrackedOpportunity : Type 0 where
  pub id : ℕ
  pub timestamp : ℕ
  pub strategy : Str
  pub symbol : Str
  pub buy_exchange : Str
  pub sell_exchange : Str
  pub quantity : Decimal
  pub gross_profit : Decimal
  pub fees : Decimal
  pub slippage : Decimal
  pub execution_buffer : Decimal
  pub expected_net_profit : Decimal
  pub expected_net_return : Decimal
  pub risk_decision : Option RiskDecisionStatus
  pub rejection_reason : Option RiskRejectReason
  pub execution_result : Option OrderStatus
  pub status : OpportunityLifecycleStatus
  pub realized_net_profit : Option Decimal
  pub order_id : Option ℕ
  pub metadata : OpportunityMetadata

pub record StrategyStats : Type 0 where
  pub strategy : Str
  pub opportunities : ℕ
  pub executions : ℕ
  pub trades : ℕ
  pub winning_trades : ℕ
  pub losing_trades : ℕ
  pub net_pnl : Decimal
  pub fees : Decimal
  pub slippage : Decimal
  pub gross_wins : Decimal
  pub gross_losses : Decimal

abbrev pub new_strategy_stats : Str → StrategyStats
new_strategy_stats name = record {
  strategy = name;
  opportunities = 0;
  executions = 0;
  trades = 0;
  winning_trades = 0;
  losing_trades = 0;
  net_pnl = zero_d;
  fees = zero_d;
  slippage = zero_d;
  gross_wins = zero_d;
  gross_losses = zero_d;
}

pub record ExchangePairStats : Type 0 where
  pub buy_exchange : Str
  pub sell_exchange : Str
  pub opportunities : ℕ
  pub approved : ℕ
  pub executed : ℕ
  pub trades : ℕ
  pub winning_trades : ℕ
  pub net_pnl : Decimal
  pub fees : Decimal
  pub slippage : Decimal
  pub execution_failures : ℕ

abbrev pub new_pair_stats : Str → Str → ExchangePairStats
new_pair_stats buy sell = record {
  buy_exchange = buy;
  sell_exchange = sell;
  opportunities = 0;
  approved = 0;
  executed = 0;
  trades = 0;
  winning_trades = 0;
  net_pnl = zero_d;
  fees = zero_d;
  slippage = zero_d;
  execution_failures = 0;
}

pub record HourlyStats : Type 0 where
  pub hour : ℕ
  pub opportunities : ℕ
  pub trades : ℕ
  pub winning_trades : ℕ
  pub net_pnl : Decimal

abbrev pub new_hourly_stats : ℕ → HourlyStats
new_hourly_stats hour = record {
  hour = hour;
  opportunities = 0;
  trades = 0;
  winning_trades = 0;
  net_pnl = zero_d;
}

-- The date is the number of its day.
pub record DailyStats : Type 0 where
  pub date : ℕ
  pub starting_equity : Decimal
  pub ending_equity : Decimal
  pub gross_pnl : Decimal
  pub fees : Decimal
  pub slippage : Decimal
  pub net_pnl : Decimal
  pub return_pct : Decimal
  pub trades : ℕ
  pub wins : ℕ
  pub losses : ℕ
  pub maximum_drawdown : Decimal

-- `DailyStats(date=..., starting_equity=..., ending_equity=...)`
abbrev pub new_daily_stats : ℕ → Decimal → Decimal → DailyStats
new_daily_stats date start end = record {
  date = date;
  starting_equity = start;
  ending_equity = end;
  gross_pnl = zero_d;
  fees = zero_d;
  slippage = zero_d;
  net_pnl = zero_d;
  return_pct = zero_d;
  trades = 0;
  wins = 0;
  losses = 0;
  maximum_drawdown = zero_d;
}

-- `PerformanceSnapshot`
pub record PerformanceSnapshot : Type 0 where
  pub starting_equity : Decimal
  pub current_equity : Decimal
  pub realized_pnl : Decimal
  pub unrealized_pnl : Decimal
  pub gross_pnl : Decimal
  pub fees : Decimal
  pub slippage : Decimal
  pub net_pnl : Decimal
  pub return_pct : Decimal
  pub trade_count : ℕ
  pub winning_trades : ℕ
  pub losing_trades : ℕ
  pub win_rate : Decimal
  pub average_win : Decimal
  pub average_loss : Decimal
  pub largest_win : Decimal
  pub largest_loss : Decimal
  pub profit_factor : Option Decimal
  pub current_drawdown : Decimal
  pub maximum_drawdown : Decimal
  pub trading_volume : Decimal
  pub total_opportunities : ℕ
  pub approved_opportunities : ℕ
  pub rejected_opportunities : ℕ
  pub executed_opportunities : ℕ
  pub execution_failures : ℕ
  pub pairs_evaluated : ℕ
  pub depth_edges_found : ℕ
  pub scan_rejections : ℕ
