-- ===== src/Core/Models.antt =====
-- bot/core/exchange_types.py and bot/core/models.py: what the layers hand to one another.
use moreney.Prelude.{ℕ, Bool, Option, none, some, List, [], ◌∷◌, if◌then◌else◌}
use moreney.Prelude.Int.{◌+ℤ◌, abs_ℤ}
use moreney.Decimal.{Decimal, zero_d, mul, is_pos}
use moreney.Core.Enums.{OpportunitySide, FeeRole}
use moreney.Core.Text.{Str}

pub record OrderBookLevel : Type 0 where
  pub price : Decimal
  pub amount : Decimal

pub record OrderBook : Type 0 where
  pub symbol : Str
  pub bids : List OrderBookLevel
  pub asks : List OrderBookLevel
  pub timestamp : ℕ
  pub nonce : Option ℕ

-- Times are numbers of a clock that only runs forward.
pub record MarketSnapshot : Type 0 where
  pub symbol : Str
  pub bid : Decimal
  pub ask : Decimal
  pub last : Decimal
  pub funding_rate : Option Decimal
  pub order_book : Option OrderBook
  pub exchange : Option Str
  pub latency_ms : Option Decimal
  pub timestamp : ℕ

-- The keys of `metadata` that the program reads; a key that is missing is `none`.
pub record OpportunityMetadata : Type 0 where
  pub leverage : Option Decimal
  pub estimated_slippage_pct : Option Decimal
  pub exchange_healthy : Option Bool
  pub execution_latency_ms : Option Decimal
  pub market_data_age_ms : Option Decimal
  pub buy_exchange : Option Str
  pub sell_exchange : Option Str
  pub buy_vwap : Option Decimal
  pub sell_vwap : Option Decimal
  pub net_profit_eur : Option Decimal
  pub net_return : Option Decimal
  pub gross_profit_eur : Option Decimal

abbrev pub no_metadata : OpportunityMetadata
no_metadata = record {
  leverage = none;
  estimated_slippage_pct = none;
  exchange_healthy = none;
  execution_latency_ms = none;
  market_data_age_ms = none;
  buy_exchange = none;
  sell_exchange = none;
  buy_vwap = none;
  sell_vwap = none;
  net_profit_eur = none;
  net_return = none;
  gross_profit_eur = none;
}

pub record TradeOpportunity : Type 0 where
  pub id : ℕ
  pub strategy_name : Str
  pub symbol : Str
  pub side : OpportunitySide
  pub quantity : Decimal
  pub entry_price : Decimal
  pub expected_exit_price : Option Decimal
  pub market : Option MarketSnapshot
  pub entry_fee_role : FeeRole
  pub exit_fee_role : FeeRole
  pub funding_periods : Decimal
  pub metadata : OpportunityMetadata

pub record Position : Type 0 where
  pub symbol : Str
  pub quantity : Decimal
  pub average_entry_price : Decimal
  pub unrealized_pnl_usd : Decimal
  pub side : OpportunitySide

pub record Balance : Type 0 where
  pub asset : Str
  pub free : Decimal
  pub locked : Decimal

pub record PortfolioSnapshot : Type 0 where
  pub balances : List Balance
  pub positions : List Position
  pub equity_usd : Decimal
  pub peak_equity_usd : Option Decimal
  pub daily_realized_pnl_usd : Decimal
  pub open_position_count : ℕ

-- `peak_equity`: falls back to the current equity when it is unset.
unfoldable pub peak_equity : PortfolioSnapshot → Decimal
peak_equity p =
    let fallback = if is_pos p.equity_usd then p.equity_usd else zero_d in
    elim p.peak_equity_usd [ none ↦ fallback | some peak ↦ if is_pos peak then peak else fallback ]

-- The loop of `gross_exposure_usd`.
unfoldable pub exposure_from : Decimal → List Position → Decimal
exposure_from total [] = total
exposure_from total (p ∷ ps) =
    exposure_from (total +ℤ abs_ℤ (mul p.quantity p.average_entry_price)) ps

unfoldable pub gross_exposure_usd : PortfolioSnapshot → Decimal
unfolding exposure_from
gross_exposure_usd p = exposure_from zero_d p.positions
