-- ===== src/Execution/Executor/State.antt =====
-- The executor's settings and state, its requests and its results.
use moreney.Prelude.{ℕ, Bool, Option, List}
use moreney.Decimal.{Decimal}
use moreney.Core.Enums.{OpportunitySide, OrderSide, OrderStatus}
use moreney.Core.Text.{Str}
use moreney.Portfolio.Paper.{PaperPortfolio}
use moreney.Execution.Orders.{Orders}
use moreney.Execution.Tracker.{Tracker}

pub data SlippageMode : Type 0 where
  fixed order_book : SlippageMode

-- What `__init__` takes from the settings; `quote` is upper case.
pub record ExecutorSettings : Type 0 where
  pub fee_rate : Decimal
  pub slippage_mode : SlippageMode
  pub fixed_slippage_pct : Decimal
  pub partial_ok : Bool
  pub reject_thin : Bool
  pub quote : Str

pub record OrderRequest : Type 0 where
  pub id : ℕ
  pub opportunity_id : ℕ
  pub symbol : Str
  pub side : OpportunitySide
  pub quantity : Decimal
  pub limit_price : Option Decimal

pub data ExecutionReject : Type 0 where
  insufficient_balance insufficient_liquidity : ExecutionReject

pub record ExecutionResult : Type 0 where
  pub order_id : ℕ
  pub opportunity_id : ℕ
  pub status : OrderStatus
  pub filled_quantity : Decimal
  pub average_price : Option Decimal
  pub fees_usd : Decimal
  pub rejection_reason : Option ExecutionReject

pub record Executor : Type 0 where
  pub portfolio : PaperPortfolio
  pub orders : Orders
  pub tracker : Tracker
  pub history : List ExecutionResult

-- A call returns a result or raises; the state is what it was left as.
pub data Outcome : Type 0 where
  returned : ExecutionResult → Outcome
  raised : Outcome

-- `_to_order_side`
abbrev pub to_order_side : OpportunitySide → OrderSide
to_order_side OpportunitySide.sell = OrderSide.sell
to_order_side OpportunitySide.short = OrderSide.sell
to_order_side OpportunitySide.buy = OrderSide.buy
to_order_side OpportunitySide.long = OrderSide.buy
