-- ===== src/Core/Enums.antt =====
-- bot/core/enums.py
use moreney.Prelude.{Bool, true, false}

pub data OpportunitySide : Type 0 where
  buy sell long short : OpportunitySide

pub data OrderStatus : Type 0 where
  pending open_order submitted partially_filled filled cancelled rejected failed simulated :
      OrderStatus

pub data OrderType : Type 0 where
  market limit : OrderType

pub data OrderSide : Type 0 where
  buy sell : OrderSide

pub data RiskDecisionStatus : Type 0 where
  approved rejected : RiskDecisionStatus

pub data FeeRole : Type 0 where
  maker taker : FeeRole

pub data KillSwitchState : Type 0 where
  running warning paused emergency_stop : KillSwitchState

pub data OpportunityLifecycleStatus : Type 0 where
  detected rejected approved executed filled profitable unprofitable : OpportunityLifecycleStatus

pub data RiskRejectReason : Type 0 where
  kill_switch max_position_size max_position_percent max_total_exposure max_daily_loss max_drawdown
        max_simultaneous_positions max_trades_per_minute exchange_unhealthy insufficient_liquidity
        excessive_slippage execution_latency stale_market_data abnormal_price_movement
        not_profitable leverage_forbidden unprofitable_modification_forbidden :
      RiskRejectReason

-- Membership of `{OpportunitySide.BUY, OpportunitySide.LONG}`.
abbrev pub enters_buying : OpportunitySide → Bool
enters_buying OpportunitySide.buy = true
enters_buying OpportunitySide.long = true
enters_buying OpportunitySide.sell = false
enters_buying OpportunitySide.short = false
