-- ===== src/Risk/Engine/Gates.antt =====
-- The checks of `evaluate`. A check that fails gives a rejection, with the pause that it asks of the
-- kill switch; a check that passes gives none.
use moreney.Prelude.{
  ℕ, Bool, false, not, ◌&&◌, ◌||◌, Option, none, some, List, [], ◌∷◌, leb, if◌then◌else◌, length,
  get_or,
}
use moreney.Prelude.Int.{neg, ◌-ℤ◌, ltb_ℤ, leb_ℤ, max_ℤ, abs_ℤ}
use moreney.Decimal.{Decimal, of_ℕ, zero_d, one_d, hundred, mul, div, is_pos, is_zero}
use moreney.Core.Enums.{RiskRejectReason}
use moreney.Core.Models.{TradeOpportunity, PortfolioSnapshot, peak_equity}
use moreney.Risk.Models.{Reason, RiskContext, RiskSettings, ProfitabilityView}
use moreney.Risk.KillSwitch.{KillSwitch, allows_new_orders}
use moreney.Risk.Limits.{
  PositionLimitResult, max_open_positions, daily_loss_limit, drawdown_fraction,
}

-- The arguments of `_reject` that decide something.
pub record Rejection : Type 0 where
  pub code : RiskRejectReason
  pub allowed_qty : Decimal
  pub maximum_loss : Decimal
  pub risk_score : Decimal
  pub pauses : Option Reason

abbrev pub Gate : Type 0
Gate = Option Rejection

abbrev pub plain : RiskRejectReason → ℕ → Rejection
plain code score = record {
  code = code;
  allowed_qty = zero_d;
  maximum_loss = zero_d;
  risk_score = of_ℕ score;
  pauses = none;
}

abbrev pub reject_if : Bool → Rejection → Gate
reject_if b r = if b then some r else none

-- The first check that fails.
unfoldable pub first_rejection : List Gate → Gate
first_rejection [] = none
first_rejection (some r ∷ gs) = some r
first_rejection (none ∷ gs) = first_rejection gs

-- A comparison with a value that may be missing, which then passes.
abbrev pub exceeds : Option Decimal → Decimal → Bool
exceeds none limit = false
exceeds (some x) limit = ltb_ℤ limit x

abbrev pub falls_below : Option Decimal → Decimal → Bool
falls_below none limit = false
falls_below (some x) limit = ltb_ℤ x limit

unfoldable pub kill_switch_gate : KillSwitch → Gate
kill_switch_gate k = reject_if (not (allows_new_orders k)) (plain RiskRejectReason.kill_switch 100)

unfoldable pub leverage_gate : TradeOpportunity → Gate
leverage_gate o =
    reject_if (exceeds o.metadata.leverage one_d) (plain RiskRejectReason.leverage_forbidden 100)

unfoldable pub profitable_gate : ProfitabilityView → Gate
profitable_gate r =
    reject_if (not (r.trade_allowed || r.is_profitable)) (plain RiskRejectReason.not_profitable 40)

unfoldable pub net_profit_gate : RiskSettings → ProfitabilityView → Gate
net_profit_gate cfg r =
    reject_if (ltb_ℤ r.net_profit_usd cfg.risk_min_net_profit_usd)
      (plain RiskRejectReason.not_profitable 35)

unfoldable pub health_gate : RiskContext → Gate
health_gate ctx = reject_if (not ctx.exchange_healthy) (record {
  code = RiskRejectReason.exchange_unhealthy;
  allowed_qty = zero_d;
  maximum_loss = zero_d;
  risk_score = of_ℕ 90;
  pauses = some Reason.exchange_down;
})

unfoldable pub stale_gate : RiskSettings → RiskContext → Gate
stale_gate cfg ctx = reject_if (exceeds ctx.market_data_age_ms cfg.max_market_data_age_ms) (record {
  code = RiskRejectReason.stale_market_data;
  allowed_qty = zero_d;
  maximum_loss = zero_d;
  risk_score = of_ℕ 85;
  pauses = some (Reason.stale (get_or ctx.market_data_age_ms zero_d));
})

unfoldable pub latency_gate : RiskSettings → RiskContext → Gate
latency_gate cfg ctx =
    reject_if (exceeds ctx.execution_latency_ms cfg.max_execution_latency_ms)
      (plain RiskRejectReason.execution_latency 70)

unfoldable pub slippage_gate : RiskSettings → RiskContext → Gate
slippage_gate cfg ctx =
    reject_if (ltb_ℤ cfg.max_slippage_percent ctx.estimated_slippage_pct)
      (plain RiskRejectReason.excessive_slippage 65)

unfoldable pub liquidity_gate : RiskSettings → RiskContext → Gate
liquidity_gate cfg ctx =
    reject_if (falls_below ctx.liquidity_base cfg.min_liquidity_base)
      (plain RiskRejectReason.insufficient_liquidity 60)

unfoldable pub depth_gate : TradeOpportunity → RiskContext → Gate
depth_gate o ctx = reject_if (falls_below ctx.liquidity_base o.quantity) (record {
  code = RiskRejectReason.insufficient_liquidity;
  allowed_qty = get_or ctx.liquidity_base zero_d;
  maximum_loss = zero_d;
  risk_score = of_ℕ 60;
  pauses = none;
})

-- The size of the move in percent, if both prices are there and not zero.
unfoldable pub price_move : RiskContext → Option Decimal
price_move ctx = elim ctx.reference_price [
  | none ↦ none
  | some ref ↦ elim ctx.current_price [
    | none ↦ none
    | some cur ↦
        if not (is_zero ref) && not (is_zero cur) && is_pos ref
        then some (mul (div (abs_ℤ (cur -ℤ ref)) ref) hundred)
        else none
  ]
]

unfoldable pub price_gate : RiskSettings → RiskContext → Gate
price_gate cfg ctx =
    reject_if (exceeds (price_move ctx) cfg.max_abnormal_price_move_percent)
      (plain RiskRejectReason.abnormal_price_movement 80)

-- `max(-daily_realized_pnl_usd, 0)`
unfoldable pub daily_loss : PortfolioSnapshot → Decimal
daily_loss p = max_ℤ (neg p.daily_realized_pnl_usd) zero_d

unfoldable pub daily_loss_gate : RiskSettings → PortfolioSnapshot → Gate
daily_loss_gate cfg p =
    let limit = daily_loss_limit cfg p.equity_usd in
    reject_if (leb_ℤ limit (daily_loss p) && is_pos limit) (record {
      code = RiskRejectReason.max_daily_loss;
      allowed_qty = zero_d;
      maximum_loss = limit;
      risk_score = of_ℕ 95;
      pauses = some (Reason.daily_loss (daily_loss p) limit);
    })

abbrev pub max_drawdown : RiskSettings → Decimal
max_drawdown cfg = div cfg.max_drawdown_percent hundred

unfoldable pub drawdown_gate : RiskSettings → PortfolioSnapshot → Gate
drawdown_gate cfg p =
    reject_if (leb_ℤ (max_drawdown cfg) (drawdown_fraction p) && is_pos (max_drawdown cfg))
      (record {
        code = RiskRejectReason.max_drawdown;
        allowed_qty = zero_d;
        maximum_loss = mul (peak_equity p) (max_drawdown cfg);
        risk_score = of_ℕ 95;
        pauses = some (Reason.drawdown (drawdown_fraction p) (max_drawdown cfg));
      })

unfoldable pub positions_gate : RiskSettings → PortfolioSnapshot → Gate
positions_gate cfg p =
    reject_if (leb (max_open_positions cfg) p.open_position_count)
      (plain RiskRejectReason.max_simultaneous_positions 55)

unfoldable pub rate_gate : RiskSettings → List Decimal → Gate
rate_gate cfg stamps =
    reject_if (leb cfg.max_trades_per_minute (length stamps))
      (plain RiskRejectReason.max_trades_per_minute 50)

abbrev pub limit_rejection : RiskRejectReason → PositionLimitResult → Decimal → Rejection
limit_rejection code l loss = record {
  code = code;
  allowed_qty = l.allowed_quantity;
  maximum_loss = loss;
  risk_score = of_ℕ 75;
  pauses = none;
}

unfoldable pub size_gate : PositionLimitResult → Gate
size_gate l =
    reject_if l.breaches_size
      (limit_rejection RiskRejectReason.max_position_size l l.allowed_notional)

unfoldable pub percent_gate : PositionLimitResult → Gate
percent_gate l =
    reject_if l.breaches_percent
      (limit_rejection RiskRejectReason.max_position_percent l l.allowed_notional)

unfoldable pub exposure_gate : PositionLimitResult → Gate
exposure_gate l =
    reject_if l.breaches_exposure
      (limit_rejection RiskRejectReason.max_total_exposure l l.remaining_exposure_capacity)
