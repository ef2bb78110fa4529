-- ===== src/Risk/Approval.antt =====
-- What `evaluate` approves: the gate against an independent list of conditions.
use moreney.Prelude.{
  ◌<◌, ◌≡◌, ◌↔◌, ◌⊎◌, refl, true, ◌||◌, Option, none, some, List, [], ◌∷◌, arith, All, length,
}
use moreney.Prelude.Int.{◌≤ℤ◌, ◌<ℤ◌}
use moreney.Decimal.{Decimal, zero_d, one_d}
use moreney.Core.Enums.{KillSwitchState}
use moreney.Core.Models.{TradeOpportunity, PortfolioSnapshot}
use moreney.Risk.Models.{RiskContext, RiskSettings, ProfitabilityView}
use moreney.Risk.KillSwitch.{KillSwitch, allows_new_orders}
use moreney.Risk.Limits.{
  evaluate_limits, trade_notional, max_notional_by_percent, remaining_capacity, daily_loss_limit,
  drawdown_fraction, max_open_positions,
}
use moreney.Risk.Engine.{
  Gate, first_rejection, kill_switch_gate, leverage_gate, profitable_gate, net_profit_gate,
  health_gate, stale_gate, latency_gate, slippage_gate, liquidity_gate, depth_gate, price_gate,
  price_move, daily_loss, daily_loss_gate, max_drawdown, drawdown_gate, positions_gate, rate_gate,
  size_gate, percent_gate, exposure_gate, first_checks, last_checks,
}

abbrev pub AtMost : Option Decimal → Decimal → Type 0
AtMost none limit = Unit
AtMost (some x) limit = x ≤ℤ limit

abbrev pub AtLeast : Option Decimal → Decimal → Type 0
AtLeast none limit = Unit
AtLeast (some x) limit = limit ≤ℤ x

-- The market, the account and the trade are fit for a new order.
pub record IsFit (cfg : RiskSettings) (o : TradeOpportunity) (r : ProfitabilityView)
    (p : PortfolioSnapshot) (ctx : RiskContext) (state : KillSwitchState) : Type 0 where
  pub running : (state ≡ KillSwitchState.running) ⊎ (state ≡ KillSwitchState.warning)
  pub unlevered : AtMost o.metadata.leverage one_d
  pub profitable : (r.trade_allowed || r.is_profitable) ≡ true
  pub earns : cfg.risk_min_net_profit_usd ≤ℤ r.net_profit_usd
  pub healthy : ctx.exchange_healthy ≡ true
  pub recent : AtMost ctx.market_data_age_ms cfg.max_market_data_age_ms
  pub quick : AtMost ctx.execution_latency_ms cfg.max_execution_latency_ms
  pub smooth : ctx.estimated_slippage_pct ≤ℤ cfg.max_slippage_percent
  pub liquid : AtLeast ctx.liquidity_base cfg.min_liquidity_base
  pub deep : AtLeast ctx.liquidity_base o.quantity
  pub steady : AtMost (price_move ctx) cfg.max_abnormal_price_move_percent
  pub solvent :
      zero_d <ℤ daily_loss_limit cfg p.equity_usd
      → daily_loss p <ℤ daily_loss_limit cfg p.equity_usd
  pub afloat : zero_d <ℤ max_drawdown cfg → drawdown_fraction p <ℤ max_drawdown cfg
  pub few : p.open_position_count < max_open_positions cfg

-- The trade is within the rate, size and exposure limits.
pub record IsWithin (cfg : RiskSettings) (o : TradeOpportunity) (p : PortfolioSnapshot)
    (stamps : List Decimal) : Type 0 where
  pub slow : length stamps < cfg.max_trades_per_minute
  pub small : trade_notional o ≤ℤ cfg.risk_max_position_usd
  pub share :
      zero_d <ℤ max_notional_by_percent cfg p.equity_usd
      → trade_notional o ≤ℤ max_notional_by_percent cfg p.equity_usd
  pub exposed : trade_notional o ≤ℤ remaining_capacity cfg p

-- No check fails exactly if none of them does.
first_rejection-none : (gs : List Gate) → (first_rejection gs ≡ none) ↔ All (λ g. g ≡ none) gs
unfolding first_rejection
first_rejection-none [] = (λ _. tt, λ _. refl)
first_rejection-none (none ∷ gs) =
    (λ h. (refl, (first_rejection-none gs).0 h), λ (h, hs). (first_rejection-none gs).1 hs)
first_rejection-none (some x ∷ gs) = (λ h. cc, λ (h, hs). cc)

kill_switch_gate_iff :
    (k : KillSwitch)
    → (kill_switch_gate k ≡ none)
      ↔ ((k.state ≡ KillSwitchState.running) ⊎ (k.state ≡ KillSwitchState.warning))
unfolding kill_switch_gate allows_new_orders
kill_switch_gate_iff k = ground arith

leverage_gate_iff :
    (o : TradeOpportunity) → (leverage_gate o ≡ none) ↔ (AtMost o.metadata.leverage one_d)
unfolding leverage_gate
leverage_gate_iff o = ground arith

profitable_gate_iff :
    (r : ProfitabilityView)
    → (profitable_gate r ≡ none) ↔ ((r.trade_allowed || r.is_profitable) ≡ true)
unfolding profitable_gate
profitable_gate_iff r = ground arith

net_profit_gate_iff :
    (cfg : RiskSettings) (r : ProfitabilityView)
    → (net_profit_gate cfg r ≡ none) ↔ (cfg.risk_min_net_profit_usd ≤ℤ r.net_profit_usd)
unfolding net_profit_gate
net_profit_gate_iff cfg r = ground arith

health_gate_iff : (ctx : RiskContext) → (health_gate ctx ≡ none) ↔ (ctx.exchange_healthy ≡ true)
unfolding health_gate
health_gate_iff ctx = ground arith

stale_gate_iff :
    (cfg : RiskSettings) (ctx : RiskContext)
    → (stale_gate cfg ctx ≡ none) ↔ (AtMost ctx.market_data_age_ms cfg.max_market_data_age_ms)
unfolding stale_gate
stale_gate_iff cfg ctx = ground arith

latency_gate_iff :
    (cfg : RiskSettings) (ctx : RiskContext)
    → (latency_gate cfg ctx ≡ none) ↔ (AtMost ctx.execution_latency_ms cfg.max_execution_latency_ms)
unfolding latency_gate
latency_gate_iff cfg ctx = ground arith

slippage_gate_iff :
    (cfg : RiskSettings) (ctx : RiskContext)
    → (slippage_gate cfg ctx ≡ none) ↔ (ctx.estimated_slippage_pct ≤ℤ cfg.max_slippage_percent)
unfolding slippage_gate
slippage_gate_iff cfg ctx = ground arith

liquidity_gate_iff :
    (cfg : RiskSettings) (ctx : RiskContext)
    → (liquidity_gate cfg ctx ≡ none) ↔ (AtLeast ctx.liquidity_base cfg.min_liquidity_base)
unfolding liquidity_gate
liquidity_gate_iff cfg ctx = ground arith

depth_gate_iff :
    (o : TradeOpportunity) (ctx : RiskContext)
    → (depth_gate o ctx ≡ none) ↔ (AtLeast ctx.liquidity_base o.quantity)
unfolding depth_gate
depth_gate_iff o ctx = ground arith

price_gate_iff :
    (cfg : RiskSettings) (ctx : RiskContext)
    → (price_gate cfg ctx ≡ none) ↔ (AtMost (price_move ctx) cfg.max_abnormal_price_move_percent)
unfolding price_gate
price_gate_iff cfg ctx = ground arith

daily_loss_gate_iff :
    (cfg : RiskSettings) (p : PortfolioSnapshot)
    → (daily_loss_gate cfg p ≡ none) ↔ (
        (zero_d <ℤ daily_loss_limit cfg p.equity_usd
          → daily_loss p <ℤ daily_loss_limit cfg p.equity_usd))
unfolding daily_loss_gate
daily_loss_gate_iff cfg p = ground arith

drawdown_gate_iff :
    (cfg : RiskSettings) (p : PortfolioSnapshot)
    → (drawdown_gate cfg p ≡ none)
      ↔ ((zero_d <ℤ max_drawdown cfg → drawdown_fraction p <ℤ max_drawdown cfg))
unfolding drawdown_gate
drawdown_gate_iff cfg p = ground arith

positions_gate_iff :
    (cfg : RiskSettings) (p : PortfolioSnapshot)
    → (positions_gate cfg p ≡ none) ↔ (p.open_position_count < max_open_positions cfg)
unfolding positions_gate
positions_gate_iff cfg p = ground arith

rate_gate_iff :
    (cfg : RiskSettings) (stamps : List Decimal)
    → (rate_gate cfg stamps ≡ none) ↔ (length stamps < cfg.max_trades_per_minute)
unfolding rate_gate
rate_gate_iff cfg stamps = ground arith

module _ (cfg : RiskSettings) (o : TradeOpportunity) (p : PortfolioSnapshot) where
  size_gate_iff :
      (size_gate (evaluate_limits cfg o p) ≡ none) ↔ (trade_notional o ≤ℤ cfg.risk_max_position_usd)
  unfolding size_gate evaluate_limits
  size_gate_iff = ground arith

  percent_gate_iff : (percent_gate (evaluate_limits cfg o p) ≡ none) ↔ (
      zero_d <ℤ max_notional_by_percent cfg p.equity_usd
      → trade_notional o ≤ℤ max_notional_by_percent cfg p.equity_usd)
  unfolding percent_gate evaluate_limits
  percent_gate_iff = ground arith

  exposure_gate_iff :
      (exposure_gate (evaluate_limits cfg o p) ≡ none)
      ↔ (trade_notional o ≤ℤ remaining_capacity cfg p)
  unfolding exposure_gate evaluate_limits
  exposure_gate_iff = ground arith

  pub last_checks_pass :
      (stamps : List Decimal)
      → (last_checks cfg (evaluate_limits cfg o p) stamps ≡ none) ↔ IsWithin cfg o p stamps
  unfolding last_checks
  last_checks_pass stamps = (
    λ h.
        let (a, (b, (c, (d, _)))) = (first_rejection-none _).0 h in
        record {
          slow = (rate_gate_iff cfg stamps).0 a;
          small = size_gate_iff.0 b;
          share = percent_gate_iff.0 c;
          exposed = exposure_gate_iff.0 d;
        },
    λ v. (first_rejection-none _).1 (
      (rate_gate_iff cfg stamps).1 v.slow,
      (size_gate_iff.1 v.small, (percent_gate_iff.1 v.share, (exposure_gate_iff.1 v.exposed, tt))),
    ),
  )

module _ (cfg : RiskSettings) (o : TradeOpportunity) (r : ProfitabilityView) (p : PortfolioSnapshot)
    (ctx : RiskContext) (k : KillSwitch) where
  pub first_checks_pass : (first_checks cfg o r p ctx k ≡ none) ↔ IsFit cfg o r p ctx k.state
  unfolding first_checks
  first_checks_pass = (
    λ h.
        let g = (first_rejection-none _).0 h in
        record {
          running = (kill_switch_gate_iff k).0 g.0;
          unlevered = (leverage_gate_iff o).0 g.1.0;
          profitable = (profitable_gate_iff r).0 g.1.1.0;
          earns = (net_profit_gate_iff cfg r).0 g.1.1.1.0;
          healthy = (health_gate_iff ctx).0 g.1.1.1.1.0;
          recent = (stale_gate_iff cfg ctx).0 g.1.1.1.1.1.0;
          quick = (latency_gate_iff cfg ctx).0 g.1.1.1.1.1.1.0;
          smooth = (slippage_gate_iff cfg ctx).0 g.1.1.1.1.1.1.1.0;
          liquid = (liquidity_gate_iff cfg ctx).0 g.1.1.1.1.1.1.1.1.0;
          deep = (depth_gate_iff o ctx).0 g.1.1.1.1.1.1.1.1.1.0;
          steady = (price_gate_iff cfg ctx).0 g.1.1.1.1.1.1.1.1.1.1.0;
          solvent = (daily_loss_gate_iff cfg p).0 g.1.1.1.1.1.1.1.1.1.1.1.0;
          afloat = (drawdown_gate_iff cfg p).0 g.1.1.1.1.1.1.1.1.1.1.1.1.0;
          few = (positions_gate_iff cfg p).0 g.1.1.1.1.1.1.1.1.1.1.1.1.1.0;
        },
    λ v. (first_rejection-none _).1 (
      (kill_switch_gate_iff k).1 v.running,
      (
        (leverage_gate_iff o).1 v.unlevered,
        (
          (profitable_gate_iff r).1 v.profitable,
          (
            (net_profit_gate_iff cfg r).1 v.earns,
            (
              (health_gate_iff ctx).1 v.healthy,
              (
                (stale_gate_iff cfg ctx).1 v.recent,
                (
                  (latency_gate_iff cfg ctx).1 v.quick,
                  (
                    (slippage_gate_iff cfg ctx).1 v.smooth,
                    (
                      (liquidity_gate_iff cfg ctx).1 v.liquid,
                      (
                        (depth_gate_iff o ctx).1 v.deep,
                        (
                          (price_gate_iff cfg ctx).1 v.steady,
                          (
                            (daily_loss_gate_iff cfg p).1 v.solvent,
                            (
                              (drawdown_gate_iff cfg p).1 v.afloat,
                              ((positions_gate_iff cfg p).1 v.few, tt),
                            ),
                          ),
                        ),
                      ),
                    ),
                  ),
                ),
              ),
            ),
          ),
        ),
      ),
    ),
  )
