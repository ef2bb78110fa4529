-- ===== src/Risk/Engine/Evaluate.antt =====
-- `evaluate`: the checks in order, the soft warnings and the decision.
use moreney.Prelude.{
  ℕ, ◌+◌, ◌-◌, ◌/◌, Bool, true, not, ◌&&◌, none, some, List, [], ◌∷◌, ◌++◌, ltb, if◌then◌else◌,
  get_or,
}
use moreney.Prelude.Int.{ℤ, pos, negsuc, neg, ◌+ℤ◌, ◌-ℤ◌, ltb_ℤ, leb_ℤ, min_ℤ}
use moreney.Decimal.{Decimal, unit, of_ℕ, zero_d, hundred, mul, div, is_pos}
use moreney.Core.Enums.{RiskRejectReason, RiskDecisionStatus}
use moreney.Core.Models.{OrderBookLevel, MarketSnapshot, TradeOpportunity, PortfolioSnapshot}
use moreney.Risk.Models.{
  Reason, RiskContext, RiskSettings, ProfitabilityView, Conditions, RiskDecision,
}
use moreney.Risk.KillSwitch.{KillSwitch, pause, warn, update_conditions}
use moreney.Risk.Limits.{PositionLimitResult, evaluate_limits, daily_loss_limit, drawdown_fraction}
use moreney.Risk.Engine.Gates.{
  Rejection, Gate, first_rejection, exceeds, kill_switch_gate, leverage_gate, profitable_gate,
  net_profit_gate, health_gate, stale_gate, latency_gate, slippage_gate, liquidity_gate, depth_gate,
  price_gate, daily_loss, daily_loss_gate, max_drawdown, drawdown_gate, positions_gate, rate_gate,
  size_gate, percent_gate, exposure_gate,
}

-- The kill switch and the times of the approved trades, oldest first.
pub record RiskEngine : Type 0 where
  pub kill_switch : KillSwitch
  pub trade_timestamps : List Decimal

-- The two clocks that a call reads: the wall clock and the monotonic one, in seconds.
pub record Now : Type 0 where
  pub wall : ℕ
  pub monotonic : Decimal

-- `_maybe_activate_kill_switch` only writes down the recovery conditions.
unfoldable pub current_conditions :
    RiskSettings → PortfolioSnapshot → RiskContext → KillSwitch → Conditions
current_conditions cfg p ctx k =
    let limit = daily_loss_limit cfg p.equity_usd in
    record {
      daily_loss_ok = if is_pos limit then ltb_ℤ (daily_loss p) limit else true;
      drawdown_ok = ltb_ℤ (drawdown_fraction p) (max_drawdown cfg);
      market_data_fresh = not (exceeds ctx.market_data_age_ms cfg.max_market_data_age_ms);
      exchange_healthy = ctx.exchange_healthy;
      execution_stable = ltb k.consecutive_failures cfg.risk_consecutive_failure_limit;
    }

-- `_prune_trade_window`
unfoldable pub prune_from : Decimal → List Decimal → List Decimal
prune_from cutoff [] = []
prune_from cutoff (t ∷ ts) = if ltb_ℤ t cutoff then prune_from cutoff ts else t ∷ ts

unfoldable pub prune : Now → List Decimal → List Decimal
prune now ts = prune_from (now.monotonic -ℤ of_ℕ 60) ts

-- The checks before the trade window is read.
unfoldable pub first_checks :
    RiskSettings
    → TradeOpportunity
    → ProfitabilityView
    → PortfolioSnapshot
    → RiskContext
    → KillSwitch
    → Gate
first_checks cfg o r p ctx k = first_rejection (
    kill_switch_gate k
    ∷ leverage_gate o
    ∷ profitable_gate r
    ∷ net_profit_gate cfg r
    ∷ health_gate ctx
    ∷ stale_gate cfg ctx
    ∷ latency_gate cfg ctx
    ∷ slippage_gate cfg ctx
    ∷ liquidity_gate cfg ctx
    ∷ depth_gate o ctx
    ∷ price_gate cfg ctx
    ∷ daily_loss_gate cfg p
    ∷ drawdown_gate cfg p
    ∷ positions_gate cfg p
    ∷ [])

unfoldable pub last_checks : RiskSettings → PositionLimitResult → List Decimal → Gate
last_checks cfg l stamps =
    first_rejection (rate_gate cfg stamps ∷ size_gate l ∷ percent_gate l ∷ exposure_gate l ∷ [])

-- `_reject`
unfoldable pub rejected : TradeOpportunity → Rejection → RiskDecision
rejected o x = record {
  opportunity_id = o.id;
  status = RiskDecisionStatus.rejected;
  max_allowed_quantity = if is_pos x.allowed_qty then some x.allowed_qty else none;
  rejection_reason = some x.code;
  risk_score = x.risk_score;
  position_size_allowed = if is_pos x.allowed_qty then x.allowed_qty else zero_d;
  maximum_loss = x.maximum_loss;
  warnings = [];
}

-- The pause that comes with some rejections.
unfoldable pub pause_for : ℕ → Rejection → KillSwitch → KillSwitch
pause_for now x k = elim x.pauses [ none ↦ k | some why ↦ pause now why (some x.code) k ]

-- `int(slippage * 10)`, which drops the fraction
unfoldable pub whole_tenths : Decimal → ℤ
whole_tenths s = elim (mul s (of_ℕ 10)) [
  | pos n ↦ pos (n / unit)
  | negsuc n ↦ neg (pos ((n + 1) / unit))
]

-- `Decimal(n)`
unfoldable pub of_ℤ : ℤ → Decimal
of_ℤ (pos n) = of_ℕ n
of_ℤ (negsuc n) = neg (of_ℕ (n + 1))

-- The soft warnings: they raise the score and may put the switch on WARNING.
pub record Warned : Type 0 where
  pub kill_switch : KillSwitch
  pub warnings : List Reason
  pub score : Decimal

unfoldable pub add_warning : ℕ → Bool → Reason → RiskRejectReason → Warned → Warned
add_warning now raise why code w =
    if raise
    then record {
      kill_switch = warn now why (some code) w.kill_switch;
      warnings = w.warnings ++ (why ∷ []);
      score = w.score +ℤ of_ℕ 15;
    }
    else w

unfoldable pub warn_soft : RiskSettings → ℕ → PortfolioSnapshot → KillSwitch → Warned
warn_soft cfg now p k =
    let loss_pct = mul (div (daily_loss p) p.equity_usd) hundred in
    let drawdown = drawdown_fraction p in
    let quiet : Warned = record { kill_switch = k; warnings = []; score = zero_d } in
    add_warning now (leb_ℤ (div cfg.risk_warning_drawdown_percent hundred) drawdown)
      (Reason.drawdown_warning (mul drawdown hundred)) RiskRejectReason.max_drawdown
      (add_warning now (is_pos p.equity_usd && leb_ℤ cfg.risk_warning_daily_loss_percent loss_pct)
        (Reason.daily_loss_warning loss_pct) RiskRejectReason.max_daily_loss quiet)

unfoldable pub approved :
    RiskSettings
    → TradeOpportunity
    → PortfolioSnapshot
    → RiskContext
    → PositionLimitResult
    → Warned
    → RiskDecision
approved cfg o p ctx l w = record {
  opportunity_id = o.id;
  status = RiskDecisionStatus.approved;
  max_allowed_quantity = some l.allowed_quantity;
  rejection_reason = none;
  risk_score = w.score +ℤ of_ℤ (min_ℤ (pos 40) (whole_tenths ctx.estimated_slippage_pct));
  position_size_allowed = l.allowed_quantity;
  maximum_loss = min_ℤ l.allowed_notional (daily_loss_limit cfg p.equity_usd);
  warnings = w.warnings;
}

-- `evaluate`, in a given context
unfoldable pub evaluate :
    RiskSettings
    → Now
    → TradeOpportunity
    → ProfitabilityView
    → PortfolioSnapshot
    → RiskContext
    → RiskEngine
    → RiskEngine × RiskDecision
evaluate cfg now o r p ctx e =
    let k = update_conditions (current_conditions cfg p ctx e.kill_switch) e.kill_switch in
    let stamps = prune now e.trade_timestamps in
    let l = evaluate_limits cfg o p in
    let w = warn_soft cfg now.wall p k in
    elim (first_checks cfg o r p ctx k) [
      | some x ↦ (record e { kill_switch = pause_for now.wall x k }, rejected o x)
      | none ↦ elim (last_checks cfg l stamps) [
        | some x ↦ (record { kill_switch = k; trade_timestamps = stamps }, rejected o x)
        | none ↦ (
          record { kill_switch = w.kill_switch; trade_timestamps = stamps ++ (now.monotonic ∷ []) },
          approved cfg o p ctx l w,
        )
      ]
    ]

-- `_context_from_opportunity`; times in milliseconds.
unfoldable pub ask_depth : List OrderBookLevel → Decimal
ask_depth [] = zero_d
ask_depth (level ∷ levels) = level.amount +ℤ ask_depth levels

abbrev pub mid : MarketSnapshot → Decimal
mid m = div (m.bid +ℤ m.ask) (of_ℕ 2)

unfoldable pub context_from_opportunity : ℕ → TradeOpportunity → RiskContext
context_from_opportunity now_ms o = record {
  exchange_healthy = get_or o.metadata.exchange_healthy true;
  market_data_age_ms = elim o.market [ none ↦ none | some m ↦ some (of_ℕ (now_ms - m.timestamp)) ];
  estimated_slippage_pct = get_or o.metadata.estimated_slippage_pct zero_d;
  execution_latency_ms = elim o.metadata.execution_latency_ms [
    | some ms ↦ some ms
    | none ↦ elim o.market [ none ↦ none | some m ↦ m.latency_ms ]
  ];
  liquidity_base = elim o.market [
    | none ↦ none
    | some m ↦ elim m.order_book [ none ↦ none | some book ↦ some (ask_depth book.asks) ]
  ];
  reference_price = elim o.market [ none ↦ none | some m ↦ some (mid m) ];
  current_price = elim o.market [ none ↦ none | some m ↦ some m.last ];
}
