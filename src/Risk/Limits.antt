-- ===== src/Risk/Limits.antt =====
-- bot/risk/position_limits.py: `PositionLimitCalculator`.
use moreney.Prelude.{ℕ, Bool, ◌&&◌, if◌then◌else◌, get_or}
use moreney.Prelude.Int.{◌-ℤ◌, ltb_ℤ, leb_ℤ, min_ℤ, max_ℤ}
use moreney.Decimal.{Decimal, zero_d, hundred, mul, div, is_pos}
use moreney.Core.Models.{TradeOpportunity, PortfolioSnapshot, gross_exposure_usd, peak_equity}
use moreney.Risk.Models.{RiskSettings}

-- The codes of `breached_codes`, as flags: each code is listed at most once.
pub record PositionLimitResult : Type 0 where
  pub requested_notional : Decimal
  pub allowed_notional : Decimal
  pub allowed_quantity : Decimal
  pub max_by_absolute : Decimal
  pub max_by_percent : Decimal
  pub remaining_exposure_capacity : Decimal
  pub breaches_size : Bool
  pub breaches_percent : Bool
  pub breaches_exposure : Bool

unfoldable pub max_open_positions : RiskSettings → ℕ
max_open_positions cfg = get_or cfg.max_simultaneous_positions cfg.risk_max_open_positions

unfoldable pub trade_notional : TradeOpportunity → Decimal
trade_notional o = mul o.quantity o.entry_price

unfoldable pub max_notional_by_percent : RiskSettings → Decimal → Decimal
max_notional_by_percent cfg equity =
    if leb_ℤ equity zero_d then zero_d else mul equity (div cfg.max_position_percent hundred)

unfoldable pub max_total_exposure : RiskSettings → Decimal → Decimal
max_total_exposure cfg equity =
    if leb_ℤ equity zero_d then zero_d else mul equity (div cfg.max_total_exposure_percent hundred)

-- What the exposure limit leaves, at least zero.
unfoldable pub remaining_capacity : RiskSettings → PortfolioSnapshot → Decimal
remaining_capacity cfg p =
    max_ℤ (max_total_exposure cfg p.equity_usd -ℤ gross_exposure_usd p) zero_d

unfoldable pub per_trade_cap : RiskSettings → Decimal → Decimal
per_trade_cap cfg equity =
    let percent = max_notional_by_percent cfg equity in
    if is_pos percent then min_ℤ cfg.risk_max_position_usd percent else cfg.risk_max_position_usd

unfoldable pub evaluate_limits :
    RiskSettings → TradeOpportunity → PortfolioSnapshot → PositionLimitResult
evaluate_limits cfg o p =
    let requested = trade_notional o in
    let percent = max_notional_by_percent cfg p.equity_usd in
    let remaining = remaining_capacity cfg p in
    let allowed = min_ℤ (per_trade_cap cfg p.equity_usd) remaining in
    let quantity = if is_pos o.entry_price then div allowed o.entry_price else zero_d in
    let whole = ltb_ℤ o.quantity quantity in
    record {
      requested_notional = requested;
      allowed_notional = if whole then requested else allowed;
      allowed_quantity = if whole then o.quantity else quantity;
      max_by_absolute = cfg.risk_max_position_usd;
      max_by_percent = percent;
      remaining_exposure_capacity = remaining;
      breaches_size = ltb_ℤ cfg.risk_max_position_usd requested;
      breaches_percent = is_pos percent && ltb_ℤ percent requested;
      breaches_exposure = ltb_ℤ remaining requested;
    }

unfoldable pub daily_loss_limit : RiskSettings → Decimal → Decimal
daily_loss_limit cfg equity =
    let percent = mul equity (div cfg.max_daily_loss_percent hundred) in
    if is_pos equity then min_ℤ percent cfg.risk_max_daily_loss_usd else cfg.risk_max_daily_loss_usd

unfoldable pub drawdown_fraction : PortfolioSnapshot → Decimal
drawdown_fraction p =
    let peak = peak_equity p in
    let drawdown = peak -ℤ p.equity_usd in
    if leb_ℤ peak zero_d
    then zero_d
    else if leb_ℤ drawdown zero_d
    then zero_d
    else div drawdown peak
