-- ===== src/Profitability/Fees.antt =====
-- bot/profitability/fee_calculator.py: `FeeCalculator`, and the settings of the package.
use moreney.Prelude.{Bool, Option, none, some, get_or, if◌then◌else◌}
use moreney.Decimal.{Decimal, mul}
use moreney.Core.Enums.{OpportunitySide, FeeRole, enters_buying}
use moreney.Core.Models.{TradeOpportunity}

-- The fields `profitability_*` of the settings, as decimals.
pub record ProfitSettings : Type 0 where
  pub fee_rate : Decimal
  pub maker_fee_rate : Option Decimal
  pub taker_fee_rate : Option Decimal
  pub slippage_bps : Decimal
  pub market_impact_factor : Decimal
  pub thin_book_penalty_bps : Decimal
  pub funding_rate : Decimal
  pub apply_funding : Bool
  pub execution_buffer_bps : Decimal
  pub min_net_profit_usd : Decimal
  pub min_net_return : Decimal

pub record TradingFee : Type 0 where
  pub maker : Decimal
  pub taker : Decimal

-- The rates that `__init__` chooses: those of the market, or else those of the settings.
unfoldable pub fee_rates : ProfitSettings → Option TradingFee → TradingFee
fee_rates cfg (some fee) = fee
fee_rates cfg none = record {
  maker = get_or cfg.maker_fee_rate cfg.fee_rate;
  taker = get_or cfg.taker_fee_rate cfg.fee_rate;
}

unfoldable pub rate_for : TradingFee → FeeRole → Decimal
rate_for rates FeeRole.maker = rates.maker
rate_for rates FeeRole.taker = rates.taker

pub record FeeBreakdown : Type 0 where
  pub buy_fee : Decimal
  pub sell_fee : Decimal
  pub buy_fee_rate : Decimal
  pub sell_fee_rate : Decimal
  pub buy_notional : Decimal
  pub sell_notional : Decimal

-- Buy notional, sell notional, and the roles of the two legs.
unfoldable pub leg_notionals :
    OpportunitySide → Decimal → Decimal → FeeRole → FeeRole → Decimal × Decimal × FeeRole × FeeRole
leg_notionals side entry exit entry_role exit_role =
    if enters_buying side
    then (entry, exit, entry_role, exit_role)
    else (exit, entry, exit_role, entry_role)

unfoldable pub calculate_fees : TradingFee → TradeOpportunity → Decimal → FeeBreakdown
calculate_fees rates o exit_price =
    let (buy, sell, buy_role, sell_role) =
      leg_notionals o.side (mul o.quantity o.entry_price) (mul o.quantity exit_price)
        o.entry_fee_role o.exit_fee_role in
    record {
      buy_fee = mul buy (rate_for rates buy_role);
      sell_fee = mul sell (rate_for rates sell_role);
      buy_fee_rate = rate_for rates buy_role;
      sell_fee_rate = rate_for rates sell_role;
      buy_notional = buy;
      sell_notional = sell;
    }
