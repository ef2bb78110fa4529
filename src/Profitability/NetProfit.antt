-- ===== src/Profitability/NetProfit.antt =====
-- bot/profitability/net_profit.py and bot/profitability/engine.py: the net profit of an opportunity.
-- The texts under `assumptions` are left out.
use moreney.Prelude.{
  ℕ, Bool, true, false, not, ◌&&◌, ◌||◌, Option, none, some, List, [], ◌∷◌, ◌++◌, if◌then◌else◌,
  get_or,
}
use moreney.Prelude.Int.{◌+ℤ◌, ◌-ℤ◌, neg, ltb_ℤ, leb_ℤ, eqb_ℤ}
use moreney.Decimal.{Decimal, zero_d, mul, div, is_pos}
use moreney.Core.Enums.{enters_buying}
use moreney.Core.Models.{OrderBook, TradeOpportunity}
use moreney.Profitability.Fees.{ProfitSettings, TradingFee, fee_rates, calculate_fees}
use moreney.Profitability.Slippage.{bps, estimate_slippage}

-- The reasons against a trade, by the values that their texts show.
pub data DisallowReason : Type 0 where
  gross_only : DisallowReason
  not_positive : Decimal → DisallowReason
  below_profit below_return : Decimal → Decimal → DisallowReason

abbrev pub disallow_eq : DisallowReason → DisallowReason → Bool
disallow_eq DisallowReason.gross_only DisallowReason.gross_only = true
disallow_eq (DisallowReason.not_positive a) (DisallowReason.not_positive b) = eqb_ℤ a b
disallow_eq (DisallowReason.below_profit a b) (DisallowReason.below_profit c d) =
    eqb_ℤ a c && eqb_ℤ b d
disallow_eq (DisallowReason.below_return a b) (DisallowReason.below_return c d) =
    eqb_ℤ a c && eqb_ℤ b d
disallow_eq _ _ = false

abbrev pub seen_before : DisallowReason → List DisallowReason → Bool
seen_before r [] = false
seen_before r (s ∷ ss) = disallow_eq r s || seen_before r ss

-- The loop that drops repetitions.
unfoldable pub unique_from : List DisallowReason → List DisallowReason → List DisallowReason
unique_from seen [] = []
unique_from seen (r ∷ rs) =
    let again = unique_from seen rs in
    let fresh = unique_from (r ∷ seen) rs in if seen_before r seen then again else r ∷ fresh

abbrev pub reason_if : Bool → DisallowReason → List DisallowReason
reason_if b r = if b then r ∷ [] else []

-- `_disallow_reasons`
unfoldable pub disallow_reasons : ProfitSettings → Decimal → Decimal → Decimal → List DisallowReason
disallow_reasons cfg net net_return gross = unique_from [] (
    reason_if (is_pos gross && leb_ℤ net zero_d) DisallowReason.gross_only
    ++ (reason_if (leb_ℤ net zero_d) (DisallowReason.not_positive net)
        ++ (reason_if (ltb_ℤ net cfg.min_net_profit_usd)
              (DisallowReason.below_profit net cfg.min_net_profit_usd)
            ++ reason_if (ltb_ℤ net_return cfg.min_net_return)
                (DisallowReason.below_return net_return cfg.min_net_return))))

-- `_resolve_exit_price`: an unknown exit is flat.
unfoldable pub resolve_exit_price : TradeOpportunity → Decimal
resolve_exit_price o = get_or o.expected_exit_price o.entry_price

unfoldable pub gross_profit : TradeOpportunity → Decimal → Decimal
gross_profit o exit_price =
    mul o.quantity
      (if enters_buying o.side then exit_price -ℤ o.entry_price else o.entry_price -ℤ exit_price)

-- The funding rate of the market snapshot, or else the default.
unfoldable pub funding_rate_of : ProfitSettings → TradeOpportunity → Decimal
funding_rate_of cfg o = elim o.market [
  | none ↦ cfg.funding_rate
  | some m ↦ get_or m.funding_rate cfg.funding_rate
]

-- `_funding_cost`: a long pays, a short receives.
unfoldable pub funding_cost : ProfitSettings → TradeOpportunity → Decimal → Decimal
funding_cost cfg o notional =
    let raw = mul (mul notional (funding_rate_of cfg o)) o.funding_periods in
    if not cfg.apply_funding || leb_ℤ o.funding_periods zero_d
    then zero_d
    else if enters_buying o.side
    then raw
    else neg raw

pub record ProfitEstimate : Type 0 where
  pub gross_profit : Decimal
  pub buy_fee : Decimal
  pub sell_fee : Decimal
  pub slippage : Decimal
  pub funding_cost : Decimal
  pub execution_buffer : Decimal
  pub net_profit : Decimal
  pub net_return : Decimal
  pub trade_allowed : Bool
  pub disallow_reasons : List DisallowReason

abbrev pub total_fees : ProfitEstimate → Decimal
total_fees e = e.buy_fee +ℤ e.sell_fee

abbrev pub is_empty : List DisallowReason → Bool
is_empty [] = true
is_empty (r ∷ rs) = false

-- `NetProfitCalculator.estimate`
unfoldable pub estimate :
    ProfitSettings → Option TradingFee → TradeOpportunity → Option OrderBook → ProfitEstimate
estimate cfg fee o given =
    let exit_price = resolve_exit_price o in
    let entry_notional = mul o.quantity o.entry_price in
    let gross = gross_profit o exit_price in
    let fees = calculate_fees (fee_rates cfg fee) o exit_price in
    let slip = (estimate_slippage cfg o exit_price given).total_slippage in
    let funding = funding_cost cfg o entry_notional in
    let buffer = mul entry_notional (div cfg.execution_buffer_bps bps) in
    let net = gross -ℤ fees.buy_fee -ℤ fees.sell_fee -ℤ slip -ℤ funding -ℤ buffer in
    let net_return = if is_pos entry_notional then div net entry_notional else zero_d in
    let reasons = disallow_reasons cfg net net_return gross in
    record {
      gross_profit = gross;
      buy_fee = fees.buy_fee;
      sell_fee = fees.sell_fee;
      slippage = slip;
      funding_cost = funding;
      execution_buffer = buffer;
      net_profit = net;
      net_return = net_return;
      trade_allowed = is_empty reasons;
      disallow_reasons = reasons;
    }

pub record ProfitabilityResult : Type 0 where
  pub opportunity_id : ℕ
  pub gross_profit_usd : Decimal
  pub buy_fee_usd : Decimal
  pub sell_fee_usd : Decimal
  pub fees_usd : Decimal
  pub slippage_usd : Decimal
  pub funding_usd : Decimal
  pub execution_buffer_usd : Decimal
  pub net_profit_usd : Decimal
  pub net_return : Decimal
  pub is_profitable : Bool
  pub trade_allowed : Bool

-- `DefaultProfitabilityEngine.evaluate`
unfoldable pub evaluate_profit :
    ProfitSettings → Option TradingFee → TradeOpportunity → Option OrderBook → ProfitabilityResult
evaluate_profit cfg fee o given =
    let e = estimate cfg fee o given in
    record {
      opportunity_id = o.id;
      gross_profit_usd = e.gross_profit;
      buy_fee_usd = e.buy_fee;
      sell_fee_usd = e.sell_fee;
      fees_usd = total_fees e;
      slippage_usd = e.slippage;
      funding_usd = e.funding_cost;
      execution_buffer_usd = e.execution_buffer;
      net_profit_usd = e.net_profit;
      net_return = e.net_return;
      is_profitable = e.trade_allowed;
      trade_allowed = e.trade_allowed;
    }
