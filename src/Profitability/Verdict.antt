-- ===== src/Profitability/Verdict.antt =====
-- When a trade is allowed, and what an allowance implies.
use moreney.Prelude.{ap, ◌≢◌, if_rule, ◌≡◌, ◌↔◌, refl, true, Option, none, some, arith}
use moreney.Prelude.Int.{◌+ℤ◌, ◌-ℤ◌, ◌≤ℤ◌, ◌<ℤ◌, int_laws, eq_of_parts, pos_part, neg_part}
use moreney.Decimal.{Decimal, zero_d, mul, div}
use moreney.Decimal.Rounding.{mul_nonneg, mul_zero}
use moreney.Core.Enums.{enters_buying}
use moreney.Core.Models.{OrderBook, TradeOpportunity}
use moreney.Profitability.Fees.{ProfitSettings, TradingFee, fee_rates}
use moreney.Profitability.Slippage.{bps}
use moreney.Profitability.Costs.{
  IsCharged, IsPriced, bps_nonneg, calculate_fees_nonneg, estimate_slippage_nonneg,
}
use moreney.Profitability.NetProfit.{
  resolve_exit_price, gross_profit, unique_from, disallow_reasons, is_empty, estimate,
  evaluate_profit,
}

disallow_reasons_empty :
    (cfg : ProfitSettings) (net net_return gross : Decimal)
    → (is_empty (disallow_reasons cfg net net_return gross) ≡ true)
      ↔ ((zero_d <ℤ net) × (cfg.min_net_profit_usd ≤ℤ net) × (cfg.min_net_return ≤ℤ net_return))
unfolding disallow_reasons unique_from
disallow_reasons_empty cfg net net_return gross = ground arith

gross_profit_flat : (o : TradeOpportunity) → gross_profit o o.entry_price ≡ zero_d
unfolding gross_profit
gross_profit_flat o =
    let level : o.entry_price -ℤ o.entry_price ≡ zero_d = eq_of_parts _ _ (omega int_laws) in
    rw level (
      if_rule (λ x. mul o.quantity x ≡ zero_d) (enters_buying o.side) (λ _. mul_zero o.quantity)
        (λ _. mul_zero o.quantity))

module _ (cfg : ProfitSettings) (fee : Option TradingFee) (o : TradeOpportunity)
    (given : Option OrderBook) where
  -- The engine allows a trade exactly if its net profit is positive and reaches the two minima, of
  -- the profit and of the return: the gross profit has no part in it.
  pub evaluate_profit_allows : ((evaluate_profit cfg fee o given).trade_allowed ≡ true) ↔ (
      (zero_d <ℤ (evaluate_profit cfg fee o given).net_profit_usd)
      × (cfg.min_net_profit_usd ≤ℤ (evaluate_profit cfg fee o given).net_profit_usd)
      × (cfg.min_net_return ≤ℤ (evaluate_profit cfg fee o given).net_return))
  unfolding evaluate_profit estimate
  evaluate_profit_allows =
      let e = estimate cfg fee o given in
      disallow_reasons_empty cfg e.net_profit e.net_return e.gross_profit

  -- The definition of the net profit, solved for the gross profit.
  evaluate_profit_sums :
      let r = evaluate_profit cfg fee o given in
      r.net_profit_usd +ℤ r.fees_usd +ℤ r.slippage_usd +ℤ r.funding_usd +ℤ r.execution_buffer_usd
      ≡ r.gross_profit_usd
  unfolding evaluate_profit estimate
  evaluate_profit_sums = eq_of_parts _ _ (omega int_laws)

  net_le_gross :
      let r = evaluate_profit cfg fee o given in
      zero_d ≤ℤ r.fees_usd
      → zero_d ≤ℤ r.slippage_usd
      → zero_d ≤ℤ r.funding_usd
      → zero_d ≤ℤ r.execution_buffer_usd
      → r.net_profit_usd ≤ℤ r.gross_profit_usd
  net_le_gross fees slip funding buffer =
      let r = evaluate_profit cfg fee o given in
      omega (int_laws, ap pos_part evaluate_profit_sums, ap neg_part evaluate_profit_sums)

  -- With rates, prices and quantities that are not negative, and funding that is not received, the
  -- fees, the slippage and the buffer are not negative, and the net profit is at most the gross.
  pub evaluate_profit_costs :
      IsCharged cfg fee
      → IsPriced o
      → zero_d ≤ℤ (evaluate_profit cfg fee o given).funding_usd
      → let r = evaluate_profit cfg fee o given in
        (zero_d ≤ℤ r.fees_usd)
        × (zero_d ≤ℤ r.slippage_usd)
        × (zero_d ≤ℤ r.execution_buffer_usd)
        × (r.net_profit_usd ≤ℤ r.gross_profit_usd)
  unfolding evaluate_profit estimate
  evaluate_profit_costs c v funding =
      let r = evaluate_profit cfg fee o given in
      let (buy, sell) =
        calculate_fees_nonneg (fee_rates cfg fee) o (resolve_exit_price o) c.maker_nonneg
          c.taker_nonneg v.quantity_nonneg v.entry_nonneg v.exit_nonneg in
      let fees : zero_d ≤ℤ r.fees_usd = omega (int_laws, buy, sell) in
      let slip : zero_d ≤ℤ r.slippage_usd = estimate_slippage_nonneg cfg fee o given c v in
      let buffer : zero_d ≤ℤ r.execution_buffer_usd =
        mul_nonneg (mul o.quantity o.entry_price) (div cfg.execution_buffer_bps bps)
          (mul_nonneg o.quantity o.entry_price v.quantity_nonneg v.entry_nonneg)
          (bps_nonneg cfg.execution_buffer_bps c.buffer_nonneg) in
      (fees, slip, buffer, net_le_gross fees slip funding buffer)

  flat_gross :
      resolve_exit_price o ≡ o.entry_price
      → (evaluate_profit cfg fee o given).gross_profit_usd ≡ zero_d
  unfolding evaluate_profit estimate
  flat_gross flat = rw flat (gross_profit_flat o)

  -- With rates, prices and quantities that are not negative, and funding that is not received, a
  -- trade that is allowed has a gross profit above zero, so it names an exit price that differs from
  -- its entry price.
  pub evaluate_profit_edge :
      IsCharged cfg fee
      → IsPriced o
      → zero_d ≤ℤ (evaluate_profit cfg fee o given).funding_usd
      → (evaluate_profit cfg fee o given).trade_allowed ≡ true
      → (zero_d <ℤ (evaluate_profit cfg fee o given).gross_profit_usd)
        × (o.expected_exit_price ≢ none)
        × (o.expected_exit_price ≢ some o.entry_price)
  unfolding resolve_exit_price
  evaluate_profit_edge c v funding ok =
      let r = evaluate_profit cfg fee o given in
      let (positive, _, _) = evaluate_profit_allows.0 ok in
      let (_, _, _, below) = evaluate_profit_costs c v funding in
      let gross : zero_d <ℤ r.gross_profit_usd = omega (arith, positive, below) in
      (
        gross,
        λ unknown. absurd (omega (arith, gross, ap pos_part (flat_gross (rw unknown refl)))),
        λ flat. absurd (omega (arith, gross, ap pos_part (flat_gross (rw flat refl)))),
      )
