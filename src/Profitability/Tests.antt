-- ===== src/Profitability/Tests.antt =====
-- Concrete runs of the profitability engine.
use moreney.Prelude.{◌≡◌, ◌≢◌, ◌↔◌, refl, true, none, some, [], ◌∷◌, arith}
use moreney.Prelude.Int.{◌+ℤ◌, ◌-ℤ◌, neg, ◌≤ℤ◌, ◌<ℤ◌, min_ℤ, abs_ℤ}
use moreney.Decimal.{of_ℕ, zero_d, mul, div}
use moreney.Core.Enums.{OpportunitySide, FeeRole}
use moreney.Core.Text.{codes}
use moreney.Core.Models.{no_metadata, OrderBook, TradeOpportunity}
use moreney.Execution.Executor.{take_level}
use moreney.Profitability.Fees.{
  ProfitSettings, TradingFee, fee_rates, rate_for, leg_notionals, calculate_fees,
}
use moreney.Profitability.Slippage.{
  walk_depth, walk_book_impact, empty_impact, filled_impact, base_slippage_of, book_for,
  estimate_slippage,
}
use moreney.Profitability.NetProfit.{
  resolve_exit_price, gross_profit, funding_cost, disallow_reasons, unique_from, estimate,
  evaluate_profit,
}
use moreney.Profitability.Costs.{IsCharged, IsPriced}
use moreney.Profitability.Verdict.{
  evaluate_profit_allows, evaluate_profit_costs, evaluate_profit_edge,
}

abbrev settings : ProfitSettings
settings = record {
  fee_rate = of_ℕ 1;
  maker_fee_rate = none;
  taker_fee_rate = none;
  slippage_bps = of_ℕ 5;
  market_impact_factor = of_ℕ 1;
  thin_book_penalty_bps = of_ℕ 25;
  funding_rate = zero_d;
  apply_funding = true;
  execution_buffer_bps = of_ℕ 10;
  min_net_profit_usd = of_ℕ 1;
  min_net_return = zero_d;
}

abbrev fees : TradingFee
fees = record { maker = zero_d; taker = zero_d }

abbrev trade : TradeOpportunity
trade = record {
  id = 4;
  strategy_name = codes "test";
  symbol = codes "BTCEUR";
  side = OpportunitySide.buy;
  quantity = of_ℕ 2;
  entry_price = of_ℕ 100;
  expected_exit_price = some (of_ℕ 110);
  market = none;
  entry_fee_role = FeeRole.taker;
  exit_fee_role = FeeRole.taker;
  funding_periods = zero_d;
  metadata = no_metadata;
}

abbrev book : OrderBook
book = record {
  symbol = codes "BTCEUR";
  bids = record { price = of_ℕ 109; amount = of_ℕ 3 } ∷ [];
  asks =
      record { price = of_ℕ 100; amount = of_ℕ 1 }
      ∷ record { price = of_ℕ 101; amount = of_ℕ 1 }
      ∷ [];
  timestamp = 0;
  nonce = none;
}

settings-IsCharged : IsCharged settings (some fees)
unfolding fee_rates
settings-IsCharged = omega arith

trade-IsPriced : IsPriced trade
unfolding resolve_exit_price
trade-IsPriced = omega arith

no_funding : zero_d ≤ℤ (evaluate_profit settings (some fees) trade (some book)).funding_usd
unfolding evaluate_profit estimate funding_cost
no_funding = omega arith

allows : (evaluate_profit settings (some fees) trade (some book)).trade_allowed ≡ true
unfolding evaluate_profit estimate funding_cost gross_profit resolve_exit_price calculate_fees
    leg_notionals rate_for fee_rates estimate_slippage base_slippage_of book_for walk_book_impact
    walk_depth take_level empty_impact filled_impact disallow_reasons unique_from mul div ◌+ℤ◌ ◌-ℤ◌
    neg min_ℤ abs_ℤ
allows = refl

evaluate_profit_allows_example :
    ((evaluate_profit settings (some fees) trade (some book)).trade_allowed ≡ true) ↔ (
      (zero_d <ℤ (evaluate_profit settings (some fees) trade (some book)).net_profit_usd)
      × (of_ℕ 1 ≤ℤ (evaluate_profit settings (some fees) trade (some book)).net_profit_usd)
      × (zero_d ≤ℤ (evaluate_profit settings (some fees) trade (some book)).net_return))
evaluate_profit_allows_example = evaluate_profit_allows settings (some fees) trade (some book)

evaluate_profit_costs_example :
    let r = evaluate_profit settings (some fees) trade (some book) in
    (zero_d ≤ℤ r.fees_usd)
    × (zero_d ≤ℤ r.slippage_usd)
    × (zero_d ≤ℤ r.execution_buffer_usd)
    × (r.net_profit_usd ≤ℤ r.gross_profit_usd)
evaluate_profit_costs_example =
    evaluate_profit_costs settings (some fees) trade (some book) settings-IsCharged trade-IsPriced
      no_funding

evaluate_profit_edge_example :
    (zero_d <ℤ (evaluate_profit settings (some fees) trade (some book)).gross_profit_usd)
    × (some (of_ℕ 110) ≢ none)
    × (some (of_ℕ 110) ≢ some (of_ℕ 100))
evaluate_profit_edge_example =
    evaluate_profit_edge settings (some fees) trade (some book) settings-IsCharged trade-IsPriced
      no_funding allows
