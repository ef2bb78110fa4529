-- ===== src/Strategies/Tests.antt =====
-- Concrete runs of the arbitrage strategy.
use moreney.Prelude.{
  ℕ, ◌+◌, ◌≡◌, refl, true, false, none, some, List, [], ◌∷◌, All, length, map, arith,
}
use moreney.Prelude.Int.{◌+ℤ◌, ◌-ℤ◌, neg, min_ℤ, max_ℤ, abs_ℤ}
use moreney.Decimal.{of_ℕ, zero_d, mul, div}
use moreney.Core.Text.{Str, codes, str_eq, upper}
use moreney.Core.Models.{OrderBookLevel, MarketSnapshot, TradeOpportunity}
use moreney.Execution.Executor.{take_level}
use moreney.Profitability.Fees.{ProfitSettings, fee_rates, rate_for, leg_notionals, calculate_fees}
use moreney.Profitability.Slippage.{
  walk_depth, walk_book_impact, empty_impact, filled_impact, base_slippage_of, book_for,
  estimate_slippage,
}
use moreney.Profitability.NetProfit.{
  resolve_exit_price, gross_profit, funding_cost, disallow_reasons, unique_from, estimate,
  evaluate_profit,
}
use moreney.Strategies.Depth.{side_depth, fill_levels, fill_depth, book_age_ms}
use moreney.Strategies.Scan.{Scan, reject_scan}
use moreney.Strategies.Arbitrage.{
  ArbitrageSettings, ProfitabilityEngine, build_profitability_engine, book_rejection, venue_verdict,
  file_verdict, group_snapshots, overlap, candidate_of, opportunity_of, gate_candidate, emit,
  settle_pairing, evaluate_pair, evaluate_sells, evaluate_buys, scan_symbol, evaluate_symbols,
  evaluate_markets,
}
use moreney.Strategies.Filling.{NonnegLevels, fill_depth-sufficient}
use moreney.Strategies.Counting.{Progress, evaluate_markets-Progress}
use moreney.Strategies.Soundness.{IsSound, evaluate_markets-IsSound}

abbrev settings : ArbitrageSettings
settings = record {
  min_profit_eur = of_ℕ 1;
  min_profit_pct = zero_d;
  min_liquidity = of_ℕ 1;
  max_quantity = of_ℕ 2;
  max_latency_ms = of_ℕ 100;
  max_book_age_ms = of_ℕ 1000;
}

abbrev costs : ProfitSettings
costs = record {
  fee_rate = zero_d;
  maker_fee_rate = none;
  taker_fee_rate = none;
  slippage_bps = zero_d;
  market_impact_factor = zero_d;
  thin_book_penalty_bps = zero_d;
  funding_rate = zero_d;
  apply_funding = true;
  execution_buffer_bps = zero_d;
  min_net_profit_usd = zero_d;
  min_net_return = zero_d;
}

abbrev profit : ProfitabilityEngine
profit = build_profitability_engine settings costs

abbrev snapshot_at : Str → ℕ → ℕ → MarketSnapshot
snapshot_at exchange bid ask = record {
  symbol = codes "BTC/EUR";
  bid = of_ℕ bid;
  ask = of_ℕ ask;
  last = of_ℕ bid;
  funding_rate = none;
  order_book = some (record {
    symbol = codes "BTC/EUR";
    bids = record { price = of_ℕ bid; amount = of_ℕ 5 } ∷ [];
    asks =
        record { price = of_ℕ ask; amount = of_ℕ 1 }
        ∷ record { price = of_ℕ (ask + 2); amount = of_ℕ 4 }
        ∷ [];
    timestamp = 10;
    nonce = none;
  });
  exchange = some exchange;
  latency_ms = none;
  timestamp = 10;
}

abbrev snapshots : List MarketSnapshot
snapshots = snapshot_at (codes "kraken") 99 100 ∷ snapshot_at (codes "bitvavo") 110 111 ∷ []

abbrev fresh : Scan
fresh = record {
  pairs_evaluated = 0;
  depth_edges_found = 0;
  scan_rejections = 0;
  opportunities_emitted = 0;
  reject_counts = [];
  drawn = 0;
  raised = false;
}

-- Two pairs are looked at: the one that pays is emitted at the average of two levels.
finds_edge :
    let r = evaluate_markets settings profit 20 snapshots fresh in
    (map (λ (o : TradeOpportunity). o.entry_price) r.1 ≡ of_ℕ 101 ∷ [])
    × (r.0.pairs_evaluated ≡ 2)
    × (r.0.scan_rejections ≡ 1)
unfolding evaluate_markets evaluate_symbols scan_symbol evaluate_buys evaluate_sells evaluate_pair
    settle_pairing emit gate_candidate opportunity_of candidate_of overlap group_snapshots
    file_verdict venue_verdict book_rejection build_profitability_engine book_age_ms fill_depth
    fill_levels side_depth reject_scan evaluate_profit estimate unique_from disallow_reasons
    funding_cost gross_profit resolve_exit_price estimate_slippage book_for base_slippage_of
    filled_impact empty_impact walk_book_impact walk_depth calculate_fees leg_notionals rate_for
    fee_rates take_level upper str_eq ◌+ℤ◌ ◌-ℤ◌ neg min_ℤ max_ℤ abs_ℤ mul div
finds_edge = (refl, refl, refl)

evaluate_markets-IsSound_example :
    All (IsSound settings 20 profit) (evaluate_markets settings profit 20 snapshots fresh).1
evaluate_markets-IsSound_example = evaluate_markets-IsSound settings profit 20 snapshots fresh

evaluate_markets-Progress_example :
    let r = evaluate_markets settings profit 20 snapshots fresh in Progress fresh r.0 (length r.1)
evaluate_markets-Progress_example = evaluate_markets-Progress settings profit 20 snapshots fresh

abbrev two_levels : List OrderBookLevel
two_levels =
    record { price = of_ℕ 100; amount = of_ℕ 1 } ∷ record { price = of_ℕ 102; amount = of_ℕ 4 } ∷ []

fill_depth-sufficient_example :
    ((fill_depth two_levels (of_ℕ 2)).sufficient ≡ true)
    × ((fill_depth two_levels (of_ℕ 2)).filled_quantity ≡ of_ℕ 2)
unfolding NonnegLevels side_depth ◌+ℤ◌
fill_depth-sufficient_example =
    fill_depth-sufficient two_levels (of_ℕ 2) (omega arith, (omega arith, tt)) (omega arith)
      (omega arith)
