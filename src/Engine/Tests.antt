-- ===== src/Engine/Tests.antt =====
-- Concrete cycles of the trading engine.
use moreney.Prelude.{
  ℕ, ◌≡◌, refl, true, false, none, some, [], ◌∷◌, map, get_or, arith, if◌then◌else◌, nat_eq,
}
use moreney.Prelude.Int.{◌+ℤ◌, ◌-ℤ◌, ◌<ℤ◌, neg, min_ℤ, max_ℤ, abs_ℤ}
use moreney.Decimal.{of_ℕ, zero_d, mul, div}
use moreney.Core.Enums.{OpportunitySide, FeeRole, OrderType, KillSwitchState}
use moreney.Core.Text.{Str, codes, str_eq, str_instance, upper}
use moreney.Core.Models.{
  OrderBook, MarketSnapshot, TradeOpportunity, PortfolioSnapshot, no_metadata, peak_equity,
  exposure_from, gross_exposure_usd,
}
use moreney.Portfolio.Models.{total_equity}
use moreney.Portfolio.Paper.{
  new_portfolio, available, reserve, release_reservation, set_mark_price, apply_order_fill,
  update_unrealized, update_drawdown, drawdown_stats, get_snapshot,
}
use moreney.Portfolio.Accounting.{apply_fill, is_processed}
use moreney.Execution.Tracker.{apply}
use moreney.Execution.Orders.{attach_fill, with_fill, notional_from, add, set_status}
use moreney.Execution.Executor.{
  ExecutorSettings, SlippageMode, Executor, settle, plan_fill, adjust_reservation, new_order,
  place_order, execute, open_order, try_fill, rests, simulate_fill, walk_book, walk_levels,
  walk_limit, walk_result, crosses, take_level, limit_is_marketable, reservation_needed,
  reservation_price,
}
use moreney.Profitability.NetProfit.{ProfitabilityResult}
use moreney.Risk.Models.{RiskSettings, RiskContext, Reason, is_approved}
use moreney.Risk.KillSwitch.{new_kill_switch, allows_new_orders, update_conditions}
use moreney.Risk.Limits.{
  trade_notional, max_total_exposure, max_open_positions, max_notional_by_percent,
  remaining_capacity, per_trade_cap, evaluate_limits, daily_loss_limit, drawdown_fraction,
}
use moreney.Risk.Engine.{
  prune, prune_from, evaluate, first_checks, last_checks, first_rejection, kill_switch_gate,
  leverage_gate, profitable_gate, net_profit_gate, health_gate, stale_gate, latency_gate,
  slippage_gate, liquidity_gate, depth_gate, price_gate, price_move, daily_loss_gate, daily_loss,
  drawdown_gate, positions_gate, rate_gate, size_gate, percent_gate, exposure_gate, approved,
  rejected, pause_for,
}
use moreney.Engine.Market.{
  MarketData, load_snapshots, enrich_for_risk, freshness, worst_latency, resolve_execution_book,
}
use moreney.Engine.Cycle.{
  Strategy, Parts, Engine, Draw, TradeCycleResult, empty_result, view, execution_quantity,
  order_request, execute_opportunity, record_execution, act_on, process, process_all,
  find_opportunities, conclude, run_once, mark_opportunity, execute_approved, risk_rejected,
  executed,
}
use moreney.Engine.Gate.{IsGated, decided_id, opportunity_id_of, run_once-IsGated}
use moreney.Engine.Blocked.{EndsIdle, run_once_blocked}
use moreney.Engine.Approved.{request_of, execute_approved-evaluate}

abbrev symbol : Str
symbol = codes "BTCEUR"

abbrev book : OrderBook
book = record {
  symbol = symbol;
  bids = [];
  asks = record { price = of_ℕ 99; amount = of_ℕ 5 } ∷ [];
  timestamp = 0;
  nonce = none;
}

abbrev primary : MarketSnapshot
primary = record {
  symbol = symbol;
  bid = of_ℕ 98;
  ask = of_ℕ 99;
  last = of_ℕ 99;
  funding_rate = none;
  order_book = some book;
  exchange = some (codes "kraken");
  latency_ms = some (of_ℕ 10);
  timestamp = 0;
}

abbrev market : MarketData
market = record {
  venue_snapshots = none;
  snapshot = λ _. some primary;
  order_book = none;
  build_risk_context = none;
}

abbrev trade : TradeOpportunity
trade = record {
  id = 4;
  strategy_name = codes "test";
  symbol = symbol;
  side = OpportunitySide.buy;
  quantity = of_ℕ 2;
  entry_price = of_ℕ 100;
  expected_exit_price = some (of_ℕ 110);
  market = some primary;
  entry_fee_role = FeeRole.taker;
  exit_fee_role = FeeRole.taker;
  funding_periods = zero_d;
  metadata = no_metadata;
}

-- An opportunity that the risk engine refuses for its leverage.
abbrev levered : TradeOpportunity
levered = record trade { id = 5; metadata = record no_metadata { leverage = some (of_ℕ 3) } }

abbrev strategy : Strategy ℕ
strategy = record { evaluate_one = λ s n. (n, levered ∷ trade ∷ []); evaluate_markets = none }

abbrev profit : TradeOpportunity → ProfitabilityResult
profit o = record {
  opportunity_id = o.id;
  gross_profit_usd = of_ℕ 20;
  buy_fee_usd = zero_d;
  sell_fee_usd = zero_d;
  fees_usd = zero_d;
  slippage_usd = zero_d;
  funding_usd = zero_d;
  execution_buffer_usd = zero_d;
  net_profit_usd = of_ℕ 20;
  net_return = zero_d;
  is_profitable = true;
  trade_allowed = true;
}

abbrev risk_settings : RiskSettings
risk_settings = record {
  risk_max_position_usd = of_ℕ 1000;
  risk_max_daily_loss_usd = of_ℕ 100;
  risk_max_open_positions = 3;
  risk_min_net_profit_usd = of_ℕ 1;
  max_position_percent = of_ℕ 50;
  max_total_exposure_percent = of_ℕ 80;
  max_daily_loss_percent = of_ℕ 5;
  max_drawdown_percent = of_ℕ 20;
  max_simultaneous_positions = none;
  max_trades_per_minute = 2;
  max_slippage_percent = of_ℕ 1;
  max_market_data_age_ms = of_ℕ 5000;
  max_execution_latency_ms = of_ℕ 2000;
  max_abnormal_price_move_percent = of_ℕ 10;
  min_liquidity_base = zero_d;
  risk_consecutive_failure_limit = 2;
  risk_warning_daily_loss_percent = of_ℕ 3;
  risk_warning_drawdown_percent = of_ℕ 10;
  risk_require_manual_recovery = true;
}

abbrev executor_settings : ExecutorSettings
executor_settings = record {
  fee_rate = zero_d;
  slippage_mode = SlippageMode.order_book;
  fixed_slippage_pct = zero_d;
  partial_ok = false;
  reject_thin = true;
  quote = codes "EUR";
}

abbrev parts : Parts ℕ
parts = record {
  market_data = market;
  strategy = strategy;
  profitability = profit;
  risk_settings = risk_settings;
  executor_settings = executor_settings;
}

abbrev start : Executor
start = record {
  portfolio = new_portfolio (codes "EUR") (of_ℕ 1000);
  orders = [];
  tracker = record { fills = []; results = [] };
  history = [];
}

abbrev engine : Engine ℕ
engine = record {
  strategy_state = 0;
  risk = record { kill_switch = new_kill_switch; trade_timestamps = [] };
  executor = start;
}

abbrev draws : ℕ → Draw
draws n = record { now = record { wall = 500; monotonic = of_ℕ 100 }; order_id = n; fill_id = n }

abbrev result : TradeCycleResult
result = get_or (run_once parts draws symbol engine).1 (empty_result [] [])

-- The cycle ends with a result.
cycle_ends : (run_once parts draws symbol engine).1 ≡ some result
unfolding run_once load_snapshots find_opportunities process_all process act_on conclude
    enrich_for_risk freshness worst_latency record_execution mark_opportunity set_mark_price
    get_snapshot update_unrealized update_drawdown drawdown_stats new_portfolio total_equity
    evaluate first_checks first_rejection kill_switch_gate update_conditions allows_new_orders
    leverage_gate profitable_gate net_profit_gate health_gate stale_gate latency_gate slippage_gate
    liquidity_gate depth_gate price_gate price_move daily_loss_gate daily_loss daily_loss_limit
    drawdown_gate drawdown_fraction peak_equity positions_gate max_open_positions last_checks
    rate_gate prune prune_from size_gate percent_gate exposure_gate evaluate_limits trade_notional
    max_notional_by_percent remaining_capacity max_total_exposure gross_exposure_usd exposure_from
    per_trade_cap approved rejected pause_for execute_opportunity order_request execution_quantity
    resolve_execution_book execute place_order new_order add reservation_needed reservation_price
    available reserve upper str_eq open_order set_status rests limit_is_marketable crosses try_fill
    simulate_fill walk_book walk_limit walk_levels take_level walk_result settle plan_fill
    adjust_reservation release_reservation attach_fill with_fill notional_from apply
    apply_order_fill apply_fill is_processed mul div neg min_ℤ max_ℤ abs_ℤ ◌+ℤ◌ ◌-ℤ◌
cycle_ends = refl

run_once-IsGated_example :
    IsGated result
    × (map decided_id result.risk_decisions ≡ map opportunity_id_of result.opportunities)
run_once-IsGated_example = run_once-IsGated parts draws symbol engine cycle_ends

abbrev paused : Engine ℕ
paused = record engine {
  risk = record (engine.risk) {
    kill_switch = record new_kill_switch {
      state = KillSwitchState.paused;
      reason = some (Reason.daily_loss (of_ℕ 120) (of_ℕ 100));
      activated_at = some 17;
    };
  };
}

run_once_blocked_example : EndsIdle start (run_once parts draws symbol paused)
unfolding load_snapshots allows_new_orders
run_once_blocked_example = run_once_blocked parts draws symbol paused refl refl

abbrev account : PortfolioSnapshot
account = record {
  balances = [];
  positions = [];
  equity_usd = of_ℕ 1000;
  peak_equity_usd = some (of_ℕ 1000);
  daily_realized_pnl_usd = zero_d;
  open_position_count = 0;
}

abbrev context : RiskContext
context = record {
  exchange_healthy = true;
  market_data_age_ms = some (of_ℕ 40);
  estimated_slippage_pct = zero_d;
  execution_latency_ms = none;
  liquidity_base = some (of_ℕ 5);
  reference_price = some (of_ℕ 100);
  current_price = some (of_ℕ 101);
}

allows_whole_trade : zero_d <ℤ (evaluate_limits risk_settings trade account).allowed_quantity
unfolding evaluate_limits trade_notional max_notional_by_percent remaining_capacity
    max_total_exposure gross_exposure_usd exposure_from per_trade_cap mul div min_ℤ max_ℤ abs_ℤ ◌+ℤ◌
    ◌-ℤ◌
allows_whole_trade = omega arith

execute_approved-evaluate_example :
    let d =
      (evaluate risk_settings
        (draws 1).now
        trade
        (view (profit trade))
        account
        context
        engine.risk).1 in
    let x =
      execute executor_settings
        (request_of 1 risk_settings trade account)
        (some book)
        OrderType.limit
        1
        start in
    execute_approved executor_settings (draws 1) trade d start
    ≡ (if is_approved d then (x.0, executed x.1) else (start, risk_rejected))
execute_approved-evaluate_example =
    execute_approved-evaluate risk_settings (draws 1).now trade (view (profit trade)) account
      context engine.risk executor_settings (draws 1) start allows_whole_trade
