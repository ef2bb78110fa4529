-- ===== src/Risk/Tests.antt =====
-- Concrete runs of the kill switch and of the risk engine.
use moreney.Prelude.{
  ◌≤◌, ◌<◌, ◌≡◌, ◌↔◌, refl, true, false, ◌||◌, none, some, [], ◌∷◌, arith, length,
}
use moreney.Prelude.Int.{◌+ℤ◌, ◌-ℤ◌, ◌≤ℤ◌, min_ℤ, max_ℤ, abs_ℤ}
use moreney.Decimal.{of_ℕ, zero_d, mul, div}
use moreney.Core.Enums.{
  KillSwitchState, RiskRejectReason, RiskDecisionStatus, OpportunitySide, FeeRole,
}
use moreney.Core.Text.{codes}
use moreney.Core.Models.{
  no_metadata, TradeOpportunity, Position, PortfolioSnapshot, peak_equity, gross_exposure_usd,
  exposure_from,
}
use moreney.Risk.Models.{Reason, RiskContext, RiskSettings, ProfitabilityView, is_approved}
use moreney.Risk.KillSwitch.{
  KillSwitch, new_kill_switch, allows_new_orders, update_conditions, recover,
  recovery_conditions_met,
}
use moreney.Risk.Recovery.{
  SwitchCall, call, calls, fresh, after, IsCoherent, failing, calls_stay_blocked,
  Reachable-IsCoherent, recover_blocked, failing_stops,
}
use moreney.Risk.Limits.{
  trade_notional, max_total_exposure, max_open_positions, max_notional_by_percent,
  remaining_capacity, per_trade_cap, evaluate_limits, daily_loss_limit, drawdown_fraction,
}
use moreney.Risk.Engine.{
  RiskEngine, Now, prune, prune_from, evaluate, first_checks, last_checks, first_rejection,
  kill_switch_gate, leverage_gate, profitable_gate, net_profit_gate, health_gate, stale_gate,
  latency_gate, slippage_gate, liquidity_gate, depth_gate, price_gate, price_move, daily_loss_gate,
  daily_loss, drawdown_gate, positions_gate, rate_gate, size_gate, percent_gate, exposure_gate,
  approved,
}
use moreney.Risk.Approval.{IsFit, IsWithin}
use moreney.Risk.Decisions.{evaluate_approves, evaluate_blocked}
use moreney.Risk.Window.{count_since, evaluate_rate, evaluate_exposure}

abbrev settings : RiskSettings
settings = record {
  risk_max_position_usd = of_ℕ 1000;
  risk_max_daily_loss_usd = of_ℕ 100;
  risk_max_open_positions = 3;
  risk_min_net_profit_usd = of_ℕ 1;
  max_position_percent = of_ℕ 50;
  max_total_exposure_percent = of_ℕ 80;
  max_daily_loss_percent = of_ℕ 5;
  max_drawdown_percent = of_ℕ 20;
  max_simultaneous_positions = none;
  max_trades_per_minute = 2;
  max_slippage_percent = of_ℕ 1;
  max_market_data_age_ms = of_ℕ 5000;
  max_execution_latency_ms = of_ℕ 2000;
  max_abnormal_price_move_percent = of_ℕ 10;
  min_liquidity_base = zero_d;
  risk_consecutive_failure_limit = 2;
  risk_warning_daily_loss_percent = of_ℕ 3;
  risk_warning_drawdown_percent = of_ℕ 10;
  risk_require_manual_recovery = true;
}

abbrev loss : Reason
loss = Reason.daily_loss (of_ℕ 120) (of_ℕ 100)

abbrev paused_switch : KillSwitch
paused_switch = record new_kill_switch {
  state = KillSwitchState.paused;
  reason = some loss;
  reason_code = some RiskRejectReason.max_daily_loss;
  activated_at = some 17;
}

calls_stay_blocked_example :
    allows_new_orders (
      calls settings
        (SwitchCall.succeeds
          ∷ SwitchCall.warns 18 loss none
          ∷ SwitchCall.fails 19 loss
          ∷ SwitchCall.fails 20 loss
          ∷ [])
        paused_switch)
    ≡ false
unfolding allows_new_orders
calls_stay_blocked_example =
    calls_stay_blocked settings
      (SwitchCall.succeeds
        ∷ SwitchCall.warns 18 loss none
        ∷ SwitchCall.fails 19 loss
        ∷ SwitchCall.fails 20 loss
        ∷ [])
      paused_switch (refl, (refl, (refl, (refl, tt)))) refl

recover_blocked_example :
    let (k', done) = recover settings 30 true paused_switch in
    (done ≡ (true || recovery_conditions_met none))
    × (done ≡ false → k' ≡ paused_switch)
    × (done ≡ true
        → (k'.state ≡ KillSwitchState.running)
          × (k'.reason ≡ none)
          × (k'.activated_at ≡ none)
          × (k'.consecutive_failures ≡ 0))
unfolding allows_new_orders
recover_blocked_example = recover_blocked settings 30 true paused_switch refl

Reachable-IsCoherent_example :
    IsCoherent settings (call settings (SwitchCall.pauses 17 loss none) new_kill_switch)
Reachable-IsCoherent_example =
    Reachable-IsCoherent settings (after (SwitchCall.pauses 17 loss none) fresh)

failing_stops_example :
    (calls settings (failing settings ((1, loss) ∷ (2, loss) ∷ [])) new_kill_switch).state
    ≡ KillSwitchState.emergency_stop
failing_stops_example =
    failing_stops settings ((1, loss) ∷ (2, loss) ∷ []) new_kill_switch (omega arith) refl
      (omega arith)

abbrev trade : TradeOpportunity
trade = record {
  id = 4;
  strategy_name = codes "test";
  symbol = codes "BTCEUR";
  side = OpportunitySide.buy;
  quantity = of_ℕ 2;
  entry_price = of_ℕ 100;
  expected_exit_price = some (of_ℕ 110);
  market = none;
  entry_fee_role = FeeRole.taker;
  exit_fee_role = FeeRole.taker;
  funding_periods = zero_d;
  metadata = no_metadata;
}

abbrev profit : ProfitabilityView
profit = record { net_profit_usd = of_ℕ 15; is_profitable = true; trade_allowed = true }

abbrev held : Position
held = record {
  symbol = codes "ETHEUR";
  quantity = of_ℕ 3;
  average_entry_price = of_ℕ 50;
  unrealized_pnl_usd = zero_d;
  side = OpportunitySide.long;
}

abbrev snapshot : PortfolioSnapshot
snapshot = record {
  balances = [];
  positions = held ∷ [];
  equity_usd = of_ℕ 1000;
  peak_equity_usd = some (of_ℕ 1050);
  daily_realized_pnl_usd = zero_d;
  open_position_count = 1;
}

abbrev context : RiskContext
context = record {
  exchange_healthy = true;
  market_data_age_ms = some (of_ℕ 40);
  estimated_slippage_pct = zero_d;
  execution_latency_ms = none;
  liquidity_base = some (of_ℕ 5);
  reference_price = some (of_ℕ 100);
  current_price = some (of_ℕ 101);
}

abbrev engine : RiskEngine
engine = record { kill_switch = new_kill_switch; trade_timestamps = of_ℕ 10 ∷ of_ℕ 90 ∷ [] }

abbrev clock : Now
clock = record { wall = 500; monotonic = of_ℕ 100 }

-- The engine answers the trade with an approval.
approves : is_approved (evaluate settings clock trade profit snapshot context engine).1 ≡ true
unfolding evaluate first_checks first_rejection kill_switch_gate update_conditions allows_new_orders
    leverage_gate profitable_gate net_profit_gate health_gate stale_gate latency_gate slippage_gate
    liquidity_gate depth_gate price_gate price_move daily_loss_gate daily_loss daily_loss_limit
    drawdown_gate drawdown_fraction peak_equity positions_gate max_open_positions last_checks
    rate_gate prune prune_from size_gate percent_gate exposure_gate evaluate_limits trade_notional
    max_notional_by_percent remaining_capacity max_total_exposure gross_exposure_usd exposure_from
    per_trade_cap approved mul div min_ℤ max_ℤ abs_ℤ ◌+ℤ◌ ◌-ℤ◌
approves = refl

evaluate_approves_example :
    (is_approved (evaluate settings clock trade profit snapshot context engine).1 ≡ true) ↔ (
      IsFit settings trade profit snapshot context KillSwitchState.running
      × IsWithin settings trade snapshot (prune clock (of_ℕ 10 ∷ of_ℕ 90 ∷ [])))
evaluate_approves_example = evaluate_approves settings clock trade profit snapshot context engine

evaluate_rate_example :
    (count_since (of_ℕ 100 -ℤ of_ℕ 60) (of_ℕ 10 ∷ of_ℕ 90 ∷ []) < 2)
    × (length (evaluate settings clock trade profit snapshot context engine).0.trade_timestamps ≤ 2)
evaluate_rate_example =
    evaluate_rate settings clock trade profit snapshot context engine
      (((omega arith, tt), (tt, tt))) approves

evaluate_exposure_example :
    gross_exposure_usd snapshot +ℤ trade_notional trade ≤ℤ max_total_exposure settings (of_ℕ 1000)
unfolding trade_notional mul
evaluate_exposure_example =
    evaluate_exposure settings clock trade profit snapshot context engine approves (omega arith)

evaluate_blocked_example :
    let (e', d) =
      evaluate settings clock trade profit snapshot context
        (record engine { kill_switch = paused_switch }) in
    (d.status ≡ RiskDecisionStatus.rejected)
    × (d.rejection_reason ≡ some RiskRejectReason.kill_switch)
    × (e'.trade_timestamps ≡ (of_ℕ 10 ∷ of_ℕ 90 ∷ []))
    × (allows_new_orders e'.kill_switch ≡ false)
unfolding allows_new_orders
evaluate_blocked_example =
    evaluate_blocked settings clock trade profit snapshot context
      (record engine { kill_switch = paused_switch }) refl
