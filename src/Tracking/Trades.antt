-- ===== src/Tracking/Trades.antt =====
-- `PerformanceTracker.record_execution`: the trade that comes of an opportunity.
use moreney.Prelude.{
  ℕ, ◌+◌, Bool, true, false, ◌||◌, Option, none, some, List, [], ◌∷◌, ◌++◌, if◌then◌else◌, nat_eq,
}
use moreney.Prelude.Int.{◌+ℤ◌, ◌-ℤ◌, ltb_ℤ, leb_ℤ, abs_ℤ}
use moreney.Decimal.{Decimal, zero_d, mul, is_pos}
use moreney.Core.Enums.{OpportunityLifecycleStatus, OrderStatus}
use moreney.Core.Text.{str_instance}
use moreney.Execution.Executor.{ExecutionResult}
use moreney.Portfolio.Models.{Fill, gross_value}
use moreney.Tracking.Models.{TrackedOpportunity, StrategyStats, ExchangePairStats, HourlyStats}
use moreney.Tracking.Tracker.{
  Tracker, TradeRow, hour_of, on_strategy, on_pair, on_hour, find_tracked, save,
}

-- `sum(... for f in fills)`
abbrev pub sum_fills : (Fill → Decimal) → List Fill → Decimal
sum_fills f [] = zero_d
sum_fills f (x ∷ xs) = f x +ℤ sum_fills f xs

-- `_estimate_realized`
unfoldable pub estimate_realized : TrackedOpportunity → List Fill → Option Decimal
estimate_realized x fills = elim x.metadata.sell_vwap [
  | none ↦ none
  | some vwap ↦
      let quantity = sum_fills (λ f. f.quantity) fills in
      if leb_ℤ quantity zero_d
      then none
      else some (
          mul vwap quantity
          -ℤ sum_fills gross_value fills
          -ℤ sum_fills (λ f. f.fee) fills
          -ℤ sum_fills (λ f. f.slippage) fills)
]

abbrev pub count_if : Bool → ℕ → ℕ
count_if b n = if b then n + 1 else n

abbrev pub add_if : Bool → Decimal → Decimal → Decimal
add_if b amount total = if b then total +ℤ amount else total

-- What `_register_trade` adds to the statistics of a strategy, of a pair and of an hour.
abbrev pub strategy_trade : TrackedOpportunity → Decimal → StrategyStats → StrategyStats
strategy_trade x realized s = record s {
  trades = s.trades + 1;
  net_pnl = s.net_pnl +ℤ realized;
  fees = s.fees +ℤ x.fees;
  slippage = s.slippage +ℤ x.slippage;
  winning_trades = count_if (is_pos realized) s.winning_trades;
  losing_trades = count_if (ltb_ℤ realized zero_d) s.losing_trades;
  gross_wins = add_if (is_pos realized) realized s.gross_wins;
  gross_losses = add_if (ltb_ℤ realized zero_d) (abs_ℤ realized) s.gross_losses;
}

abbrev pub pair_trade : TrackedOpportunity → Decimal → ExchangePairStats → ExchangePairStats
pair_trade x realized s = record s {
  trades = s.trades + 1;
  net_pnl = s.net_pnl +ℤ realized;
  fees = s.fees +ℤ x.fees;
  slippage = s.slippage +ℤ x.slippage;
  winning_trades = count_if (is_pos realized) s.winning_trades;
}

abbrev pub hour_trade : Decimal → HourlyStats → HourlyStats
hour_trade realized s = record s {
  trades = s.trades + 1;
  net_pnl = s.net_pnl +ℤ realized;
  winning_trades = count_if (is_pos realized) s.winning_trades;
}

abbrev pub closed : TrackedOpportunity → Decimal → TrackedOpportunity
closed x realized = record x {
  status =
      if is_pos realized
      then OpportunityLifecycleStatus.profitable
      else OpportunityLifecycleStatus.unprofitable;
}

abbrev pub row_of : TrackedOpportunity → Decimal → TradeRow
row_of x realized = record { opportunity = closed x realized; realized_net_profit = realized }

-- `_register_trade`, on the opportunity that holds its fees and its realized profit.
unfoldable pub register_trade : ℕ → TrackedOpportunity → Decimal → Tracker → Tracker
register_trade place x realized t = on_hour (hour_of x.timestamp) (hour_trade realized) (
    on_pair x (pair_trade x realized) (
      on_strategy x.strategy (strategy_trade x realized) (
        save place (closed x realized) (record t {
          trade_pnls = t.trade_pnls ++ (realized ∷ []);
          realized_pnl = t.realized_pnl +ℤ realized;
          gross_pnl = t.gross_pnl +ℤ x.gross_profit;
          trades = t.trades ++ (row_of x realized ∷ []);
        }))))

-- Membership of `{REJECTED, FAILED, CANCELLED}`
abbrev pub is_failed : OrderStatus → Bool
is_failed OrderStatus.rejected = true
is_failed OrderStatus.failed = true
is_failed OrderStatus.cancelled = true
is_failed _ = false

-- The counters that each execution raises.
abbrev pub count_execution : ExecutionResult → TrackedOpportunity → Tracker → Tracker
count_execution e x t =
    on_pair x (λ s. record s { executed = s.executed + 1 })
      (on_strategy x.strategy (λ s. record s { executions = s.executions + 1 })
        (record t { executed = t.executed + 1 }))

-- The branch for an execution that filled nothing.
unfoldable pub execution_failed : Bool → ℕ → TrackedOpportunity → Tracker → Tracker
execution_failed failed place x t =
    let t1 = save place (record x { status = OpportunityLifecycleStatus.executed }) t in
    if failed
    then on_pair x (λ s. record s { execution_failures = s.execution_failures + 1 })
        (record t1 { execution_failures = t1.execution_failures + 1 })
    else t1

-- The estimate, or else the difference of the equities if both are known.
abbrev pub realized_or : Option Decimal → Option Decimal → Option Decimal → Option Decimal
realized_or (some r) before after = some r
realized_or none none after = none
realized_or none (some b) none = none
realized_or none (some b) (some a) = some (a -ℤ b)

-- The branch for an execution that filled something.
unfoldable pub execution_filled :
    List Fill → Option Decimal → Option Decimal → ℕ → TrackedOpportunity → Tracker → Tracker
execution_filled fills before after place x t =
    let fees = sum_fills (λ f. f.fee) fills in
    let slippage = sum_fills (λ f. f.slippage) fills in
    let filled = record x {
      fees = if is_pos fees then fees else x.fees;
      slippage = if is_pos slippage then slippage else x.slippage;
      status = OpportunityLifecycleStatus.filled;
    } in
    let t1 = record t {
      fees = t.fees +ℤ fees;
      slippage = t.slippage +ℤ slippage;
      trading_volume = t.trading_volume +ℤ sum_fills gross_value fills;
    } in
    elim (realized_or (estimate_realized x fills) before after) [
      | none ↦ save place filled t1
      | some r ↦ register_trade place (record filled { realized_net_profit = some r }) r t1
    ]

-- `record_execution` on the tracked opportunity
unfoldable pub book_execution :
    ExecutionResult
    → List Fill
    → Option Decimal
    → Option Decimal
    → ℕ
    → TrackedOpportunity
    → Tracker
    → Tracker
book_execution e fills before after place x t =
    let executed = record x { execution_result = some e.status; order_id = some e.order_id } in
    let t1 = count_execution e x t in
    if is_failed e.status || leb_ℤ e.filled_quantity zero_d
    then execution_failed (is_failed e.status) place executed t1
    else execution_filled fills before after place executed t1

unfoldable pub record_execution :
    ℕ → ExecutionResult → List Fill → Option Decimal → Option Decimal → Tracker → Tracker
record_execution id e fills before after t = elim (find_tracked id t) [
  | none ↦ t
  | some (place, x) ↦ book_execution e fills before after place x t
]
