-- ===== src/Tracking/Reach.antt =====
-- The tracker after any calls, in any order.
use moreney.Prelude.{
  ℕ, ◌≡◌, refl, Option, List, [], ◌∷◌, length-append, length-modify_at, arith, if_rule, option_rule,
  ◌||◌, nat_eq,
}
use moreney.Prelude.Int.{leb_ℤ}
use moreney.Prelude.Dict.{lookup}
use moreney.Decimal.{Decimal, zero_d}
use moreney.Core.Models.{TradeOpportunity}
use moreney.Execution.Executor.{ExecutionResult}
use moreney.Portfolio.Models.{Fill}
use moreney.Portfolio.Paper.{PaperPortfolio}
use moreney.Profitability.NetProfit.{ProfitabilityResult}
use moreney.Risk.Models.{RiskDecision}
use moreney.Strategies.Scan.{Scan}
use moreney.Tracking.Models.{TrackedOpportunity}
use moreney.Tracking.Tracker.{
  Tracker, new_tracker, hour_of, pair_key, record_detected, record_scan_stats, find_tracked,
  record_risk,
}
use moreney.Tracking.Trades.{
  count_if, strategy_trade, pair_trade, hour_trade, closed, row_of, estimate_realized,
  register_trade, is_failed, realized_or, execution_filled, book_execution, record_execution,
}
use moreney.Tracking.Sync.{is_win, is_loss, roll_daily, sync_portfolio}
use moreney.Tracking.Tally.{
  strategy_adds, pair_adds, hour_adds, count_if_lem, length-keep_if, IsTallied,
}
use moreney.Tracking.Counts.{
  counts_of, counts_of-IsTallied, counts_of-save, IsPending, new_tracker-IsTallied,
  record_detected-IsTallied, judge-IsTallied, count_execution-IsPending, execution_failed-IsTallied,
}

register_trade-IsTallied :
    (place : ℕ) (x : TrackedOpportunity) (r : Decimal) (t : Tracker)
    → IsPending t
    → IsTallied (register_trade place x r t)
unfolding register_trade
register_trade-IsTallied place x r t pending =
    let v = pending.tallied in
    let won = is_win r in
    let s =
      strategy_adds x.strategy (strategy_trade x r) t.strategies 0 0 1 (count_if won 0)
        (count_if (is_loss r) 0)
        (λ s. (
          omega arith,
          omega arith,
          refl,
          count_if_lem won s.winning_trades,
          count_if_lem (is_loss r) s.losing_trades,
        )) in
    let p =
      pair_adds (pair_key x.buy_exchange x.sell_exchange) x.buy_exchange x.sell_exchange
        (pair_trade x r) t.pairs 0 0 0 1 (count_if won 0) 0
        (λ s. (
          omega arith,
          omega arith,
          omega arith,
          refl,
          count_if_lem won s.winning_trades,
          omega arith,
        )) in
    let h =
      hour_adds (hour_of x.timestamp) (hour_trade r) t.hourly 0 1 (count_if won 0)
        (λ s. (omega arith, refl, count_if_lem won s.winning_trades)) in
    let more = length-append t.trade_pnls (r ∷ []) in
    let wins = length-keep_if is_win t.trade_pnls r in
    let stays = length-modify_at (λ _. closed x r) t.opportunities place in
    record {
      detected_strategies = omega (arith, v.detected_strategies, s.opportunities, stays);
      detected_pairs = omega (arith, v.detected_pairs, p.opportunities, stays);
      detected_hours = omega (arith, v.detected_hours, h.opportunities, stays);
      approved_pairs = omega (arith, v.approved_pairs, p.approved);
      executed_strategies = omega (arith, v.executed_strategies, s.executions);
      executed_pairs = omega (arith, v.executed_pairs, p.executed);
      failed_pairs = omega (arith, v.failed_pairs, p.failures);
      traded_strategies = omega (arith, v.traded_strategies, s.trades, more);
      traded_pairs = omega (arith, v.traded_pairs, p.trades, more);
      traded_hours = omega (arith, v.traded_hours, h.trades, more);
      rows = omega (arith, v.rows, length-append t.trades (row_of x r ∷ []), more);
      won_strategies = omega (arith, v.won_strategies, s.wins, wins);
      won_pairs = omega (arith, v.won_pairs, p.wins, wins);
      won_hours = omega (arith, v.won_hours, h.wins, wins);
      lost_strategies =
          omega (arith, v.lost_strategies, s.losses, length-keep_if is_loss t.trade_pnls r);
      traded_within = omega (arith, pending.unsettled, more);
    }

-- An execution that filled something is pending before and after its sums are added.
execution_filled-IsTallied :
    (fills : List Fill) (before after : Option Decimal) (place : ℕ) (x : TrackedOpportunity)
    (t : Tracker)
    → IsPending t
    → IsTallied (execution_filled fills before after place x t)
unfolding execution_filled
execution_filled-IsTallied fills before after place x t pending =
    option_rule IsTallied (realized_or (estimate_realized x fills) before after)
      (λ _. counts_of-IsTallied _ t (counts_of-save place _ t) pending.tallied)
      λ r _. register_trade-IsTallied place _ r _ (record {
        tallied = counts_of-IsTallied _ t refl pending.tallied;
        unsettled = pending.unsettled;
      })

book_execution-IsTallied :
    (e : ExecutionResult) (fills : List Fill) (before after : Option Decimal) (place : ℕ)
    (x : TrackedOpportunity) (t : Tracker)
    → IsTallied t
    → IsTallied (book_execution e fills before after place x t)
unfolding book_execution
book_execution-IsTallied e fills before after place x t v =
    let pending = count_execution-IsPending e x t v in
    if_rule IsTallied (is_failed e.status || leb_ℤ e.filled_quantity zero_d)
      (λ _. execution_failed-IsTallied (is_failed e.status) place _ _ pending)
      (λ _. execution_filled-IsTallied fills before after place _ _ pending)

sync_portfolio-counts_of :
    (today : ℕ) (p : PaperPortfolio) (t : Tracker)
    → counts_of (sync_portfolio today p t) ≡ counts_of t
unfolding sync_portfolio roll_daily
sync_portfolio-counts_of today p t =
    option_rule (λ x. counts_of x ≡ counts_of t) (lookup today t.daily) (λ _. refl) (λ _ _. refl)

-- The calls that change a tracker.
pub data TrackerCall : Type 0 where
  detects : ℕ → TradeOpportunity → Option ProfitabilityResult → TrackerCall
  scans : Scan → TrackerCall
  judges : ℕ → RiskDecision → TrackerCall
  executes : ℕ → ExecutionResult → List Fill → Option Decimal → Option Decimal → TrackerCall
  syncs : ℕ → PaperPortfolio → TrackerCall
  resets : Decimal → TrackerCall

unfoldable pub call : TrackerCall → Tracker → Tracker
call (TrackerCall.detects created_at o r) t = record_detected created_at o r t
call (TrackerCall.scans s) t = record_scan_stats s t
call (TrackerCall.judges id d) t = record_risk id d t
call (TrackerCall.executes id e fills before after) t = record_execution id e fills before after t
call (TrackerCall.syncs today p) t = sync_portfolio today p t
call (TrackerCall.resets equity) t = new_tracker equity

call-IsTallied : (c : TrackerCall) (t : Tracker) → IsTallied t → IsTallied (call c t)
unfolding call record_scan_stats record_risk record_execution
call-IsTallied (TrackerCall.detects created_at o r) t v =
    record_detected-IsTallied created_at o r t v
call-IsTallied (TrackerCall.scans s) t v = counts_of-IsTallied _ t refl v
call-IsTallied (TrackerCall.judges id d) t v =
    option_rule IsTallied (find_tracked id t) (λ _. v)
      (λ (place, x) _. judge-IsTallied place x d t v)
call-IsTallied (TrackerCall.executes id e fills before after) t v =
    option_rule IsTallied (find_tracked id t) (λ _. v)
      (λ (place, x) _. book_execution-IsTallied e fills before after place x t v)
call-IsTallied (TrackerCall.syncs today p) t v =
    counts_of-IsTallied _ t (sync_portfolio-counts_of today p t) v
call-IsTallied (TrackerCall.resets equity) t v = new_tracker-IsTallied equity

-- What a tracker can be after its calls.
pub data Reached : Tracker → Type 0 where
  started : (equity : Decimal) → Reached (new_tracker equity)
  called : {t : Tracker} (c : TrackerCall) → Reached t → Reached (call c t)

-- After any calls, in any order, every detection and trade of a tracker is counted once by strategy,
-- by pair of exchanges and by hour, every execution by strategy and by pair, the wins and losses of the strategies are those of
-- the list of trades, each trade has a row, and trades and failures together are no more than the
-- executions.
pub Reached-IsTallied : {t : Tracker} → Reached t → IsTallied t
Reached-IsTallied (started equity) = new_tracker-IsTallied equity
Reached-IsTallied (called {t} c r) = call-IsTallied c t (Reached-IsTallied r)
