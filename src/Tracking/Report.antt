-- ===== src/Tracking/Report.antt =====
-- The report of a tracker after any calls.
use moreney.Prelude.{
  ℕ, ◌+◌, ◌≤◌, subst, Option, List, [], ◌∷◌, length, keep_if, arith, if_rule, option_rule, leb,
  ◌||◌, nat_eq,
}
use moreney.Prelude.Int.{◌≤ℤ◌, ◌<ℤ◌, leb_ℤ}
use moreney.Prelude.Dict.{lookup}
use moreney.Decimal.{Decimal, of_ℕ, zero_d, one_d, div}
use moreney.Decimal.Rounding.{div_nonneg, div_mono, div_self}
use moreney.Execution.Executor.{ExecutionResult}
use moreney.Portfolio.Models.{Fill}
use moreney.Risk.Models.{is_approved}
use moreney.Portfolio.Paper.{PaperPortfolio}
use moreney.Tracking.Models.{PerformanceSnapshot, TrackedOpportunity}
use moreney.Tracking.Tracker.{
  Tracker, new_tracker, record_detected, record_scan_stats, find_tracked, judge, record_risk,
}
use moreney.Tracking.Trades.{
  register_trade, execution_failed, execution_filled, realized_or, estimate_realized,
  book_execution, record_execution, is_failed,
}
use moreney.Tracking.Sync.{
  is_win, is_loss, larger, roll_daily, sync_portfolio, win_rate_of, snapshot,
}
use moreney.Tracking.Reach.{TrackerCall, call, Reached, started, called, Reached-IsTallied}

keep_if-disjoint :
    (xs : List Decimal) → length (keep_if is_win xs) + length (keep_if is_loss xs) ≤ length xs
keep_if-disjoint [] = omega arith
keep_if-disjoint (x ∷ xs) = ground (arith, keep_if-disjoint xs)

win_rate_of_within :
    (wins trades : ℕ)
    → wins ≤ trades
    → (zero_d ≤ℤ win_rate_of wins trades) × (win_rate_of wins trades ≤ℤ one_d)
unfolding win_rate_of
win_rate_of_within wins trades h =
    if_rule (λ r. (zero_d ≤ℤ r) × (r ≤ℤ one_d)) (leb trades 0) (λ _. (omega arith, omega arith))
      λ some_trades.
        let positive : zero_d <ℤ of_ℕ trades = ground arith in
        (
          div_nonneg (of_ℕ wins) (of_ℕ trades) (omega arith) positive,
          subst (λ r. div (of_ℕ wins) (of_ℕ trades) ≤ℤ r) (div_self (of_ℕ trades) positive)
              (div_mono (of_ℕ wins) (of_ℕ trades) (of_ℕ trades) (omega arith) (omega arith)
                positive),
        )

-- The report's figures fit together.
pub record IsReport (s : PerformanceSnapshot) : Type 0 where
  pub decided : s.winning_trades + s.losing_trades ≤ s.trade_count
  pub settled : s.trade_count + s.execution_failures ≤ s.executed_opportunities
  pub rate_nonneg : zero_d ≤ℤ s.win_rate
  pub rate_le_one : s.win_rate ≤ℤ one_d
  pub within_maximum : s.current_drawdown ≤ℤ s.maximum_drawdown

-- The drawdown of a tracker is at most the greatest that it has seen.
IsDrawn : Tracker → Type 0
IsDrawn t = t.current_drawdown ≤ℤ t.maximum_drawdown

larger_le : (a b c : Decimal) → b ≤ℤ larger (larger a b) c
larger_le a b c = ground arith

sync_portfolio-IsDrawn :
    (today : ℕ) (p : PaperPortfolio) (t : Tracker) → IsDrawn (sync_portfolio today p t)
unfolding sync_portfolio roll_daily IsDrawn
sync_portfolio-IsDrawn today p t =
    option_rule IsDrawn (lookup today t.daily)
      (λ _. larger_le t.maximum_drawdown _ p.state.stats.maximum_drawdown)
      (λ _ _. larger_le t.maximum_drawdown _ p.state.stats.maximum_drawdown)

book_execution-IsDrawn :
    (e : ExecutionResult) (fills : List Fill) (before after : Option Decimal) (place : ℕ)
    (x : TrackedOpportunity) (t : Tracker)
    → IsDrawn t
    → IsDrawn (book_execution e fills before after place x t)
unfolding book_execution execution_failed execution_filled register_trade IsDrawn
book_execution-IsDrawn e fills before after place x t v =
    if_rule IsDrawn (is_failed e.status || leb_ℤ e.filled_quantity zero_d)
      (λ _. if_rule IsDrawn (is_failed e.status) (λ _. v) (λ _. v))
      (λ _.
        option_rule IsDrawn (realized_or (estimate_realized _ fills) before after) (λ _. v)
          (λ _ _. v))

call-IsDrawn : (c : TrackerCall) (t : Tracker) → IsDrawn t → IsDrawn (call c t)
unfolding call record_detected record_scan_stats record_risk judge record_execution new_tracker
    IsDrawn
call-IsDrawn (TrackerCall.detects created_at o r) t v = v
call-IsDrawn (TrackerCall.scans s) t v = v
call-IsDrawn (TrackerCall.judges id d) t v =
    option_rule IsDrawn (find_tracked id t) (λ _. v)
      (λ _ _. if_rule IsDrawn (is_approved d) (λ _. v) (λ _. v))
call-IsDrawn (TrackerCall.executes id e fills before after) t v =
    option_rule IsDrawn (find_tracked id t) (λ _. v)
      (λ (place, x) _. book_execution-IsDrawn e fills before after place x t v)
call-IsDrawn (TrackerCall.syncs today p) t v = sync_portfolio-IsDrawn today p t
call-IsDrawn (TrackerCall.resets equity) t v = omega arith

Reached-IsDrawn : {t : Tracker} → Reached t → IsDrawn t
unfolding IsDrawn new_tracker
Reached-IsDrawn (started equity) = omega arith
Reached-IsDrawn (called {t} c r) = call-IsDrawn c t (Reached-IsDrawn r)

-- The report of a tracker after any calls: winning and losing trades are no more than the trades,
-- trades and failures no more than the executions, the win rate lies between zero and one, and the
-- drawdown is at most the maximum that is reported.
pub snapshot-IsReport : {t : Tracker} → Reached t → IsReport (snapshot t)
unfolding snapshot IsDrawn
snapshot-IsReport {t} r =
    let both = keep_if-disjoint t.trade_pnls in
    let (low, high) =
      win_rate_of_within (length (keep_if is_win t.trade_pnls)) (length t.trade_pnls)
        (omega (arith, both)) in
    record {
      decided = both;
      settled = (Reached-IsTallied r).traded_within;
      rate_nonneg = low;
      rate_le_one = high;
      within_maximum = Reached-IsDrawn r;
    }
