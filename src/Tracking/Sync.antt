-- ===== src/Tracking/Sync.antt =====
-- `PerformanceTracker.sync_portfolio` and `snapshot`: equity, drawdown, days and the report.
use moreney.Prelude.{
  ℕ, Bool, Option, none, some, List, [], ◌∷◌, if◌then◌else◌, keep_if, length, leb, nat_eq,
}
use moreney.Prelude.Int.{◌+ℤ◌, ◌-ℤ◌, ltb_ℤ, min_ℤ, max_ℤ, abs_ℤ}
use moreney.Prelude.Dict.{Dict, lookup, insert}
use moreney.Decimal.{Decimal, of_ℕ, zero_d, hundred, mul, div, is_pos, is_zero}
use moreney.Portfolio.Models.{total_equity}
use moreney.Portfolio.Paper.{PaperPortfolio}
use moreney.Tracking.Models.{DailyStats, new_daily_stats, PerformanceSnapshot}
use moreney.Tracking.Tracker.{Tracker}

abbrev pub is_win : Decimal → Bool
is_win p = is_pos p

abbrev pub is_loss : Decimal → Bool
is_loss p = ltb_ℤ p zero_d

abbrev pub larger : Decimal → Decimal → Decimal
larger a b = if ltb_ℤ a b then b else a

-- The day with the greatest date.
unfoldable pub last_day : Dict ℕ DailyStats → Option DailyStats
last_day [] = none
last_day ((date, day) ∷ days) = elim (last_day days) [
  | none ↦ some day
  | some later ↦ if leb date later.date then some later else some day
]

-- The day that `_roll_daily` opens: it starts from the end of the last one.
abbrev pub opening_equity : Tracker → Decimal → Decimal
opening_equity t equity =
    let start : Decimal = elim (last_day t.daily) [
      | none ↦ t.starting_equity
      | some d ↦ d.ending_equity
    ] in
    if is_zero start then equity else start

-- The figures of the day, at an equity.
unfoldable pub fill_day : Tracker → Decimal → DailyStats → DailyStats
fill_day t equity d =
    let net = equity -ℤ d.starting_equity in
    record d {
      ending_equity = equity;
      fees = t.fees;
      slippage = t.slippage;
      gross_pnl = t.gross_pnl;
      net_pnl = net;
      return_pct =
          if is_pos d.starting_equity
          then mul (div net d.starting_equity) hundred
          else d.return_pct;
      trades = length t.trade_pnls;
      wins = length (keep_if is_win t.trade_pnls);
      losses = length (keep_if is_loss t.trade_pnls);
      maximum_drawdown = t.maximum_drawdown;
    }

-- `_roll_daily`
unfoldable pub roll_daily : ℕ → Decimal → Tracker → Tracker
roll_daily today equity t = elim (lookup today t.daily) [
  | some d ↦ record t { daily = insert today (fill_day t equity d) t.daily }
  | none ↦
      let start = opening_equity t equity in
      record t {
        day_starting_equity = start;
        daily = insert today (fill_day t equity (new_daily_stats today start equity)) t.daily;
      }
]

-- `sync_portfolio`
unfoldable pub sync_portfolio : ℕ → PaperPortfolio → Tracker → Tracker
sync_portfolio today p t =
    let s = p.state in
    let equity = total_equity s in
    let peak = larger t.peak_equity equity in
    let drawdown = if is_pos peak then div (peak -ℤ equity) peak else zero_d in
    roll_daily today equity (record t {
      current_equity = equity;
      unrealized_pnl = s.stats.unrealized_pnl;
      fees = larger t.fees s.stats.fees_paid;
      trading_volume = larger t.trading_volume s.stats.total_trading_volume;
      realized_pnl = (elim t.trade_pnls [
        | [] ↦ (if is_zero s.stats.realized_pnl then t.realized_pnl else s.stats.realized_pnl)
        | _ ∷ _ ↦ t.realized_pnl
      ]);
      peak_equity = peak;
      current_drawdown = drawdown;
      maximum_drawdown = larger (larger t.maximum_drawdown drawdown) s.stats.maximum_drawdown;
    })

abbrev pub sum_d : List Decimal → Decimal
sum_d [] = zero_d
sum_d (x ∷ xs) = x +ℤ sum_d xs

-- `max` and `min`, or else zero for an empty list.
abbrev pub largest_of : List Decimal → Decimal
largest_of [] = zero_d
largest_of (x ∷ []) = x
largest_of (x ∷ y ∷ ys) = max_ℤ x (largest_of (y ∷ ys))

abbrev pub smallest_of : List Decimal → Decimal
smallest_of [] = zero_d
smallest_of (x ∷ []) = x
smallest_of (x ∷ y ∷ ys) = min_ℤ x (smallest_of (y ∷ ys))

-- The mean, or else zero for an empty list.
abbrev pub mean_of : List Decimal → Decimal
mean_of [] = zero_d
mean_of (x ∷ xs) = div (sum_d (x ∷ xs)) (of_ℕ (length (x ∷ xs)))

-- The share of the wins among the trades.
unfoldable pub win_rate_of : ℕ → ℕ → Decimal
win_rate_of wins trades = if leb trades 0 then zero_d else div (of_ℕ wins) (of_ℕ trades)

-- No losses leave no factor if there are wins, and zero otherwise.
unfoldable pub profit_factor_of : Decimal → Decimal → Option Decimal
profit_factor_of wins losses =
    if is_zero losses then (if is_pos wins then none else some zero_d) else some (div wins losses)

unfoldable pub snapshot : Tracker → PerformanceSnapshot
snapshot t =
    let wins = keep_if is_win t.trade_pnls in
    let losses = keep_if is_loss t.trade_pnls in
    let net = t.current_equity -ℤ t.starting_equity in
    record {
      starting_equity = t.starting_equity;
      current_equity = t.current_equity;
      realized_pnl = t.realized_pnl;
      unrealized_pnl = t.unrealized_pnl;
      gross_pnl = if is_zero t.gross_pnl then net +ℤ t.fees +ℤ t.slippage else t.gross_pnl;
      fees = t.fees;
      slippage = t.slippage;
      net_pnl = net;
      return_pct =
          if is_pos t.starting_equity then mul (div net t.starting_equity) hundred else zero_d;
      trade_count = length t.trade_pnls;
      winning_trades = length wins;
      losing_trades = length losses;
      win_rate = win_rate_of (length wins) (length t.trade_pnls);
      average_win = mean_of wins;
      average_loss = mean_of losses;
      largest_win = largest_of wins;
      largest_loss = smallest_of losses;
      profit_factor = profit_factor_of (sum_d wins) (abs_ℤ (sum_d losses));
      current_drawdown = t.current_drawdown;
      maximum_drawdown = t.maximum_drawdown;
      trading_volume = t.trading_volume;
      total_opportunities = length t.opportunities;
      approved_opportunities = t.approved;
      rejected_opportunities = t.rejected;
      executed_opportunities = t.executed;
      execution_failures = t.execution_failures;
      pairs_evaluated = t.pairs_evaluated;
      depth_edges_found = t.depth_edges_found;
      scan_rejections = t.scan_rejections;
    }
