-- ===== src/Tracking/Counts.antt =====
-- Every call of the tracker keeps its tallies.
use moreney.Prelude.{
  ℕ, ◌+◌, ◌≤◌, ◌≡◌, refl, ap, Bool, true, false, Option, List, [], ◌∷◌, length, length-append,
  length-modify_at, arith, if_rule,
}
use moreney.Prelude.Dict.{Dict}
use moreney.Core.Text.{Str}
use moreney.Decimal.{Decimal}
use moreney.Core.Enums.{OpportunityLifecycleStatus}
use moreney.Core.Models.{TradeOpportunity}
use moreney.Execution.Executor.{ExecutionResult}
use moreney.Profitability.NetProfit.{ProfitabilityResult}
use moreney.Risk.Models.{RiskDecision, is_approved}
use moreney.Tracking.Models.{TrackedOpportunity, StrategyStats, ExchangePairStats, HourlyStats}
use moreney.Tracking.Tracker.{
  Tracker, TradeRow, hours, new_tracker, hour_of, pair_key, on_pair, save, track, record_detected,
  judge,
}
use moreney.Tracking.Trades.{count_execution, execution_failed}
use moreney.Tracking.Tally.{strategy_adds, pair_adds, hour_adds, IsTallied}

pub new_tracker-IsTallied : (equity : Decimal) → IsTallied (new_tracker equity)
unfolding new_tracker hours
new_tracker-IsTallied equity = record {
  detected_strategies = refl;
  detected_pairs = refl;
  detected_hours = omega arith;
  approved_pairs = refl;
  executed_strategies = refl;
  executed_pairs = refl;
  failed_pairs = refl;
  traded_strategies = refl;
  traded_pairs = refl;
  traded_hours = omega arith;
  rows = refl;
  won_strategies = refl;
  won_pairs = refl;
  won_hours = omega arith;
  lost_strategies = refl;
  traded_within = omega arith;
}

pub record_detected-IsTallied :
    (created_at : ℕ) (o : TradeOpportunity) (r : Option ProfitabilityResult) (t : Tracker)
    → IsTallied t
    → IsTallied (record_detected created_at o r t)
unfolding record_detected
record_detected-IsTallied created_at o r t v =
    let x = track created_at o r in
    let s =
      strategy_adds x.strategy (λ s. record s { opportunities = s.opportunities + 1 }) t.strategies
        1 0 0 0 0 (λ s. (refl, omega arith, omega arith, omega arith, omega arith)) in
    let p =
      pair_adds (pair_key x.buy_exchange x.sell_exchange) x.buy_exchange x.sell_exchange
        (λ s. record s { opportunities = s.opportunities + 1 }) t.pairs 1 0 0 0 0 0
        (λ s. (refl, omega arith, omega arith, omega arith, omega arith, omega arith)) in
    let h =
      hour_adds (hour_of x.timestamp) (λ s. record s { opportunities = s.opportunities + 1 })
        t.hourly 1 0 0 (λ s. (refl, omega arith, omega arith)) in
    let more = length-append t.opportunities (x ∷ []) in
    record {
      detected_strategies = omega (arith, v.detected_strategies, s.opportunities, more);
      detected_pairs = omega (arith, v.detected_pairs, p.opportunities, more);
      detected_hours = omega (arith, v.detected_hours, h.opportunities, more);
      approved_pairs = omega (arith, v.approved_pairs, p.approved);
      executed_strategies = omega (arith, v.executed_strategies, s.executions);
      executed_pairs = omega (arith, v.executed_pairs, p.executed);
      failed_pairs = omega (arith, v.failed_pairs, p.failures);
      traded_strategies = omega (arith, v.traded_strategies, s.trades);
      traded_pairs = omega (arith, v.traded_pairs, p.trades);
      traded_hours = omega (arith, v.traded_hours, h.trades);
      rows = v.rows;
      won_strategies = omega (arith, v.won_strategies, s.wins);
      won_pairs = omega (arith, v.won_pairs, p.wins);
      won_hours = omega (arith, v.won_hours, h.wins);
      lost_strategies = omega (arith, v.lost_strategies, s.losses);
      traded_within = v.traded_within;
    }

-- The parts of the tracker that the tallies read.
pub record Counts : Type 0 where
  pub strategies : Dict Str StrategyStats
  pub pairs : Dict Str ExchangePairStats
  pub hourly : Dict ℕ HourlyStats
  pub detected : ℕ
  pub trade_pnls : List Decimal
  pub trades : List TradeRow
  pub approved : ℕ
  pub executed : ℕ
  pub failures : ℕ

abbrev pub counts_of : Tracker → Counts
counts_of t = record {
  strategies = t.strategies;
  pairs = t.pairs;
  hourly = t.hourly;
  detected = length t.opportunities;
  trade_pnls = t.trade_pnls;
  trades = t.trades;
  approved = t.approved;
  executed = t.executed;
  failures = t.execution_failures;
}

pub counts_of-IsTallied : (t' t : Tracker) → counts_of t' ≡ counts_of t → IsTallied t → IsTallied t'
counts_of-IsTallied t' t e v =
    let strategies = ap (λ (c : Counts). c.strategies) e in
    let pairs = ap (λ (c : Counts). c.pairs) e in
    let hourly = ap (λ (c : Counts). c.hourly) e in
    let detected = ap (λ (c : Counts). c.detected) e in
    let trade_pnls = ap (λ (c : Counts). c.trade_pnls) e in
    let trades = ap (λ (c : Counts). c.trades) e in
    let approved = ap (λ (c : Counts). c.approved) e in
    let executed = ap (λ (c : Counts). c.executed) e in
    let failures = ap (λ (c : Counts). c.failures) e in
    record {
      detected_strategies = cc;
      detected_pairs = cc;
      detected_hours = cc;
      approved_pairs = cc;
      executed_strategies = cc;
      executed_pairs = cc;
      failed_pairs = cc;
      traded_strategies = cc;
      traded_pairs = cc;
      traded_hours = cc;
      rows = cc;
      won_strategies = cc;
      won_pairs = cc;
      won_hours = cc;
      lost_strategies = cc;
      traded_within = omega (arith, ap length trade_pnls, executed, failures, v.traded_within);
    }

-- A tracked opportunity that is changed in place leaves the counts.
pub counts_of-save :
    (place : ℕ) (x : TrackedOpportunity) (t : Tracker) → counts_of (save place x t) ≡ counts_of t
counts_of-save place x t =
    ap (λ n. record (counts_of t) { detected = n })
      (length-modify_at (λ _. x) t.opportunities place)

approve-IsTallied :
    (x : TrackedOpportunity) (t : Tracker)
    → IsTallied t
    → IsTallied (
        on_pair x
          (λ s. record s { approved = s.approved + 1 })
          (record t { approved = t.approved + 1 }))
approve-IsTallied x t v =
    let p =
      pair_adds (pair_key x.buy_exchange x.sell_exchange) x.buy_exchange x.sell_exchange
        (λ s. record s { approved = s.approved + 1 }) t.pairs 0 1 0 0 0 0
        (λ s. (omega arith, refl, omega arith, omega arith, omega arith, omega arith)) in
    record {
      detected_strategies = v.detected_strategies;
      detected_pairs = omega (arith, v.detected_pairs, p.opportunities);
      detected_hours = v.detected_hours;
      approved_pairs = omega (arith, v.approved_pairs, p.approved);
      executed_strategies = v.executed_strategies;
      executed_pairs = omega (arith, v.executed_pairs, p.executed);
      failed_pairs = omega (arith, v.failed_pairs, p.failures);
      traded_strategies = v.traded_strategies;
      traded_pairs = omega (arith, v.traded_pairs, p.trades);
      traded_hours = v.traded_hours;
      rows = v.rows;
      won_strategies = v.won_strategies;
      won_pairs = omega (arith, v.won_pairs, p.wins);
      won_hours = v.won_hours;
      lost_strategies = v.lost_strategies;
      traded_within = v.traded_within;
    }

pub judge-IsTallied :
    (place : ℕ) (x : TrackedOpportunity) (d : RiskDecision) (t : Tracker)
    → IsTallied t
    → IsTallied (judge place x d t)
unfolding judge
judge-IsTallied place x d t v =
    let approving =
      on_pair x (λ s. record s { approved = s.approved + 1 })
        (record t { approved = t.approved + 1 }) in
    if_rule IsTallied (is_approved d)
      (λ _.
        counts_of-IsTallied _ approving (counts_of-save place _ approving)
          (approve-IsTallied x t v))
      (λ _. counts_of-IsTallied _ t (counts_of-save place _ t) v)

-- The tallies with an execution that is neither a trade nor a failure yet.
pub record IsPending (t : Tracker) : Type 0 where
  pub tallied : IsTallied t
  pub unsettled : length t.trade_pnls + t.execution_failures + 1 ≤ t.executed

pub count_execution-IsPending :
    (e : ExecutionResult) (x : TrackedOpportunity) (t : Tracker)
    → IsTallied t
    → IsPending (count_execution e x t)
count_execution-IsPending e x t v =
    let s =
      strategy_adds x.strategy (λ s. record s { executions = s.executions + 1 }) t.strategies 0 1 0
        0 0 (λ s. (omega arith, refl, omega arith, omega arith, omega arith)) in
    let p =
      pair_adds (pair_key x.buy_exchange x.sell_exchange) x.buy_exchange x.sell_exchange
        (λ s. record s { executed = s.executed + 1 }) t.pairs 0 0 1 0 0 0
        (λ s. (omega arith, omega arith, refl, omega arith, omega arith, omega arith)) in
    record {
      unsettled = omega (arith, v.traded_within);
      tallied = record {
        detected_strategies = omega (arith, v.detected_strategies, s.opportunities);
        detected_pairs = omega (arith, v.detected_pairs, p.opportunities);
        detected_hours = v.detected_hours;
        approved_pairs = omega (arith, v.approved_pairs, p.approved);
        executed_strategies = omega (arith, v.executed_strategies, s.executions);
        executed_pairs = omega (arith, v.executed_pairs, p.executed);
        failed_pairs = omega (arith, v.failed_pairs, p.failures);
        traded_strategies = omega (arith, v.traded_strategies, s.trades);
        traded_pairs = omega (arith, v.traded_pairs, p.trades);
        traded_hours = v.traded_hours;
        rows = v.rows;
        won_strategies = omega (arith, v.won_strategies, s.wins);
        won_pairs = omega (arith, v.won_pairs, p.wins);
        won_hours = v.won_hours;
        lost_strategies = omega (arith, v.lost_strategies, s.losses);
        traded_within = omega (arith, v.traded_within);
      };
    }

pub execution_failed-IsTallied :
    (failed : Bool) (place : ℕ) (x : TrackedOpportunity) (t : Tracker)
    → IsPending t
    → IsTallied (execution_failed failed place x t)
unfolding execution_failed
execution_failed-IsTallied false place x t v =
    counts_of-IsTallied _ t (counts_of-save place _ t) v.tallied
execution_failed-IsTallied true place x t w =
    let v = w.tallied in
    let p =
      pair_adds (pair_key x.buy_exchange x.sell_exchange) x.buy_exchange x.sell_exchange
        (λ s. record s { execution_failures = s.execution_failures + 1 }) t.pairs 0 0 0 0 0 1
        (λ s. (omega arith, omega arith, omega arith, omega arith, omega arith, refl)) in
    let stays =
      length-modify_at (λ _. record x { status = OpportunityLifecycleStatus.executed })
        t.opportunities place in
    record {
      detected_strategies = omega (arith, v.detected_strategies, stays);
      detected_pairs = omega (arith, v.detected_pairs, p.opportunities, stays);
      detected_hours = omega (arith, v.detected_hours, stays);
      approved_pairs = omega (arith, v.approved_pairs, p.approved);
      executed_strategies = v.executed_strategies;
      executed_pairs = omega (arith, v.executed_pairs, p.executed);
      failed_pairs = omega (arith, v.failed_pairs, p.failures);
      traded_strategies = v.traded_strategies;
      traded_pairs = omega (arith, v.traded_pairs, p.trades);
      traded_hours = v.traded_hours;
      rows = v.rows;
      won_strategies = v.won_strategies;
      won_pairs = omega (arith, v.won_pairs, p.wins);
      won_hours = v.won_hours;
      lost_strategies = v.lost_strategies;
      traded_within = omega (arith, w.unsettled);
    }
