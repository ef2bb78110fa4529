-- ===== src/Tracking/Tally.antt =====
-- The totals by strategy, by pair of exchanges and by hour against the tracker's own counts.
use moreney.Prelude.{
  ℕ, ◌+◌, ◌≤◌, ◌≡◌, refl, Bool, List, [], ◌∷◌, ◌++◌, length, keep_if, arith, nat_eq,
}
use moreney.Prelude.Dict.{Dict, modify, sum_by, sum_by-modify}
use moreney.Decimal.{Decimal}
use moreney.Core.Text.{Str, str_instance}
use moreney.Tracking.Models.{
  StrategyStats, new_strategy_stats, ExchangePairStats, new_pair_stats, HourlyStats,
  new_hourly_stats,
}
use moreney.Tracking.Tracker.{Tracker}
use moreney.Tracking.Trades.{count_if}
use moreney.Tracking.Sync.{is_win, is_loss}

-- The sums over the strategies, from `d` to `d'`.
pub record StrategyAdds (d' d : Dict Str StrategyStats) (o e t w l : ℕ) : Type 0 where
  pub opportunities : sum_by (λ s. s.opportunities) d' ≡ sum_by (λ s. s.opportunities) d + o
  pub executions : sum_by (λ s. s.executions) d' ≡ sum_by (λ s. s.executions) d + e
  pub trades : sum_by (λ s. s.trades) d' ≡ sum_by (λ s. s.trades) d + t
  pub wins : sum_by (λ s. s.winning_trades) d' ≡ sum_by (λ s. s.winning_trades) d + w
  pub losses : sum_by (λ s. s.losing_trades) d' ≡ sum_by (λ s. s.losing_trades) d + l

pub strategy_adds :
    (name : Str) (g : StrategyStats → StrategyStats) (d : Dict Str StrategyStats) (o e t w l : ℕ)
    → ((s : StrategyStats)
        → ((g s).opportunities ≡ s.opportunities + o)
          × ((g s).executions ≡ s.executions + e)
          × ((g s).trades ≡ s.trades + t)
          × ((g s).winning_trades ≡ s.winning_trades + w)
          × ((g s).losing_trades ≡ s.losing_trades + l))
    → StrategyAdds (modify name (new_strategy_stats name) g d) d o e t w l
strategy_adds name g d o e t w l h =
    let v = new_strategy_stats name in
    record {
      opportunities = sum_by-modify (λ s. s.opportunities) name v g o d refl (λ s. (h s).0);
      executions = sum_by-modify (λ s. s.executions) name v g e d refl (λ s. (h s).1);
      trades = sum_by-modify (λ s. s.trades) name v g t d refl (λ s. (h s).2);
      wins = sum_by-modify (λ s. s.winning_trades) name v g w d refl (λ s. (h s).3);
      losses = sum_by-modify (λ s. s.losing_trades) name v g l d refl (λ s. (h s).4);
    }

-- The sums over the pairs of exchanges.
pub record PairAdds (d' d : Dict Str ExchangePairStats) (o a e t w f : ℕ) : Type 0 where
  pub opportunities : sum_by (λ s. s.opportunities) d' ≡ sum_by (λ s. s.opportunities) d + o
  pub approved : sum_by (λ s. s.approved) d' ≡ sum_by (λ s. s.approved) d + a
  pub executed : sum_by (λ s. s.executed) d' ≡ sum_by (λ s. s.executed) d + e
  pub trades : sum_by (λ s. s.trades) d' ≡ sum_by (λ s. s.trades) d + t
  pub wins : sum_by (λ s. s.winning_trades) d' ≡ sum_by (λ s. s.winning_trades) d + w
  pub failures : sum_by (λ s. s.execution_failures) d' ≡ sum_by (λ s. s.execution_failures) d + f

pub pair_adds :
    (key buy sell : Str) (g : ExchangePairStats → ExchangePairStats)
    (d : Dict Str ExchangePairStats) (o a e t w f : ℕ)
    → ((s : ExchangePairStats)
        → ((g s).opportunities ≡ s.opportunities + o)
          × ((g s).approved ≡ s.approved + a)
          × ((g s).executed ≡ s.executed + e)
          × ((g s).trades ≡ s.trades + t)
          × ((g s).winning_trades ≡ s.winning_trades + w)
          × ((g s).execution_failures ≡ s.execution_failures + f))
    → PairAdds (modify key (new_pair_stats buy sell) g d) d o a e t w f
pair_adds key buy sell g d o a e t w f h =
    let v = new_pair_stats buy sell in
    record {
      opportunities = sum_by-modify (λ s. s.opportunities) key v g o d refl (λ s. (h s).0);
      approved = sum_by-modify (λ s. s.approved) key v g a d refl (λ s. (h s).1);
      executed = sum_by-modify (λ s. s.executed) key v g e d refl (λ s. (h s).2);
      trades = sum_by-modify (λ s. s.trades) key v g t d refl (λ s. (h s).3);
      wins = sum_by-modify (λ s. s.winning_trades) key v g w d refl (λ s. (h s).4);
      failures = sum_by-modify (λ s. s.execution_failures) key v g f d refl (λ s. (h s).5);
    }

-- The sums over the hours.
pub record HourAdds (d' d : Dict ℕ HourlyStats) (o t w : ℕ) : Type 0 where
  pub opportunities : sum_by (λ s. s.opportunities) d' ≡ sum_by (λ s. s.opportunities) d + o
  pub trades : sum_by (λ s. s.trades) d' ≡ sum_by (λ s. s.trades) d + t
  pub wins : sum_by (λ s. s.winning_trades) d' ≡ sum_by (λ s. s.winning_trades) d + w

pub hour_adds :
    (hour : ℕ) (g : HourlyStats → HourlyStats) (d : Dict ℕ HourlyStats) (o t w : ℕ)
    → ((s : HourlyStats)
        → ((g s).opportunities ≡ s.opportunities + o)
          × ((g s).trades ≡ s.trades + t)
          × ((g s).winning_trades ≡ s.winning_trades + w))
    → HourAdds (modify hour (new_hourly_stats hour) g d) d o t w
hour_adds hour g d o t w h =
    let v = new_hourly_stats hour in
    record {
      opportunities = sum_by-modify (λ s. s.opportunities) hour v g o d refl (λ s. (h s).0);
      trades = sum_by-modify (λ s. s.trades) hour v g t d refl (λ s. (h s).1);
      wins = sum_by-modify (λ s. s.winning_trades) hour v g w d refl (λ s. (h s).2);
    }

-- One more trade is one more win, or loss, if it is one.
pub count_if_lem : (b : Bool) (n : ℕ) → count_if b n ≡ n + count_if b 0
count_if_lem b n = ground arith

pub length-keep_if :
    (p : Decimal → Bool) (xs : List Decimal) (x : Decimal)
    → length (keep_if p (xs ++ (x ∷ []))) ≡ length (keep_if p xs) + count_if (p x) 0
length-keep_if p [] x = ground arith
length-keep_if p (y ∷ xs) x = ground (arith, length-keep_if p xs x)

-- Every detection, execution and trade is counted once by strategy, by pair and by hour; a trade has
-- a row and comes from an execution that did not fail.
pub record IsTallied (t : Tracker) : Type 0 where
  pub detected_strategies : sum_by (λ s. s.opportunities) t.strategies ≡ length t.opportunities
  pub detected_pairs : sum_by (λ s. s.opportunities) t.pairs ≡ length t.opportunities
  pub detected_hours : sum_by (λ s. s.opportunities) t.hourly ≡ length t.opportunities
  pub approved_pairs : sum_by (λ s. s.approved) t.pairs ≡ t.approved
  pub executed_strategies : sum_by (λ s. s.executions) t.strategies ≡ t.executed
  pub executed_pairs : sum_by (λ s. s.executed) t.pairs ≡ t.executed
  pub failed_pairs : sum_by (λ s. s.execution_failures) t.pairs ≡ t.execution_failures
  pub traded_strategies : sum_by (λ s. s.trades) t.strategies ≡ length t.trade_pnls
  pub traded_pairs : sum_by (λ s. s.trades) t.pairs ≡ length t.trade_pnls
  pub traded_hours : sum_by (λ s. s.trades) t.hourly ≡ length t.trade_pnls
  pub rows : length t.trades ≡ length t.trade_pnls
  pub won_strategies :
      sum_by (λ s. s.winning_trades) t.strategies ≡ length (keep_if is_win t.trade_pnls)
  pub won_pairs : sum_by (λ s. s.winning_trades) t.pairs ≡ length (keep_if is_win t.trade_pnls)
  pub won_hours : sum_by (λ s. s.winning_trades) t.hourly ≡ length (keep_if is_win t.trade_pnls)
  pub lost_strategies :
      sum_by (λ s. s.losing_trades) t.strategies ≡ length (keep_if is_loss t.trade_pnls)
  pub traded_within : length t.trade_pnls + t.execution_failures ≤ t.executed
