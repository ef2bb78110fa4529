-- ===== src/Tracking/Tracker.antt =====
-- `PerformanceTracker`: the life of an opportunity, from its detection to its trade.
use moreney.Prelude.{
  ℕ, zero, suc, ◌+◌, ◌/◌, ◌%◌, Option, none, some, List, [], ◌∷◌, ◌++◌, if◌then◌else◌, length,
  get_or, get_elem?, modify_at, nat_eq,
}
use moreney.Prelude.Dict.{Dict, lookup, insert, modify}
use moreney.Decimal.{Decimal, zero_d}
use moreney.Core.Enums.{OpportunityLifecycleStatus}
use moreney.Core.Text.{Str, codes, str_instance, upper}
use moreney.Core.Models.{TradeOpportunity}
use moreney.Profitability.NetProfit.{ProfitabilityResult}
use moreney.Risk.Models.{RiskDecision, is_approved}
use moreney.Strategies.Scan.{Scan}
use moreney.Tracking.Models.{
  TrackedOpportunity, StrategyStats, new_strategy_stats, ExchangePairStats, new_pair_stats,
  HourlyStats, new_hourly_stats, DailyStats,
}

-- A row of `_trades`.
pub record TradeRow : Type 0 where
  pub opportunity : TrackedOpportunity
  pub realized_net_profit : Decimal

-- `_by_id` and `_opportunities` share their objects: the index maps an id to a place in the list.
pub record Tracker : Type 0 where
  pub starting_equity : Decimal
  pub peak_equity : Decimal
  pub current_equity : Decimal
  pub realized_pnl : Decimal
  pub unrealized_pnl : Decimal
  pub gross_pnl : Decimal
  pub fees : Decimal
  pub slippage : Decimal
  pub trading_volume : Decimal
  pub trade_pnls : List Decimal
  pub current_drawdown : Decimal
  pub maximum_drawdown : Decimal
  pub opportunities : List TrackedOpportunity
  pub by_id : Dict ℕ ℕ
  pub trades : List TradeRow
  pub strategies : Dict Str StrategyStats
  pub pairs : Dict Str ExchangePairStats
  pub hourly : Dict ℕ HourlyStats
  pub daily : Dict ℕ DailyStats
  pub day_starting_equity : Decimal
  pub approved : ℕ
  pub rejected : ℕ
  pub executed : ℕ
  pub execution_failures : ℕ
  pub pairs_evaluated : ℕ
  pub depth_edges_found : ℕ
  pub scan_rejections : ℕ
  pub reject_counts : Dict Str ℕ

-- The buckets of so many hours, from the last one on.
unfoldable pub hours : ℕ → ℕ → Dict ℕ HourlyStats
hours hour zero = []
hours hour (suc n) = (hour, new_hourly_stats hour) ∷ hours (hour + 1) n

-- `__init__`, and so `reset`
unfoldable pub new_tracker : Decimal → Tracker
new_tracker equity = record {
  starting_equity = equity;
  peak_equity = equity;
  current_equity = equity;
  realized_pnl = zero_d;
  unrealized_pnl = zero_d;
  gross_pnl = zero_d;
  fees = zero_d;
  slippage = zero_d;
  trading_volume = zero_d;
  trade_pnls = [];
  current_drawdown = zero_d;
  maximum_drawdown = zero_d;
  opportunities = [];
  by_id = [];
  trades = [];
  strategies = [];
  pairs = [];
  hourly = hours 0 24;
  daily = [];
  day_starting_equity = equity;
  approved = 0;
  rejected = 0;
  executed = 0;
  execution_failures = 0;
  pairs_evaluated = 0;
  depth_edges_found = 0;
  scan_rejections = 0;
  reject_counts = [];
}

-- The hour of a timestamp in UTC.
abbrev pub hour_of : ℕ → ℕ
hour_of timestamp = timestamp / 3600000 % 24

-- f"{buy}->{sell}"
abbrev pub pair_key : Str → Str → Str
pair_key buy sell = buy ++ (codes "->" ++ sell)

-- `_strategy(name)` and `_pair(buy, sell)`, with a change of the statistics they return.
abbrev pub on_strategy : Str → (StrategyStats → StrategyStats) → Tracker → Tracker
on_strategy name f t = record t {
  strategies = modify name (new_strategy_stats name) f t.strategies;
}

abbrev pub on_pair :
    TrackedOpportunity → (ExchangePairStats → ExchangePairStats) → Tracker → Tracker
on_pair o f t = record t {
  pairs =
      modify (pair_key o.buy_exchange o.sell_exchange)
        (new_pair_stats o.buy_exchange o.sell_exchange) f t.pairs;
}

-- The bucket of an hour is always there.
abbrev pub on_hour : ℕ → (HourlyStats → HourlyStats) → Tracker → Tracker
on_hour hour f t = record t { hourly = modify hour (new_hourly_stats hour) f t.hourly }

-- The record of a detection, with the figures of the metadata.
abbrev pub track_bare : ℕ → TradeOpportunity → TrackedOpportunity
track_bare created_at o = record {
  id = o.id;
  timestamp = created_at;
  strategy = o.strategy_name;
  symbol = upper o.symbol;
  buy_exchange = get_or o.metadata.buy_exchange [];
  sell_exchange = get_or o.metadata.sell_exchange [];
  quantity = o.quantity;
  gross_profit = get_or o.metadata.gross_profit_eur zero_d;
  fees = zero_d;
  slippage = zero_d;
  execution_buffer = zero_d;
  expected_net_profit = get_or o.metadata.net_profit_eur zero_d;
  expected_net_return = get_or o.metadata.net_return zero_d;
  risk_decision = none;
  rejection_reason = none;
  execution_result = none;
  status = OpportunityLifecycleStatus.detected;
  realized_net_profit = none;
  order_id = none;
  metadata = o.metadata;
}

-- The figures of a profitability result replace those of the metadata.
unfoldable pub track : ℕ → TradeOpportunity → Option ProfitabilityResult → TrackedOpportunity
track created_at o none = track_bare created_at o
track created_at o (some r) = record (track_bare created_at o) {
  gross_profit = r.gross_profit_usd;
  fees = r.fees_usd;
  slippage = r.slippage_usd;
  execution_buffer = r.execution_buffer_usd;
  expected_net_profit = r.net_profit_usd;
  expected_net_return = r.net_return;
}

unfoldable pub record_detected :
    ℕ → TradeOpportunity → Option ProfitabilityResult → Tracker → Tracker
record_detected created_at o r t =
    let x = track created_at o r in
    on_hour (hour_of x.timestamp) (λ s. record s { opportunities = s.opportunities + 1 })
      (on_pair x (λ s. record s { opportunities = s.opportunities + 1 })
        (on_strategy x.strategy (λ s. record s { opportunities = s.opportunities + 1 })
          (record t {
            opportunities = t.opportunities ++ (x ∷ []);
            by_id = insert x.id (length t.opportunities) t.by_id;
          })))

-- `record_scan_stats`, from the counters of the strategy
unfoldable pub record_scan_stats : Scan → Tracker → Tracker
record_scan_stats s t = record t {
  pairs_evaluated = s.pairs_evaluated;
  depth_edges_found = s.depth_edges_found;
  scan_rejections = s.scan_rejections;
  reject_counts = s.reject_counts;
}

-- `self._by_id.get(id)`: the place and the opportunity there.
unfoldable pub find_tracked : ℕ → Tracker → Option (ℕ × TrackedOpportunity)
find_tracked id t = elim (lookup id t.by_id) [
  | none ↦ none
  | some place ↦ elim (get_elem? t.opportunities place) [ none ↦ none | some x ↦ some (place, x) ]
]

-- The tracked object is changed where it stands.
abbrev pub save : ℕ → TrackedOpportunity → Tracker → Tracker
save place x t = record t { opportunities = modify_at (λ _. x) t.opportunities place }

-- `record_risk` on the tracked opportunity
unfoldable pub judge : ℕ → TrackedOpportunity → RiskDecision → Tracker → Tracker
judge place x d t =
    let judged = record x { risk_decision = some d.status } in
    if is_approved d
    then on_pair x (λ s. record s { approved = s.approved + 1 })
        (save place
          (record judged { status = OpportunityLifecycleStatus.approved; rejection_reason = none })
          (record t { approved = t.approved + 1 }))
    else save place
        (record judged {
          status = OpportunityLifecycleStatus.rejected;
          rejection_reason = d.rejection_reason;
        })
        (record t { rejected = t.rejected + 1 })

unfoldable pub record_risk : ℕ → RiskDecision → Tracker → Tracker
record_risk id d t = elim (find_tracked id t) [ none ↦ t | some (place, x) ↦ judge place x d t ]
