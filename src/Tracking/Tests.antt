-- ===== src/Tracking/Tests.antt =====
-- Concrete runs of the tracker.
use moreney.Prelude.{◌≡◌, refl, none, some, [], ◌∷◌, nat_eq}
use moreney.Prelude.Int.{◌+ℤ◌, ◌-ℤ◌, neg}
use moreney.Decimal.{of_ℕ, zero_d, mul}
use moreney.Core.Enums.{OpportunitySide, OrderSide, OrderStatus, FeeRole, RiskDecisionStatus}
use moreney.Core.Text.{codes, upper, str_eq, str_instance}
use moreney.Core.Models.{TradeOpportunity, no_metadata}
use moreney.Execution.Executor.{ExecutionResult}
use moreney.Portfolio.Models.{Fill}
use moreney.Risk.Models.{RiskDecision}
use moreney.Tracking.Tracker.{
  Tracker, hours, new_tracker, track, record_detected, find_tracked, judge, record_risk,
}
use moreney.Tracking.Trades.{
  estimate_realized, register_trade, execution_filled, book_execution, record_execution,
}
use moreney.Tracking.Sync.{snapshot}
use moreney.Tracking.Tally.{IsTallied}
use moreney.Tracking.Reach.{TrackerCall, call, Reached, started, called, Reached-IsTallied}
use moreney.Tracking.Report.{IsReport, snapshot-IsReport}

abbrev trade : TradeOpportunity
trade = record {
  id = 4;
  strategy_name = codes "test";
  symbol = codes "BTCEUR";
  side = OpportunitySide.buy;
  quantity = of_ℕ 2;
  entry_price = of_ℕ 100;
  expected_exit_price = some (of_ℕ 110);
  market = none;
  entry_fee_role = FeeRole.taker;
  exit_fee_role = FeeRole.taker;
  funding_periods = zero_d;
  metadata = record no_metadata {
    buy_exchange = some (codes "kraken");
    sell_exchange = some (codes "bitvavo");
    sell_vwap = some (of_ℕ 110);
  };
}

abbrev decision : RiskDecision
decision = record {
  opportunity_id = 4;
  status = RiskDecisionStatus.approved;
  max_allowed_quantity = some (of_ℕ 2);
  rejection_reason = none;
  risk_score = zero_d;
  position_size_allowed = of_ℕ 2;
  maximum_loss = zero_d;
  warnings = [];
}

abbrev execution : ExecutionResult
execution = record {
  order_id = 1;
  opportunity_id = 4;
  status = OrderStatus.filled;
  filled_quantity = of_ℕ 2;
  average_price = some (of_ℕ 100);
  fees_usd = of_ℕ 1;
  rejection_reason = none;
}

abbrev fill : Fill
fill = record {
  id = 9;
  order_id = 1;
  symbol = codes "BTCEUR";
  side = OrderSide.buy;
  quantity = of_ℕ 2;
  price = of_ℕ 100;
  fee = of_ℕ 1;
  slippage = zero_d;
}

abbrev detects : TrackerCall
detects = TrackerCall.detects 7200000 trade none

abbrev judges : TrackerCall
judges = TrackerCall.judges 4 decision

abbrev executes : TrackerCall
executes = TrackerCall.executes 4 execution (fill ∷ []) none none

abbrev traded : Tracker
traded = call executes (call judges (call detects (new_tracker (of_ℕ 1000))))

traded-Reached : Reached traded
traded-Reached = called executes (called judges (called detects (started (of_ℕ 1000))))

-- The trade earns the difference of the prices less the fee.
earns : traded.trade_pnls ≡ of_ℕ 19 ∷ []
unfolding call record_detected track record_risk find_tracked judge record_execution book_execution
    execution_filled estimate_realized register_trade new_tracker hours upper str_eq mul neg ◌+ℤ◌
    ◌-ℤ◌
earns = refl

Reached-IsTallied_example : IsTallied traded
Reached-IsTallied_example = Reached-IsTallied traded-Reached

snapshot-IsReport_example : IsReport (snapshot traded)
snapshot-IsReport_example = snapshot-IsReport traded-Reached
