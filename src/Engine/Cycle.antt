-- ===== src/Engine/Cycle.antt =====
-- `TradingEngine.run_once`, one opportunity at a time, and `execute_approved`.
use moreney.Prelude.{
  ℕ, suc, Bool, true, false, not, ◌&&◌, ◌||◌, Option, none, some, List, [], ◌∷◌, ◌++◌,
  if◌then◌else◌, ◌==◌, nat_eq,
}
use moreney.Prelude.Int.{eqb_ℤ}
use moreney.Prelude.Dict.{Dict}
use moreney.Decimal.{Decimal, is_pos, is_zero}
use moreney.Core.Enums.{OrderSide, OrderType}
use moreney.Core.Text.{Str, str_eq, upper}
use moreney.Core.Models.{OrderBook, MarketSnapshot, TradeOpportunity, PortfolioSnapshot}
use moreney.Portfolio.Models.{Order, Fill, total_equity}
use moreney.Portfolio.Paper.{set_mark_price, get_snapshot}
use moreney.Execution.Orders.{get}
use moreney.Execution.Executor.{
  ExecutorSettings, OrderRequest, ExecutionResult, Executor, Outcome, returned, raised, execute,
}
use moreney.Profitability.NetProfit.{ProfitabilityResult}
use moreney.Risk.Models.{RiskSettings, RiskDecision, ProfitabilityView, is_approved}
use moreney.Risk.Engine.{RiskEngine, Now, evaluate}
use moreney.Strategies.Arbitrage.{ProfitabilityEngine}
use moreney.Engine.Market.{
  MarketData, load_snapshots, enrich_for_risk, resolve_execution_book, or_book, market_book,
}

-- The protocol `Strategy`, with its state written out; `evaluate_markets` is optional.
pub record Strategy (S : Type 0) : Type 0 where
  pub evaluate_one : MarketSnapshot → S → S × List TradeOpportunity
  pub evaluate_markets : Option (List MarketSnapshot → S → S × List TradeOpportunity)

-- What the engine is built from; the executor is a `PaperExecutor` on the engine's portfolio.
pub record Parts (S : Type 0) : Type 0 where
  pub market_data : MarketData
  pub strategy : Strategy S
  pub profitability : ProfitabilityEngine
  pub risk_settings : RiskSettings
  pub executor_settings : ExecutorSettings

-- What changes from one cycle to the next.
pub record Engine (S : Type 0) : Type 0 where
  pub strategy_state : S
  pub risk : RiskEngine
  pub executor : Executor

pub record TradeCycleResult : Type 0 where
  pub symbol : Str
  pub opportunities : List TradeOpportunity
  pub profitability : List ProfitabilityResult
  pub risk_decisions : List RiskDecision
  pub executions : List ExecutionResult
  pub orders : List Order
  pub fills : List Fill
  pub rejected : List (TradeOpportunity × RiskDecision)
  pub portfolio_equity : Option Decimal

abbrev pub empty_result : Str → List TradeOpportunity → TradeCycleResult
empty_result symbol os = record {
  symbol = symbol;
  opportunities = os;
  profitability = [];
  risk_decisions = [];
  executions = [];
  orders = [];
  fills = [];
  rejected = [];
  portfolio_equity = none;
}

-- The clocks and the ids that are drawn for one opportunity.
pub record Draw : Type 0 where
  pub now : Now
  pub order_id : ℕ
  pub fill_id : ℕ

-- `==` on fills
abbrev pub side_eq : OrderSide → OrderSide → Bool
side_eq OrderSide.buy OrderSide.buy = true
side_eq OrderSide.sell OrderSide.sell = true
side_eq _ _ = false

abbrev pub fill_eq : Fill → Fill → Bool
fill_eq f g =
    (f.id == g.id)
    && (f.order_id == g.order_id)
    && str_eq f.symbol g.symbol
    && side_eq f.side g.side
    && eqb_ℤ f.quantity g.quantity
    && eqb_ℤ f.price g.price
    && eqb_ℤ f.fee g.fee
    && eqb_ℤ f.slippage g.slippage

abbrev pub has_fill_in : Fill → List Fill → Bool
has_fill_in f [] = false
has_fill_in f (g ∷ gs) = fill_eq f g || has_fill_in f gs

-- The loop over the fills of the tracker in `_collect_order_fill`.
unfoldable pub collect_fills : ℕ → Dict ℕ Fill → List Fill → List Fill
collect_fills order_id [] fills = fills
collect_fills order_id ((i, f) ∷ fs) fills =
    collect_fills order_id fs
      (if (f.order_id == order_id) && not (has_fill_in f fills) then fills ++ (f ∷ []) else fills)

abbrev pub with_order : Option Order → List Order → List Order
with_order none orders = orders
with_order (some o) orders = orders ++ (o ∷ [])

-- `_collect_order_fill`
unfoldable pub collect_order_fill : Executor → ExecutionResult → TradeCycleResult → TradeCycleResult
collect_order_fill st x r = record r {
  orders = with_order (get x.order_id st.orders) r.orders;
  fills = collect_fills x.order_id st.tracker.fills r.fills;
}

-- Python's `a or b` on decimals: none and zero are false.
abbrev pub or_quantity : Option Decimal → Decimal → Decimal
or_quantity none b = b
or_quantity (some a) b = if is_zero a then b else a

unfoldable pub execution_quantity : RiskDecision → TradeOpportunity → Decimal
execution_quantity d o =
    or_quantity d.max_allowed_quantity (or_quantity (some d.position_size_allowed) o.quantity)

-- The `OrderRequest`, whose validation refuses a quantity that is not positive.
unfoldable pub order_request : ℕ → RiskDecision → TradeOpportunity → Option OrderRequest
order_request id d o =
    let quantity = execution_quantity d o in
    if is_pos quantity
    then some (record {
      id = id;
      opportunity_id = o.id;
      symbol = o.symbol;
      side = o.side;
      quantity = quantity;
      limit_price = some o.entry_price;
    })
    else none

-- The book of `_execute_opportunity`: given, of the opportunity's market, of the primary snapshot.
abbrev pub execution_book :
    Option OrderBook → TradeOpportunity → Option MarketSnapshot → Option OrderBook
execution_book given o primary =
    or_book given (or_book (market_book o) (elim primary [ none ↦ none | some s ↦ s.order_book ]))

-- `_execute_opportunity`
unfoldable pub execute_opportunity :
    ExecutorSettings
    → Draw
    → RiskDecision
    → TradeOpportunity
    → Option OrderBook
    → Option MarketSnapshot
    → Executor
    → Executor × Outcome
execute_opportunity cfg draw d o given primary st = elim (order_request draw.order_id d o) [
  | none ↦ (st, raised)
  | some req ↦ execute cfg req (execution_book given o primary) OrderType.limit draw.fill_id st
]

abbrev pub view : ProfitabilityResult → ProfitabilityView
view r = record {
  net_profit_usd = r.net_profit_usd;
  is_profitable = r.is_profitable;
  trade_allowed = r.trade_allowed;
}

-- `paper.set_mark_price(opportunity.symbol, opportunity.market.last)`
unfoldable pub mark_opportunity : TradeOpportunity → Executor → Executor
mark_opportunity o st = elim o.market [
  | none ↦ st
  | some s ↦ record st { portfolio = set_mark_price o.symbol s.last st.portfolio }
]

-- `self._portfolio.get_snapshot()`, on the portfolio that the executor holds
abbrev pub take_snapshot : Executor → Executor × PortfolioSnapshot
take_snapshot st =
    let (p, snapshot) = get_snapshot st.portfolio in (record st { portfolio = p }, snapshot)

-- The variables of the loop of `run_once`.
pub record Cycle (S : Type 0) : Type 0 where
  pub engine : Engine S
  pub result : TradeCycleResult
  pub portfolio : PortfolioSnapshot

-- An exception ends the cycle; what was done before it stays done.
pub data Run (S : Type 0) : Type 0 where
  running : Cycle S → Run S
  aborted : Engine S → Run S

module _ {S : Type 0} (parts : Parts S) where
  -- The end of the loop's body, after the executor.
  unfoldable pub record_execution : Engine S → TradeCycleResult → Executor × Outcome → Run S
  record_execution e r (st, raised) = aborted (record e { executor = st })
  record_execution e r (st, returned x) =
      let (st', snapshot) = take_snapshot st in
      running (record {
        engine = record e { executor = st' };
        result = collect_order_fill st x (record r { executions = r.executions ++ (x ∷ []) });
        portfolio = snapshot;
      })

  -- The body of the loop from the decision on.
  unfoldable pub act_on :
      List MarketSnapshot
      → MarketSnapshot
      → Draw
      → TradeOpportunity
      → RiskDecision
      → Cycle S
      → Run S
  act_on venues primary draw o d c =
      if not (is_approved d)
      then running (record c {
        result = record (c.result) { rejected = c.result.rejected ++ ((o, d) ∷ []) };
      })
      else record_execution c.engine c.result (
          execute_opportunity parts.executor_settings draw d o
            (resolve_execution_book parts.market_data o venues primary) (some primary)
            c.engine.executor)

  -- The body of the loop of `run_once`.
  unfoldable pub process :
      List MarketSnapshot → MarketSnapshot → Draw → TradeOpportunity → Cycle S → Run S
  process venues primary draw o c =
      let profit = parts.profitability o in
      let (enriched, ctx) = enrich_for_risk parts.market_data o venues in
      let (risk, d) =
        evaluate parts.risk_settings draw.now enriched (view profit) c.portfolio ctx
          c.engine.risk in
      act_on venues primary draw enriched d (record c {
        engine = record (c.engine) { risk = risk; executor = mark_opportunity o c.engine.executor };
        result = record (c.result) {
          profitability = c.result.profitability ++ (profit ∷ []);
          risk_decisions = c.result.risk_decisions ++ (d ∷ []);
        };
      })

  -- The loop; `n` counts the opportunities that were processed.
  unfoldable pub process_all :
      List MarketSnapshot → MarketSnapshot → (ℕ → Draw) → ℕ → List TradeOpportunity → Run S → Run S
  process_all venues primary draws n os (aborted e) = aborted e
  process_all venues primary draws n [] (running c) = running c
  process_all venues primary draws n (o ∷ os) (running c) =
      process_all venues primary draws (suc n) os (process venues primary (draws n) o c)

  -- The opportunities of the strategy; with no venue it is asked about the primary snapshot.
  unfoldable pub find_opportunities :
      List MarketSnapshot → MarketSnapshot → S → S × List TradeOpportunity
  find_opportunities [] primary s = parts.strategy.evaluate_one primary s
  find_opportunities (v ∷ vs) primary s = elim parts.strategy.evaluate_markets [
    | none ↦ parts.strategy.evaluate_one primary s
    | some markets ↦ markets (v ∷ vs) s
  ]

  -- The answer of `run_once`, with the equity at its end.
  unfoldable pub conclude : Run S → Engine S × Option TradeCycleResult
  conclude (aborted e) = (e, none)
  conclude (running c) = (
    c.engine,
    some (record (c.result) {
      portfolio_equity = some (total_equity c.engine.executor.portfolio.state);
    }),
  )

  -- `run_once`; `none` is an exception.
  unfoldable pub run_once : (ℕ → Draw) → Str → Engine S → Engine S × Option TradeCycleResult
  run_once draws symbol e = elim (load_snapshots parts.market_data symbol) [
    | none ↦ (e, none)
    | some (venues, primary) ↦
        let (s, os) = find_opportunities venues primary e.strategy_state in
        let (st, snapshot) = take_snapshot e.executor in
        conclude (
          process_all venues primary draws 0 os (
            running (record {
              engine = record e { strategy_state = s; executor = st };
              result = empty_result (upper symbol) os;
              portfolio = snapshot;
            })))
  ]

-- The errors of `execute_approved`, or what the executor answers.
pub data Approval : Type 0 where
  risk_rejected : Approval
  mismatched : Approval
  executed : Outcome → Approval

-- `execute_approved`
unfoldable pub execute_approved :
    ExecutorSettings → Draw → TradeOpportunity → RiskDecision → Executor → Executor × Approval
execute_approved cfg draw o d st =
    let (st', outcome) = execute_opportunity cfg draw d o (market_book o) none st in
    if not (is_approved d)
    then (st, risk_rejected)
    else if not (d.opportunity_id == o.id)
    then (st, mismatched)
    else (st', executed outcome)
