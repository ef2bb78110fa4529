-- ===== src/Engine/Approved.antt =====
-- `execute_approved` on the decisions of the risk engine.
use moreney.Prelude.{ℕ, ◌≡◌, true, none, some, arith, ==_iff, Bool-cases, inl, inr, if◌then◌else◌}
use moreney.Prelude.Int.{◌<ℤ◌}
use moreney.Decimal.{zero_d}
use moreney.Core.Enums.{OrderType}
use moreney.Core.Models.{TradeOpportunity, PortfolioSnapshot}
use moreney.Execution.Executor.{ExecutorSettings, OrderRequest, Executor, execute}
use moreney.Risk.Models.{RiskSettings, RiskContext, ProfitabilityView, is_approved}
use moreney.Risk.Limits.{evaluate_limits}
use moreney.Risk.Engine.{RiskEngine, Now, rejected, approved, evaluate}
use moreney.Engine.Market.{market_book}
use moreney.Engine.Cycle.{
  Draw, execution_quantity, order_request, execution_book, execute_opportunity, risk_rejected,
  executed, execute_approved,
}
use moreney.Engine.Outcomes.{evaluate-opportunity_id}

-- The request for an approved opportunity.
abbrev pub request_of : ℕ → RiskSettings → TradeOpportunity → PortfolioSnapshot → OrderRequest
request_of id cfg o p = record {
  id = id;
  opportunity_id = o.id;
  symbol = o.symbol;
  side = o.side;
  quantity = (evaluate_limits cfg o p).allowed_quantity;
  limit_price = some o.entry_price;
}

module _ (cfg : RiskSettings) (now : Now) (o : TradeOpportunity) (r : ProfitabilityView)
    (p : PortfolioSnapshot) (ctx : RiskContext) (e : RiskEngine) (xcfg : ExecutorSettings)
    (draw : Draw) (st : Executor) where
  evaluate-max_allowed_quantity :
      is_approved (evaluate cfg now o r p ctx e).1 ≡ true
      → (evaluate cfg now o r p ctx e).1.max_allowed_quantity
        ≡ some (evaluate_limits cfg o p).allowed_quantity
  unfolding evaluate rejected approved
  evaluate-max_allowed_quantity h = ground arith

  order_request-evaluate :
      is_approved (evaluate cfg now o r p ctx e).1 ≡ true
      → zero_d <ℤ (evaluate_limits cfg o p).allowed_quantity
      → order_request draw.order_id (evaluate cfg now o r p ctx e).1 o
        ≡ some (request_of draw.order_id cfg o p)
  unfolding order_request execution_quantity
  order_request-evaluate h k = ground (arith, evaluate-max_allowed_quantity h)

  -- When the risk engine's limits leave a positive quantity, `execute_approved` on its decision either
  -- has the executor execute a limit order for exactly that quantity at the entry price, if the
  -- decision approves, or else raises the risk rejection, with the executor as it was.
  pub execute_approved-evaluate :
      zero_d <ℤ (evaluate_limits cfg o p).allowed_quantity
      → let d = (evaluate cfg now o r p ctx e).1 in
        let x =
          execute xcfg
            (request_of draw.order_id cfg o p)
            (execution_book (market_book o) o none)
            OrderType.limit
            draw.fill_id
            st in
        execute_approved xcfg draw o d st
        ≡ (if is_approved d then (x.0, executed x.1) else (st, risk_rejected))
  unfolding execute_approved execute_opportunity
  execute_approved-evaluate k =
      let d = (evaluate cfg now o r p ctx e).1 in
      elim (Bool-cases (is_approved d)) [
        | inr refuses ↦ ground arith
        | inl approves ↦ ground (
          arith,
          order_request-evaluate approves k,
          evaluate-opportunity_id cfg now o r p ctx e,
          ==_iff d.opportunity_id o.id,
        )
      ]
