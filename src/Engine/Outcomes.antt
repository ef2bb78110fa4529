-- ===== src/Engine/Outcomes.antt =====
-- The answers of the executor and of the risk engine name the request they are about.
use moreney.Prelude.{ℕ, ◌≡◌, refl, not, Option, none, some, if_rule, option_rule, arith}
use moreney.Prelude.Int.{leb_ℤ}
use moreney.Decimal.{Decimal, zero_d, is_pos}
use moreney.Core.Enums.{OrderType, OrderStatus}
use moreney.Core.Models.{OrderBook, TradeOpportunity, PortfolioSnapshot}
use moreney.Core.Text.{Str}
use moreney.Portfolio.Paper.{reserve, release_reservation}
use moreney.Execution.Orders.{set_status, attach_fill, add}
use moreney.Execution.Executor.{
  ExecutorSettings, OrderRequest, ExecutionReject, Executor, Outcome, returned, raised, FillPlan,
  simulate_fill, plan_fill, fill_is_valid, reservation_needed, new_order, reject, reject_text,
  settle, try_fill, rests, open_order, place_order, execute,
}
use moreney.Risk.Models.{RiskSettings, RiskContext, ProfitabilityView}
use moreney.Risk.Engine.{RiskEngine, Now, rejected, approved, evaluate}

-- A result that is returned is about the order and the opportunity of the request.
unfoldable pub Answers : OrderRequest → Executor × Outcome → Type 0
Answers req (st, raised) = Unit
Answers req (st, returned x) = (x.order_id ≡ req.id) × (x.opportunity_id ≡ req.opportunity_id)

reject-Answers :
    (req : OrderRequest) (why : ExecutionReject) (st : Executor) → Answers req (reject req why st)
unfolding reject Answers
reject-Answers req why st =
    option_rule (Answers req)
      (set_status req.id OrderStatus.rejected (some (reject_text why)) st.orders) (λ _. tt)
      (λ _ _. (refl, refl))

module _ (cfg : ExecutorSettings) (req : OrderRequest) (type : OrderType) (asset : Str)
    (held : Decimal) (book : Option OrderBook) (fill_id : ℕ) where
  settle-Answers :
      (plan : FillPlan) (st : Executor)
      → Answers req (settle cfg req (new_order req type) asset held plan fill_id st)
  unfolding settle Answers new_order
  settle-Answers plan st =
      let fill = plan_fill cfg (new_order req type) plan fill_id in
      if_rule (Answers req) (not (fill_is_valid fill)) (λ _. tt)
        (λ _.
          option_rule (Answers req) (attach_fill req.id fill st.orders) (λ _. tt)
            (λ _ _. (refl, refl)))

  try_fill-Answers :
      (st : Executor)
      → Answers req (try_fill cfg req (new_order req type) asset held book fill_id st)
  unfolding try_fill
  try_fill-Answers st =
      let released =
        reject-Answers req ExecutionReject.insufficient_liquidity
          (record st { portfolio = release_reservation asset held st.portfolio }) in
      option_rule (Answers req) (simulate_fill cfg (new_order req type) book) (λ _. released)
        λ plan _.
          if_rule (Answers req) (leb_ℤ plan.filled zero_d) (λ _. released)
            (λ _. settle-Answers plan st)

  open_order-Answers :
      (st : Executor)
      → Answers req (open_order cfg req (new_order req type) asset held book fill_id st)
  unfolding open_order Answers new_order
  open_order-Answers st =
      option_rule (Answers req) (set_status req.id OrderStatus.open_order none st.orders) (λ _. tt)
        λ os _.
          if_rule (Answers req) (rests (new_order req type) book) (λ _. (refl, refl))
            (λ _. try_fill-Answers (record st { orders = os }))

place_order-Answers :
    (cfg : ExecutorSettings) (req : OrderRequest) (book : Option OrderBook) (type : OrderType)
    (fill_id : ℕ) (st : Executor)
    → Answers req (place_order cfg req book type fill_id st)
unfolding place_order
place_order-Answers cfg req book type fill_id st =
    let o = new_order req type in
    let st1 = record st { orders = add o st.orders } in
    let needed = reservation_needed cfg o st.portfolio in
    let asked = reserve needed.asset needed.amount st.portfolio in
    let P = Answers req in
    let refused = reject-Answers req ExecutionReject.insufficient_balance in
    let opens = open_order-Answers cfg req type needed.asset needed.amount book fill_id in
    if_rule P (not needed.enough) (λ _. refused st1)
      λ _.
        if_rule P (is_pos needed.amount)
          (λ _.
            if_rule P asked.1 (λ _. opens (record st1 { portfolio = asked.0 }))
              (λ _. refused (record st1 { portfolio = asked.0 })))
          (λ _. opens st1)

pub execute-Answers :
    (cfg : ExecutorSettings) (req : OrderRequest) (book : Option OrderBook) (type : OrderType)
    (fill_id : ℕ) (st : Executor)
    → Answers req (execute cfg req book type fill_id st)
unfolding execute Answers
execute-Answers cfg req book type fill_id st =
    if_rule (Answers req) (is_pos req.quantity)
      (λ _. place_order-Answers cfg req book type fill_id st) (λ _. tt)

pub evaluate-opportunity_id :
    (cfg : RiskSettings) (now : Now) (o : TradeOpportunity) (r : ProfitabilityView)
    (p : PortfolioSnapshot) (ctx : RiskContext) (e : RiskEngine)
    → (evaluate cfg now o r p ctx e).1.opportunity_id ≡ o.id
unfolding evaluate rejected approved
evaluate-opportunity_id cfg now o r p ctx e = ground arith
