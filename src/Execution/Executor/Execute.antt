-- ===== src/Execution/Executor/Execute.antt =====
-- `PaperExecutor.execute` and `PaperExecutor.cancel`. The simulated latency is left out, and the id
-- that a fill draws is an argument.
use moreney.Prelude.{
  ℕ, Bool, false, not, ◌&&◌, Option, none, some, [], ◌∷◌, ◌++◌, get_or, if◌then◌else◌, nat_eq,
}
use moreney.Prelude.Int.{◌+ℤ◌, leb_ℤ}
use moreney.Prelude.Dict.{lookup}
use moreney.Decimal.{Decimal, zero_d, one_d, mul, is_pos, is_zero}
use moreney.Core.Enums.{OrderSide, OrderStatus, OrderType}
use moreney.Core.Models.{OrderBook}
use moreney.Core.Text.{Str, codes}
use moreney.Portfolio.Models.{Fill, Order, remaining_quantity}
use moreney.Portfolio.Paper.{
  PaperPortfolio, reserve, release_reservation, set_mark_price, base_asset_for,
}
use moreney.Execution.Orders
use moreney.Execution.Orders.{Orders, add, set_status, attach_fill, is_closed}
use moreney.Execution.Tracker.{apply}
use moreney.Execution.Executor.State.{
  ExecutorSettings, OrderRequest, ExecutionReject, ExecutionResult, Executor, Outcome, returned,
  raised, to_order_side,
}
use moreney.Execution.Executor.Book.{FillPlan, simulate_fill, limit_is_marketable}
use moreney.Execution.Executor.Reserve.{reservation_needed, adjust_reservation}

unfoldable pub new_order : OrderRequest → OrderType → Order
new_order req type = record {
  id = req.id;
  symbol = req.symbol;
  side = to_order_side req.side;
  order_type = type;
  requested_quantity = req.quantity;
  filled_quantity = zero_d;
  requested_price = req.limit_price;
  average_fill_price = none;
  fee = zero_d;
  slippage = zero_d;
  status = OrderStatus.pending;
  rejection_reason = none;
  opportunity_id = some req.opportunity_id;
  fills = [];
}

abbrev pub unfilled : OrderRequest → OrderStatus → Option ExecutionReject → ExecutionResult
unfilled req status why = record {
  order_id = req.id;
  opportunity_id = req.opportunity_id;
  status = status;
  filled_quantity = zero_d;
  average_price = none;
  fees_usd = zero_d;
  rejection_reason = why;
}

abbrev pub reject_text : ExecutionReject → Str
reject_text ExecutionReject.insufficient_balance = codes "INSUFFICIENT_BALANCE"
reject_text ExecutionReject.insufficient_liquidity = codes "INSUFFICIENT_LIQUIDITY"

abbrev pub finish : ExecutionResult → Executor → Executor × Outcome
finish r st = (record st { history = st.history ++ (r ∷ []) }, returned r)

-- `_reject`
unfoldable pub reject : OrderRequest → ExecutionReject → Executor → Executor × Outcome
reject req why st =
    elim (set_status req.id OrderStatus.rejected (some (reject_text why)) st.orders) [
      | none ↦ (st, raised)
      | some os ↦ finish (unfilled req OrderStatus.rejected (some why)) (record st { orders = os })
    ]

-- The fill of a plan, with the fee on its notional.
unfoldable pub plan_fill : ExecutorSettings → Order → FillPlan → ℕ → Fill
plan_fill cfg o plan fill_id = record {
  id = fill_id;
  order_id = o.id;
  symbol = o.symbol;
  side = o.side;
  quantity = plan.filled;
  price = plan.vwap;
  fee = mul (mul plan.filled plan.vwap) cfg.fee_rate;
  slippage = plan.slippage_cost;
}

-- The bounds that the model `Fill` puts on its fields.
abbrev pub fill_is_valid : Fill → Bool
fill_is_valid f =
    is_pos f.quantity && is_pos f.price && leb_ℤ zero_d f.fee && leb_ℤ zero_d f.slippage

-- Lines 170 to 223: the fill is attached to the order, applied to the portfolio and marked.
unfoldable pub settle :
    ExecutorSettings
    → OrderRequest
    → Order
    → Str
    → Decimal
    → FillPlan
    → ℕ
    → Executor
    → Executor × Outcome
settle cfg req o asset held plan fill_id st =
    let fill = plan_fill cfg o plan fill_id in
    let used = mul plan.filled plan.vwap +ℤ fill.fee in
    let p1 = adjust_reservation cfg o asset held plan.filled used st.portfolio in
    let st1 = record st { portfolio = p1 } in
    if not (fill_is_valid fill) then (st1, raised) else elim (attach_fill o.id fill st.orders) [
      | none ↦ (st1, raised)
      | some (os, filled_order) ↦
          let (t, p2, _) = apply o.id fill st.tracker p1 in
          finish
            (record {
              order_id = o.id;
              opportunity_id = req.opportunity_id;
              status = filled_order.status;
              filled_quantity = plan.filled;
              average_price = some plan.vwap;
              fees_usd = fill.fee;
              rejection_reason = none;
            })
            (record st {
              portfolio = set_mark_price o.symbol plan.vwap p2;
              orders = os;
              tracker = t;
            })
    ]

-- Lines 150 to 168: no plan, or an empty one, gives the reservation back.
unfoldable pub try_fill :
    ExecutorSettings
    → OrderRequest
    → Order
    → Str
    → Decimal
    → Option OrderBook
    → ℕ
    → Executor
    → Executor × Outcome
try_fill cfg req o asset held book fill_id st =
    let released =
      reject req ExecutionReject.insufficient_liquidity
        (record st { portfolio = release_reservation asset held st.portfolio }) in
    elim (simulate_fill cfg o book) [
      | none ↦ released
      | some plan ↦
          if leb_ℤ plan.filled zero_d then released else settle cfg req o asset held plan fill_id st
    ]

-- Whether a limit order rests in the book.
unfoldable pub rests : Order → Option OrderBook → Bool
rests o book = elim o.order_type [
  | OrderType.market ↦ false
  | OrderType.limit ↦ elim o.requested_price [
    | none ↦ false
    | some limit ↦ not (limit_is_marketable o.side limit book)
  ]
]

-- Lines 130 to 148, once the reservation is made.
unfoldable pub open_order :
    ExecutorSettings
    → OrderRequest
    → Order
    → Str
    → Decimal
    → Option OrderBook
    → ℕ
    → Executor
    → Executor × Outcome
open_order cfg req o asset held book fill_id st =
    elim (set_status o.id OrderStatus.open_order none st.orders) [
      | none ↦ (st, raised)
      | some os ↦
          let st' = record st { orders = os } in
          if rests o book
          then finish (unfilled req OrderStatus.open_order none) st'
          else try_fill cfg req o asset held book fill_id st'
    ]

-- `execute`, once the order is made.
unfoldable pub place_order :
    ExecutorSettings
    → OrderRequest
    → Option OrderBook
    → OrderType
    → ℕ
    → Executor
    → Executor × Outcome
place_order cfg req book type fill_id st =
    let o = new_order req type in
    let st1 = record st { orders = add o st.orders } in
    let needed = reservation_needed cfg o st.portfolio in
    if not needed.enough
    then reject req ExecutionReject.insufficient_balance st1
    else if is_pos needed.amount
    then (let (p, done) = reserve needed.asset needed.amount st.portfolio in
        let st2 = record st1 { portfolio = p } in
        if done
        then open_order cfg req o needed.asset needed.amount book fill_id st2
        else reject req ExecutionReject.insufficient_balance st2)
    else open_order cfg req o needed.asset needed.amount book fill_id st1

-- `PaperExecutor.execute`: the model `Order` refuses a quantity that is not positive.
unfoldable pub execute :
    ExecutorSettings
    → OrderRequest
    → Option OrderBook
    → OrderType
    → ℕ
    → Executor
    → Executor × Outcome
execute cfg req book type fill_id st =
    let placed = place_order cfg req book type fill_id st in
    if is_pos req.quantity then placed else (st, raised)

-- `a or b or 0` on optional prices, where a price of zero counts as missing.
abbrev pub price_or_zero : Option Decimal → Option Decimal → Decimal
price_or_zero none b = get_or b zero_d
price_or_zero (some p) b = if is_zero p then get_or b zero_d else p

-- What `cancel` gives back for the part of an order that is not filled.
unfoldable pub release_remaining : ExecutorSettings → Order → PaperPortfolio → PaperPortfolio
release_remaining cfg o p =
    let remaining = remaining_quantity o in
    if is_pos remaining
    then elim o.side [
      | OrderSide.buy ↦
          release_reservation cfg.quote
            (mul (mul remaining (price_or_zero o.requested_price o.average_fill_price))
              (one_d +ℤ cfg.fee_rate))
            p
      | OrderSide.sell ↦ release_reservation (base_asset_for o.symbol p) remaining p
    ]
    else p

-- `PaperExecutor.cancel`; `none` is the `KeyError`.
unfoldable pub cancel : ExecutorSettings → ℕ → Str → Executor → Option (Executor × Order)
cancel cfg i reason st = elim (lookup i st.orders) [
  | none ↦ none
  | some o ↦ if is_closed o.status then some (st, o) else elim (Orders.cancel i reason st.orders) [
    | none ↦ none
    | some (os, o') ↦
        some (record st { orders = os; portfolio = release_remaining cfg o st.portfolio }, o')
  ]
]
