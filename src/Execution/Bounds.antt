-- ===== src/Execution/Bounds.antt =====
-- The quantity and the fees that `execute` reports.
use moreney.Prelude.{ℕ, ◌≡◌, subst, not, Option, none, some, arith, if_rule, option_rule, List}
use moreney.Prelude.Int.{◌≤ℤ◌, leb_ℤ}
use moreney.Decimal.{Decimal, zero_d, is_pos}
use moreney.Core.Enums.{OrderType, OrderStatus}
use moreney.Core.Models.{OrderBook, OrderBookLevel}
use moreney.Core.Text.{Str}
use moreney.Portfolio.Models.{Order}
use moreney.Portfolio.Paper.{reserve, release_reservation}
use moreney.Execution.Orders.{set_status, attach_fill, add}
use moreney.Execution.Executor.{
  ExecutorSettings, SlippageMode, OrderRequest, ExecutionReject, ExecutionResult, Executor, Outcome,
  returned, raised, FillPlan, fixed_reference, fixed_fill, side_levels, walk_limit, walk_result,
  walk_book, simulate_fill, reservation_needed, new_order, place_order, reject, reject_text,
  plan_fill, fill_is_valid, settle, try_fill, rests, open_order, execute,
}
use moreney.Execution.Walk.{walk_levels_parts}

-- A plan fills at most a quantity.
abbrev PlanWithin : Decimal → Option FillPlan → Type 0
PlanWithin q none = Unit
PlanWithin q (some plan) = plan.filled ≤ℤ q

walk_book-PlanWithin :
    (cfg : ExecutorSettings) (o : Order) (levels : List OrderBookLevel) (q : Decimal)
    → zero_d ≤ℤ q
    → PlanWithin q (walk_book cfg o levels q)
unfolding walk_book walk_result
walk_book-PlanWithin cfg o levels q h =
    ground (arith, (walk_levels_parts o.side (walk_limit o) q levels h).2)

fixed_fill-PlanWithin :
    (cfg : ExecutorSettings) (o : Order) (book : Option OrderBook)
    → PlanWithin o.requested_quantity (fixed_fill cfg o book)
unfolding fixed_fill
fixed_fill-PlanWithin cfg o book =
    option_rule (PlanWithin o.requested_quantity) (fixed_reference o book) (λ _. tt)
      (λ ref _. omega arith)

simulate_fill-PlanWithin :
    (cfg : ExecutorSettings) (o : Order) (book : Option OrderBook)
    → zero_d ≤ℤ o.requested_quantity
    → PlanWithin o.requested_quantity (simulate_fill cfg o book)
unfolding simulate_fill
simulate_fill-PlanWithin cfg o book h =
    let P = PlanWithin o.requested_quantity in
    elim cfg.slippage_mode
      as (λ mode. PlanWithin o.requested_quantity (elim mode [
        | SlippageMode.fixed ↦ fixed_fill cfg o book
        | SlippageMode.order_book ↦ elim book [
          | none ↦ fixed_fill cfg o none
          | some b ↦ walk_book cfg o (side_levels o.side b) o.requested_quantity
        ]
      ])) [
        | SlippageMode.fixed ↦ fixed_fill-PlanWithin cfg o book
        | SlippageMode.order_book ↦
            option_rule P book (λ _. fixed_fill-PlanWithin cfg o none)
              (λ b _. walk_book-PlanWithin cfg o (side_levels o.side b) o.requested_quantity h)
      ]

plan_bound :
    (q : Decimal) {p : Option FillPlan} (plan : FillPlan)
    → p ≡ some plan
    → PlanWithin q p
    → plan.filled ≤ℤ q
plan_bound q plan found h = subst (PlanWithin q) found h

-- The result of an outcome reports a quantity and fees within bounds.
abbrev pub Within : Decimal → Executor × Outcome → Type 0
Within q (st, raised) = Unit
Within q (st, returned r) =
    (zero_d ≤ℤ r.filled_quantity) × (r.filled_quantity ≤ℤ q) × (zero_d ≤ℤ r.fees_usd)

reject-Within :
    (req : OrderRequest) (why : ExecutionReject) (st : Executor) (q : Decimal)
    → zero_d ≤ℤ q
    → Within q (reject req why st)
unfolding reject
reject-Within req why st q h =
    option_rule (Within q)
      (set_status req.id OrderStatus.rejected (some (reject_text why)) st.orders) (λ _. tt)
      (λ os _. (omega arith, h, omega arith))

settle-Within :
    (cfg : ExecutorSettings) (req : OrderRequest) (o : Order) (asset : Str) (held q : Decimal)
    (plan : FillPlan) (fill_id : ℕ) (st : Executor)
    → plan.filled ≤ℤ q
    → Within q (settle cfg req o asset held plan fill_id st)
unfolding settle plan_fill
settle-Within cfg req o asset held q plan fill_id st h =
    let fill = plan_fill cfg o plan fill_id in
    if_rule (Within q) (not (fill_is_valid fill)) (λ _. tt)
      λ valid.
        option_rule (Within q) (attach_fill o.id fill st.orders) (λ _. tt)
          λ r _. (ground arith, h, ground arith)

module _ (cfg : ExecutorSettings) (req : OrderRequest) (o : Order) (asset : Str) (held : Decimal)
    (book : Option OrderBook) (fill_id : ℕ) (h : zero_d ≤ℤ o.requested_quantity) where
  try_fill-Within :
      (st : Executor) → Within o.requested_quantity (try_fill cfg req o asset held book fill_id st)
  unfolding try_fill
  try_fill-Within st =
      let P = Within o.requested_quantity in
      let released =
        reject-Within req ExecutionReject.insufficient_liquidity
          (record st { portfolio = release_reservation asset held st.portfolio })
          o.requested_quantity h in
      let bound = simulate_fill-PlanWithin cfg o book h in
      option_rule P (simulate_fill cfg o book) (λ _. released)
        λ plan found.
          if_rule P (leb_ℤ plan.filled zero_d) (λ _. released)
            (λ _.
              settle-Within cfg req o asset held o.requested_quantity plan fill_id st
                (plan_bound o.requested_quantity plan found bound))

  open_order-Within :
      (st : Executor)
      → Within o.requested_quantity (open_order cfg req o asset held book fill_id st)
  unfolding open_order
  open_order-Within st =
      option_rule (Within o.requested_quantity)
        (set_status o.id OrderStatus.open_order none st.orders) (λ _. tt)
        λ os _.
          if_rule (Within o.requested_quantity) (rests o book) (λ _. (omega arith, h, omega arith))
            (λ _. try_fill-Within (record st { orders = os }))

place_order-Within :
    (cfg : ExecutorSettings) (req : OrderRequest) (book : Option OrderBook) (type : OrderType)
    (fill_id : ℕ) (st : Executor)
    → zero_d ≤ℤ req.quantity
    → Within req.quantity (place_order cfg req book type fill_id st)
unfolding place_order new_order
place_order-Within cfg req book type fill_id st h =
    let o = new_order req type in
    let st1 = record st { orders = add o st.orders } in
    let needed = reservation_needed cfg o st.portfolio in
    let asked = reserve needed.asset needed.amount st.portfolio in
    let P = Within req.quantity in
    let why = ExecutionReject.insufficient_balance in
    let opens = open_order-Within cfg req o needed.asset needed.amount book fill_id h in
    if_rule P (not needed.enough) (λ _. reject-Within req why st1 req.quantity h)
      λ _.
        if_rule P (is_pos needed.amount)
          (λ _.
            if_rule P asked.1 (λ _. opens (record st1 { portfolio = asked.0 }))
              (λ _. reject-Within req why (record st1 { portfolio = asked.0 }) req.quantity h))
          (λ _. opens st1)

execute-Within :
    (cfg : ExecutorSettings) (req : OrderRequest) (book : Option OrderBook) (type : OrderType)
    (fill_id : ℕ) (st : Executor)
    → zero_d ≤ℤ req.quantity
    → Within req.quantity (execute cfg req book type fill_id st)
unfolding execute
execute-Within cfg req book type fill_id st h =
    if_rule (Within req.quantity) (is_pos req.quantity)
      (λ _. place_order-Within cfg req book type fill_id st h) (λ _. tt)

Within-returned :
    (q : Decimal) {r : ExecutionResult} (x : Executor × Outcome)
    → x.1 ≡ returned r
    → Within q x
    → (zero_d ≤ℤ r.filled_quantity) × (r.filled_quantity ≤ℤ q) × (zero_d ≤ℤ r.fees_usd)
Within-returned q (st, raised) e h = cc
Within-returned q (st, returned s) e h = ground arith

-- For a requested quantity that is not negative, a result that `execute` returns reports a filled
-- quantity between zero and the requested one, and fees that are not negative.
pub execute_within :
    (cfg : ExecutorSettings) (req : OrderRequest) (book : Option OrderBook) (type : OrderType)
    (fill_id : ℕ) (st : Executor) {r : ExecutionResult}
    → zero_d ≤ℤ req.quantity
    → (execute cfg req book type fill_id st).1 ≡ returned r
    → (zero_d ≤ℤ r.filled_quantity) × (r.filled_quantity ≤ℤ req.quantity) × (zero_d ≤ℤ r.fees_usd)
execute_within cfg req book type fill_id st h done =
    Within-returned req.quantity (execute cfg req book type fill_id st) done
      (execute-Within cfg req book type fill_id st h)
