-- ===== src/Execution/Executor/Book.antt =====
-- The simulated fill: a walk through the order book, or a fixed percentage around a price.
use moreney.Prelude.{
  ℕ, ◌+◌, Bool, true, false, not, ◌&&◌, Option, none, some, List, [], ◌∷◌, if◌then◌else◌,
}
use moreney.Prelude.Int.{◌+ℤ◌, ◌-ℤ◌, ltb_ℤ, leb_ℤ, min_ℤ, abs_ℤ}
use moreney.Decimal.{Decimal, zero_d, one_d, hundred, mul, div, is_pos}
use moreney.Core.Enums.{OrderSide, OrderType}
use moreney.Core.Models.{OrderBook, OrderBookLevel}
use moreney.Portfolio.Models.{Order}
use moreney.Execution.Executor.State.{ExecutorSettings, SlippageMode}

-- `levels_consumed`, quantity, average price and slippage cost.
pub record FillPlan : Type 0 where
  pub levels_consumed : ℕ
  pub filled : Decimal
  pub vwap : Decimal
  pub slippage_cost : Decimal

-- The variables of the loop of `_walk_book`.
pub record Walk : Type 0 where
  pub remaining : Decimal
  pub notional : Decimal
  pub filled : Decimal
  pub consumed : ℕ

-- The limit price that stops the walk, if the order has one.
unfoldable pub walk_limit : Order → Option Decimal
walk_limit o = elim o.order_type [ OrderType.market ↦ none | OrderType.limit ↦ o.requested_price ]

-- The level is beyond the order's limit.
unfoldable pub crosses : OrderSide → Option Decimal → Decimal → Bool
crosses side none price = false
crosses OrderSide.buy (some limit) price = ltb_ℤ limit price
crosses OrderSide.sell (some limit) price = ltb_ℤ price limit

unfoldable pub take_level : OrderBookLevel → Walk → Walk
take_level level w =
    let quantity = min_ℤ w.remaining level.amount in
    record {
      remaining = w.remaining -ℤ quantity;
      notional = w.notional +ℤ mul quantity level.price;
      filled = w.filled +ℤ quantity;
      consumed = w.consumed + 1;
    }

-- The loop: it ends with the quantity or at the limit, and skips empty levels.
unfoldable pub walk_levels : OrderSide → Option Decimal → Walk → List OrderBookLevel → Walk
walk_levels side limit w [] = w
walk_levels side limit w (level ∷ levels) =
    let skipped = walk_levels side limit w levels in
    let taken = walk_levels side limit (take_level level w) levels in
    if leb_ℤ w.remaining zero_d
    then w
    else if leb_ℤ level.amount zero_d
    then skipped
    else if crosses side limit level.price
    then w
    else taken

abbrev pub start_walk : Decimal → Walk
start_walk quantity = record {
  remaining = quantity;
  notional = zero_d;
  filled = zero_d;
  consumed = 0;
}

abbrev pub first_price : List OrderBookLevel → Option Decimal
first_price [] = none
first_price (level ∷ levels) = some level.price

-- `requested_price`, or else the first price of the levels
abbrev pub walk_reference : Order → List OrderBookLevel → Option Decimal
walk_reference o levels = elim o.requested_price [ none ↦ first_price levels | some p ↦ some p ]

abbrev pub walk_cost : Option Decimal → Decimal → Decimal → Decimal
walk_cost none vwap filled = zero_d
walk_cost (some ref) vwap filled = if is_pos ref then mul (abs_ℤ (vwap -ℤ ref)) filled else zero_d

-- The tests after the loop, which two settings take part in.
unfoldable pub walk_result : ExecutorSettings → Option Decimal → Walk → Option FillPlan
walk_result cfg ref w =
    let vwap = div w.notional w.filled in
    let plan : Option FillPlan = some (record {
      levels_consumed = w.consumed;
      filled = w.filled;
      vwap = vwap;
      slippage_cost = walk_cost ref vwap w.filled;
    }) in
    if leb_ℤ w.filled zero_d
    then none
    else if is_pos w.remaining
    then (if cfg.reject_thin && not cfg.partial_ok
        then none
        else if not cfg.partial_ok
        then none
        else plan)
    else plan

unfoldable pub walk_book :
    ExecutorSettings → Order → List OrderBookLevel → Decimal → Option FillPlan
walk_book cfg o levels quantity =
    walk_result cfg (walk_reference o levels)
      (walk_levels o.side (walk_limit o) (start_walk quantity) levels)

-- A price counts as missing unless it is above zero.
abbrev pub positive_price : Option Decimal → Option Decimal
positive_price none = none
positive_price (some p) = if is_pos p then some p else none

abbrev pub side_levels : OrderSide → OrderBook → List OrderBookLevel
side_levels OrderSide.buy book = book.asks
side_levels OrderSide.sell book = book.bids

-- The reference price of the fixed-percentage mode.
unfoldable pub fixed_reference : Order → Option OrderBook → Option Decimal
fixed_reference o book = elim (positive_price o.requested_price) [
  | some p ↦ some p
  | none ↦ elim book [ none ↦ none | some b ↦ positive_price (first_price (side_levels o.side b)) ]
]

unfoldable pub fixed_price : ExecutorSettings → OrderSide → Decimal → Decimal
fixed_price cfg OrderSide.buy ref = mul ref (one_d +ℤ div cfg.fixed_slippage_pct hundred)
fixed_price cfg OrderSide.sell ref = mul ref (one_d -ℤ div cfg.fixed_slippage_pct hundred)

unfoldable pub fixed_fill : ExecutorSettings → Order → Option OrderBook → Option FillPlan
fixed_fill cfg o book = elim (fixed_reference o book) [
  | none ↦ none
  | some ref ↦
      let price = fixed_price cfg o.side ref in
      some (record {
        levels_consumed = 1;
        filled = o.requested_quantity;
        vwap = price;
        slippage_cost = mul (abs_ℤ (price -ℤ ref)) o.requested_quantity;
      })
]

unfoldable pub simulate_fill : ExecutorSettings → Order → Option OrderBook → Option FillPlan
simulate_fill cfg o book = elim cfg.slippage_mode [
  | SlippageMode.fixed ↦ fixed_fill cfg o book
  | SlippageMode.order_book ↦ elim book [
    | none ↦ fixed_fill cfg o none
    | some b ↦ walk_book cfg o (side_levels o.side b) o.requested_quantity
  ]
]

-- `_limit_is_marketable`, at the limit price
unfoldable pub limit_is_marketable : OrderSide → Decimal → Option OrderBook → Bool
limit_is_marketable side limit none = true
limit_is_marketable side limit (some book) = elim (first_price (side_levels side book)) [
  | none ↦ false
  | some top ↦ not (crosses side (some limit) top)
]
