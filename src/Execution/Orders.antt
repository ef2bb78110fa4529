-- ===== src/Execution/Orders.antt =====
-- bot/execution/order_manager.py: `OrderManager`. Times of update are left out.
use moreney.Prelude.{
  ℕ, Bool, true, false, not, ◌&&◌, Option, none, some, List, [], ◌∷◌, ◌++◌, if◌then◌else◌, keep_if,
}
use moreney.Prelude.Int.{◌+ℤ◌, leb_ℤ}
use moreney.Prelude.Dict.{Dict, lookup, insert}
use moreney.Prelude.{nat_eq}
use moreney.Decimal.{Decimal, zero_d, mul, div, is_pos}
use moreney.Core.Enums.{OrderStatus}
use moreney.Core.Text.{Str, str_eq, upper}
use moreney.Portfolio.Models.{Fill, Order, is_terminal_status}

abbrev pub Orders : Type 0
Orders = Dict ℕ Order

unfoldable pub add : Order → Orders → Orders
add o os = insert o.id o os

abbrev pub get : ℕ → Orders → Option Order
get i os = lookup i os

pub orders_in : Orders → List Order
orders_in [] = []
orders_in ((i, o) ∷ os) = o ∷ orders_in os

-- `list_orders`: an empty symbol counts as none.
unfoldable pub list_orders : Option Str → Orders → List Order
unfolding orders_in
list_orders none os = orders_in os
list_orders (some []) os = orders_in os
list_orders (some (c ∷ s)) os = keep_if (λ o. str_eq o.symbol (upper (c ∷ s))) (orders_in os)

-- `none` is the `KeyError` of `_require`.
unfoldable pub set_status : ℕ → OrderStatus → Option Str → Orders → Option Orders
set_status i status reason os = elim (lookup i os) [
  | none ↦ none
  | some o ↦ some (
      insert i
        (record o {
          status = status;
          rejection_reason = elim reason [ none ↦ o.rejection_reason | some why ↦ some why ];
        })
        os)
]

unfoldable pub notional_from : Decimal → List Fill → Decimal
notional_from sum [] = sum
notional_from sum (f ∷ fs) = notional_from (sum +ℤ mul f.quantity f.price) fs

-- The order after a fill is attached to it.
unfoldable pub with_fill : Fill → Order → Order
with_fill fill o =
    let filled = o.filled_quantity +ℤ fill.quantity in
    let fills = o.fills ++ (fill ∷ []) in
    let notional = notional_from zero_d fills in
    record o {
      fills = fills;
      filled_quantity = filled;
      fee = o.fee +ℤ fill.fee;
      slippage = o.slippage +ℤ fill.slippage;
      average_fill_price =
          if is_pos filled then some (div notional filled) else o.average_fill_price;
      status =
          if leb_ℤ o.requested_quantity filled
          then OrderStatus.filled
          else if is_pos filled
          then OrderStatus.partially_filled
          else o.status;
    }

unfoldable pub attach_fill : ℕ → Fill → Orders → Option (Orders × Order)
attach_fill i fill os = elim (lookup i os) [
  | none ↦ none
  | some o ↦ some (insert i (with_fill fill o) os, with_fill fill o)
]

-- Membership of `{FILLED, REJECTED, FAILED}`.
abbrev pub is_closed : OrderStatus → Bool
is_closed OrderStatus.filled = true
is_closed OrderStatus.rejected = true
is_closed OrderStatus.failed = true
is_closed _ = false

abbrev pub is_filled : OrderStatus → Bool
is_filled OrderStatus.filled = true
is_filled _ = false

abbrev pub is_partially_filled : OrderStatus → Bool
is_partially_filled OrderStatus.partially_filled = true
is_partially_filled _ = false

-- `OrderManager.cancel`
unfoldable pub cancel : ℕ → Str → Orders → Option (Orders × Order)
cancel i reason os = elim (lookup i os) [
  | none ↦ none
  | some o ↦
      let cancelled = record o { status = OrderStatus.cancelled; rejection_reason = some reason } in
      if is_terminal_status o.status && not (is_partially_filled o.status) && is_closed o.status
      then some (os, o)
      else if is_filled o.status
      then some (os, o)
      else some (insert i cancelled os, cancelled)
]
