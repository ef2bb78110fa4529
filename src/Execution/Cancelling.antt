-- ===== src/Execution/Cancelling.antt =====
-- The reservation of a limit order that rests and is cancelled: `execute`, then `cancel`.
use moreney.Prelude.{
  Bool-cases, inl, inr, ℕ, ◌≡◌, refl, true, false, ◌++◌, [], ◌∷◌, Option, none, some, arith, nat_eq,
}
use moreney.Prelude.Int.{◌-ℤ◌, ◌<ℤ◌, leb_ℤ, int_laws, eq_of_parts}
use moreney.Prelude.Dict.{lookup, insert, lookup-insert_self}
use moreney.Decimal.{Decimal, zero_d, is_pos}
use moreney.Core.Enums.{OrderType, OrderStatus}
use moreney.Core.Models.{OrderBook}
use moreney.Core.Text.{Str}
use moreney.Portfolio.Models.{Order}
use moreney.Portfolio.Paper.{
  PaperPortfolio, available, reserve, release_reservation, base_asset_for,
}
use moreney.Portfolio.Reservations.{balance_at, reserve_succeeds, balance_at-release}
use moreney.Portfolio.Conservation.{IsSolventBook}
use moreney.Execution.Orders
use moreney.Execution.Orders.{Orders, add, get, set_status}
use moreney.Execution.Executor.{
  ExecutorSettings, OrderRequest, Executor, returned, to_order_side, limit_is_marketable,
  reservation_price, reservation_needed, new_order, unfilled, rests, open_order, place_order,
  execute, release_remaining, cancel,
}
use moreney.Execution.Rejection.{SameBalances, release_reserve}

minus_zero : (a : Decimal) → a -ℤ zero_d ≡ a
minus_zero a = eq_of_parts _ _ (omega int_laws)

reserve_quote :
    (asset : Str) (amount : Decimal) (p : PaperPortfolio)
    → (reserve asset amount p).0.quote ≡ p.quote
unfolding reserve
reserve_quote asset amount p = ground arith

reserve_nothing :
    (asset : Str) (amount : Decimal) (p : PaperPortfolio)
    → is_pos amount ≡ false
    → (reserve asset amount p).0 ≡ p
unfolding reserve
reserve_nothing asset amount p h = ground arith

-- The order of a request, when it is open.
abbrev opened : OrderRequest → Order
opened req = record (new_order req OrderType.limit) { status = OrderStatus.open_order }

module _ (cfg : ExecutorSettings) (req : OrderRequest) (p : PaperPortfolio) {price : Decimal}
    (limit : req.limit_price ≡ some price) (positive : zero_d <ℤ price) where
  release_remaining-opened :
      (q : PaperPortfolio)
      → zero_d <ℤ req.quantity
      → q.quote ≡ p.quote
      → let needed = reservation_needed cfg (new_order req OrderType.limit) p in
        release_remaining cfg (opened req) q ≡ release_reservation needed.asset needed.amount q
  unfolding release_remaining reservation_needed reservation_price new_order base_asset_for
  release_remaining-opened q some_quantity same = ground (arith, minus_zero req.quantity)

  enough_covers :
      let needed = reservation_needed cfg (new_order req OrderType.limit) p in
      needed.enough ≡ true → leb_ℤ needed.amount (available needed.asset p) ≡ true
  unfolding reservation_needed reservation_price new_order
  enough_covers h = ground arith

cancel-opened :
    (cfg : ExecutorSettings) (i : ℕ) (reason : Str) (st : Executor) {o : Order}
    → lookup i st.orders ≡ some o
    → o.status ≡ OrderStatus.open_order
    → let cancelled = record o { status = OrderStatus.cancelled; rejection_reason = some reason } in
      cancel cfg i reason st
      ≡ some (
        record st {
          orders = insert i cancelled st.orders;
          portfolio = release_remaining cfg o st.portfolio;
        },
        cancelled,
      )
unfolding cancel Orders.cancel
cancel-opened cfg i reason st found is_open = rw (cancel, Orders.cancel, found) (ground arith)

open_order_resting :
    (cfg : ExecutorSettings) (req : OrderRequest) (asset : Str) (held : Decimal)
    (book : Option OrderBook) (fill_id : ℕ) (os : Orders) (st : Executor)
    → st.orders ≡ add (new_order req OrderType.limit) os
    → rests (new_order req OrderType.limit) book ≡ true
    → open_order cfg req (new_order req OrderType.limit) asset held book fill_id st ≡ (
      record st {
        orders = insert req.id (opened req) (insert req.id (new_order req OrderType.limit) os);
        history = st.history ++ (unfilled req OrderStatus.open_order none ∷ []);
      },
      returned (unfilled req OrderStatus.open_order none),
    )
unfolding open_order set_status add new_order
open_order_resting cfg req asset held book fill_id os st there resting =
    rw
      (
        open_order,
        set_status,
        there,
        lookup-insert_self req.id (new_order req OrderType.limit) os,
        resting,
      )
      (rw there refl)

rests_away :
    (req : OrderRequest) (book : Option OrderBook) {price : Decimal}
    → req.limit_price ≡ some price
    → limit_is_marketable (to_order_side req.side) price book ≡ false
    → rests (new_order req OrderType.limit) book ≡ true
unfolding rests new_order
rests_away req book limit away = rw (rests, limit, away) refl

execute_resting :
    (cfg : ExecutorSettings) (req : OrderRequest) (book : Option OrderBook) (fill_id : ℕ)
    (st : Executor) {price : Decimal}
    → req.limit_price ≡ some price
    → zero_d <ℤ price
    → zero_d <ℤ req.quantity
    → limit_is_marketable (to_order_side req.side) price book ≡ false
    → let needed = reservation_needed cfg (new_order req OrderType.limit) st.portfolio in
      needed.enough ≡ true
      → execute cfg req book OrderType.limit fill_id st ≡ (
        record st {
          portfolio = (reserve needed.asset needed.amount st.portfolio).0;
          orders =
              insert req.id (opened req) (insert req.id (new_order req OrderType.limit) st.orders);
          history = st.history ++ (unfilled req OrderStatus.open_order none ∷ []);
        },
        returned (unfilled req OrderStatus.open_order none),
      )
unfolding execute place_order
execute_resting cfg req book fill_id st limit positive some_quantity away enough =
    let o = new_order req OrderType.limit in
    let needed = reservation_needed cfg o st.portfolio in
    let q = (reserve needed.asset needed.amount st.portfolio).0 in
    let resting = rests_away req book limit away in
    let opens = λ (p : PaperPortfolio).
      open_order_resting cfg req needed.asset needed.amount book fill_id st.orders
        (record st { orders = add o st.orders; portfolio = p }) refl resting in
    let covered = enough_covers cfg req st.portfolio limit positive enough in
    let done = reserve_succeeds needed.asset needed.amount st.portfolio in
    let nothing = reserve_nothing needed.asset needed.amount st.portfolio in
    ground (arith, opens q, opens st.portfolio, covered, done, nothing, enough)

-- What is reserved and released again is where it was, also where there is nothing to reserve.
reserved_and_released :
    (asset j : Str) (amount : Decimal) (p : PaperPortfolio)
    → IsSolventBook p.state.balances
    → (is_pos amount ≡ true → (reserve asset amount p).1 ≡ true)
    → balance_at j (release_reservation asset amount (reserve asset amount p).0).state.balances
      ≡ balance_at j p.state.balances
reserved_and_released asset j amount p v done = elim (Bool-cases (is_pos amount)) [
  | inl positive ↦ release_reserve asset j amount p v (ground arith) (done positive)
  | inr nothing ↦ ground (
    arith,
    reserve_nothing asset amount p nothing,
    balance_at-release asset amount j (reserve asset amount p).0,
  )
]

-- If no balance is negative, then for an order for a positive quantity at a positive limit price,
-- whose reservation is covered and that the book does not reach, `execute` answers an open result with
-- nothing filled and leaves the order open under its id. Cancelling it then succeeds, ends it as
-- CANCELLED, and leaves the available and the reserved part of every asset as they were before.
pub cancel-execute :
    (cfg : ExecutorSettings) (req : OrderRequest) (book : Option OrderBook) (fill_id : ℕ)
    (reason : Str) (st : Executor) {price : Decimal}
    → IsSolventBook st.portfolio.state.balances
    → req.limit_price ≡ some price
    → zero_d <ℤ price
    → zero_d <ℤ req.quantity
    → (reservation_needed cfg (new_order req OrderType.limit) st.portfolio).enough ≡ true
    → limit_is_marketable (to_order_side req.side) price book ≡ false
    → let placed = execute cfg req book OrderType.limit fill_id st in
      (placed.1 ≡ returned (unfilled req OrderStatus.open_order none))
      × (get req.id placed.0.orders ≡ some (opened req))
      × (st' : Executor) × (o' : Order) × (cancel cfg req.id reason placed.0 ≡ some (st', o'))
      × (o'.status ≡ OrderStatus.cancelled)
      × SameBalances st'.portfolio st.portfolio
cancel-execute cfg req book fill_id reason st v limit positive some_quantity enough away =
    let o = opened req in
    let cancelled = record o { status = OrderStatus.cancelled; rejection_reason = some reason } in
    let needed = reservation_needed cfg (new_order req OrderType.limit) st.portfolio in
    let q = (reserve needed.asset needed.amount st.portfolio).0 in
    let os = insert req.id o (insert req.id (new_order req OrderType.limit) st.orders) in
    let st1 = record st {
      portfolio = q;
      orders = os;
      history = st.history ++ (unfilled req OrderStatus.open_order none ∷ []);
    } in
    let covered = enough_covers cfg req st.portfolio limit positive enough in
    let released =
      release_remaining-opened cfg req st.portfolio limit positive q some_quantity
        (reserve_quote needed.asset needed.amount st.portfolio) in
    let placed = execute_resting cfg req book fill_id st limit positive some_quantity away enough in
    let there =
      lookup-insert_self req.id o (insert req.id (new_order req OrderType.limit) st.orders) in
    (
      rw placed refl,
      rw placed there,
      record st1 { orders = insert req.id cancelled os; portfolio = release_remaining cfg o q },
      cancelled,
      rw placed (cancel-opened cfg req.id reason st1 there refl),
      refl,
      λ j. rw released (
          reserved_and_released needed.asset j needed.amount st.portfolio v (λ some_amount.
            ground (arith, reserve_succeeds needed.asset needed.amount st.portfolio, covered))),
    )
