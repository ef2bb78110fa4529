-- ===== src/Execution/Tests.antt =====
-- Concrete runs of the simulated executor.
use moreney.Prelude.{
  ◌≢◌, ℕ, ◌++◌, nat_eq, List, ◌≤◌, ◌≡◌, refl, true, false, none, some, [], ◌∷◌, arith,
}
use moreney.Prelude.Int.{◌+ℤ◌, ◌-ℤ◌, ◌≤ℤ◌, min_ℤ, max_ℤ, neg, abs_ℤ}
use moreney.Decimal.{of_ℕ, zero_d, mul, div}
use moreney.Core.Enums.{OpportunitySide, OrderSide, OrderStatus, OrderType}
use moreney.Core.Text.{Str, codes, str_eq, upper}
use moreney.Core.Models.{OrderBook, OrderBookLevel}
use moreney.Prelude.Dict.{lookup}
use moreney.Portfolio.Models.{Order, Fill, PortfolioStats, PortfolioState}
use moreney.Portfolio.Paper.{apply_order_fill, available, reserve, release_reservation}
use moreney.Portfolio.Conservation.{IsSolventBook}
use moreney.Portfolio.Accounting.{apply_fill, is_processed}
use moreney.Execution.Tracker.{apply}
use moreney.Execution.Bounds.{execute_within}
use moreney.Execution.Accounting.{IsAccounted, attach_fill-IsAccounted}
use moreney.Execution.Orders.{Orders, attach_fill, with_fill, notional_from, add, get, set_status}
use moreney.Execution.Cancelling.{cancel-execute}
use moreney.Execution.Executor.{
  to_order_side, cancel, settle, plan_fill, adjust_reservation, ExecutorSettings, SlippageMode,
  OrderRequest, ExecutionReject, ExecutionResult, Executor, returned, unfilled, new_order, reject,
  place_order, execute, open_order, try_fill, rests, simulate_fill, walk_book, walk_levels,
  walk_limit, walk_result, crosses, take_level, start_walk, limit_is_marketable, reservation_needed,
  reservation_price,
}
use moreney.Execution.Walk.{walk_levels_parts}
use moreney.Execution.Rejection.{SameBalances, execute_rejects}

abbrev eur : Str
eur = codes "EUR"

abbrev asks : List OrderBookLevel
asks =
    record { price = of_ℕ 10; amount = of_ℕ 1 }
    ∷ record { price = of_ℕ 11; amount = of_ℕ 1 }
    ∷ record { price = of_ℕ 12; amount = of_ℕ 5 }
    ∷ []

walk_levels_parts_example :
    let w = walk_levels OrderSide.buy (some (of_ℕ 11)) (start_walk (of_ℕ 4)) asks in
    (w.filled +ℤ w.remaining ≡ of_ℕ 4)
    × (zero_d ≤ℤ w.filled)
    × (w.filled ≤ℤ of_ℕ 4)
    × (w.consumed ≤ 3)
walk_levels_parts_example =
    walk_levels_parts OrderSide.buy (some (of_ℕ 11)) (of_ℕ 4) asks (omega arith)

walk_stops_at_limit :
    (walk_levels OrderSide.buy (some (of_ℕ 11)) (start_walk (of_ℕ 4)) asks).filled ≡ of_ℕ 2
unfolding walk_levels crosses take_level min_ℤ ◌+ℤ◌ ◌-ℤ◌
walk_stops_at_limit = refl

abbrev settings : ExecutorSettings
settings = record {
  fee_rate = zero_d;
  slippage_mode = SlippageMode.order_book;
  fixed_slippage_pct = zero_d;
  partial_ok = false;
  reject_thin = true;
  quote = eur;
}

abbrev stats : PortfolioStats
stats = record {
  realized_pnl = zero_d;
  unrealized_pnl = zero_d;
  fees_paid = zero_d;
  total_trading_volume = zero_d;
  number_of_trades = 0;
  winning_trades = 0;
  losing_trades = 0;
  peak_equity = of_ℕ 200;
  current_drawdown = zero_d;
  maximum_drawdown = zero_d;
}

abbrev account : PortfolioState
account = record {
  balances = (eur, record { asset = eur; available = of_ℕ 150; reserved = of_ℕ 50 }) ∷ [];
  positions = [];
  stats = stats;
  quote_asset = eur;
  mark_prices = [];
}

abbrev start : Executor
start = record {
  portfolio = record { quote = eur; processed = []; state = account };
  orders = [];
  tracker = record { fills = []; results = [] };
  history = [];
}

account-IsSolventBook : IsSolventBook account.balances
unfolding str_eq
account-IsSolventBook k = record { available_nonneg = ground arith; reserved_nonneg = ground arith }

abbrev request : OrderRequest
request = record {
  id = 1;
  opportunity_id = 4;
  symbol = codes "BTCEUR";
  side = OpportunitySide.buy;
  quantity = of_ℕ 4;
  limit_price = some (of_ℕ 11);
}

abbrev book : OrderBook
book = record { symbol = codes "BTCEUR"; bids = []; asks = asks; timestamp = 0; nonce = none }

abbrev thin_result : ExecutionResult
thin_result = record {
  order_id = 1;
  opportunity_id = 4;
  status = OrderStatus.rejected;
  filled_quantity = zero_d;
  average_price = none;
  fees_usd = zero_d;
  rejection_reason = some ExecutionReject.insufficient_liquidity;
}

-- A reservation is made, the book is too thin, and the order is rejected.
rejects_thin :
    (execute settings request (some book) OrderType.limit 9 start).1 ≡ returned thin_result
unfolding execute place_order new_order add reservation_needed reservation_price available reserve
    upper str_eq open_order set_status rests limit_is_marketable crosses try_fill simulate_fill
    walk_book walk_limit walk_levels take_level walk_result reject release_reservation mul div min_ℤ
    max_ℤ ◌+ℤ◌ ◌-ℤ◌
rejects_thin = refl

execute_rejects_example :
    SameBalances
      (execute settings request (some book) OrderType.limit 9 start).0.portfolio
      start.portfolio
execute_rejects_example =
    execute_rejects settings request (some book) OrderType.limit 9 start account-IsSolventBook
      rejects_thin (ground arith)

-- With partial fills allowed, the part of the order up to its limit price is bought.
abbrev partial : ExecutorSettings
partial = record settings { partial_ok = true }

abbrev partial_result : ExecutionResult
partial_result = record {
  order_id = 1;
  opportunity_id = 4;
  status = OrderStatus.partially_filled;
  filled_quantity = of_ℕ 2;
  average_price = some (div (of_ℕ 21) (of_ℕ 2));
  fees_usd = zero_d;
  rejection_reason = none;
}

fills_partly :
    (execute partial request (some book) OrderType.limit 9 start).1 ≡ returned partial_result
unfolding execute place_order new_order add reservation_needed reservation_price available reserve
    upper str_eq open_order set_status rests limit_is_marketable crosses try_fill simulate_fill
    walk_book walk_limit walk_levels take_level walk_result settle plan_fill adjust_reservation
    release_reservation attach_fill with_fill notional_from apply apply_order_fill apply_fill
    is_processed mul div neg min_ℤ max_ℤ abs_ℤ ◌+ℤ◌ ◌-ℤ◌
fills_partly = refl

execute_within_example : (zero_d ≤ℤ of_ℕ 2) × (of_ℕ 2 ≤ℤ of_ℕ 4) × (zero_d ≤ℤ zero_d)
execute_within_example =
    execute_within partial request (some book) OrderType.limit 9 start (omega arith) fills_partly

abbrev resting : Order
resting = record (new_order request OrderType.limit) { status = OrderStatus.open_order }

abbrev part_fill : Fill
part_fill = record {
  id = 9;
  order_id = 1;
  symbol = codes "BTCEUR";
  side = OrderSide.buy;
  quantity = of_ℕ 2;
  price = of_ℕ 10;
  fee = of_ℕ 1;
  slippage = zero_d;
}

resting-IsAccounted : IsAccounted resting
unfolding new_order
resting-IsAccounted = record {
  quantity = refl;
  fees = refl;
  slippages = refl;
  average = λ positive. absurd (omega arith);
  covered = λ some_fill enough. absurd (some_fill refl);
}

attach_fill-IsAccounted_example :
    (os' : Orders) × (o' : Order) × (attach_fill 1 part_fill ((1, resting) ∷ []) ≡ some (os', o'))
    × IsAccounted o'
    × (o'.fills ≡ [] ++ (part_fill ∷ []))
    × (lookup 1 os' ≡ some o')
    × ((j : ℕ) → 1 ≢ j → lookup j os' ≡ lookup j ((1, resting) ∷ []))
unfolding new_order
attach_fill-IsAccounted_example =
    attach_fill-IsAccounted 1 part_fill ((1, resting) ∷ []) refl resting-IsAccounted

-- The best ask is at 12, above the limit price of 11.
abbrev far_book : OrderBook
far_book = record book { asks = record { price = of_ℕ 12; amount = of_ℕ 5 } ∷ [] }

enough_balance :
    (reservation_needed settings (new_order request OrderType.limit) start.portfolio).enough ≡ true
unfolding reservation_needed reservation_price new_order available upper str_eq mul ◌+ℤ◌
enough_balance = refl

far_away : limit_is_marketable (to_order_side OpportunitySide.buy) (of_ℕ 11) (some far_book) ≡ false
unfolding limit_is_marketable crosses
far_away = refl

cancel-execute_example :
    let placed = execute settings request (some far_book) OrderType.limit 9 start in
    (placed.1 ≡ returned (unfilled request OrderStatus.open_order none))
    × (get 1 placed.0.orders ≡ some resting)
    × (st' : Executor) × (o' : Order) × (cancel settings 1 (codes "user") placed.0 ≡ some (st', o'))
    × (o'.status ≡ OrderStatus.cancelled)
    × SameBalances st'.portfolio start.portfolio
cancel-execute_example =
    cancel-execute settings request (some far_book) 9 (codes "user") start account-IsSolventBook
      refl (omega arith) (omega arith) enough_balance far_away
