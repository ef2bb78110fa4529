-- ===== src/MarketData/Liquidity.antt =====
-- bot/market_data/local_order_book.py: `top_liquidity` and `age_ms`.
use moreney.Prelude.{ℕ, ◌-◌, Option, [], ◌∷◌, if◌then◌else◌, length, take, leb, get_or}
use moreney.Prelude.Int.{◌+ℤ◌}
use moreney.Decimal.{Decimal, of_ℕ, zero_d}
use moreney.MarketData.LocalBook.{Side, LocalOrderBook, ascending, sort_side}

-- The sum of the amounts of a side.
abbrev pub side_sum : Side → Decimal
side_sum [] = zero_d
side_sum ((price, amount) ∷ d) = amount +ℤ side_sum d

-- `top_liquidity`: the size of the best asks, as many as asked for.
unfoldable pub top_liquidity : Option ℕ → LocalOrderBook → Decimal
top_liquidity levels b =
    let limit = get_or levels b.max_depth in
    if leb (length b.asks) limit
    then side_sum b.asks
    else side_sum (take limit (sort_side ascending b.asks))

-- `age_ms`, at a time of the same clock.
unfoldable pub age_ms : ℕ → LocalOrderBook → Decimal
age_ms now b = of_ℕ (now - b.timestamp)
