-- ===== src/MarketData/FeedTests.antt =====
-- Concrete runs of a market data service.
use moreney.Prelude.{ℕ, ◌≡◌, refl, true, none, some, List, [], ◌∷◌, Option}
use moreney.Decimal.{of_ℕ}
use moreney.Core.Text.{Str, codes, without, upper, lower, str_eq}
use moreney.Core.Models.{OrderBookLevel, MarketSnapshot}
use moreney.MarketData.LocalBook.{
  new_local_book, apply_snapshot, invalidate_cache, trim_depth, trim_side, side_from,
  is_synchronized, best_bid, best_ask, best_of, extreme, to_order_book, store, build_book,
  side_view, sort_side, insert_sorted,
}
use moreney.MarketData.Liquidity.{age_ms}
use moreney.MarketData.Service.{
  EventType, MarketDataService, new_service, plain_symbol, handle_event, cache_due, book_part,
  take_book, book_or_new, take_update, publish, derived_tick,
}
use moreney.MarketData.Reading.{snapshots_for_arbitrage, get_local_book, snapshot_of}
use moreney.MarketData.Snapshots.{fresh_snapshots, fresh_at}
use moreney.MarketData.Feed.{
  ServiceCall, service_call, service_calls, snapshots_for_arbitrage-fresh,
}

abbrev kraken : Str
kraken = codes "kraken"

abbrev bitvavo : Str
bitvavo = codes "bitvavo"

abbrev btceur : Str
btceur = codes "BTCEUR"

abbrev quote_level : ℕ → OrderBookLevel
quote_level price = record { price = of_ℕ price; amount = of_ℕ 2 }

abbrev loads : Str → ℕ → ServiceCall
loads exchange at = ServiceCall.takes at (of_ℕ at) (record {
  exchange = exchange;
  symbol = btceur;
  event_type = EventType.book_snapshot;
  tick = none;
  book_update = some (record {
    exchange = exchange;
    symbol = btceur;
    bids = quote_level 99 ∷ quote_level 98 ∷ [];
    asks = quote_level 100 ∷ [];
    is_snapshot = true;
    sequence = some at;
    prev_sequence = none;
    timestamp = at;
  });
})

-- The book of kraken is older than the limit of 40 when the snapshots are read at 60.
abbrev feed : MarketDataService
feed =
    service_calls (loads kraken 10 ∷ loads bitvavo 50 ∷ [])
      (new_service 0 (kraken ∷ bitvavo ∷ []) (btceur ∷ []) (of_ℕ 40) 5 (of_ℕ 1))

snapshots_for_arbitrage-fresh_example :
    (snapshots_for_arbitrage 60 (codes "btc-eur") feed).1
    ≡ some (fresh_snapshots 60 (plain_symbol (codes "btc-eur")) feed.exchanges feed)
snapshots_for_arbitrage-fresh_example =
    snapshots_for_arbitrage-fresh 0 (kraken ∷ bitvavo ∷ []) (btceur ∷ []) (of_ℕ 40) 5 (of_ℕ 1)
      (loads kraken 10 ∷ loads bitvavo 50 ∷ []) 60 (codes "btc-eur")

abbrev venues : List MarketSnapshot → List (Option Str)
venues [] = []
venues (m ∷ ms) = m.exchange ∷ venues ms

-- Only bitvavo is shown.
shows_bitvavo :
    venues (fresh_snapshots 60 (plain_symbol (codes "btc-eur")) feed.exchanges feed)
    ≡ some bitvavo ∷ []
unfolding fresh_snapshots fresh_at get_local_book service_calls service_call handle_event cache_due
    book_part take_book book_or_new take_update apply_snapshot invalidate_cache trim_depth trim_side
    side_from publish derived_tick is_synchronized best_bid best_ask best_of extreme to_order_book
    store build_book side_view sort_side insert_sorted snapshot_of new_service new_local_book age_ms
    without upper lower str_eq
shows_bitvavo = refl
