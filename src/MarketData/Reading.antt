-- ===== src/MarketData/Reading.antt =====
-- bot/market_data/service.py: the books and snapshots that strategies read.
use moreney.Prelude.{ℕ, Bool, not, ◌&&◌, Option, none, some, List, [], ◌∷◌, if◌then◌else◌}
use moreney.Prelude.Int.{◌+ℤ◌, ltb_ℤ}
use moreney.Prelude.Dict.{lookup}
use moreney.Decimal.{Decimal, of_ℕ, div}
use moreney.Core.Text.{Str, str_instance, lower}
use moreney.Core.Models.{OrderBook, OrderBookLevel, MarketSnapshot}
use moreney.MarketData.LocalBook.{LocalOrderBook, is_synchronized, to_order_book}
use moreney.MarketData.Liquidity.{age_ms}
use moreney.MarketData.Service.{key_instance, Key, MarketDataService, put_book, plain_symbol}

-- `get_local_book`
abbrev pub book_key : Str → Str → Key
book_key exchange symbol = (lower exchange, plain_symbol symbol)

unfoldable pub get_local_book : Str → Str → MarketDataService → Option LocalOrderBook
get_local_book exchange symbol s = lookup (book_key exchange symbol) s.books

-- A book that strategies may see at that time.
abbrev pub is_valid : ℕ → Decimal → LocalOrderBook → Bool
is_valid now max_age b = is_synchronized b && not (ltb_ℤ max_age (age_ms now b))

-- `get_valid_order_book`
unfoldable pub get_valid_order_book :
    ℕ → Str → Str → MarketDataService → MarketDataService × Option OrderBook
get_valid_order_book now exchange symbol s = elim (get_local_book exchange symbol s) [
  | none ↦ (s, none)
  | some b ↦
      if is_valid now s.max_age_ms b
      then (
        put_book (book_key exchange symbol) (to_order_book none b).0 s,
        (to_order_book none b).1,
      )
      else (s, none)
]

abbrev pub snapshot_at :
    Str → Str → Option Decimal → OrderBook → OrderBookLevel → OrderBookLevel → MarketSnapshot
snapshot_at exchange symbol latency book bid ask = record {
  symbol = symbol;
  bid = bid.price;
  ask = ask.price;
  last = div (bid.price +ℤ ask.price) (of_ℕ 2);
  funding_rate = none;
  order_book = some book;
  exchange = some exchange;
  latency_ms = latency;
  timestamp = book.timestamp;
}

-- `none` is the `IndexError` of an empty side.
unfoldable pub snapshot_of : Str → Str → Option Decimal → OrderBook → Option MarketSnapshot
snapshot_of exchange symbol latency book = elim book.bids [
  | [] ↦ none
  | bid ∷ _ ↦ elim book.asks [
    | [] ↦ none
    | ask ∷ _ ↦ some (snapshot_at exchange symbol latency book bid ask)
  ]
]

abbrev pub local_age : ℕ → Option LocalOrderBook → Option Decimal
local_age now none = none
local_age now (some b) = some (age_ms now b)

-- A snapshot before the others; the loop stops where one raises.
abbrev pub cons_snapshot :
    Option MarketSnapshot
    → MarketDataService
    → MarketDataService × Option (List MarketSnapshot)
    → MarketDataService × Option (List MarketSnapshot)
cons_snapshot none s rest = (s, none)
cons_snapshot (some m) s rest = (rest.0, elim rest.1 [ none ↦ none | some ms ↦ some (m ∷ ms) ])

unfoldable pub snapshots_at :
    ℕ → Str → List Str → MarketDataService → MarketDataService × Option (List MarketSnapshot)
snapshots_at now symbol [] s = (s, some [])
snapshots_at now symbol (x ∷ xs) s =
    let read = get_valid_order_book now x symbol s in
    let rest = snapshots_at now symbol xs read.0 in
    let latency = local_age now (get_local_book x symbol read.0) in
    elim read.1 [
      | none ↦ rest
      | some book ↦ cons_snapshot (snapshot_of x symbol latency book) read.0 rest
    ]

-- `snapshots_for_arbitrage`
unfoldable pub snapshots_for_arbitrage :
    ℕ → Str → MarketDataService → MarketDataService × Option (List MarketSnapshot)
snapshots_for_arbitrage now symbol s = snapshots_at now (plain_symbol symbol) s.exchanges s
