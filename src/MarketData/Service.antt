-- ===== src/MarketData/Service.antt =====
-- bot/market_data/service.py: the local books and ticks of `MarketDataService`, how an event changes
-- them, and what strategies read from them.
use moreney.Prelude.{
  ℕ, ◌≡◌, ◌↔◌, Bool, true, false, not, ◌&&◌, ◌||◌, Option, none, some, List, [], ◌∷◌, arith,
  if◌then◌else◌, Eq, get_or,
}
use moreney.Prelude.Int.{◌-ℤ◌, leb_ℤ}
use moreney.Prelude.Dict.{Dict, lookup, insert}
use moreney.Decimal.{Decimal, zero_d}
use moreney.Core.Text.{Str, str_eq, str_eq_iff, str_instance, upper, without}
use moreney.MarketData.LocalBook.{
  OrderBookUpdate, LocalOrderBook, new_local_book, is_synchronized, is_bare, apply_snapshot,
  apply_update, best_bid, best_ask, to_order_book,
}

-- Exchange and symbol, the key of a book.
abbrev pub Key : Type 0
Key = Str × Str

abbrev pub key_eq : Key → Key → Bool
key_eq a b = str_eq a.0 b.0 && str_eq a.1 b.1

pub key_eq_iff : (a b : Key) → (key_eq a b ≡ true) ↔ (a ≡ b)
key_eq_iff (x, s) (y, t) = ground (arith, str_eq_iff x y, str_eq_iff s t)

instance abbrev pub key_instance : Eq Key
key_instance = record { beq = key_eq; beq_iff = key_eq_iff }

pub record MarketTick : Type 0 where
  pub exchange : Str
  pub symbol : Str
  pub bid : Decimal
  pub ask : Decimal
  pub bid_size : Option Decimal
  pub ask_size : Option Decimal
  pub last : Option Decimal
  pub timestamp : ℕ
  pub sequence : Option ℕ

pub data EventType : Type 0 where
  tick book_snapshot book_update heartbeat error : EventType

pub record MarketDataEvent : Type 0 where
  pub exchange : Str
  pub symbol : Str
  pub event_type : EventType
  pub tick : Option MarketTick
  pub book_update : Option OrderBookUpdate

pub record MarketDataService : Type 0 where
  pub exchanges : List Str
  pub max_age_ms : Decimal
  pub book_depth : ℕ
  pub cache_interval : Decimal
  pub books : Dict Key LocalOrderBook
  pub ticks : Dict Key MarketTick
  pub last_cache_write : Dict Str Decimal

-- The constructor's books: one for each exchange and symbol.
abbrev pub open_symbols : ℕ → ℕ → Str → List Str → Dict Key LocalOrderBook → Dict Key LocalOrderBook
open_symbols now depth exchange [] d = d
open_symbols now depth exchange (x ∷ xs) d =
    open_symbols now depth exchange xs
      (insert (exchange, x) (new_local_book now exchange x depth) d)

abbrev pub open_books :
    ℕ → ℕ → List Str → List Str → Dict Key LocalOrderBook → Dict Key LocalOrderBook
open_books now depth [] symbols d = d
open_books now depth (e ∷ es) symbols d =
    open_books now depth es symbols (open_symbols now depth e symbols d)

-- A new service, of exchanges and symbols that are normalized.
unfoldable pub new_service : ℕ → List Str → List Str → Decimal → ℕ → Decimal → MarketDataService
new_service now exchanges symbols max_age_ms book_depth cache_interval = record {
  exchanges = exchanges;
  max_age_ms = max_age_ms;
  book_depth = book_depth;
  cache_interval = cache_interval;
  books = open_books now book_depth exchanges symbols [];
  ticks = [];
  last_cache_write = [];
}

-- `.upper().replace("-", "").replace("/", "")`
abbrev pub plain_symbol : Str → Str
plain_symbol s = without b'/' (without b'-' (upper s))

-- `_cache_due`
unfoldable pub cache_due : Decimal → Str → MarketDataService → Bool
cache_due clock exchange s =
    leb_ℤ s.cache_interval zero_d || (elim (lookup exchange s.last_cache_write) [
      | none ↦ true
      | some last ↦ leb_ℤ s.cache_interval (clock -ℤ last)
    ])

-- `_mark_cache_written`
abbrev pub mark_cache_written : Decimal → Str → MarketDataService → MarketDataService
mark_cache_written clock exchange s = record s {
  last_cache_write = insert exchange clock s.last_cache_write;
}

-- The book under a key, or a new one.
unfoldable pub book_or_new : ℕ → Key → MarketDataService → LocalOrderBook
book_or_new now key s = get_or (lookup key s.books) (new_local_book now key.0 key.1 s.book_depth)

abbrev pub put_book : Key → LocalOrderBook → MarketDataService → MarketDataService
put_book key b s = record s { books = insert key b s.books }

abbrev pub put_tick : Key → MarketTick → MarketDataService → MarketDataService
put_tick key t s = record s { ticks = insert key t s.ticks }

-- An update with both sides rebuilds a book that needs a snapshot.
abbrev pub promote_snapshot : OrderBookUpdate → LocalOrderBook → Bool
promote_snapshot u b =
    u.is_snapshot || (b.needs_snapshot && not (is_bare u.bids) && not (is_bare u.asks))

-- `none` is the `ValueError` of a snapshot for another book.
unfoldable pub take_update : OrderBookUpdate → LocalOrderBook → Option LocalOrderBook
take_update u b =
    if promote_snapshot u b
    then apply_snapshot u b
    else elim (apply_update u b) [ none ↦ none | some r ↦ some r.0 ]

abbrev pub tick_of : Key → LocalOrderBook → Decimal × Decimal → Decimal × Decimal → MarketTick
tick_of key b bid ask = record {
  exchange = key.0;
  symbol = key.1;
  bid = bid.0;
  ask = ask.0;
  bid_size = some bid.1;
  ask_size = some ask.1;
  last = none;
  timestamp = b.timestamp;
  sequence = b.sequence;
}

-- The tick at the top of a synchronized book.
unfoldable pub derived_tick : Key → LocalOrderBook → Option MarketTick
derived_tick key b =
    if is_synchronized b
    then (elim (best_bid b) [
      | none ↦ none
      | some bid ↦ elim (best_ask b) [ none ↦ none | some ask ↦ some (tick_of key b bid ask) ]
    ])
    else none

-- The book is read for the cache when that is due, and a tick was derived.
unfoldable pub publish : Bool → Key → LocalOrderBook → MarketDataService → MarketDataService
publish due key b s = elim (derived_tick key b) [
  | none ↦ put_book key b s
  | some t ↦ put_tick key t (put_book key (if due then (to_order_book none b).0 else b) s)
]

abbrev pub is_book_event : EventType → Bool
is_book_event EventType.book_snapshot = true
is_book_event EventType.book_update = true
is_book_event EventType.tick = false
is_book_event EventType.heartbeat = false
is_book_event EventType.error = false

abbrev pub is_heartbeat : EventType → Bool
is_heartbeat EventType.heartbeat = true
is_heartbeat EventType.book_snapshot = false
is_heartbeat EventType.book_update = false
is_heartbeat EventType.tick = false
is_heartbeat EventType.error = false

-- The update of an event; false if it raises, which leaves the book as it was.
unfoldable pub take_book :
    ℕ → Bool → Key → OrderBookUpdate → MarketDataService → MarketDataService × Bool
take_book now due key u s =
    let b = book_or_new now key s in
    elim (take_update u b) [
      | none ↦ (put_book key b s, false)
      | some b' ↦ (publish due key b' s, true)
    ]

unfoldable pub book_part : ℕ → Bool → MarketDataEvent → MarketDataService → MarketDataService × Bool
book_part now due e s = elim e.book_update [
  | none ↦ (s, true)
  | some u ↦
      if is_book_event e.event_type then take_book now due (e.exchange, e.symbol) u s else (s, true)
]

abbrev pub tick_part : MarketDataEvent → MarketDataService → MarketDataService
tick_part e s = elim e.tick [ none ↦ s | some t ↦ put_tick (e.exchange, e.symbol) t s ]

-- `handle_event`, at a time and a reading of the monotonic clock; false if it raises.
unfoldable pub handle_event :
    ℕ → Decimal → MarketDataEvent → MarketDataService → MarketDataService × Bool
handle_event now clock e s =
    let due = cache_due clock e.exchange s in
    let booked = book_part now due e s in
    let ticked = tick_part e booked.0 in
    if is_heartbeat e.event_type
    then (s, true)
    else if not booked.1
    then booked
    else ((if due then mark_cache_written clock e.exchange ticked else ticked), true)
