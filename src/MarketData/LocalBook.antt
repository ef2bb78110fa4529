-- ===== src/MarketData/LocalBook.antt =====
-- bot/market_data/local_order_book.py: `LocalOrderBook`. Of the two times it keeps that of
-- the exchange.
use moreney.Prelude.{
  ℕ, ◌+◌, Bool, true, false, not, ◌&&◌, ◌||◌, Option, none, some, List, [], ◌∷◌, ltb, leb, ◌==◌,
  if◌then◌else◌, get_or, length, take,
}
use moreney.Prelude.Int.{leb_ℤ, min_ℤ, max_ℤ, int_eq}
use moreney.Prelude.Dict.{Dict, lookup, insert, erase}
use moreney.Decimal.{Decimal, zero_d, is_pos}
use moreney.Core.Models.{OrderBook, OrderBookLevel}
use moreney.Core.Text.{Str, str_eq}

-- One side of the book: the amounts by price.
abbrev pub Side : Type 0
Side = Dict Decimal Decimal

pub record OrderBookUpdate : Type 0 where
  pub exchange : Str
  pub symbol : Str
  pub bids : List OrderBookLevel
  pub asks : List OrderBookLevel
  pub is_snapshot : Bool
  pub sequence : Option ℕ
  pub prev_sequence : Option ℕ
  pub timestamp : ℕ

pub record LocalOrderBook : Type 0 where
  pub exchange : Str
  pub symbol : Str
  pub max_depth : ℕ
  pub bids : Side
  pub asks : Side
  pub sequence : Option ℕ
  pub synchronized : Bool
  pub needs_snapshot : Bool
  pub timestamp : ℕ
  pub sequence_gap_count : ℕ
  pub cached_order_book : Option OrderBook
  pub cache_valid : Bool

-- `max(1, n)`
abbrev pub at_least_one : ℕ → ℕ
at_least_one n = if ltb 1 n then n else 1

-- `__init__`; the names are normalised already.
unfoldable pub new_local_book : ℕ → Str → Str → ℕ → LocalOrderBook
new_local_book now exchange symbol max_depth = record {
  exchange = exchange;
  symbol = symbol;
  max_depth = at_least_one max_depth;
  bids = [];
  asks = [];
  sequence = none;
  synchronized = false;
  needs_snapshot = true;
  timestamp = now;
  sequence_gap_count = 0;
  cached_order_book = none;
  cache_valid = false;
}

-- The property `synchronized`.
unfoldable pub is_synchronized : LocalOrderBook → Bool
is_synchronized b = b.synchronized && not b.needs_snapshot

unfoldable pub invalidate_cache : LocalOrderBook → LocalOrderBook
invalidate_cache b = record b { cache_valid = false; cached_order_book = none }

unfoldable pub mark_desynchronized : LocalOrderBook → LocalOrderBook
mark_desynchronized b = invalidate_cache (record b { synchronized = false; needs_snapshot = true })

-- The dict of the levels whose amount is above zero.
unfoldable pub side_from : Side → List OrderBookLevel → Side
side_from d [] = d
side_from d (level ∷ levels) =
    side_from (if is_pos level.amount then insert level.price level.amount d else d) levels

-- `_apply_levels`: an amount of zero or less removes its price.
unfoldable pub apply_levels : Side → List OrderBookLevel → Side
apply_levels d [] = d
apply_levels d (level ∷ levels) =
    apply_levels
      (if leb_ℤ level.amount zero_d then erase level.price d else insert level.price level.amount d)
      levels

abbrev pub descending : Decimal → Decimal → Bool
descending p q = leb_ℤ q p

abbrev pub ascending : Decimal → Decimal → Bool
ascending p q = leb_ℤ p q

-- `sorted(d.items())` by price, in either direction
unfoldable pub insert_sorted : (Decimal → Decimal → Bool) → Decimal × Decimal → Side → Side
insert_sorted before e [] = e ∷ []
insert_sorted before e (f ∷ d) =
    let later = insert_sorted before e d in if before e.0 f.0 then e ∷ f ∷ d else f ∷ later

unfoldable pub sort_side : (Decimal → Decimal → Bool) → Side → Side
sort_side before [] = []
sort_side before (e ∷ d) = insert_sorted before e (sort_side before d)

-- One side of `_trim_depth`: the nearest prices with their amounts. The keys of a dict are distinct,
-- so that sorting the items by price is sorting the keys.
unfoldable pub trim_side : (Decimal → Decimal → Bool) → ℕ → Side → Side
trim_side before depth d = if ltb depth (length d) then take depth (sort_side before d) else d

unfoldable pub trim_depth : LocalOrderBook → LocalOrderBook
trim_depth b = record b {
  bids = trim_side descending b.max_depth b.bids;
  asks = trim_side ascending b.max_depth b.asks;
}

-- `apply_snapshot`; `none` is the `ValueError`.
unfoldable pub apply_snapshot : OrderBookUpdate → LocalOrderBook → Option LocalOrderBook
apply_snapshot u b =
    if not (str_eq u.exchange b.exchange) || not (str_eq u.symbol b.symbol)
    then none
    else some (
        invalidate_cache
          (record (trim_depth
            (record b { bids = side_from [] u.bids; asks = side_from [] u.asks })) {
              sequence = u.sequence;
              timestamp = u.timestamp;
              synchronized = true;
              needs_snapshot = false;
            }))

-- What the sequence numbers say of a delta.
pub data SequenceCheck : Type 0 where
  in_order gap duplicate : SequenceCheck

unfoldable pub check_sequence : OrderBookUpdate → LocalOrderBook → SequenceCheck
check_sequence u b = elim u.sequence [
  | none ↦ SequenceCheck.in_order
  | some next ↦ elim b.sequence [
    | none ↦ SequenceCheck.in_order
    | some current ↦
        let old = if leb next current then SequenceCheck.duplicate else SequenceCheck.in_order in
        elim u.prev_sequence [
          | none ↦ if ltb (current + 1) next then SequenceCheck.gap else old
          | some prev ↦ if prev == current then old else SequenceCheck.gap
        ]
  ]
]

-- Lines 145 to 152: the delta itself.
unfoldable pub apply_delta : OrderBookUpdate → LocalOrderBook → LocalOrderBook
apply_delta u b =
    let trimmed =
      trim_depth
        (record b { bids = apply_levels b.bids u.bids; asks = apply_levels b.asks u.asks }) in
    invalidate_cache (record trimmed {
      sequence = elim u.sequence [ none ↦ b.sequence | some next ↦ some next ];
      timestamp = u.timestamp;
    })

-- `apply_update`: false asks for a new snapshot.
unfoldable pub apply_update : OrderBookUpdate → LocalOrderBook → Option (LocalOrderBook × Bool)
apply_update u b =
    if u.is_snapshot
    then elim (apply_snapshot u b) [ none ↦ none | some b' ↦ some (b', true) ]
    else if b.needs_snapshot || not b.synchronized
    then some (mark_desynchronized b, false)
    else elim (check_sequence u b) [
      | SequenceCheck.gap ↦
          some (
            mark_desynchronized (record b { sequence_gap_count = b.sequence_gap_count + 1 }),
            false,
          )
      | SequenceCheck.duplicate ↦ some (b, true)
      | SequenceCheck.in_order ↦ some (apply_delta u b, true)
    ]

-- `best_bid` and `best_ask`, by the extreme of the keys
unfoldable pub extreme : (Decimal → Decimal → Decimal) → Decimal → Side → Decimal
extreme pick p [] = p
extreme pick p (e ∷ d) = extreme pick (pick p e.0) d

unfoldable pub best_of : (Decimal → Decimal → Decimal) → Side → Option (Decimal × Decimal)
best_of pick [] = none
best_of pick (e ∷ d) = let p = extreme pick e.0 d in some (p, get_or (lookup p (e ∷ d)) zero_d)

unfoldable pub best_bid : LocalOrderBook → Option (Decimal × Decimal)
best_bid b = best_of max_ℤ b.bids

unfoldable pub best_ask : LocalOrderBook → Option (Decimal × Decimal)
best_ask b = best_of min_ℤ b.asks

abbrev pub to_levels : Side → List OrderBookLevel
to_levels [] = []
to_levels (e ∷ d) = record { price = e.0; amount = e.1 } ∷ to_levels d

-- The levels of one side, nearest first, cut at a limit.
unfoldable pub side_view : (Decimal → Decimal → Bool) → ℕ → Side → List OrderBookLevel
side_view before limit d =
    let items = sort_side before d in
    to_levels (if ltb limit (length items) then take limit items else items)

abbrev pub is_bare : List OrderBookLevel → Bool
is_bare [] = true
is_bare (level ∷ levels) = false

-- Lines 213 to 234: the book that is built, if neither side is empty.
unfoldable pub build_book : ℕ → LocalOrderBook → Option OrderBook
build_book limit b =
    let bids = side_view descending limit b.bids in
    let asks = side_view ascending limit b.asks in
    if is_bare bids || is_bare asks
    then none
    else some (record {
      symbol = b.symbol;
      bids = bids;
      asks = asks;
      timestamp = b.timestamp;
      nonce = b.sequence;
    })

abbrev pub has_book : Option OrderBook → Bool
has_book none = false
has_book (some book) = true

-- What a call that built a book leaves in the cache.
unfoldable pub store : Bool → Option OrderBook → LocalOrderBook → LocalOrderBook
store use_cache built b =
    if use_cache && has_book built
    then record b { cached_order_book = built; cache_valid = true }
    else b

-- The number of levels that `to_order_book` is asked for.
abbrev pub level_limit : Option ℕ → ℕ → ℕ
level_limit none max_depth = max_depth
level_limit (some n) max_depth = at_least_one n

-- `to_order_book`
unfoldable pub to_order_book : Option ℕ → LocalOrderBook → LocalOrderBook × Option OrderBook
to_order_book max_levels b =
    let limit = level_limit max_levels b.max_depth in
    let use_cache = leb b.max_depth limit in
    let built = build_book limit b in
    if not (is_synchronized b)
    then (b, none)
    else if use_cache && b.cache_valid && has_book b.cached_order_book
    then (b, b.cached_order_book)
    else (store use_cache built b, built)
