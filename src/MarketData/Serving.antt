-- ===== src/MarketData/Serving.antt =====
-- Runs of calls on a local book, and the cached answer of `to_order_book`.
use moreney.Prelude.{
  ℕ, ◌+◌, ◌≤◌, ◌≡◌, refl, Bool, true, false, not, ◌&&◌, Option, none, some, List, [], ◌∷◌, arith,
  length, leb, if◌then◌else◌, if_rule,
}
use moreney.Prelude.Int.{int_eq}
use moreney.Decimal.{Decimal}
use moreney.Core.Models.{OrderBook}
use moreney.Core.Text.{Str}
use moreney.MarketData.LocalBook.{
  Side, OrderBookUpdate, LocalOrderBook, new_local_book, mark_desynchronized, invalidate_cache,
  side_from, apply_levels, descending, ascending, trim_depth, apply_snapshot, apply_delta,
  apply_update, build_book, store, to_order_book, is_synchronized, has_book, side_view, level_limit,
}
use moreney.MarketData.Invariant.{
  IsPositive, side_from-IsPositive, apply_levels-IsPositive, trim_side_lem, sort_side-length,
}

-- The sides hold positive amounts in at most the depth, and a valid cache is the book as it stands.
pub record IsKept (b : LocalOrderBook) : Type 0 where
  pub bids_positive : IsPositive b.bids
  pub asks_positive : IsPositive b.asks
  pub bids_depth : length b.bids ≤ b.max_depth
  pub asks_depth : length b.asks ≤ b.max_depth
  pub cache_fresh : b.cache_valid ≡ true → b.cached_order_book ≡ build_book b.max_depth b

-- The calls on a local book; an update that raises leaves it as it is.
pub data BookCall : Type 0 where
  updates : OrderBookUpdate → BookCall
  reads : Option ℕ → BookCall
  desynchronizes : BookCall

unfoldable pub book_call : BookCall → LocalOrderBook → LocalOrderBook
book_call (BookCall.updates u) b = elim (apply_update u b) [ none ↦ b | some r ↦ r.0 ]
book_call (BookCall.reads n) b = (to_order_book n b).0
book_call BookCall.desynchronizes b = mark_desynchronized b

unfoldable pub book_calls : List BookCall → LocalOrderBook → LocalOrderBook
book_calls [] b = b
book_calls (c ∷ cs) b = book_calls cs (book_call c b)

pub new_local_book-IsKept :
    (now : ℕ) (exchange symbol : Str) (depth : ℕ)
    → IsKept (new_local_book now exchange symbol depth)
unfolding new_local_book
new_local_book-IsKept now exchange symbol depth = record {
  bids_positive = tt;
  asks_positive = tt;
  bids_depth = omega arith;
  asks_depth = omega arith;
  cache_fresh = λ h. cc;
}

mark_desynchronized-IsKept : (b : LocalOrderBook) → IsKept b → IsKept (mark_desynchronized b)
unfolding mark_desynchronized invalidate_cache
mark_desynchronized-IsKept b v = record {
  bids_positive = v.bids_positive;
  asks_positive = v.asks_positive;
  bids_depth = v.bids_depth;
  asks_depth = v.asks_depth;
  cache_fresh = λ h. cc;
}

apply_delta-IsKept :
    (u : OrderBookUpdate) (b : LocalOrderBook) → IsKept b → IsKept (apply_delta u b)
unfolding apply_delta invalidate_cache trim_depth
apply_delta-IsKept u b v =
    let bids =
      trim_side_lem descending b.max_depth (apply_levels b.bids u.bids)
        (apply_levels-IsPositive u.bids b.bids v.bids_positive) in
    let asks =
      trim_side_lem ascending b.max_depth (apply_levels b.asks u.asks)
        (apply_levels-IsPositive u.asks b.asks v.asks_positive) in
    record {
      bids_positive = bids.0;
      asks_positive = asks.0;
      bids_depth = bids.1;
      asks_depth = asks.1;
      cache_fresh = λ h. cc;
    }

-- A snapshot that is accepted.
abbrev pub loaded : OrderBookUpdate → LocalOrderBook → LocalOrderBook
loaded u b =
    invalidate_cache
      (record (trim_depth (record b { bids = side_from [] u.bids; asks = side_from [] u.asks })) {
        sequence = u.sequence;
        timestamp = u.timestamp;
        synchronized = true;
        needs_snapshot = false;
      })

pub loaded-IsKept : (u : OrderBookUpdate) (b : LocalOrderBook) → IsKept (loaded u b)
unfolding invalidate_cache trim_depth
loaded-IsKept u b =
    let bids =
      trim_side_lem descending b.max_depth (side_from [] u.bids)
        (side_from-IsPositive u.bids [] tt) in
    let asks =
      trim_side_lem ascending b.max_depth (side_from [] u.asks)
        (side_from-IsPositive u.asks [] tt) in
    record {
      bids_positive = bids.0;
      asks_positive = asks.0;
      bids_depth = bids.1;
      asks_depth = asks.1;
      cache_fresh = λ h. cc;
    }

gapped-IsKept :
    (b : LocalOrderBook) (n : ℕ)
    → IsKept b
    → IsKept (mark_desynchronized (record b { sequence_gap_count = n }))
unfolding mark_desynchronized invalidate_cache
gapped-IsKept b n v = record {
  bids_positive = v.bids_positive;
  asks_positive = v.asks_positive;
  bids_depth = v.bids_depth;
  asks_depth = v.asks_depth;
  cache_fresh = λ h. cc;
}

pub apply_update-IsKept :
    (u : OrderBookUpdate) (b : LocalOrderBook)
    → IsKept b
    → IsKept (book_call (BookCall.updates u) b)
unfolding book_call apply_update apply_snapshot
apply_update-IsKept u b v = ground (
  arith,
  loaded-IsKept u b,
  mark_desynchronized-IsKept b v,
  gapped-IsKept b (b.sequence_gap_count + 1) v,
  apply_delta-IsKept u b v,
)

-- A limit that the side does not reach cuts nothing.
side_view_limit :
    (before : Decimal → Decimal → Bool) (limit depth : ℕ) (d : Side)
    → length d ≤ depth
    → depth ≤ limit
    → side_view before limit d ≡ side_view before depth d
unfolding side_view
side_view_limit before limit depth d h k = ground (arith, sort_side-length before d)

build_book_limit :
    (limit : ℕ) (b : LocalOrderBook)
    → IsKept b
    → b.max_depth ≤ limit
    → build_book limit b ≡ build_book b.max_depth b
unfolding build_book
build_book_limit limit b v h =
    rw
      (
        side_view_limit descending limit b.max_depth b.bids v.bids_depth h,
        side_view_limit ascending limit b.max_depth b.asks v.asks_depth h,
      )
      refl

cached-IsKept :
    (limit : ℕ) (b : LocalOrderBook)
    → IsKept b
    → b.max_depth ≤ limit
    → IsKept (record b { cached_order_book = build_book limit b; cache_valid = true })
unfolding build_book
cached-IsKept limit b v h = record {
  bids_positive = v.bids_positive;
  asks_positive = v.asks_positive;
  bids_depth = v.bids_depth;
  asks_depth = v.asks_depth;
  cache_fresh = λ _. build_book_limit limit b v h;
}

pub to_order_book-IsKept :
    (n : Option ℕ) (b : LocalOrderBook) → IsKept b → IsKept (to_order_book n b).0
unfolding to_order_book store
to_order_book-IsKept n b v =
    let limit = level_limit n b.max_depth in
    let use_cache = leb b.max_depth limit in
    let P = λ (r : LocalOrderBook × Option OrderBook). IsKept r.0 in
    if_rule P (not (is_synchronized b)) (λ _. v)
      λ _.
        if_rule P (use_cache && b.cache_valid && has_book b.cached_order_book) (λ _. v)
          λ _.
            if_rule IsKept (use_cache && has_book (build_book limit b))
              (λ stored. cached-IsKept limit b v (ground arith)) (λ _. v)

book_call-IsKept : (c : BookCall) (b : LocalOrderBook) → IsKept b → IsKept (book_call c b)
unfolding book_call
book_call-IsKept (BookCall.updates u) b v = apply_update-IsKept u b v
book_call-IsKept (BookCall.reads n) b v = to_order_book-IsKept n b v
book_call-IsKept BookCall.desynchronizes b v = mark_desynchronized-IsKept b v

book_calls-IsKept : (cs : List BookCall) (b : LocalOrderBook) → IsKept b → IsKept (book_calls cs b)
unfolding book_calls
book_calls-IsKept [] b v = v
book_calls-IsKept (c ∷ cs) b v = book_calls-IsKept cs (book_call c b) (book_call-IsKept c b v)

-- Every local book that calls lead to is kept.
pub reached-IsKept :
    (now : ℕ) (exchange symbol : Str) (depth : ℕ) (cs : List BookCall)
    → IsKept (book_calls cs (new_local_book now exchange symbol depth))
reached-IsKept now exchange symbol depth cs =
    book_calls-IsKept cs (new_local_book now exchange symbol depth)
      (new_local_book-IsKept now exchange symbol depth)

-- The book that a synchronized local book stands for, whatever its cache holds.
abbrev pub current_book : Option ℕ → LocalOrderBook → Option OrderBook
current_book n b = if is_synchronized b then build_book (level_limit n b.max_depth) b else none

pub to_order_book-IsCurrent :
    (n : Option ℕ) (b : LocalOrderBook) → IsKept b → (to_order_book n b).1 ≡ current_book n b
unfolding to_order_book
to_order_book-IsCurrent n b v =
    ground (arith, v.cache_fresh, build_book_limit (level_limit n b.max_depth) b v)

-- After any calls on a new local book, `to_order_book` answers what it would build afresh from the
-- two sides, or nothing if the book is not synchronized: the cache never serves an outdated book.
pub to_order_book_current :
    (now : ℕ) (exchange symbol : Str) (depth : ℕ) (cs : List BookCall) (n : Option ℕ)
    → let b = book_calls cs (new_local_book now exchange symbol depth) in
      (to_order_book n b).1 ≡ current_book n b
to_order_book_current now exchange symbol depth cs n =
    let b = book_calls cs (new_local_book now exchange symbol depth) in
    to_order_book-IsCurrent n b (reached-IsKept now exchange symbol depth cs)
