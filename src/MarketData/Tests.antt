-- ===== src/MarketData/Tests.antt =====
-- Concrete runs of a local order book.
use moreney.Prelude.{ℕ, ◌≡◌, refl, true, false, none, some, List, [], ◌∷◌, arith}
use moreney.Prelude.Int.{max_ℤ}
use moreney.Decimal.{of_ℕ}
use moreney.Core.Text.{Str, codes, str_eq}
use moreney.Core.Models.{OrderBook, OrderBookLevel}
use moreney.MarketData.LocalBook.{
  OrderBookUpdate, LocalOrderBook, new_local_book, invalidate_cache, side_from, apply_levels,
  descending, ascending, insert_sorted, sort_side, trim_side, trim_depth, apply_snapshot,
  apply_delta, apply_update, check_sequence, build_book, store, to_order_book, is_synchronized,
  side_view, best_bid, best_of, extreme,
}
use moreney.MarketData.Serving.{
  BookCall, book_call, book_calls, current_book, to_order_book_current,
}
use moreney.MarketData.Views.{IsServed, to_order_book-IsServed}
use moreney.MarketData.Gaps.{gap_blocks}

abbrev kraken : Str
kraken = codes "kraken"

abbrev symbol : Str
symbol = codes "BTCEUR"

abbrev level : ℕ → ℕ → OrderBookLevel
level price amount = record { price = of_ℕ price; amount = of_ℕ amount }

abbrev snapshot : OrderBookUpdate
snapshot = record {
  exchange = kraken;
  symbol = symbol;
  bids = level 98 1 ∷ level 99 2 ∷ level 97 4 ∷ [];
  asks = level 101 1 ∷ level 100 3 ∷ [];
  is_snapshot = true;
  sequence = some 5;
  prev_sequence = none;
  timestamp = 40;
}

-- It removes the bid at 99 and adds an ask at 102.
abbrev delta : ℕ → OrderBookUpdate
delta n = record snapshot {
  bids = level 99 0 ∷ [];
  asks = level 102 7 ∷ [];
  is_snapshot = false;
  sequence = some n;
}

-- A book of depth 2 that was loaded, read, updated and read at one level.
abbrev history : List BookCall
history =
    BookCall.updates snapshot
    ∷ BookCall.reads none
    ∷ BookCall.updates (delta 6)
    ∷ BookCall.reads (some 1)
    ∷ []

abbrev served : OrderBook
served = record {
  symbol = symbol;
  bids = level 98 1 ∷ [];
  asks = level 100 3 ∷ level 101 1 ∷ [];
  timestamp = 40;
  nonce = some 6;
}

serves :
    (to_order_book none (book_calls history (new_local_book 0 kraken symbol 2))).1 ≡ some served
unfolding book_calls book_call apply_update apply_snapshot apply_delta check_sequence side_from
    apply_levels trim_depth trim_side sort_side insert_sorted side_view build_book store
    to_order_book is_synchronized invalidate_cache new_local_book str_eq
serves = refl

to_order_book_current_example :
    (to_order_book none (book_calls history (new_local_book 0 kraken symbol 2))).1
    ≡ current_book none (book_calls history (new_local_book 0 kraken symbol 2))
to_order_book_current_example = to_order_book_current 0 kraken symbol 2 history none

to_order_book-IsServed_example :
    let b = book_calls history (new_local_book 0 kraken symbol 2) in
    IsServed descending b.max_depth (level 98 1 ∷ [])
    × IsServed ascending b.max_depth (level 100 3 ∷ level 101 1 ∷ [])
    × (some 6 ≡ b.sequence)
to_order_book-IsServed_example = to_order_book-IsServed 0 kraken symbol 2 history none served serves

abbrev loaded : LocalOrderBook
loaded = record (new_local_book 0 kraken symbol 2) {
  bids = (of_ℕ 99, of_ℕ 2) ∷ (of_ℕ 98, of_ℕ 1) ∷ [];
  asks = (of_ℕ 101, of_ℕ 1) ∷ (of_ℕ 100, of_ℕ 3) ∷ [];
  sequence = some 5;
  synchronized = true;
  needs_snapshot = false;
}

-- Number 8 comes after number 5, and the next delta does not repair it.
gap_blocks_example :
    (to_order_book none (
      book_calls
        (BookCall.updates (delta 9) ∷ BookCall.reads none ∷ [])
        (book_call (BookCall.updates (delta 8)) loaded))).1
    ≡ none
unfolding is_synchronized
gap_blocks_example =
    gap_blocks (delta 8) loaded 5 8 (BookCall.updates (delta 9) ∷ BookCall.reads none ∷ []) none
      refl refl refl refl (omega arith) (refl, (refl, tt))

finds_best_bid : best_bid loaded ≡ some (of_ℕ 99, of_ℕ 2)
unfolding best_bid best_of extreme max_ℤ
finds_best_bid = refl
