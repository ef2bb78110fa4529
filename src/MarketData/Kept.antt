-- ===== src/MarketData/Kept.antt =====
-- The books of a market data service stay kept when it takes updates.
use moreney.Prelude.{
  ℕ, Bool, true, false, not, ◌&&◌, ◌||◌, Option, none, some, [], ◌∷◌, if◌then◌else◌, if_rule,
}
use moreney.Prelude.Dict.{Dict, lookup, Entries, Entries-insert, Entries-get_or}
use moreney.Core.Text.{str_eq}
use moreney.MarketData.LocalBook.{
  OrderBookUpdate, LocalOrderBook, new_local_book, is_bare, apply_snapshot, apply_update,
  to_order_book,
}
use moreney.MarketData.Serving.{
  IsKept, BookCall, book_call, new_local_book-IsKept, loaded-IsKept, apply_update-IsKept,
  to_order_book-IsKept,
}
use moreney.MarketData.Service.{
  Key, key_eq, key_instance, put_tick, MarketDataService, book_or_new, put_book, take_update,
  publish, derived_tick, take_book,
}

-- Every book of the service is kept.
abbrev pub AreKept : Dict Key LocalOrderBook → Type 0
AreKept = Entries (λ _ b. IsKept b)

-- What an optional book is, if it is there.
abbrev pub Holds : Option LocalOrderBook → Type 0
Holds none = Unit
Holds (some b) = IsKept b

pub lookup-AreKept : (k : Key) (d : Dict Key LocalOrderBook) → AreKept d → Holds (lookup k d)
unfolding Entries
lookup-AreKept k [] h = tt
lookup-AreKept k ((j, c) ∷ d) (p, ps) =
    if_rule Holds (key_eq j k) (λ _. p) (λ _. lookup-AreKept k d ps)

updated :
    (u : OrderBookUpdate) (b : LocalOrderBook)
    → IsKept (book_call (BookCall.updates u) b)
    → Holds (elim (apply_update u b) as (λ _. Option LocalOrderBook) [
      | none ↦ none
      | some r ↦ some r.0
    ])
unfolding book_call
updated u b v =
    elim (apply_update u b)
        as (λ o.
          IsKept (elim o as (λ _. LocalOrderBook) [ none ↦ b | some r ↦ r.0 ])
          → Holds (elim o as (λ _. Option LocalOrderBook) [ none ↦ none | some r ↦ some r.0 ])) [
            | none ↦ λ _. tt
            | some r ↦ λ w. w
          ]
      v

pub take_update-IsKept :
    (u : OrderBookUpdate) (b : LocalOrderBook) → IsKept b → Holds (take_update u b)
unfolding take_update apply_snapshot
take_update-IsKept u b v =
    if_rule Holds
      (u.is_snapshot || (b.needs_snapshot && not (is_bare u.bids) && not (is_bare u.asks)))
      (λ _.
        if_rule Holds (not (str_eq u.exchange b.exchange) || not (str_eq u.symbol b.symbol))
          (λ _. tt) (λ _. loaded-IsKept u b))
      (λ _. updated u b (apply_update-IsKept u b v))

pub put_book-AreKept :
    (k : Key) (b : LocalOrderBook) (s : MarketDataService)
    → IsKept b
    → AreKept s.books
    → AreKept (put_book k b s).books
put_book-AreKept k b s v h = Entries-insert (λ _ b. IsKept b) k b s.books v h

publish-AreKept :
    (due : Bool) (key : Key) (b : LocalOrderBook) (s : MarketDataService)
    → IsKept b
    → AreKept s.books
    → AreKept (publish due key b s).books
unfolding publish
publish-AreKept due key b s v h =
    let kept = if_rule IsKept due (λ _. to_order_book-IsKept none b v) (λ _. v) in
    elim (derived_tick key b)
      as (λ o.
        AreKept
          (elim o as (λ _. MarketDataService) [
            | none ↦ put_book key b s
            | some t ↦ put_tick key t (put_book key (if due then (to_order_book none b).0 else b) s)
          ]).books) [
            | none ↦ put_book-AreKept key b s v h
            | some t ↦ put_book-AreKept key (if due then (to_order_book none b).0 else b) s kept h
          ]

pub take_book-AreKept :
    (now : ℕ) (due : Bool) (key : Key) (u : OrderBookUpdate) (s : MarketDataService)
    → AreKept s.books
    → AreKept (take_book now due key u s).0.books
unfolding take_book book_or_new
take_book-AreKept now due key u s h =
    let b = book_or_new now key s in
    let v : IsKept b =
      Entries-get_or (λ _ b. IsKept b) key (new_local_book now key.0 key.1 s.book_depth) s.books
        (new_local_book-IsKept now key.0 key.1 s.book_depth) h in
    elim (take_update u b)
        as (λ o.
          Holds o
          → AreKept
              (elim o as (λ _. MarketDataService × Bool) [
                | none ↦ (put_book key b s, false)
                | some b' ↦ (publish due key b' s, true)
              ]).0.books) [
                | none ↦ λ _. put_book-AreKept key b s v h
                | some b' ↦ λ w. publish-AreKept due key b' s w h
              ]
      (take_update-IsKept u b v)
