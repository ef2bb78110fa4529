-- ===== src/MarketData/Feed.antt =====
-- Runs of events and reads on a market data service.
use moreney.Prelude.{
  ℕ, ◌≡◌, subst, sym, Bool, true, not, Option, none, some, List, [], ◌∷◌, arith, if◌then◌else◌,
  if_rule,
}
use moreney.Prelude.Dict.{Dict, insert, Entries, Entries-insert}
use moreney.Decimal.{Decimal}
use moreney.Core.Text.{Str}
use moreney.Core.Models.{MarketSnapshot}
use moreney.MarketData.LocalBook.{LocalOrderBook, new_local_book}
use moreney.MarketData.Serving.{IsKept, new_local_book-IsKept}
use moreney.MarketData.Service.{
  Key, MarketDataEvent, MarketDataService, open_symbols, open_books, new_service, is_book_event,
  is_heartbeat, cache_due, take_book, book_part, tick_part, handle_event, plain_symbol,
  key_instance,
}
use moreney.MarketData.Reading.{
  get_valid_order_book, snapshots_at, snapshots_for_arbitrage, cons_snapshot, snapshot_of,
  local_age, get_local_book,
}
use moreney.MarketData.Kept.{AreKept, take_book-AreKept}
use moreney.MarketData.Snapshots.{get_valid_order_book-IsRead, fresh_snapshots, snapshots_at-fresh}

-- The calls on a service: events of the feeds, and the reads of a book and of all snapshots.
pub data ServiceCall : Type 0 where
  takes : ℕ → Decimal → MarketDataEvent → ServiceCall
  reads : ℕ → Str → Str → ServiceCall
  lists : ℕ → Str → ServiceCall

unfoldable pub service_call : ServiceCall → MarketDataService → MarketDataService
service_call (ServiceCall.takes now clock e) s = (handle_event now clock e s).0
service_call (ServiceCall.reads now exchange symbol) s =
    (get_valid_order_book now exchange symbol s).0
service_call (ServiceCall.lists now symbol) s = (snapshots_for_arbitrage now symbol s).0

unfoldable pub service_calls : List ServiceCall → MarketDataService → MarketDataService
service_calls [] s = s
service_calls (c ∷ cs) s = service_calls cs (service_call c s)

open_symbols-AreKept :
    (now depth : ℕ) (exchange : Str) (xs : List Str) (d : Dict Key LocalOrderBook)
    → AreKept d
    → AreKept (open_symbols now depth exchange xs d)
open_symbols-AreKept now depth exchange [] d h = h
open_symbols-AreKept now depth exchange (x ∷ xs) d h =
    open_symbols-AreKept now depth exchange xs
      (insert (exchange, x) (new_local_book now exchange x depth) d)
      (Entries-insert (λ _ b. IsKept b) (exchange, x) (new_local_book now exchange x depth) d
        (new_local_book-IsKept now exchange x depth) h)

open_books-AreKept :
    (now depth : ℕ) (es xs : List Str) (d : Dict Key LocalOrderBook)
    → AreKept d
    → AreKept (open_books now depth es xs d)
open_books-AreKept now depth [] xs d h = h
open_books-AreKept now depth (e ∷ es) xs d h =
    open_books-AreKept now depth es xs (open_symbols now depth e xs d)
      (open_symbols-AreKept now depth e xs d h)

book_part-AreKept :
    (now : ℕ) (due : Bool) (e : MarketDataEvent) (s : MarketDataService)
    → AreKept s.books
    → AreKept (book_part now due e s).0.books
unfolding book_part
book_part-AreKept now due e s h =
    elim e.book_update
      as (λ o.
        AreKept
          (elim o as (λ _. MarketDataService × Bool) [
            | none ↦ (s, true)
            | some u ↦
                if is_book_event e.event_type
                then take_book now due (e.exchange, e.symbol) u s
                else (s, true)
          ]).0.books) [
            | none ↦ h
            | some u ↦
                if_rule (λ (r : MarketDataService × Bool). AreKept r.0.books)
                  (is_book_event e.event_type)
                  (λ _. take_book-AreKept now due (e.exchange, e.symbol) u s h) (λ _. h)
          ]

tick_part-books : (e : MarketDataEvent) (s : MarketDataService) → (tick_part e s).books ≡ s.books
tick_part-books e s = ground arith

handle_event-AreKept :
    (now : ℕ) (clock : Decimal) (e : MarketDataEvent) (s : MarketDataService)
    → AreKept s.books
    → AreKept (handle_event now clock e s).0.books
unfolding handle_event
handle_event-AreKept now clock e s h =
    let due = cache_due clock e.exchange s in
    let booked = book_part now due e s in
    let k = book_part-AreKept now due e s h in
    let P = λ (r : MarketDataService × Bool). AreKept r.0.books in
    let ticked = subst AreKept (sym (tick_part-books e booked.0)) k in
    if_rule P (is_heartbeat e.event_type) (λ _. h)
      λ _.
        if_rule P (not booked.1) (λ _. k)
          λ _. if_rule (λ (t : MarketDataService). AreKept t.books) due (λ _. ticked) (λ _. ticked)

cons_snapshot-AreKept :
    (m : Option MarketSnapshot) (s : MarketDataService)
    (rest : MarketDataService × Option (List MarketSnapshot))
    → AreKept s.books
    → AreKept rest.0.books
    → AreKept (cons_snapshot m s rest).0.books
cons_snapshot-AreKept none s rest h k = h
cons_snapshot-AreKept (some m) s rest h k = k

snapshots_at-AreKept :
    (now : ℕ) (symbol : Str) (xs : List Str) (s : MarketDataService)
    → AreKept s.books
    → AreKept (snapshots_at now symbol xs s).0.books
unfolding snapshots_at
snapshots_at-AreKept now symbol [] s h = h
snapshots_at-AreKept now symbol (x ∷ xs) s h =
    let read = get_valid_order_book now x symbol s in
    let k = (get_valid_order_book-IsRead now symbol x s h).kept in
    let rest = snapshots_at now symbol xs read.0 in
    let latency = local_age now (get_local_book x symbol read.0) in
    elim read.1
      as (λ o.
        AreKept
          (elim o as (λ _. MarketDataService × Option (List MarketSnapshot)) [
            | none ↦ rest
            | some book ↦ cons_snapshot (snapshot_of x symbol latency book) read.0 rest
          ]).0.books) [
            | none ↦ snapshots_at-AreKept now symbol xs read.0 k
            | some book ↦
                cons_snapshot-AreKept (snapshot_of x symbol latency book) read.0 rest k
                  (snapshots_at-AreKept now symbol xs read.0 k)
          ]

service_call-AreKept :
    (c : ServiceCall) (s : MarketDataService) → AreKept s.books → AreKept (service_call c s).books
unfolding service_call snapshots_for_arbitrage
service_call-AreKept (ServiceCall.takes now clock e) s h = handle_event-AreKept now clock e s h
service_call-AreKept (ServiceCall.reads now exchange symbol) s h =
    (get_valid_order_book-IsRead now symbol exchange s h).kept
service_call-AreKept (ServiceCall.lists now symbol) s h =
    snapshots_at-AreKept now (plain_symbol symbol) s.exchanges s h

service_calls-AreKept :
    (cs : List ServiceCall) (s : MarketDataService)
    → AreKept s.books
    → AreKept (service_calls cs s).books
unfolding service_calls
service_calls-AreKept [] s h = h
service_calls-AreKept (c ∷ cs) s h =
    service_calls-AreKept cs (service_call c s) (service_call-AreKept c s h)

-- After any events and reads on a new service, `snapshots_for_arbitrage` never raises. It answers,
-- in the order of the exchanges, one snapshot for each that has a synchronized book within the age
-- limit with both sides filled, with the book built afresh from its sides, and leaves out the others.
pub snapshots_for_arbitrage-fresh :
    (start : ℕ) (exchanges symbols : List Str) (max_age_ms : Decimal) (book_depth : ℕ)
    (cache_interval : Decimal) (cs : List ServiceCall) (now : ℕ) (symbol : Str)
    → let s =
        service_calls cs
          (new_service start exchanges symbols max_age_ms book_depth cache_interval) in
      (snapshots_for_arbitrage now symbol s).1
      ≡ some (fresh_snapshots now (plain_symbol symbol) s.exchanges s)
unfolding snapshots_for_arbitrage new_service Entries
snapshots_for_arbitrage-fresh start exchanges symbols max_age_ms book_depth cache_interval cs now
      symbol =
    let first = new_service start exchanges symbols max_age_ms book_depth cache_interval in
    let s = service_calls cs first in
    snapshots_at-fresh now (plain_symbol symbol) s.exchanges s
      (service_calls-AreKept cs first (open_books-AreKept start book_depth exchanges symbols [] tt))
