-- ===== src/MarketData/Snapshots.antt =====
-- The snapshots that strategies read from a market data service.
use moreney.Prelude.{
  ℕ, ◌-◌, ◌≡◌, refl, sym, ◌∙◌, true, Option, none, some, List, [], ◌∷◌, arith, if◌then◌else◌,
  if_rule,
}
use moreney.Prelude.Dict.{lookup, lookup-insert, lookup-insert_self}
use moreney.Decimal.{Decimal, of_ℕ}
use moreney.Core.Text.{Str}
use moreney.Core.Models.{OrderBook, MarketSnapshot}
use moreney.MarketData.LocalBook.{LocalOrderBook, is_synchronized, build_book, store, to_order_book}
use moreney.MarketData.Liquidity.{age_ms}
use moreney.MarketData.Serving.{IsKept, to_order_book-IsKept, to_order_book-IsCurrent}
use moreney.MarketData.Service.{key_eq_iff, key_instance, MarketDataService, put_book}
use moreney.MarketData.Reading.{
  book_key, get_local_book, is_valid, get_valid_order_book, snapshot_of, snapshots_at,
  cons_snapshot, local_age,
}
use moreney.MarketData.Kept.{AreKept, Holds, lookup-AreKept, put_book-AreKept}

-- The book to show at a time, from the sides alone.
abbrev pub fresh_book : ℕ → Decimal → LocalOrderBook → Option OrderBook
fresh_book now max_age b = if is_valid now max_age b then build_book b.max_depth b else none

fresh_book-read :
    (now : ℕ) (max_age : Decimal) (b : LocalOrderBook)
    → fresh_book now max_age (to_order_book none b).0 ≡ fresh_book now max_age b
unfolding to_order_book store build_book is_synchronized age_ms
fresh_book-read now max_age b = ground arith

abbrev pub prepend : Option MarketSnapshot → List MarketSnapshot → List MarketSnapshot
prepend none ms = ms
prepend (some m) ms = m ∷ ms

-- A book that is built has both sides.
cons_snapshot-built :
    (x symbol : Str) (latency : Option Decimal) (limit : ℕ) (b : LocalOrderBook) (book : OrderBook)
    (s : MarketDataService) (rest : MarketDataService × Option (List MarketSnapshot))
    (ms : List MarketSnapshot)
    → build_book limit b ≡ some book
    → rest.1 ≡ some ms
    → (cons_snapshot (snapshot_of x symbol latency book) s rest).1
      ≡ some (prepend (snapshot_of x symbol latency book) ms)
unfolding build_book snapshot_of
cons_snapshot-built x symbol latency limit b book s rest ms h k = ground arith

-- The age of a book that is built is the age of its local book.
build_book-timestamp :
    (limit : ℕ) (b : LocalOrderBook) (book : OrderBook)
    → build_book limit b ≡ some book
    → book.timestamp ≡ b.timestamp
unfolding build_book
build_book-timestamp limit b book h = ground arith

unfoldable pub fresh_at : ℕ → Str → Str → MarketDataService → Option OrderBook
fresh_at now symbol x s = elim (get_local_book x symbol s) [
  | none ↦ none
  | some b ↦ fresh_book now s.max_age_ms b
]

-- What the books show at a time, whatever their caches hold.
unfoldable pub fresh_snapshots : ℕ → Str → List Str → MarketDataService → List MarketSnapshot
fresh_snapshots now symbol [] s = []
fresh_snapshots now symbol (x ∷ xs) s =
    let rest = fresh_snapshots now symbol xs s in
    elim (fresh_at now symbol x s) [
      | none ↦ rest
      | some book ↦ prepend (snapshot_of x symbol (some (of_ℕ (now - book.timestamp))) book) rest
    ]

-- A read changes nothing that a book shows.
fresh_at-put_book :
    (now : ℕ) (symbol x y : Str) (s : MarketDataService) (b : LocalOrderBook)
    → get_local_book x symbol s ≡ some b
    → fresh_at now symbol y (put_book (book_key x symbol) (to_order_book none b).0 s)
      ≡ fresh_at now symbol y s
unfolding get_local_book fresh_at
fresh_at-put_book now symbol x y s b found = ground (
  arith,
  lookup-insert (book_key x symbol) (book_key y symbol) (to_order_book none b).0 s.books,
  fresh_book-read now s.max_age_ms b,
  key_eq_iff (book_key x symbol) (book_key y symbol),
)

fresh_snapshots-put_book :
    (now : ℕ) (symbol x : Str) (xs : List Str) (s : MarketDataService) (b : LocalOrderBook)
    → get_local_book x symbol s ≡ some b
    → fresh_snapshots now symbol xs (put_book (book_key x symbol) (to_order_book none b).0 s)
      ≡ fresh_snapshots now symbol xs s
unfolding fresh_snapshots
fresh_snapshots-put_book now symbol x [] s b found = refl
fresh_snapshots-put_book now symbol x (y ∷ ys) s b found = ground (
  arith,
  fresh_at-put_book now symbol x y s b found,
  fresh_snapshots-put_book now symbol x ys s b found,
)

-- What a read of one exchange leaves and answers.
pub record IsRead (now : ℕ) (symbol x : Str) (s : MarketDataService)
    (r : MarketDataService × Option OrderBook) : Type 0 where
  pub kept : AreKept r.0.books
  answer : r.1 ≡ fresh_at now symbol x s
  later : (xs : List Str) → fresh_snapshots now symbol xs r.0 ≡ fresh_snapshots now symbol xs s
  age :
      (book : OrderBook)
      → r.1 ≡ some book
      → local_age now (get_local_book x symbol r.0) ≡ some (of_ℕ (now - book.timestamp))
  whole :
      (book : OrderBook) (latency : Option Decimal)
      (rest : MarketDataService × Option (List MarketSnapshot)) (ms : List MarketSnapshot)
      → r.1 ≡ some book
      → rest.1 ≡ some ms
      → (cons_snapshot (snapshot_of x symbol latency book) r.0 rest).1
        ≡ some (prepend (snapshot_of x symbol latency book) ms)

-- A synchronized book answers what its sides are.
to_order_book-valid :
    (now : ℕ) (max_age : Decimal) (b : LocalOrderBook)
    → IsKept b
    → is_valid now max_age b ≡ true
    → (to_order_book none b).1 ≡ build_book b.max_depth b
to_order_book-valid now max_age b v valid = ground (arith, to_order_book-IsCurrent none b v)

to_order_book-timestamp : (b : LocalOrderBook) → (to_order_book none b).0.timestamp ≡ b.timestamp
unfolding to_order_book store
to_order_book-timestamp b = ground arith

valid-IsRead :
    (now : ℕ) (symbol x : Str) (s : MarketDataService) (b : LocalOrderBook)
    → AreKept s.books
    → IsKept b
    → get_local_book x symbol s ≡ some b
    → is_valid now s.max_age_ms b ≡ true
    → IsRead now symbol x s
        (put_book (book_key x symbol) (to_order_book none b).0 s, (to_order_book none b).1)
unfolding fresh_at get_local_book age_ms
valid-IsRead now symbol x s b h v found valid =
    let built = to_order_book-valid now s.max_age_ms b v valid in
    let put = lookup-insert_self (book_key x symbol) (to_order_book none b).0 s.books in
    record {
      kept =
          put_book-AreKept (book_key x symbol) (to_order_book none b).0 s
            (to_order_book-IsKept none b v) h;
      answer = ground (arith, built);
      later = λ xs. fresh_snapshots-put_book now symbol x xs s b found;
      age = λ book is.
          rw
            (
              put,
              to_order_book-timestamp b,
              build_book-timestamp b.max_depth b book (sym built ∙ is),
            )
            refl;
      whole = λ book latency rest ms is.
          cons_snapshot-built x symbol latency b.max_depth b book
            (put_book (book_key x symbol) (to_order_book none b).0 s) rest ms (sym built ∙ is);
    }

-- An exchange that shows nothing.
silent-IsRead :
    (now : ℕ) (symbol x : Str) (s : MarketDataService)
    → AreKept s.books
    → fresh_at now symbol x s ≡ none
    → IsRead now symbol x s (s, none)
silent-IsRead now symbol x s h none_there = record {
  kept = h;
  answer = sym none_there;
  later = λ xs. refl;
  age = λ book is. ground arith;
  whole = λ book latency rest ms is k. ground arith;
}

pub get_valid_order_book-IsRead :
    (now : ℕ) (symbol x : Str) (s : MarketDataService)
    → AreKept s.books
    → IsRead now symbol x s (get_valid_order_book now x symbol s)
unfolding get_valid_order_book fresh_at get_local_book
get_valid_order_book-IsRead now symbol x s h =
    elim (lookup (book_key x symbol) s.books)
        as (λ o.
          lookup (book_key x symbol) s.books ≡ o
          → Holds o
          → IsRead now symbol x s (elim o as (λ _. MarketDataService × Option OrderBook) [
            | none ↦ (s, none)
            | some b ↦
                if is_valid now s.max_age_ms b
                then (
                  put_book (book_key x symbol) (to_order_book none b).0 s,
                  (to_order_book none b).1,
                )
                else (s, none)
          ])) [
            | none ↦ λ found _. silent-IsRead now symbol x s h (ground arith)
            | some b ↦ λ found v.
                if_rule (IsRead now symbol x s) (is_valid now s.max_age_ms b)
                  (λ valid. valid-IsRead now symbol x s b h v found valid)
                  (λ invalid. silent-IsRead now symbol x s h (ground arith))
          ]
      refl (lookup-AreKept (book_key x symbol) s.books h)

pub snapshots_at-fresh :
    (now : ℕ) (symbol : Str) (xs : List Str) (s : MarketDataService)
    → AreKept s.books
    → (snapshots_at now symbol xs s).1 ≡ some (fresh_snapshots now symbol xs s)
unfolding snapshots_at fresh_snapshots
snapshots_at-fresh now symbol [] s h = refl
snapshots_at-fresh now symbol (x ∷ xs) s h =
    let read = get_valid_order_book now x symbol s in
    let r = get_valid_order_book-IsRead now symbol x s h in
    let rest = snapshots_at-fresh now symbol xs read.0 r.kept in
    grind (arith, rest, r.answer, r.later xs, r.age, r.whole)
