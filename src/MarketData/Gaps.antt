-- ===== src/MarketData/Gaps.antt =====
-- `apply_update` at a gap in the sequence numbers, and the calls after it.
use moreney.Prelude.{
  ℕ, ◌+◌, ◌<◌, ◌≡◌, ◌≢◌, refl, Bool, true, false, Option, none, some, List, [], ◌∷◌, arith, All,
}
use moreney.MarketData.LocalBook.{
  OrderBookUpdate, LocalOrderBook, mark_desynchronized, invalidate_cache, apply_update,
  check_sequence, store, to_order_book, is_synchronized,
}
use moreney.MarketData.Serving.{BookCall, book_call, book_calls}

-- The sequence number of a delta does not follow the current one.
abbrev pub IsGap : Option ℕ → ℕ → ℕ → Type 0
IsGap none current next = current + 1 < next
IsGap (some prev) current next = prev ≢ current

abbrev pub is_snapshot_call : BookCall → Bool
is_snapshot_call (BookCall.updates u) = u.is_snapshot
is_snapshot_call _ = false

book_call_hidden :
    (c : BookCall) (b : LocalOrderBook)
    → is_snapshot_call c ≡ false
    → is_synchronized b ≡ false
    → is_synchronized (book_call c b) ≡ false
unfolding book_call apply_update mark_desynchronized invalidate_cache to_order_book store
    is_synchronized
book_call_hidden (BookCall.updates u) b h k = ground arith
book_call_hidden (BookCall.reads n) b h k = ground arith
book_call_hidden BookCall.desynchronizes b h k = ground arith

book_calls_hidden :
    (cs : List BookCall) (b : LocalOrderBook)
    → All (λ c. is_snapshot_call c ≡ false) cs
    → is_synchronized b ≡ false
    → is_synchronized (book_calls cs b) ≡ false
unfolding book_calls
book_calls_hidden [] b h k = k
book_calls_hidden (c ∷ cs) b (h, hs) k =
    book_calls_hidden cs (book_call c b) hs (book_call_hidden c b h k)

gap_hides :
    (u : OrderBookUpdate) (b : LocalOrderBook) (current next : ℕ)
    → u.is_snapshot ≡ false
    → is_synchronized b ≡ true
    → b.sequence ≡ some current
    → u.sequence ≡ some next
    → IsGap u.prev_sequence current next
    → is_synchronized (book_call (BookCall.updates u) b) ≡ false
unfolding book_call apply_update check_sequence mark_desynchronized invalidate_cache is_synchronized
gap_hides u b current next delta live at to gap = ground arith

-- A delta with a gap before it desynchronizes a live book, and through any calls that apply no
-- snapshot no order book is served.
pub gap_blocks :
    (u : OrderBookUpdate) (b : LocalOrderBook) (current next : ℕ) (cs : List BookCall)
    (n : Option ℕ)
    → u.is_snapshot ≡ false
    → is_synchronized b ≡ true
    → b.sequence ≡ some current
    → u.sequence ≡ some next
    → IsGap u.prev_sequence current next
    → All (λ c. is_snapshot_call c ≡ false) cs
    → (to_order_book n (book_calls cs (book_call (BookCall.updates u) b))).1 ≡ none
unfolding to_order_book
gap_blocks u b current next cs n delta live at to gap later =
    let hidden =
      book_calls_hidden cs (book_call (BookCall.updates u) b) later
        (gap_hides u b current next delta live at to gap) in
    rw hidden refl
