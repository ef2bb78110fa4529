-- ===== src/MarketData/Views.antt =====
-- The order, the amounts and the number of the levels that `to_order_book` serves.
use moreney.Prelude.{
  zero, subst, ℕ, suc, ◌≤◌, ◌≡◌, refl, sym, ◌∙◌, Bool, true, false, Option, some, List, [], ◌∷◌,
  arith, All, All-take, length, take, ltb, if_rule,
}
use moreney.Prelude.Int.{◌<ℤ◌}
use moreney.Decimal.{Decimal, zero_d}
use moreney.Core.Models.{OrderBook, OrderBookLevel}
use moreney.Core.Text.{Str}
use moreney.MarketData.LocalBook.{
  Side, LocalOrderBook, new_local_book, descending, ascending, insert_sorted, sort_side, side_view,
  to_levels, build_book, to_order_book, level_limit,
}
use moreney.MarketData.Invariant.{IsPositive, sort_side-IsPositive, sort_side-length}
use moreney.MarketData.Serving.{
  IsKept, BookCall, book_calls, current_book, to_order_book_current, reached-IsKept,
}

-- Each price stands in the relation to all the later ones.
abbrev pub IsSortedBy : (Decimal → Decimal → Bool) → List OrderBookLevel → Type 0
IsSortedBy before [] = Unit
IsSortedBy before (l ∷ ls) = All (λ m. before l.price m.price ≡ true) ls × IsSortedBy before ls

-- What a side of a served book is: each price comes before all the later ones, every amount is above
-- zero, and there are at most so many levels.
pub record IsServed (before : Decimal → Decimal → Bool) (depth : ℕ) (levels : List OrderBookLevel)
    : Type 0 where
  pub sorted : IsSortedBy before levels
  pub positive : All (λ level. zero_d <ℤ level.amount) levels
  pub bounded : length levels ≤ depth

module _ (before : Decimal → Decimal → Bool)
    (total : (p q : Decimal) → before p q ≡ false → before q p ≡ true)
    (transitive : (p q r : Decimal)
      → before p q ≡ true
      → before q r ≡ true
      → before p r ≡ true) where
  -- The entries of a side in order.
  IsOrdered : Side → Type 0
  IsOrdered [] = Unit
  IsOrdered (e ∷ d) = All (λ f. before e.0 f.0 ≡ true) d × IsOrdered d

  All-before :
      (p q : Decimal) (d : Side)
      → before p q ≡ true
      → All (λ f. before q f.0 ≡ true) d
      → All (λ f. before p f.0 ≡ true) d
  All-before p q [] h v = tt
  All-before p q (f ∷ d) h (v, vs) = (transitive p q f.0 h v, All-before p q d h vs)

  All-insert_sorted :
      (p : Decimal) (e : Decimal × Decimal) (d : Side)
      → before p e.0 ≡ true
      → All (λ f. before p f.0 ≡ true) d
      → All (λ f. before p f.0 ≡ true) (insert_sorted before e d)
  unfolding insert_sorted
  All-insert_sorted p e [] h v = (h, tt)
  All-insert_sorted p e (f ∷ d) h (v, vs) =
      if_rule (λ (s : Side). All (λ g. before p g.0 ≡ true) s) (before e.0 f.0) (λ _. (h, (v, vs)))
        (λ _. (v, All-insert_sorted p e d h vs))

  insert_sorted-IsOrdered :
      (e : Decimal × Decimal) (d : Side) → IsOrdered d → IsOrdered (insert_sorted before e d)
  unfolding insert_sorted IsOrdered
  insert_sorted-IsOrdered e [] v = (tt, tt)
  insert_sorted-IsOrdered e (f ∷ d) (v, vs) =
      if_rule IsOrdered (before e.0 f.0) (λ h. ((h, All-before e.0 f.0 d h v), (v, vs)))
        (λ h. (All-insert_sorted f.0 e d (total e.0 f.0 h) v, insert_sorted-IsOrdered e d vs))

  sort_side-IsOrdered : (d : Side) → IsOrdered (sort_side before d)
  unfolding sort_side IsOrdered
  sort_side-IsOrdered [] = tt
  sort_side-IsOrdered (e ∷ d) =
      insert_sorted-IsOrdered e (sort_side before d) (sort_side-IsOrdered d)

  take-IsOrdered : (n : ℕ) (d : Side) → IsOrdered d → IsOrdered (take n d)
  unfolding IsOrdered
  take-IsOrdered zero d v = tt
  take-IsOrdered (suc n) [] v = tt
  take-IsOrdered (suc n) (e ∷ d) (v, vs) =
      (All-take (λ f. before e.0 f.0 ≡ true) n d v, take-IsOrdered n d vs)

  to_levels-All :
      (P : Decimal → Decimal → Type 0) (d : Side)
      → All (λ e. P e.0 e.1) d
      → All (λ level. P level.price level.amount) (to_levels d)
  to_levels-All P [] v = tt
  to_levels-All P (e ∷ d) (v, vs) = (v, to_levels-All P d vs)

  to_levels-length : (d : Side) → length (to_levels d) ≡ length d
  to_levels-length [] = refl
  to_levels-length (e ∷ d) = omega (arith, to_levels-length d)

  to_levels-IsSortedBy : (d : Side) → IsOrdered d → IsSortedBy before (to_levels d)
  unfolding IsOrdered
  to_levels-IsSortedBy [] v = tt
  to_levels-IsSortedBy (e ∷ d) (v, vs) =
      (to_levels-All (λ p a. before e.0 p ≡ true) d v, to_levels-IsSortedBy d vs)

  to_levels-IsServed :
      (depth : ℕ) (d : Side)
      → IsOrdered d
      → IsPositive d
      → length d ≤ depth
      → IsServed before depth (to_levels d)
  to_levels-IsServed depth d sorted positive bounded = record {
    sorted = to_levels-IsSortedBy d sorted;
    positive = to_levels-All (λ p a. zero_d <ℤ a) d positive;
    bounded = omega (arith, bounded, to_levels-length d);
  }

  length-take_le : (n : ℕ) (d : Side) → length (take n d) ≤ length d
  length-take_le zero d = omega arith
  length-take_le (suc n) [] = omega arith
  length-take_le (suc n) (e ∷ d) = omega (arith, length-take_le n d)

  side_view-IsServed :
      (limit depth : ℕ) (d : Side)
      → IsPositive d
      → length d ≤ depth
      → IsServed before depth (side_view before limit d)
  unfolding side_view
  side_view-IsServed limit depth d positive bounded =
      let items = sort_side before d in
      let sorted = sort_side-IsOrdered d in
      let kept = sort_side-IsPositive before d positive in
      let small : length items ≤ depth = omega (arith, bounded, sort_side-length before d) in
      if_rule (λ (s : Side). IsServed before depth (to_levels s)) (ltb limit (length items))
        (λ cut.
          to_levels-IsServed depth (take limit items) (take-IsOrdered limit items sorted)
            (All-take (λ e. zero_d <ℤ e.1) limit items kept)
            (omega (arith, small, length-take_le limit items)))
        (λ _. to_levels-IsServed depth items sorted kept small)

build_book_sides :
    (limit : ℕ) (b : LocalOrderBook) (book : OrderBook)
    → build_book limit b ≡ some book
    → (book.bids ≡ side_view descending limit b.bids)
      × (book.asks ≡ side_view ascending limit b.asks)
      × (book.nonce ≡ b.sequence)
unfolding build_book
build_book_sides limit b book h = ground arith

descending-IsServed :
    (limit : ℕ) (b : LocalOrderBook)
    → IsKept b
    → IsServed descending b.max_depth (side_view descending limit b.bids)
descending-IsServed limit b v =
    side_view-IsServed descending (λ p q h. ground arith) (λ p q r h k. ground arith) limit
      b.max_depth b.bids v.bids_positive v.bids_depth

ascending-IsServed :
    (limit : ℕ) (b : LocalOrderBook)
    → IsKept b
    → IsServed ascending b.max_depth (side_view ascending limit b.asks)
ascending-IsServed limit b v =
    side_view-IsServed ascending (λ p q h. ground arith) (λ p q r h k. ground arith) limit
      b.max_depth b.asks v.asks_positive v.asks_depth

current_some :
    (n : Option ℕ) (b : LocalOrderBook) (book : OrderBook)
    → current_book n b ≡ some book
    → build_book (level_limit n b.max_depth) b ≡ some book
current_some n b book h = ground arith

-- An order book that is served after any calls on a new local book has its bids from the highest and
-- its asks from the lowest price, positive amounts, at most the depth of levels on a side, and the
-- sequence number that the local book holds after the calls, if it holds one.
pub to_order_book-IsServed :
    (now : ℕ) (exchange symbol : Str) (depth : ℕ) (cs : List BookCall) (n : Option ℕ)
    (book : OrderBook)
    → let b = book_calls cs (new_local_book now exchange symbol depth) in
      (to_order_book n b).1 ≡ some book
      → IsServed descending b.max_depth book.bids
        × IsServed ascending b.max_depth book.asks
        × (book.nonce ≡ b.sequence)
to_order_book-IsServed now exchange symbol depth cs n book h =
    let b = book_calls cs (new_local_book now exchange symbol depth) in
    let limit = level_limit n b.max_depth in
    let v = reached-IsKept now exchange symbol depth cs in
    let built : build_book limit b ≡ some book =
      current_some n b book (sym (to_order_book_current now exchange symbol depth cs n) ∙ h) in
    let (bids, asks, nonce) = build_book_sides limit b book built in
    (
      subst (IsServed descending b.max_depth) (sym bids) (descending-IsServed limit b v),
      subst (IsServed ascending b.max_depth) (sym asks) (ascending-IsServed limit b v),
      nonce,
    )
