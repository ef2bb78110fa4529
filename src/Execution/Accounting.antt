-- ===== src/Execution/Accounting.antt =====
-- The totals of an order and the fills that are attached to it: `attach_fill`.
use moreney.Prelude.{ℕ, ◌≡◌, ◌≢◌, refl, ap, ◌∙◌, some, List, [], ◌∷◌, ◌++◌, arith, nat_eq}
use moreney.Prelude.Int.{◌+ℤ◌, ◌≤ℤ◌, ◌<ℤ◌, int_laws, eq_of_parts, pos_part, neg_part}
use moreney.Prelude.Dict.{lookup, insert, lookup-insert_self, lookup-insert_ne}
use moreney.Decimal.{Decimal, zero_d, mul, div}
use moreney.Core.Enums.{OrderStatus}
use moreney.Portfolio.Models.{Fill, Order}
use moreney.Execution.Orders.{Orders, notional_from, with_fill, attach_fill}

-- The sum of a number of each fill.
abbrev pub sum_of : (Fill → Decimal) → List Fill → Decimal
sum_of f [] = zero_d
sum_of f (x ∷ xs) = f x +ℤ sum_of f xs

sum_of-append :
    (f : Fill → Decimal) (xs : List Fill) (y : Fill)
    → sum_of f (xs ++ (y ∷ [])) ≡ sum_of f xs +ℤ f y
sum_of-append f [] y = eq_of_parts _ _ (omega int_laws)
sum_of-append f (x ∷ xs) y =
    let later = sum_of-append f xs y in
    eq_of_parts _ _ (omega (int_laws, ap pos_part later, ap neg_part later))

notional_from_lem :
    (total : Decimal) (xs : List Fill)
    → notional_from total xs ≡ total +ℤ sum_of (λ f. mul f.quantity f.price) xs
unfolding notional_from
notional_from_lem total [] = eq_of_parts _ _ (omega int_laws)
notional_from_lem total (x ∷ xs) =
    notional_from_lem (total +ℤ mul x.quantity x.price) xs ∙ eq_of_parts _ _ (omega int_laws)

-- The totals are those of the fills, the average price is their notional over their quantity, and an
-- order that its fills cover is filled.
pub record IsAccounted (o : Order) : Type 0 where
  pub quantity : o.filled_quantity ≡ sum_of (λ f. f.quantity) o.fills
  pub fees : o.fee ≡ sum_of (λ f. f.fee) o.fills
  pub slippages : o.slippage ≡ sum_of (λ f. f.slippage) o.fills
  pub average :
      zero_d <ℤ o.filled_quantity
      → o.average_fill_price
        ≡ some (div (sum_of (λ f. mul f.quantity f.price) o.fills) o.filled_quantity)
  pub covered :
      o.fills ≢ [] → o.requested_quantity ≤ℤ o.filled_quantity → o.status ≡ OrderStatus.filled

zero_add : (a : Decimal) → zero_d +ℤ a ≡ a
zero_add a = eq_of_parts _ _ (omega int_laws)

with_fill-IsAccounted : (fill : Fill) (o : Order) → IsAccounted o → IsAccounted (with_fill fill o)
unfolding with_fill
with_fill-IsAccounted fill o v = record {
  quantity = rw (sum_of-append (λ f. f.quantity) o.fills fill, v.quantity) refl;
  fees = rw (sum_of-append (λ f. f.fee) o.fills fill, v.fees) refl;
  slippages = rw (sum_of-append (λ f. f.slippage) o.fills fill, v.slippages) refl;
  average =
      let notional =
        notional_from_lem zero_d (o.fills ++ (fill ∷ []))
        ∙ zero_add (sum_of (λ f. mul f.quantity f.price) (o.fills ++ (fill ∷ []))) in
      λ positive. ground (arith, notional, positive);
  covered = λ some_fill enough. ground arith;
}

fills_kept : (fill : Fill) (o : Order) → (with_fill fill o).fills ≡ o.fills ++ (fill ∷ [])
unfolding with_fill
fills_kept fill o = refl

-- If the totals of an order agree with its fills, they do so when a fill is attached; the order is
-- found under its id as it was answered, and no other order changes.
pub attach_fill-IsAccounted :
    (i : ℕ) (fill : Fill) (os : Orders) {o : Order}
    → lookup i os ≡ some o
    → IsAccounted o
    → (os' : Orders) × (o' : Order) × (attach_fill i fill os ≡ some (os', o'))
      × IsAccounted o'
      × (o'.fills ≡ o.fills ++ (fill ∷ []))
      × (lookup i os' ≡ some o')
      × ((j : ℕ) → i ≢ j → lookup j os' ≡ lookup j os)
unfolding attach_fill
attach_fill-IsAccounted i fill os {o} found v =
    let o' = with_fill fill o in
    (
      insert i o' os,
      o',
      rw (attach_fill, found) refl,
      with_fill-IsAccounted fill o v,
      fills_kept fill o,
      lookup-insert_self i o' os,
      λ j apart. lookup-insert_ne i j o' os apart,
    )
