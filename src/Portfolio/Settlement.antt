-- ===== src/Portfolio/Settlement.antt =====
-- The cash and the base asset that move with a fill, against what its result reports.
use moreney.Prelude.{ℕ, inl, inr, ◌⊎◌, refl, ◌≡◌, ◌≢◌, false, Option, arith}
use moreney.Prelude.Int.{◌+ℤ◌, ◌-ℤ◌, ◌≤ℤ◌, ◌<ℤ◌, neg, int_laws}
use moreney.Prelude.Dict.{Dict}
use moreney.Decimal.{Decimal, zero_d}
use moreney.Core.Enums.{OrderSide}
use moreney.Core.Text.{Str, str_eq_iff}
use moreney.Portfolio.Models.{Fill, gross_value, AssetBalance, total, PortfolioState}
use moreney.Portfolio.Accounting.{
  Processed, is_processed, apply_fill, post_fill, move_balances, net_cash, credit, base_or,
  infer_base,
}
use moreney.Portfolio.Balances.{
  IsSolvent, spend_quote_covered, spend_quote_short, spend_quote-IsSolvent, total-deliver_base,
  deliver_base-IsSolvent,
}
use moreney.Portfolio.Reservations.{balance_at}
use moreney.Portfolio.Conservation.{IsSolventBook}
use moreney.Portfolio.Fills.{balance_at-buy, balance_at-sell}

-- The asset that `apply_fill` books the quantity to.
abbrev pub base_of : PortfolioState → Fill → Option Str → Str
base_of s fill base_asset = base_or base_asset (infer_base fill.symbol s.quote_asset)

-- The cost of a buy, fee included.
abbrev pub cost_of : Fill → Decimal
cost_of fill = gross_value fill +ℤ fill.fee

total-credit : (amount : Decimal) (b : AssetBalance) → total (credit amount b) ≡ total b +ℤ amount
total-credit amount b = omega int_laws

pub credit-IsSolvent :
    (amount : Decimal) (b : AssetBalance)
    → IsSolvent b
    → zero_d ≤ℤ amount
    → IsSolvent (credit amount b)
credit-IsSolvent amount b v h = omega int_laws

minus_cost : (a b : Decimal) → a -ℤ b ≡ a +ℤ neg b
minus_cost a b = omega int_laws

-- A new fill moves the balances as `move_balances` says and reports its cash movement.
pub apply_fill_fresh :
    (seen : Processed) (s : PortfolioState) (order_id : ℕ) (fill : Fill) (base_asset : Option Str)
    → is_processed fill.id seen ≡ false
    → let (seen', s', r) = apply_fill seen s order_id fill base_asset in
      (s'.balances ≡ move_balances s.quote_asset (base_of s fill base_asset) fill s.balances)
      × (s'.quote_asset ≡ s.quote_asset)
      × (r.net_cash_movement ≡ net_cash fill)
unfolding apply_fill post_fill
apply_fill_fresh seen s order_id fill base_asset fresh = rw fresh (refl, refl, refl)

-- What holds of the balances `d` before and `d'` after a fill between two assets.
abbrev pub Settles :
    Str → Str → Decimal → Decimal → Dict Str AssetBalance → Dict Str AssetBalance → Type 0
Settles quote base cash units d d' =
    (total (balance_at quote d') ≡ total (balance_at quote d) +ℤ cash)
    × (total (balance_at base d') ≡ total (balance_at base d) +ℤ units)
    × ((j : Str) → j ≢ quote → j ≢ base → balance_at j d' ≡ balance_at j d)

module _ (quote base : Str) (fill : Fill) (d : Dict Str AssetBalance) (apart : quote ≢ base)
    (solvent : IsSolventBook d) where
  abbrev moved : Dict Str AssetBalance
  moved = move_balances quote base fill d

  move_balances_buy :
      fill.side ≡ OrderSide.buy
      → zero_d ≤ℤ cost_of fill
      → cost_of fill ≤ℤ total (balance_at quote d)
      → Settles quote base (net_cash fill) fill.quantity d moved
  unfolding net_cash
  move_balances_buy buys nonneg covered =
      let at = λ (j : Str). balance_at-buy base quote j fill d apart buys in
      (
        ground (
          arith,
          at quote,
          str_eq_iff base quote,
          str_eq_iff quote quote,
          spend_quote_covered (cost_of fill) (balance_at quote d) (solvent quote) nonneg covered,
          minus_cost (total (balance_at quote d)) (cost_of fill),
        ),
        ground
            (arith, at base, str_eq_iff base base, total-credit fill.quantity (balance_at base d)),
        λ j not_quote not_base. ground (arith, at j, str_eq_iff base j, str_eq_iff quote j),
      )

  move_balances_sell :
      fill.side ≡ OrderSide.sell → Settles quote base (net_cash fill) (neg fill.quantity) d moved
  unfolding net_cash
  move_balances_sell sells =
      let at = λ (j : Str). balance_at-sell base quote j fill d apart sells in
      (
        ground (
          arith,
          at quote,
          str_eq_iff quote quote,
          total-credit (gross_value fill -ℤ fill.fee) (balance_at quote d),
        ),
        ground (
          arith,
          at base,
          str_eq_iff quote base,
          str_eq_iff base base,
          total-deliver_base fill.quantity (balance_at base d),
          minus_cost (total (balance_at base d)) fill.quantity,
        ),
        λ j not_quote not_base. ground (arith, at j, str_eq_iff base j, str_eq_iff quote j),
      )

  move_balances_buy-IsSolventBook :
      fill.side ≡ OrderSide.buy
      → zero_d ≤ℤ cost_of fill
      → zero_d ≤ℤ fill.quantity
      → IsSolventBook moved
  move_balances_buy-IsSolventBook buys nonneg units j = ground (
    arith,
    balance_at-buy base quote j fill d apart buys,
    solvent j,
    credit-IsSolvent fill.quantity (balance_at base d) (solvent base) units,
    spend_quote-IsSolvent (cost_of fill) (balance_at quote d) (solvent quote) nonneg,
  )

  move_balances_sell-IsSolventBook :
      fill.side ≡ OrderSide.sell
      → fill.quantity ≤ℤ total (balance_at base d)
      → zero_d ≤ℤ gross_value fill -ℤ fill.fee
      → IsSolventBook moved
  move_balances_sell-IsSolventBook sells covered proceeds j = ground (
    arith,
    balance_at-sell base quote j fill d apart sells,
    solvent j,
    credit-IsSolvent (gross_value fill -ℤ fill.fee) (balance_at quote d) (solvent quote) proceeds,
    deliver_base-IsSolvent fill.quantity (balance_at base d) (solvent base) covered,
  )

-- Units of the base asset that a fill brings in.
abbrev pub signed_quantity : Fill → Decimal
signed_quantity fill = elim fill.side [
  | OrderSide.buy ↦ fill.quantity
  | OrderSide.sell ↦ neg fill.quantity
]

-- The account can pay for the fill: a buy in the quote asset, a sell in the base asset.
abbrev pub IsCovered : OrderSide → Str → Str → Fill → Dict Str AssetBalance → Type 0
IsCovered OrderSide.buy quote base fill d =
    (zero_d ≤ℤ cost_of fill) × (cost_of fill ≤ℤ total (balance_at quote d))
IsCovered OrderSide.sell quote base fill d =
    (fill.quantity ≤ℤ total (balance_at base d)) × (zero_d ≤ℤ gross_value fill -ℤ fill.fee)

Side-cases : (o : OrderSide) → (o ≡ OrderSide.buy) ⊎ (o ≡ OrderSide.sell)
Side-cases OrderSide.buy = inl refl
Side-cases OrderSide.sell = inr refl

signed_buy : (fill : Fill) → fill.side ≡ OrderSide.buy → signed_quantity fill ≡ fill.quantity
signed_buy fill buys = rw buys

signed_sell : (fill : Fill) → fill.side ≡ OrderSide.sell → signed_quantity fill ≡ neg fill.quantity
signed_sell fill sells = rw sells

move_balances-Settles :
    (quote base : Str) (fill : Fill) (d : Dict Str AssetBalance)
    → quote ≢ base
    → IsSolventBook d
    → zero_d ≤ℤ fill.quantity
    → IsCovered fill.side quote base fill d
    → Settles quote base (net_cash fill) (signed_quantity fill) d (move_balances quote base fill d)
      × IsSolventBook (move_balances quote base fill d)
move_balances-Settles quote base fill d apart solvent units covered = elim (Side-cases fill.side) [
  | inl buys ↦
      let paid : IsCovered OrderSide.buy quote base fill d = rw buys at covered in
      (
        rw (signed_buy fill buys)
            (move_balances_buy quote base fill d apart solvent buys paid.0 paid.1),
        move_balances_buy-IsSolventBook quote base fill d apart solvent buys paid.0 units,
      )
  | inr sells ↦
      let held : IsCovered OrderSide.sell quote base fill d = rw sells at covered in
      (
        rw (signed_sell fill sells) (move_balances_sell quote base fill d apart solvent sells),
        move_balances_sell-IsSolventBook quote base fill d apart solvent sells held.0 held.1,
      )
]

-- A new fill that the account covers changes the total of the quote asset by exactly the net cash
-- movement of its result, the total of the base asset by the quantity bought or sold, no other asset,
-- and leaves no balance negative.
pub apply_fill-Settles :
    (seen : Processed) (s : PortfolioState) (order_id : ℕ) (fill : Fill) (base_asset : Option Str)
    → is_processed fill.id seen ≡ false
    → s.quote_asset ≢ base_of s fill base_asset
    → IsSolventBook s.balances
    → zero_d ≤ℤ fill.quantity
    → IsCovered fill.side s.quote_asset (base_of s fill base_asset) fill s.balances
    → let (seen', s', r) = apply_fill seen s order_id fill base_asset in
      Settles s.quote_asset
        (base_of s fill base_asset)
        r.net_cash_movement
        (signed_quantity fill)
        s.balances
        s'.balances
      × IsSolventBook s'.balances
apply_fill-Settles seen s order_id fill base_asset fresh apart solvent units covered =
    let (balances, _, cash) = apply_fill_fresh seen s order_id fill base_asset fresh in
    rw (balances, cash)
      (move_balances-Settles s.quote_asset (base_of s fill base_asset) fill s.balances apart solvent
        units covered)

-- If no part of a balance is negative and the quote asset is not the base asset, a new buy that costs
-- more than the available and reserved quote balance together brings the total of that balance to
-- zero, and still adds the whole quantity to the base asset; its result reports the full cost as the
-- cash that moved.
pub apply_fill_underfunded :
    (seen : Processed) (s : PortfolioState) (order_id : ℕ) (fill : Fill) (base_asset : Option Str)
    → is_processed fill.id seen ≡ false
    → fill.side ≡ OrderSide.buy
    → s.quote_asset ≢ base_of s fill base_asset
    → IsSolventBook s.balances
    → total (balance_at s.quote_asset s.balances) <ℤ cost_of fill
    → let (seen', s', r) = apply_fill seen s order_id fill base_asset in
      let base = base_of s fill base_asset in
      (total (balance_at s.quote_asset s'.balances) ≡ zero_d)
      × (total (balance_at base s'.balances) ≡ total (balance_at base s.balances) +ℤ fill.quantity)
      × (r.net_cash_movement ≡ neg (cost_of fill))
unfolding net_cash
apply_fill_underfunded seen s order_id fill base_asset fresh buys apart solvent short =
    let base = base_of s fill base_asset in
    let quote = s.quote_asset in
    let (balances, _, cash) = apply_fill_fresh seen s order_id fill base_asset fresh in
    let at = λ (j : Str). balance_at-buy base quote j fill s.balances apart buys in
    rw (balances, cash)
      (
        ground (
          arith,
          at quote,
          str_eq_iff base quote,
          str_eq_iff quote quote,
          spend_quote_short (cost_of fill) (balance_at quote s.balances) (solvent quote) short,
        ),
        ground (
          arith,
          at base,
          str_eq_iff base base,
          total-credit fill.quantity (balance_at base s.balances),
        ),
        rw buys refl,
      )
