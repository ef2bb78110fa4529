-- ===== src/Portfolio/Fills.antt =====
-- `AccountingEngine.apply_fill`: repeated fills, and the balances around a fill.
use moreney.Prelude.{ℕ, not, ◌≡◌, ◌≢◌, sym, ◌∙◌, false, Option, some, arith, if◌then◌else◌}
use moreney.Prelude.Int.{◌+ℤ◌, ◌-ℤ◌}
use moreney.Prelude.Dict.{Dict, lookup, insert, set_default, lookup-insert, lookup-set_default}
use moreney.Decimal.{zero_d}
use moreney.Core.Enums.{OrderSide}
use moreney.Core.Text.{Str, str_eq, str_eq_iff, str_instance}
use moreney.Portfolio.Models.{Fill, gross_value, AssetBalance, empty_balance, PortfolioState}
use moreney.Portfolio.Accounting.{
  Processed, is_processed, apply_fill, move_balances, spend_quote, deliver_base, credit, update,
}
use moreney.Portfolio.Reservations.{balance_at, balance_at-set_default}

-- A fill that is applied again changes nothing and is reported as a duplicate that moved no cash.
pub apply_fill_once :
    (seen : Processed) (s : PortfolioState) (order_id again : ℕ) (fill : Fill) (base : Option Str)
    → let (seen', s', first) = apply_fill seen s order_id fill base in
      let (seen'', s'', second) = apply_fill seen' s' again fill base in
      (seen'' ≡ seen')
      × (s'' ≡ s')
      × (second.applied ≡ false)
      × (second.net_cash_movement ≡ zero_d)
      × (first.applied ≡ not (is_processed fill.id seen))
unfolding apply_fill is_processed
apply_fill_once seen s order_id again fill base = ground arith

-- `setdefault` on both assets, before the fill moves anything.
abbrev opened : Str → Str → Dict Str AssetBalance → Dict Str AssetBalance
opened base quote d =
    set_default base (empty_balance base) (set_default quote (empty_balance quote) d)

lookup-opened :
    (base quote j : Str) (d : Dict Str AssetBalance)
    → lookup j (opened base quote d) ≡ (
        if str_eq base j
        then some (balance_at base d)
        else if str_eq quote j
        then some (balance_at quote d)
        else lookup j d)
lookup-opened base quote j d =
    let d' = set_default quote (empty_balance quote) d in
    ground (
      arith,
      str_eq_iff base j,
      str_eq_iff quote j,
      str_eq_iff quote base,
      lookup-set_default base j (empty_balance base) d',
      lookup-set_default quote j (empty_balance quote) d,
      lookup-set_default quote base (empty_balance quote) d,
    )

lookup-opened_base :
    (base quote : Str) (d : Dict Str AssetBalance)
    → lookup base (opened base quote d) ≡ some (balance_at base d)
lookup-opened_base base quote d =
    ground (arith, lookup-opened base quote base d, str_eq_iff base base)

lookup-opened_quote :
    (base quote : Str) (d : Dict Str AssetBalance)
    → lookup quote (opened base quote d) ≡ some (balance_at quote d)
lookup-opened_quote base quote d =
    ground (arith, lookup-opened base quote quote d, str_eq_iff base quote, str_eq_iff quote quote)

balance_at-opened :
    (base quote j : Str) (d : Dict Str AssetBalance)
    → balance_at j (opened base quote d) ≡ balance_at j d
balance_at-opened base quote j d =
    balance_at-set_default base j (set_default quote (empty_balance quote) d)
    ∙ balance_at-set_default quote j d

-- Two writes, to two entries that are there.
balance_at-two_writes :
    (k l j : Str) (f g : AssetBalance → AssetBalance) (d : Dict Str AssetBalance)
    {b c : AssetBalance}
    → k ≢ l
    → lookup k d ≡ some b
    → lookup l d ≡ some c
    → balance_at j (update l g (update k f d))
      ≡ (if str_eq l j then g c else if str_eq k j then f b else balance_at j d)
balance_at-two_writes k l j f g d {b} {c} ne hb hc =
    let d' = insert k (f b) d in
    ground (
      arith,
      str_eq_iff k l,
      str_eq_iff k j,
      str_eq_iff l j,
      lookup-insert k l (f b) d,
      lookup-insert k j (f b) d,
      lookup-insert l j (g c) d',
    )

-- The balances after a fill, asset by asset.
pub balance_at-buy :
    (base quote j : Str) (fill : Fill) (d : Dict Str AssetBalance)
    → quote ≢ base
    → fill.side ≡ OrderSide.buy
    → balance_at j (move_balances quote base fill d) ≡ (
        if str_eq base j
        then credit fill.quantity (balance_at base d)
        else if str_eq quote j
        then spend_quote (gross_value fill +ℤ fill.fee) (balance_at quote d)
        else balance_at j d)
unfolding move_balances
balance_at-buy base quote j fill d ne buys = rw (
  buys,
  balance_at-two_writes quote base j (spend_quote (gross_value fill +ℤ fill.fee))
      (credit fill.quantity) (opened base quote d) ne (lookup-opened_quote base quote d)
      (lookup-opened_base base quote d),
  balance_at-opened base quote j d,
)

pub balance_at-sell :
    (base quote j : Str) (fill : Fill) (d : Dict Str AssetBalance)
    → quote ≢ base
    → fill.side ≡ OrderSide.sell
    → balance_at j (move_balances quote base fill d) ≡ (
        if str_eq quote j
        then credit (gross_value fill -ℤ fill.fee) (balance_at quote d)
        else if str_eq base j
        then deliver_base fill.quantity (balance_at base d)
        else balance_at j d)
unfolding move_balances
balance_at-sell base quote j fill d ne sells = rw (
  sells,
  balance_at-two_writes base quote j (deliver_base fill.quantity)
      (credit (gross_value fill -ℤ fill.fee)) (opened base quote d) (λ e. ne (sym e))
      (lookup-opened_base base quote d) (lookup-opened_quote base quote d),
  balance_at-opened base quote j d,
)
