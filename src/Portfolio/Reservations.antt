-- ===== src/Portfolio/Reservations.antt =====
-- `reserve` and `release_reservation` on the two parts of each asset's balance.
use moreney.Prelude.{◌≡◌, true, arith, if◌then◌else◌, get_or}
use moreney.Prelude.Int.{leb_ℤ, ltb_ℤ}
use moreney.Prelude.Dict.{Dict, lookup, insert, set_default, lookup-insert, lookup-set_default}
use moreney.Decimal.{Decimal, zero_d}
use moreney.Core.Text.{Str, upper, str_eq, str_eq_iff, str_instance}
use moreney.Portfolio.Models.{AssetBalance, empty_balance}
use moreney.Portfolio.Accounting.{update}
use moreney.Portfolio.Paper.{
  PaperPortfolio, available, reserved, reserve, release_reservation, hold, give_back,
}

-- The balance of an asset, or the empty one that the first use would open.
abbrev pub balance_at : Str → Dict Str AssetBalance → AssetBalance
balance_at k d = get_or (lookup k d) (empty_balance k)

abbrev pub balance_of : Str → PaperPortfolio → AssetBalance
balance_of asset p = balance_at (upper asset) p.state.balances

pub balance_at-insert :
    (k j : Str) (b : AssetBalance) (d : Dict Str AssetBalance)
    → balance_at j (insert k b d) ≡ (if str_eq k j then b else balance_at j d)
balance_at-insert k j b d = ground (arith, lookup-insert k j b d)

pub balance_at-set_default :
    (k j : Str) (d : Dict Str AssetBalance)
    → balance_at j (set_default k (empty_balance k) d) ≡ balance_at j d
balance_at-set_default k j d =
    ground (arith, str_eq_iff k j, lookup-set_default k j (empty_balance k) d)

-- A write through the reference that `setdefault` returns.
pub balance_at-update :
    (k j : Str) (f : AssetBalance → AssetBalance) (d : Dict Str AssetBalance)
    → balance_at j (update k f (set_default k (empty_balance k) d))
      ≡ (if str_eq k j then f (balance_at k d) else balance_at j d)
balance_at-update k j f d = ground (
  arith,
  str_eq_iff k j,
  str_eq_iff k k,
  lookup-set_default k k (empty_balance k) d,
  lookup-set_default k j (empty_balance k) d,
  lookup-insert k j (f (balance_at k d)) (set_default k (empty_balance k) d),
)

-- What the two queries of the portfolio report.
pub available_lem :
    (asset : Str) (p : PaperPortfolio) → available asset p ≡ (balance_of asset p).available
unfolding available
available_lem asset p = ground arith

pub reserved_lem :
    (asset : Str) (p : PaperPortfolio) → reserved asset p ≡ (balance_of asset p).reserved
unfolding reserved
reserved_lem asset p = ground arith

-- `reserve` succeeds exactly when the amount is not positive or is available.
pub reserve_succeeds :
    (asset : Str) (amount : Decimal) (p : PaperPortfolio)
    → (reserve asset amount p).1
      ≡ (if leb_ℤ amount zero_d then true else leb_ℤ amount (available asset p))
unfolding reserve
reserve_succeeds asset amount p = ground (
  arith,
  available_lem asset p,
  str_eq_iff (upper asset) (upper asset),
  lookup-set_default (upper asset) (upper asset) (empty_balance (upper asset)) p.state.balances,
)

-- The balances after `reserve`, asset by asset.
pub balance_at-reserve :
    (asset : Str) (amount : Decimal) (j : Str) (p : PaperPortfolio)
    → balance_at j (reserve asset amount p).0.state.balances ≡ (
        if leb_ℤ amount zero_d
        then balance_at j p.state.balances
        else if ltb_ℤ (balance_of asset p).available amount
        then balance_at j p.state.balances
        else if str_eq (upper asset) j
        then hold amount (balance_of asset p)
        else balance_at j p.state.balances)
unfolding reserve
balance_at-reserve asset amount j p =
    let k = upper asset in
    let opened = set_default k (empty_balance k) p.state.balances in
    ground (
      arith,
      str_eq_iff k k,
      lookup-set_default k k (empty_balance k) p.state.balances,
      balance_at-set_default k j p.state.balances,
      balance_at-insert k j (hold amount (balance_of asset p)) opened,
    )

pub balance_at-release :
    (asset : Str) (amount : Decimal) (j : Str) (p : PaperPortfolio)
    → balance_at j (release_reservation asset amount p).state.balances ≡ (
        if leb_ℤ amount zero_d
        then balance_at j p.state.balances
        else if str_eq (upper asset) j
        then give_back amount (balance_of asset p)
        else balance_at j p.state.balances)
unfolding release_reservation
balance_at-release asset amount j p =
    ground (arith, balance_at-update (upper asset) j (give_back amount) p.state.balances)
