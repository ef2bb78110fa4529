-- ===== src/Portfolio/Conservation.antt =====
-- The totals and the signs of the balances around `reserve` and `release_reservation`.
use moreney.Prelude.{◌≡◌, ◌&&◌, arith, if◌then◌else◌}
use moreney.Prelude.Int.{◌+ℤ◌, ◌-ℤ◌, min_ℤ, max_ℤ, int_laws}
use moreney.Prelude.Dict.{Dict}
use moreney.Decimal.{Decimal, zero_d}
use moreney.Core.Text.{Str, upper, str_eq, str_eq_iff}
use moreney.Portfolio.Models.{AssetBalance, total}
use moreney.Portfolio.Paper.{PaperPortfolio, available, reserved, reserve, release_reservation}
use moreney.Portfolio.Balances.{
  IsSolvent, total-hold, hold-IsSolvent, total-give_back, give_back-IsSolvent,
}
use moreney.Portfolio.Reservations.{
  balance_at, balance_of, available_lem, reserved_lem, reserve_succeeds, balance_at-reserve,
  balance_at-release,
}

-- Every balance that the dict holds or would open is solvent.
abbrev pub IsSolventBook : Dict Str AssetBalance → Type 0
IsSolventBook d = (k : Str) → IsSolvent (balance_at k d)

minus_zero : (a : Decimal) → a -ℤ zero_d ≡ a
minus_zero a = omega int_laws

plus_zero : (a : Decimal) → a +ℤ zero_d ≡ a
plus_zero a = omega int_laws

-- `reserve` leaves the total of every asset as it was. If it returns true, the amount, where it is
-- positive, has moved from the available to the reserved part of the asset; if it returns false,
-- nothing has moved; and no other asset is touched.
pub reserve_conserves :
    (asset j : Str) (amount : Decimal) (p : PaperPortfolio)
    → let (p', done) = reserve asset amount p in
      let moved = if done && str_eq (upper asset) (upper j) then max_ℤ amount zero_d else zero_d in
      (total (balance_of j p') ≡ total (balance_of j p))
      × (available j p' ≡ available j p -ℤ moved)
      × (reserved j p' ≡ reserved j p +ℤ moved)
unfolding max_ℤ
reserve_conserves asset j amount p =
    let p' = (reserve asset amount p).0 in
    let same = str_eq_iff (upper asset) (upper j) in
    let done = reserve_succeeds asset amount p in
    let here = available_lem asset p in
    let after = balance_at-reserve asset amount (upper j) p in
    (
      ground (arith, after, total-hold amount (balance_of asset p), same),
      ground (
        arith,
        after,
        same,
        done,
        here,
        available_lem j p,
        available_lem j p',
        minus_zero (available j p),
      ),
      ground (
        arith,
        after,
        same,
        done,
        here,
        reserved_lem j p,
        reserved_lem j p',
        plus_zero (reserved j p),
      ),
    )

-- `reserve` keeps every balance solvent.
pub reserve-IsSolventBook :
    (asset : Str) (amount : Decimal) (p : PaperPortfolio)
    → IsSolventBook p.state.balances
    → IsSolventBook (reserve asset amount p).0.state.balances
reserve-IsSolventBook asset amount p v k =
    rw (balance_at-reserve asset amount k p)
      (ground (arith, v k, v (upper asset), hold-IsSolvent amount (balance_of asset p)))

-- If neither part of the asset's balance is negative, `release_reservation` leaves the total of every
-- asset as it was: it moves the amount, but at most what is reserved and at least nothing, from the
-- reserved to the available part of the asset, and touches no other.
pub release_conserves :
    (asset j : Str) (amount : Decimal) (p : PaperPortfolio)
    → IsSolvent (balance_of asset p)
    → let p' = release_reservation asset amount p in
      let moved =
        if str_eq (upper asset) (upper j)
        then max_ℤ (min_ℤ amount (reserved asset p)) zero_d
        else zero_d in
      (total (balance_of j p') ≡ total (balance_of j p))
      × (available j p' ≡ available j p +ℤ moved)
      × (reserved j p' ≡ reserved j p -ℤ moved)
unfolding max_ℤ min_ℤ
release_conserves asset j amount p v =
    let p' = release_reservation asset amount p in
    let same = str_eq_iff (upper asset) (upper j) in
    let here = reserved_lem asset p in
    let after = balance_at-release asset amount (upper j) p in
    (
      ground (arith, after, total-give_back amount (balance_of asset p), same),
      ground (
        arith,
        after,
        same,
        here,
        v,
        available_lem j p,
        available_lem j p',
        plus_zero (available j p),
      ),
      ground (
        arith,
        after,
        same,
        here,
        v,
        reserved_lem j p,
        reserved_lem j p',
        minus_zero (reserved j p),
      ),
    )

-- `release_reservation` keeps every balance solvent.
pub release-IsSolventBook :
    (asset : Str) (amount : Decimal) (p : PaperPortfolio)
    → IsSolventBook p.state.balances
    → IsSolventBook (release_reservation asset amount p).state.balances
release-IsSolventBook asset amount p v k =
    rw (balance_at-release asset amount k p)
      (ground (arith, v k, v (upper asset), give_back-IsSolvent amount (balance_of asset p)))
