-- ===== src/Portfolio/Tests.antt =====
-- Concrete runs of the portfolio.
use moreney.Prelude.{
  ◌&&◌, ◌≡◌, ◌≢◌, refl, true, false, none, [], ◌∷◌, arith, ap, ℕ, ◌+◌, if◌then◌else◌,
}
use moreney.Prelude.Int.{◌+ℤ◌, ◌≤ℤ◌, neg, max_ℤ, min_ℤ, ◌-ℤ◌}
use moreney.Decimal.{of_ℕ, one_d, zero_d, mul}
use moreney.Core.Enums.{OrderSide}
use moreney.Core.Text.{Str, codes, str_eq, upper, without, ends_with, drop_last}
use moreney.Portfolio.Models.{Fill, total, PortfolioStats, PortfolioState, PositionState}
use moreney.Portfolio.Accounting.{apply_fill, is_processed, infer_base, move_position}
use moreney.Portfolio.Paper.{
  PaperPortfolio, available, reserved, reserve, release_reservation, drawdown_stats,
  apply_order_fill,
}
use moreney.Portfolio.Reservations.{balance_of, balance_at}
use moreney.Portfolio.Conservation.{
  IsSolventBook, reserve_conserves, reserve-IsSolventBook, release_conserves,
}
use moreney.Portfolio.Fills.{apply_fill_once}
use moreney.Portfolio.Settlement.{
  Settles, base_of, cost_of, apply_fill-Settles, apply_fill_underfunded,
}
use moreney.Portfolio.Statistics.{
  IsConsistent, IsLong, drawdown_stats-le_one, apply_order_fill-IsConsistent, move_position-IsLong,
}

abbrev eur : Str
eur = codes "EUR"

abbrev btc : Str
btc = codes "BTC"

abbrev first_code : Str → ℕ
first_code [] = 0
first_code (c ∷ s) = c

abbrev symbol : Str
symbol = codes "BTCEUR"

abbrev stats : PortfolioStats
stats = record {
  realized_pnl = zero_d;
  unrealized_pnl = zero_d;
  fees_paid = zero_d;
  total_trading_volume = zero_d;
  number_of_trades = 3;
  winning_trades = 1;
  losing_trades = 1;
  peak_equity = of_ℕ 200;
  current_drawdown = zero_d;
  maximum_drawdown = zero_d;
}

abbrev account : PortfolioState
account = record {
  balances =
      (eur, record { asset = eur; available = of_ℕ 150; reserved = of_ℕ 50 })
      ∷ (btc, record { asset = btc; available = of_ℕ 1; reserved = of_ℕ 1 })
      ∷ [];
  positions = [];
  stats = stats;
  quote_asset = eur;
  mark_prices = [];
}

abbrev portfolio : PaperPortfolio
portfolio = record { quote = eur; processed = 7 ∷ []; state = account }

abbrev buy_fill : Fill
buy_fill = record {
  id = 8;
  order_id = 1;
  symbol = symbol;
  side = OrderSide.buy;
  quantity = of_ℕ 2;
  price = of_ℕ 30;
  fee = of_ℕ 1;
  slippage = zero_d;
}

abbrev dear_fill : Fill
dear_fill = record buy_fill { price = of_ℕ 300 }

account-IsSolventBook : IsSolventBook account.balances
unfolding str_eq
account-IsSolventBook k = record { available_nonneg = ground arith; reserved_nonneg = ground arith }

infers_base : infer_base (codes "btc/eur") (codes "eur") ≡ btc
unfolding infer_base upper without ends_with drop_last str_eq
infers_base = refl

reserves : (reserve (codes "eur") (of_ℕ 100) portfolio).1 ≡ true
unfolding reserve upper str_eq
reserves = refl

reserve_conserves_example :
    let (p', done) = reserve eur (of_ℕ 100) portfolio in
    let moved =
      if done && str_eq (upper eur) (upper eur) then max_ℤ (of_ℕ 100) zero_d else zero_d in
    (total (balance_of eur p') ≡ total (balance_of eur portfolio))
    × (available eur p' ≡ available eur portfolio -ℤ moved)
    × (reserved eur p' ≡ reserved eur portfolio +ℤ moved)
reserve_conserves_example = reserve_conserves eur eur (of_ℕ 100) portfolio

reserve-IsSolventBook_example : IsSolventBook (reserve eur (of_ℕ 100) portfolio).0.state.balances
reserve-IsSolventBook_example = reserve-IsSolventBook eur (of_ℕ 100) portfolio account-IsSolventBook

release_conserves_example :
    let p' = release_reservation eur (of_ℕ 60) portfolio in
    let moved =
      if str_eq (upper eur) (upper btc)
      then max_ℤ (min_ℤ (of_ℕ 60) (reserved eur portfolio)) zero_d
      else zero_d in
    (total (balance_of btc p') ≡ total (balance_of btc portfolio))
    × (available btc p' ≡ available btc portfolio +ℤ moved)
    × (reserved btc p' ≡ reserved btc portfolio -ℤ moved)
release_conserves_example =
    release_conserves eur btc (of_ℕ 60) portfolio (account-IsSolventBook (upper eur))

apply_fill_once_example :
    let (seen', s', first) = apply_fill [] account 1 buy_fill none in
    let (seen'', s'', second) = apply_fill seen' s' 2 buy_fill none in
    (seen'' ≡ seen')
    × (s'' ≡ s')
    × (second.applied ≡ false)
    × (second.net_cash_movement ≡ zero_d)
    × (first.applied ≡ true)
unfolding is_processed
apply_fill_once_example = apply_fill_once [] account 1 2 buy_fill none

base_is_btc : base_of account buy_fill none ≡ btc
unfolding infer_base upper without ends_with drop_last str_eq
base_is_btc = refl

apart : account.quote_asset ≢ base_of account buy_fill none
apart = rw base_is_btc (λ e. omega (arith, ap first_code e))

apply_fill-Settles_example :
    let (seen', s', r) = apply_fill [] account 1 buy_fill none in
    Settles eur
      (base_of account buy_fill none)
      r.net_cash_movement
      (of_ℕ 2)
      account.balances
      s'.balances
    × IsSolventBook s'.balances
unfolding is_processed mul ◌+ℤ◌ str_eq
apply_fill-Settles_example =
    apply_fill-Settles [] account 1 buy_fill none refl apart account-IsSolventBook (omega arith)
      (omega arith)

apply_fill_underfunded_example :
    let (seen', s', r) = apply_fill [] account 1 dear_fill none in
    let base = base_of account dear_fill none in
    (total (balance_at eur s'.balances) ≡ zero_d)
    × (total (balance_at base s'.balances) ≡ total (balance_at base account.balances) +ℤ of_ℕ 2)
    × (r.net_cash_movement ≡ neg (cost_of dear_fill))
unfolding is_processed mul ◌+ℤ◌ str_eq
apply_fill_underfunded_example =
    apply_fill_underfunded [] account 1 dear_fill none refl refl apart account-IsSolventBook
      (omega arith)

stats-IsConsistent : IsConsistent stats
stats-IsConsistent = omega arith

drawdown_stats-le_one_example :
    let s' = drawdown_stats (of_ℕ 150) stats in
    (zero_d ≤ℤ s'.current_drawdown) × (s'.current_drawdown ≤ℤ one_d)
drawdown_stats-le_one_example = drawdown_stats-le_one (of_ℕ 150) stats (omega arith)

apply_order_fill-IsConsistent_example :
    let (p', r) = apply_order_fill 1 buy_fill portfolio in
    IsConsistent p'.state.stats
    × (p'.state.stats.number_of_trades ≡ (if is_processed 8 (7 ∷ []) then 3 else 3 + 1))
apply_order_fill-IsConsistent_example =
    apply_order_fill-IsConsistent 1 buy_fill portfolio stats-IsConsistent

abbrev holding : PositionState
holding = record {
  symbol = symbol;
  quantity = of_ℕ 2;
  average_entry_price = of_ℕ 31;
  realized_pnl = zero_d;
  fees_paid = zero_d;
}

abbrev sell_fill : Fill
sell_fill = record buy_fill { side = OrderSide.sell }

move_position-IsLong_example :
    IsLong (move_position sell_fill holding)
    × ((move_position sell_fill holding).quantity ≡ max_ℤ (of_ℕ 2 +ℤ neg (of_ℕ 2)) zero_d)
move_position-IsLong_example = move_position-IsLong sell_fill holding (omega arith) (omega arith)
