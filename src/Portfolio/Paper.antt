-- ===== src/Portfolio/Paper.antt =====
-- bot/portfolio/portfolio.py: `PaperPortfolio`, its reservations, its marks and its drawdown.
use moreney.Prelude.{ℕ, Bool, true, false, none, some, List, [], ◌∷◌, if◌then◌else◌, length}
use moreney.Prelude.Int.{◌+ℤ◌, ◌-ℤ◌, ltb_ℤ, leb_ℤ, min_ℤ, max_ℤ}
use moreney.Prelude.Dict.{Dict, lookup, insert, set_default}
use moreney.Decimal.{Decimal, zero_d, mul, div, is_pos, is_zero}
use moreney.Core.Enums.{OpportunitySide}
use moreney.Core.Models.{Balance, Position, PortfolioSnapshot}
use moreney.Core.Text.{Str, str_instance, upper}
use moreney.Portfolio.Models.{
  Fill, AssetBalance, empty_balance, PositionState, PortfolioStats, PortfolioState, mark_of,
  total_equity, AccountingResult,
}
use moreney.Portfolio.Accounting.{Processed, apply_fill, infer_base, update}

-- The portfolio with its accounting engine; `quote` is upper case.
pub record PaperPortfolio : Type 0 where
  pub quote : Str
  pub processed : Processed
  pub state : PortfolioState

-- The loop of `_update_unrealized`.
pub unrealized_from : PortfolioState → Decimal → Dict Str PositionState → Decimal
unrealized_from s sum [] = sum
unrealized_from s sum ((k, p) ∷ ps) =
    unrealized_from s
      (if is_zero p.quantity
        then sum
        else sum +ℤ mul (mark_of s k p -ℤ p.average_entry_price) p.quantity)
      ps

unfoldable pub update_unrealized : PortfolioState → PortfolioState
unfolding unrealized_from
update_unrealized s = record s {
  stats = record (s.stats) { unrealized_pnl = unrealized_from s zero_d s.positions };
}

-- `_update_drawdown` on the statistics, at the current equity.
unfoldable pub drawdown_stats : Decimal → PortfolioStats → PortfolioStats
drawdown_stats equity s =
    let peak = if ltb_ℤ s.peak_equity equity then equity else s.peak_equity in
    let current = max_ℤ (div (peak -ℤ equity) peak) zero_d in
    if is_pos peak
    then record s {
      peak_equity = peak;
      current_drawdown = current;
      maximum_drawdown = if ltb_ℤ s.maximum_drawdown current then current else s.maximum_drawdown;
    }
    else record s { peak_equity = peak; current_drawdown = zero_d }

unfoldable pub update_drawdown : PortfolioState → PortfolioState
update_drawdown s = record s { stats = drawdown_stats (total_equity s) s.stats }

abbrev pub refresh : PortfolioState → PortfolioState
refresh s = update_drawdown (update_unrealized s)

-- `PaperPortfolio(settings, starting_eur=start)`
unfoldable pub new_portfolio : Str → Decimal → PaperPortfolio
new_portfolio quote_asset start =
    let quote = upper quote_asset in
    record {
      quote = quote;
      processed = [];
      state = update_drawdown (record {
        balances = (quote, record { asset = quote; available = start; reserved = zero_d }) ∷ [];
        positions = [];
        stats = record {
          realized_pnl = zero_d;
          unrealized_pnl = zero_d;
          fees_paid = zero_d;
          total_trading_volume = zero_d;
          number_of_trades = 0;
          winning_trades = 0;
          losing_trades = 0;
          peak_equity = start;
          current_drawdown = zero_d;
          maximum_drawdown = zero_d;
        };
        quote_asset = quote;
        mark_prices = [];
      });
    }

-- `available(asset)` and `reserved(asset)`
unfoldable pub available : Str → PaperPortfolio → Decimal
available asset p = elim (lookup (upper asset) p.state.balances) [
  | none ↦ zero_d
  | some b ↦ b.available
]

unfoldable pub reserved : Str → PaperPortfolio → Decimal
reserved asset p = elim (lookup (upper asset) p.state.balances) [
  | none ↦ zero_d
  | some b ↦ b.reserved
]

abbrev pub with_balances : Dict Str AssetBalance → PaperPortfolio → PaperPortfolio
with_balances d p = record p { state = record (p.state) { balances = d } }

abbrev pub hold : Decimal → AssetBalance → AssetBalance
hold amount b = record b { available = b.available -ℤ amount; reserved = b.reserved +ℤ amount }

-- `reserve`: false, with nothing moved, if the asset is short.
unfoldable pub reserve : Str → Decimal → PaperPortfolio → PaperPortfolio × Bool
reserve asset amount p =
    if leb_ℤ amount zero_d
    then (p, true)
    else let key = upper asset in
      let opened = set_default key (empty_balance key) p.state.balances in
      elim (lookup key opened) [
        | none ↦ (p, false)
        | some b ↦
            if ltb_ℤ b.available amount
            then (with_balances opened p, false)
            else (with_balances (insert key (hold amount b) opened) p, true)
      ]

abbrev pub give_back : Decimal → AssetBalance → AssetBalance
give_back amount b =
    let release = min_ℤ amount b.reserved in
    record b { reserved = b.reserved -ℤ release; available = b.available +ℤ release }

unfoldable pub release_reservation : Str → Decimal → PaperPortfolio → PaperPortfolio
release_reservation asset amount p =
    if leb_ℤ amount zero_d
    then p
    else let key = upper asset in
      with_balances
        (update key (give_back amount) (set_default key (empty_balance key) p.state.balances)) p

unfoldable pub set_mark_price : Str → Decimal → PaperPortfolio → PaperPortfolio
set_mark_price symbol price p = record p {
  state =
      refresh (record (p.state) { mark_prices = insert (upper symbol) price p.state.mark_prices });
}

-- `PaperPortfolio.apply_fill`
unfoldable pub apply_order_fill : ℕ → Fill → PaperPortfolio → PaperPortfolio × AccountingResult
apply_order_fill order_id fill p =
    let (seen, s, result) = apply_fill p.processed p.state order_id fill none in
    (record p { processed = seen; state = if result.applied then refresh s else s }, result)

unfoldable pub base_asset_for : Str → PaperPortfolio → Str
base_asset_for symbol p = infer_base symbol p.quote

-- `get_snapshot`, for the risk engine.
pub snapshot_balances : Dict Str AssetBalance → List Balance
snapshot_balances [] = []
snapshot_balances ((k, b) ∷ bs) =
    record { asset = b.asset; free = b.available; locked = b.reserved } ∷ snapshot_balances bs

pub snapshot_positions : PortfolioState → Dict Str PositionState → List Position
snapshot_positions s [] = []
snapshot_positions s ((k, p) ∷ ps) =
    if is_zero p.quantity
    then snapshot_positions s ps
    else record {
      symbol = p.symbol;
      quantity = p.quantity;
      average_entry_price = p.average_entry_price;
      unrealized_pnl_usd = mul (mark_of s p.symbol p -ℤ p.average_entry_price) p.quantity;
      side = OpportunitySide.buy;
    }
      ∷ snapshot_positions s ps

unfoldable pub get_snapshot : PaperPortfolio → PaperPortfolio × PortfolioSnapshot
unfolding snapshot_balances snapshot_positions
get_snapshot p =
    let s = refresh p.state in
    let positions = snapshot_positions s s.positions in
    (
      record p { state = s },
      record {
        balances = snapshot_balances s.balances;
        positions = positions;
        equity_usd = total_equity s;
        peak_equity_usd = some s.stats.peak_equity;
        daily_realized_pnl_usd = s.stats.realized_pnl;
        open_position_count = length positions;
      },
    )
