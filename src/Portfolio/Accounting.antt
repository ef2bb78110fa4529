-- ===== src/Portfolio/Accounting.antt =====
-- bot/portfolio/accounting.py: `AccountingEngine.apply_fill`, which is the only writer of balances and
-- positions when an order trades.
use moreney.Prelude.{
  ℕ, ◌+◌, Bool, true, false, ◌&&◌, ◌||◌, Option, none, some, List, [], ◌∷◌, ltb, ◌==◌,
  if◌then◌else◌, get_or, length,
}
use moreney.Prelude.Int.{◌+ℤ◌, ◌-ℤ◌, neg, ltb_ℤ, leb_ℤ, min_ℤ}
use moreney.Prelude.Dict.{Dict, lookup, insert, set_default}
use moreney.Decimal.{Decimal, zero_d, mul, div, is_pos}
use moreney.Core.Enums.{OrderSide}
use moreney.Core.Text.{Str, str_instance, upper, without, ends_with, drop_last}
use moreney.Portfolio.Models.{
  Fill, gross_value, AssetBalance, empty_balance, total, PositionState, flat_position,
  PortfolioStats, PortfolioState, AccountingResult,
}

-- `_infer_base`; `base_asset_for` of the portfolio is the same code.
unfoldable pub infer_base : Str → Str → Str
infer_base symbol quote =
    let sym = without b'-' (without b'/' (upper symbol)) in
    let q = upper quote in
    if ends_with sym q && ltb (length q) (length sym) then drop_last (length q) sym else sym

-- The ids in `_processed_fill_ids`.
abbrev pub Processed : Type 0
Processed = List ℕ

unfoldable pub is_processed : ℕ → Processed → Bool
is_processed i [] = false
is_processed i (j ∷ js) = i == j || is_processed i js

-- What a buy takes from the quote balance: the reservation first, then what is available.
unfoldable pub spend_quote : Decimal → AssetBalance → AssetBalance
spend_quote cost b =
    if leb_ℤ cost b.reserved
    then record b { reserved = b.reserved -ℤ cost }
    else if leb_ℤ cost (b.reserved +ℤ b.available)
    then record b { reserved = zero_d; available = b.available -ℤ (cost -ℤ b.reserved) }
    else let spend = min_ℤ cost (total b) in
      if leb_ℤ spend b.reserved
      then record b { reserved = b.reserved -ℤ spend }
      else record b { reserved = zero_d; available = b.available -ℤ (spend -ℤ b.reserved) }

-- What a sell takes from the base balance.
unfoldable pub deliver_base : Decimal → AssetBalance → AssetBalance
deliver_base quantity b =
    if leb_ℤ quantity b.reserved
    then record b { reserved = b.reserved -ℤ quantity }
    else let from_reserved = min_ℤ b.reserved quantity in
      record b {
        reserved = b.reserved -ℤ from_reserved;
        available = b.available -ℤ (quantity -ℤ from_reserved);
      }

abbrev pub credit : Decimal → AssetBalance → AssetBalance
credit amount b = record b { available = b.available +ℤ amount }

-- A write through a reference that was taken from the dict.
abbrev pub update {ℓ} : {V : Type ℓ} → Str → (V → V) → Dict Str V → Dict Str V
update k f d = elim (lookup k d) [ none ↦ d | some v ↦ insert k (f v) d ]

-- The average entry price takes the fee into the cost basis.
unfoldable pub buy_position : Decimal → Decimal → PositionState → PositionState
buy_position quantity cost p =
    let new_qty = p.quantity +ℤ quantity in
    let average =
      if is_pos new_qty
      then div (mul p.average_entry_price p.quantity +ℤ cost) new_qty
      else p.average_entry_price in
    record p { quantity = new_qty; average_entry_price = average }

unfoldable pub sell_position : Decimal → PositionState → PositionState
sell_position quantity p =
    let left = p.quantity -ℤ quantity in
    if leb_ℤ left zero_d
    then record p { quantity = zero_d; average_entry_price = zero_d }
    else record p { quantity = left }

-- Realised profit of a sell against the average entry.
unfoldable pub realized_of : Fill → PositionState → Decimal
realized_of fill p =
    if is_pos p.quantity && is_pos p.average_entry_price
    then gross_value fill -ℤ fill.fee -ℤ mul p.average_entry_price fill.quantity
    else zero_d

abbrev pub book_position : Decimal → Decimal → PositionState → PositionState
book_position realized fee p = record p {
  realized_pnl = p.realized_pnl +ℤ realized;
  fees_paid = p.fees_paid +ℤ fee;
}

unfoldable pub book_stats : Decimal → Decimal → Decimal → PortfolioStats → PortfolioStats
book_stats realized fee gross s = record s {
  realized_pnl = s.realized_pnl +ℤ realized;
  fees_paid = s.fees_paid +ℤ fee;
  total_trading_volume = s.total_trading_volume +ℤ gross;
  number_of_trades = s.number_of_trades + 1;
  winning_trades = if is_pos realized then s.winning_trades + 1 else s.winning_trades;
  losing_trades = if ltb_ℤ realized zero_d then s.losing_trades + 1 else s.losing_trades;
}

-- The balances after the fill; `quote` and `base` may be one entry, so the writes go in order.
unfoldable pub move_balances : Str → Str → Fill → Dict Str AssetBalance → Dict Str AssetBalance
move_balances quote base fill d =
    let opened =
      set_default base (empty_balance base) (set_default quote (empty_balance quote) d) in
    elim fill.side [
      | OrderSide.buy ↦
          update base (credit fill.quantity)
            (update quote (spend_quote (gross_value fill +ℤ fill.fee)) opened)
      | OrderSide.sell ↦
          update quote (credit (gross_value fill -ℤ fill.fee))
            (update base (deliver_base fill.quantity) opened)
    ]

unfoldable pub move_position : Fill → PositionState → PositionState
move_position fill p = elim fill.side [
  | OrderSide.buy ↦ buy_position fill.quantity (gross_value fill +ℤ fill.fee) p
  | OrderSide.sell ↦ sell_position fill.quantity p
]

unfoldable pub realized_by : Fill → PositionState → Decimal
realized_by fill p = elim fill.side [ OrderSide.buy ↦ zero_d | OrderSide.sell ↦ realized_of fill p ]

unfoldable pub net_cash : Fill → Decimal
net_cash fill = elim fill.side [
  | OrderSide.buy ↦ neg (gross_value fill +ℤ fill.fee)
  | OrderSide.sell ↦ gross_value fill -ℤ fill.fee
]

unfoldable pub position_of : PortfolioState → Str → PositionState
position_of s symbol = get_or (lookup symbol s.positions) (flat_position symbol)

-- The answer to a fill that was processed before: nothing moves.
abbrev pub duplicate_result : PortfolioState → ℕ → Fill → AccountingResult
duplicate_result s order_id fill = record {
  fill_id = fill.id;
  order_id = order_id;
  gross_trade_value = gross_value fill;
  trading_fee = fill.fee;
  net_cash_movement = zero_d;
  realized_pnl = zero_d;
  remaining_position = (position_of s fill.symbol).quantity;
  average_entry_price = (position_of s fill.symbol).average_entry_price;
  applied = false;
  duplicate = true;
}

abbrev pub applied_result : ℕ → Fill → Decimal → PositionState → AccountingResult
applied_result order_id fill realized p = record {
  fill_id = fill.id;
  order_id = order_id;
  gross_trade_value = gross_value fill;
  trading_fee = fill.fee;
  net_cash_movement = net_cash fill;
  realized_pnl = realized;
  remaining_position = p.quantity;
  average_entry_price = p.average_entry_price;
  applied = true;
  duplicate = false;
}

-- The state after a fill that is new.
unfoldable pub post_fill : PortfolioState → Str → Fill → PortfolioState
post_fill s base fill =
    let before = position_of s fill.symbol in
    let realized = realized_by fill before in
    let after = book_position realized fill.fee (move_position fill before) in
    record s {
      balances = move_balances s.quote_asset base fill s.balances;
      positions = insert fill.symbol after s.positions;
      stats = book_stats realized fill.fee (gross_value fill) s.stats;
    }

-- `base_asset or _infer_base(...)`: an empty name counts as absent.
abbrev pub base_or : Option Str → Str → Str
base_or none inferred = inferred
base_or (some []) inferred = inferred
base_or (some (c ∷ s)) inferred = c ∷ s

unfoldable pub apply_fill :
    Processed
    → PortfolioState
    → ℕ
    → Fill
    → Option Str
    → Processed × PortfolioState × AccountingResult
unfolding is_processed
apply_fill seen s order_id fill base_asset =
    if is_processed fill.id seen
    then (seen, s, duplicate_result s order_id fill)
    else let base = base_or base_asset (infer_base fill.symbol s.quote_asset) in
      let s' = post_fill s base fill in
      let before = position_of s fill.symbol in
      (
        fill.id ∷ seen,
        s',
        applied_result order_id fill (realized_by fill before) (position_of s' fill.symbol),
      )
