-- ===== src/Portfolio/Models.antt =====
-- bot/portfolio/models.py. Field validators only normalise the case of names.
use moreney.Prelude.{ℕ, Bool, true, false, Option, List, [], ◌∷◌, if◌then◌else◌, get_or}
use moreney.Prelude.Int.{◌+ℤ◌, ◌-ℤ◌}
use moreney.Prelude.Dict.{Dict, lookup}
use moreney.Decimal.{Decimal, zero_d, mul, is_zero}
use moreney.Core.Enums.{OrderSide, OrderStatus, OrderType}
use moreney.Core.Text.{Str, str_eq, str_instance}

pub record Fill : Type 0 where
  pub id : ℕ
  pub order_id : ℕ
  pub symbol : Str
  pub side : OrderSide
  pub quantity : Decimal
  pub price : Decimal
  pub fee : Decimal
  pub slippage : Decimal

abbrev pub gross_value : Fill → Decimal
gross_value f = mul f.quantity f.price

pub record Order : Type 0 where
  pub id : ℕ
  pub symbol : Str
  pub side : OrderSide
  pub order_type : OrderType
  pub requested_quantity : Decimal
  pub filled_quantity : Decimal
  pub requested_price : Option Decimal
  pub average_fill_price : Option Decimal
  pub fee : Decimal
  pub slippage : Decimal
  pub status : OrderStatus
  pub rejection_reason : Option Str
  pub opportunity_id : Option ℕ
  pub fills : List Fill

abbrev pub remaining_quantity : Order → Decimal
remaining_quantity o = o.requested_quantity -ℤ o.filled_quantity

abbrev pub is_terminal_status : OrderStatus → Bool
is_terminal_status OrderStatus.filled = true
is_terminal_status OrderStatus.cancelled = true
is_terminal_status OrderStatus.rejected = true
is_terminal_status OrderStatus.failed = true
is_terminal_status _ = false

pub record AssetBalance : Type 0 where
  pub asset : Str
  pub available : Decimal
  pub reserved : Decimal

abbrev pub total : AssetBalance → Decimal
total b = b.available +ℤ b.reserved

abbrev pub empty_balance : Str → AssetBalance
empty_balance a = record { asset = a; available = zero_d; reserved = zero_d }

pub record PositionState : Type 0 where
  pub symbol : Str
  pub quantity : Decimal
  pub average_entry_price : Decimal
  pub realized_pnl : Decimal
  pub fees_paid : Decimal

abbrev pub flat_position : Str → PositionState
flat_position s = record {
  symbol = s;
  quantity = zero_d;
  average_entry_price = zero_d;
  realized_pnl = zero_d;
  fees_paid = zero_d;
}

pub record PortfolioStats : Type 0 where
  pub realized_pnl : Decimal
  pub unrealized_pnl : Decimal
  pub fees_paid : Decimal
  pub total_trading_volume : Decimal
  pub number_of_trades : ℕ
  pub winning_trades : ℕ
  pub losing_trades : ℕ
  pub peak_equity : Decimal
  pub current_drawdown : Decimal
  pub maximum_drawdown : Decimal

pub record PortfolioState : Type 0 where
  pub balances : Dict Str AssetBalance
  pub positions : Dict Str PositionState
  pub stats : PortfolioStats
  pub quote_asset : Str
  pub mark_prices : Dict Str Decimal

-- `mark_prices.get(symbol, average_entry_price)`
abbrev pub mark_of : PortfolioState → Str → PositionState → Decimal
mark_of s symbol p = get_or (lookup symbol s.mark_prices) p.average_entry_price

-- The two loops of `total_equity`.
pub add_cash : Str → Decimal → Dict Str AssetBalance → Decimal
add_cash quote equity [] = equity
add_cash quote equity ((k, b) ∷ bs) =
    add_cash quote (if str_eq b.asset quote then equity +ℤ total b else equity) bs

pub add_positions : PortfolioState → Decimal → Dict Str PositionState → Decimal
add_positions s equity [] = equity
add_positions s equity ((k, p) ∷ ps) =
    add_positions s
      (if is_zero p.quantity then equity else equity +ℤ mul p.quantity (mark_of s k p)) ps

unfoldable pub total_equity : PortfolioState → Decimal
unfolding add_cash add_positions
total_equity s =
    let cash = add_cash s.quote_asset zero_d s.balances in add_positions s cash s.positions

pub record AccountingResult : Type 0 where
  pub fill_id : ℕ
  pub order_id : ℕ
  pub gross_trade_value : Decimal
  pub trading_fee : Decimal
  pub net_cash_movement : Decimal
  pub realized_pnl : Decimal
  pub remaining_position : Decimal
  pub average_entry_price : Decimal
  pub applied : Bool
  pub duplicate : Bool
