-- ===== src/Portfolio/Persistence.antt =====
-- bot/portfolio/persistence.py: rows for orders, fills, snapshots and days, and the store in memory.
-- Texts of decimals and of enumerations stand for the values they show.
use moreney.Prelude.{ℕ, Option, none, some, List, [], ◌∷◌, ◌++◌, if◌then◌else◌, leb, nat_eq}
use moreney.Prelude.Int.{◌+ℤ◌}
use moreney.Prelude.Dict.{Dict, insert, map_values}
use moreney.Decimal.{Decimal, zero_d}
use moreney.Core.Enums.{OrderSide, OrderStatus, OrderType}
use moreney.Core.Text.{Str}
use moreney.Portfolio.Models.{Fill, Order, PortfolioState, total_equity}
use moreney.Portfolio.Accounting.{Processed}
use moreney.Portfolio.Paper.{PaperPortfolio, new_portfolio, update_drawdown}

pub record OrderRecord : Type 0 where
  pub id : ℕ
  pub symbol : Str
  pub side : OrderSide
  pub order_type : OrderType
  pub requested_quantity : Decimal
  pub filled_quantity : Decimal
  pub requested_price : Option Decimal
  pub average_fill_price : Option Decimal
  pub fee : Decimal
  pub slippage : Decimal
  pub status : OrderStatus
  pub rejection_reason : Option Str
  pub opportunity_id : Option ℕ

unfoldable pub order_to_record : Order → OrderRecord
order_to_record o = record {
  id = o.id;
  symbol = o.symbol;
  side = o.side;
  order_type = o.order_type;
  requested_quantity = o.requested_quantity;
  filled_quantity = o.filled_quantity;
  requested_price = o.requested_price;
  average_fill_price = o.average_fill_price;
  fee = o.fee;
  slippage = o.slippage;
  status = o.status;
  rejection_reason = o.rejection_reason;
  opportunity_id = o.opportunity_id;
}

-- `FillRecord` has the fields of a fill.
unfoldable pub fill_to_record : Fill → Fill
fill_to_record f = record {
  id = f.id;
  order_id = f.order_id;
  symbol = f.symbol;
  side = f.side;
  quantity = f.quantity;
  price = f.price;
  fee = f.fee;
  slippage = f.slippage;
}

-- The values of the two JSON columns.
pub record BalanceRow : Type 0 where
  pub available : Decimal
  pub reserved : Decimal

pub record PositionRow : Type 0 where
  pub quantity : Decimal
  pub average_entry_price : Decimal
  pub realized_pnl : Decimal
  pub fees_paid : Decimal

pub record PortfolioSnapshotRecord : Type 0 where
  pub quote_asset : Str
  pub equity : Decimal
  pub realized_pnl : Decimal
  pub unrealized_pnl : Decimal
  pub fees_paid : Decimal
  pub current_drawdown : Decimal
  pub maximum_drawdown : Decimal
  pub balances : Dict Str BalanceRow
  pub positions : Dict Str PositionRow
  pub processed_fill_ids : List ℕ

-- `sorted` on the ids.
unfoldable pub insert_id : ℕ → List ℕ → List ℕ
insert_id i [] = i ∷ []
insert_id i (j ∷ js) = let later = insert_id i js in if leb i j then i ∷ j ∷ js else j ∷ later

unfoldable pub sorted_ids : List ℕ → List ℕ
sorted_ids [] = []
sorted_ids (i ∷ is) = insert_id i (sorted_ids is)

unfoldable pub portfolio_to_record : PaperPortfolio → PortfolioSnapshotRecord
portfolio_to_record p = record {
  quote_asset = p.state.quote_asset;
  equity = total_equity p.state;
  realized_pnl = p.state.stats.realized_pnl;
  unrealized_pnl = p.state.stats.unrealized_pnl;
  fees_paid = p.state.stats.fees_paid;
  current_drawdown = p.state.stats.current_drawdown;
  maximum_drawdown = p.state.stats.maximum_drawdown;
  balances =
      map_values (λ _ b. record { available = b.available; reserved = b.reserved })
        p.state.balances;
  positions =
      map_values
        (λ _ q. record {
          quantity = q.quantity;
          average_entry_price = q.average_entry_price;
          realized_pnl = q.realized_pnl;
          fees_paid = q.fees_paid;
        })
        p.state.positions;
  processed_fill_ids = sorted_ids p.processed;
}

pub record DailyStatsRecord : Type 0 where
  pub day : ℕ
  pub starting_equity : Decimal
  pub ending_equity : Decimal
  pub gross_pnl : Decimal
  pub fees_paid : Decimal
  pub slippage : Decimal
  pub net_pnl : Decimal
  pub return_pct : Decimal
  pub number_of_trades : ℕ
  pub winning_trades : ℕ
  pub losing_trades : ℕ
  pub realized_pnl : Decimal
  pub total_trading_volume : Decimal
  pub maximum_drawdown : Decimal

-- The day is the number of its date.
unfoldable pub daily_stats_to_record : PaperPortfolio → ℕ → DailyStatsRecord
daily_stats_to_record p day =
    let stats = p.state.stats in
    record {
      day = day;
      starting_equity = stats.peak_equity;
      ending_equity = total_equity p.state;
      gross_pnl = stats.realized_pnl +ℤ stats.fees_paid;
      fees_paid = stats.fees_paid;
      slippage = zero_d;
      net_pnl = stats.realized_pnl;
      return_pct = zero_d;
      number_of_trades = stats.number_of_trades;
      winning_trades = stats.winning_trades;
      losing_trades = stats.losing_trades;
      realized_pnl = stats.realized_pnl;
      total_trading_volume = stats.total_trading_volume;
      maximum_drawdown = stats.maximum_drawdown;
    }

-- `InMemoryPaperStore`
pub record PaperStore : Type 0 where
  pub orders : Dict ℕ OrderRecord
  pub fills : Dict ℕ Fill
  pub snapshots : List PortfolioSnapshotRecord
  pub daily_stats : List DailyStatsRecord

unfoldable pub save_order : Order → PaperStore → PaperStore
save_order o s = record s { orders = insert o.id (order_to_record o) s.orders }

unfoldable pub save_fill : Fill → PaperStore → PaperStore
save_fill f s = record s { fills = insert f.id (fill_to_record f) s.fills }

unfoldable pub save_portfolio : PaperPortfolio → PaperStore → PaperStore × PortfolioSnapshotRecord
save_portfolio p s =
    let row = portfolio_to_record p in (record s { snapshots = s.snapshots ++ (row ∷ []) }, row)

unfoldable pub save_daily_stats : PaperPortfolio → ℕ → PaperStore → PaperStore × DailyStatsRecord
save_daily_stats p today s =
    let row = daily_stats_to_record p today in
    (record s { daily_stats = s.daily_stats ++ (row ∷ []) }, row)

-- `AccountingEngine.load_processed_ids` and `reset_idempotency`
abbrev pub load_processed_ids : List ℕ → Processed → Processed
load_processed_ids ids seen = ids ++ seen

abbrev pub reset_idempotency : Processed → Processed
reset_idempotency seen = []

-- `PaperPortfolio.load_state`; no ids, or an empty set of them, load nothing.
unfoldable pub load_state : PortfolioState → List ℕ → PaperPortfolio → PaperPortfolio
load_state s ids p = record p {
  state = update_drawdown s;
  processed = elim ids [ [] ↦ p.processed | i ∷ is ↦ load_processed_ids (i ∷ is) p.processed ];
}

-- The state that a row describes; what the row does not have starts anew.
unfoldable pub state_of_record : PortfolioSnapshotRecord → PortfolioState
state_of_record row = record {
  balances =
      map_values
        (λ asset b. record { asset = asset; available = b.available; reserved = b.reserved })
        row.balances;
  positions =
      map_values
        (λ symbol q. record {
          symbol = symbol;
          quantity = q.quantity;
          average_entry_price = q.average_entry_price;
          realized_pnl = q.realized_pnl;
          fees_paid = q.fees_paid;
        })
        row.positions;
  stats = record {
    realized_pnl = row.realized_pnl;
    unrealized_pnl = row.unrealized_pnl;
    fees_paid = row.fees_paid;
    total_trading_volume = zero_d;
    number_of_trades = 0;
    winning_trades = 0;
    losing_trades = 0;
    peak_equity = row.equity;
    current_drawdown = row.current_drawdown;
    maximum_drawdown = row.maximum_drawdown;
  };
  quote_asset = row.quote_asset;
  mark_prices = [];
}

-- `snapshots[-1]`, if there is one.
unfoldable pub last_of : List PortfolioSnapshotRecord → Option PortfolioSnapshotRecord
last_of [] = none
last_of (x ∷ []) = some x
last_of (x ∷ y ∷ ys) = last_of (y ∷ ys)

abbrev pub or_last : Option PortfolioSnapshotRecord → PaperStore → Option PortfolioSnapshotRecord
or_last none s = last_of s.snapshots
or_last (some row) s = some row

-- `reload_portfolio`, with the quote asset and the starting balance of the settings.
unfoldable pub reload_portfolio :
    Str → Decimal → Option PortfolioSnapshotRecord → PaperStore → PaperPortfolio
reload_portfolio quote start snapshot s =
    let p = new_portfolio quote start in
    elim (or_last snapshot s) [
      | none ↦ p
      | some row ↦ load_state (state_of_record row) row.processed_fill_ids p
    ]
