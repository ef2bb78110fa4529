-- ===== src/Strategies/Depth.antt =====
-- bot/strategies/arbitrage.py: `walk_book`, `_side_depth`, `_book_age_ms` and the records.
use moreney.Prelude.{ℕ, ◌-◌, Bool, false, none, some, List, [], ◌∷◌, if◌then◌else◌}
use moreney.Prelude.Int.{◌+ℤ◌, leb_ℤ}
use moreney.Decimal.{Decimal, of_ℕ, zero_d, div}
use moreney.Core.Text.{Str}
use moreney.Core.Models.{OrderBookLevel, MarketSnapshot}
use moreney.Execution.Executor.{Walk, take_level, start_walk}

pub record DepthFill : Type 0 where
  pub vwap : Decimal
  pub filled_quantity : Decimal
  pub depth_available : Decimal
  pub levels_consumed : ℕ
  pub sufficient : Bool

pub record ArbitrageCandidate : Type 0 where
  pub symbol : Str
  pub buy_exchange : Str
  pub sell_exchange : Str
  pub quantity : Decimal
  pub buy_vwap : Decimal
  pub sell_vwap : Decimal
  pub buy_depth : Decimal
  pub sell_depth : Decimal
  pub buy_snapshot : MarketSnapshot
  pub sell_snapshot : MarketSnapshot

-- `_side_depth`
unfoldable pub side_depth : List OrderBookLevel → Decimal
side_depth [] = zero_d
side_depth (level ∷ levels) = level.amount +ℤ side_depth levels

-- The loop of `walk_book`: the sums are those of the executor's loop, with no limit price.
unfoldable pub fill_levels : Walk → List OrderBookLevel → Walk
fill_levels w [] = w
fill_levels w (level ∷ levels) =
    let skipped = fill_levels w levels in
    let taken = fill_levels (take_level level w) levels in
    if leb_ℤ w.remaining zero_d then w else if leb_ℤ level.amount zero_d then skipped else taken

abbrev pub no_fill : Decimal → DepthFill
no_fill depth = record {
  vwap = zero_d;
  filled_quantity = zero_d;
  depth_available = depth;
  levels_consumed = 0;
  sufficient = false;
}

unfoldable pub fill_depth : List OrderBookLevel → Decimal → DepthFill
fill_depth levels quantity =
    let w = fill_levels (start_walk quantity) levels in
    if leb_ℤ quantity zero_d
    then no_fill zero_d
    else if leb_ℤ w.filled zero_d
    then no_fill (side_depth levels)
    else record {
      vwap = div w.notional w.filled;
      filled_quantity = w.filled;
      depth_available = side_depth levels;
      levels_consumed = w.consumed;
      sufficient = leb_ℤ w.remaining zero_d;
    }

-- `_book_age_ms`, at a time of the same clock.
unfoldable pub book_age_ms : ℕ → MarketSnapshot → Decimal
book_age_ms now s =
    of_ℕ (now - (elim s.order_book [ none ↦ s.timestamp | some book ↦ book.timestamp ]))
