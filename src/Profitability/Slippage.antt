-- ===== src/Profitability/Slippage.antt =====
-- bot/profitability/slippage.py: `SlippageModel`. The loop takes a level as the executor's loop does,
-- but skips no empty level and knows no limit price.
use moreney.Prelude.{ℕ, zero, suc, ◌+◌, Option, none, some, List, [], ◌∷◌, if◌then◌else◌}
use moreney.Prelude.Int.{◌+ℤ◌, ◌-ℤ◌, leb_ℤ, abs_ℤ}
use moreney.Decimal.{Decimal, of_ℕ, zero_d, one_d, mul, div, is_pos}
use moreney.Core.Enums.{OpportunitySide, enters_buying}
use moreney.Core.Models.{OrderBook, OrderBookLevel, TradeOpportunity}
use moreney.Execution.Executor.{Walk, take_level, start_walk}
use moreney.Profitability.Fees.{ProfitSettings}

pub record SlippageEstimate : Type 0 where
  pub base_slippage : Decimal
  pub market_impact : Decimal
  pub thin_book_penalty : Decimal
  pub total_slippage : Decimal
  pub depth_available : Decimal
  pub depth_consumed_ratio : Decimal
  pub vwap : Option Decimal
  pub levels_consumed : ℕ

pub record BookWalkResult : Type 0 where
  pub impact : Decimal
  pub thin_penalty : Decimal
  pub depth_available : Decimal
  pub consumed_ratio : Decimal
  pub vwap : Option Decimal
  pub levels_consumed : ℕ

abbrev pub bps : Decimal
bps = of_ℕ 10000

abbrev pub entry_levels : OpportunitySide → OrderBook → List OrderBookLevel
entry_levels side book = if enters_buying side then book.asks else book.bids

abbrev pub exit_levels : OpportunitySide → OrderBook → List OrderBookLevel
exit_levels side book = if enters_buying side then book.bids else book.asks

unfoldable pub depth_from : Decimal → List OrderBookLevel → Decimal
depth_from sum [] = sum
depth_from sum (level ∷ levels) = depth_from (sum +ℤ level.amount) levels

unfoldable pub walk_depth : Walk → List OrderBookLevel → Walk
walk_depth w [] = w
walk_depth w (level ∷ levels) =
    let taken = walk_depth (take_level level w) levels in
    if leb_ℤ w.remaining zero_d then w else taken

-- The price of level number n, counted from one; the reference price at zero.
unfoldable pub price_of_level : Decimal → ℕ → List OrderBookLevel → Decimal
price_of_level ref zero levels = ref
price_of_level ref (suc n) [] = ref
price_of_level ref (suc zero) (level ∷ levels) = level.price
price_of_level ref (suc (suc n)) (level ∷ levels) = price_of_level ref (suc n) levels

-- The result of the walk if nothing was filled.
unfoldable pub empty_impact :
    ProfitSettings → Decimal → Decimal → List OrderBookLevel → BookWalkResult
empty_impact cfg quantity ref levels = record {
  impact = zero_d;
  thin_penalty = mul (mul quantity ref) (div cfg.thin_book_penalty_bps bps);
  depth_available = depth_from zero_d levels;
  consumed_ratio = if is_pos quantity then one_d else zero_d;
  vwap = none;
  levels_consumed = 0;
}

-- The result of a walk that filled something; a remainder counts at the last price.
unfoldable pub filled_impact :
    ProfitSettings → Decimal → Decimal → List OrderBookLevel → Walk → BookWalkResult
filled_impact cfg quantity ref levels w =
    let vwap = div w.notional w.filled in
    let impact = mul (abs_ℤ (vwap -ℤ ref)) w.filled in
    let last_price = price_of_level ref w.consumed levels in
    let short = is_pos w.remaining in
    record {
      impact = if short then impact +ℤ mul (abs_ℤ (last_price -ℤ ref)) w.remaining else impact;
      thin_penalty =
          if short then mul (mul w.remaining ref) (div cfg.thin_book_penalty_bps bps) else zero_d;
      depth_available = depth_from zero_d levels;
      consumed_ratio =
          if short
          then one_d
          else if is_pos quantity
          then div (quantity -ℤ w.remaining) quantity
          else zero_d;
      vwap = some vwap;
      levels_consumed = w.consumed;
    }

-- `_walk_book_impact`
unfoldable pub walk_book_impact :
    ProfitSettings → Decimal → Decimal → List OrderBookLevel → BookWalkResult
walk_book_impact cfg quantity ref levels =
    let w = walk_depth (start_walk quantity) levels in
    if leb_ℤ w.filled zero_d
    then empty_impact cfg quantity ref levels
    else filled_impact cfg quantity ref levels w

-- The slippage that is charged whatever the book holds.
unfoldable pub base_slippage_of : ProfitSettings → TradeOpportunity → Decimal → Decimal
base_slippage_of cfg o exit_price =
    mul (mul o.quantity o.entry_price +ℤ mul o.quantity exit_price) (div cfg.slippage_bps bps)

-- The book that is given, or else the one of the market snapshot.
unfoldable pub book_for : TradeOpportunity → Option OrderBook → Option OrderBook
book_for o (some book) = some book
book_for o none = elim o.market [ none ↦ none | some m ↦ m.order_book ]

-- `SlippageModel.estimate`
unfoldable pub estimate_slippage :
    ProfitSettings → TradeOpportunity → Decimal → Option OrderBook → SlippageEstimate
estimate_slippage cfg o exit_price given =
    let base = base_slippage_of cfg o exit_price in
    elim (book_for o given) [
      | none ↦ record {
        base_slippage = base;
        market_impact = zero_d;
        thin_book_penalty = zero_d;
        total_slippage = base;
        depth_available = zero_d;
        depth_consumed_ratio = zero_d;
        vwap = none;
        levels_consumed = 0;
      }
      | some book ↦
          let entry = walk_book_impact cfg o.quantity o.entry_price (entry_levels o.side book) in
          let exit = walk_book_impact cfg o.quantity exit_price (exit_levels o.side book) in
          let impact = mul (entry.impact +ℤ exit.impact) cfg.market_impact_factor in
          let thin = mul (entry.thin_penalty +ℤ exit.thin_penalty) cfg.market_impact_factor in
          record {
            base_slippage = base;
            market_impact = impact;
            thin_book_penalty = thin;
            total_slippage = base +ℤ impact +ℤ thin;
            depth_available = entry.depth_available;
            depth_consumed_ratio = entry.consumed_ratio;
            vwap = entry.vwap;
            levels_consumed = entry.levels_consumed + exit.levels_consumed;
          }
    ]
