-- ===== src/Profitability/Costs.antt =====
-- The signs of the costs of a trade.
use moreney.Prelude.{Option, List, arith, if_rule, option_rule}
use moreney.Prelude.Int.{◌+ℤ◌, ◌-ℤ◌, ◌≤ℤ◌, leb_ℤ, abs_ℤ, abs_ℤ_nonneg, int_laws}
use moreney.Decimal.{Decimal, zero_d, mul, div, is_pos}
use moreney.Decimal.Rounding.{mul_nonneg, div_nonneg}
use moreney.Core.Enums.{FeeRole, enters_buying}
use moreney.Core.Models.{OrderBook, OrderBookLevel, TradeOpportunity}
use moreney.Execution.Executor.{Walk, start_walk}
use moreney.Profitability.Fees.{
  ProfitSettings, TradingFee, rate_for, leg_notionals, calculate_fees, fee_rates,
}
use moreney.Profitability.Slippage.{
  BookWalkResult, SlippageEstimate, bps, price_of_level, entry_levels, exit_levels, walk_depth,
  empty_impact, filled_impact, walk_book_impact, base_slippage_of, book_for, estimate_slippage,
}
use moreney.Profitability.NetProfit.{resolve_exit_price}

-- The bounds on the settings and on the fee of a market.
pub record IsCharged (cfg : ProfitSettings) (fee : Option TradingFee) : Type 0 where
  pub maker_nonneg : zero_d ≤ℤ (fee_rates cfg fee).maker
  pub taker_nonneg : zero_d ≤ℤ (fee_rates cfg fee).taker
  pub slippage_nonneg : zero_d ≤ℤ cfg.slippage_bps
  pub impact_nonneg : zero_d ≤ℤ cfg.market_impact_factor
  pub penalty_nonneg : zero_d ≤ℤ cfg.thin_book_penalty_bps
  pub buffer_nonneg : zero_d ≤ℤ cfg.execution_buffer_bps

-- The bounds on the numbers of an opportunity.
pub record IsPriced (o : TradeOpportunity) : Type 0 where
  pub quantity_nonneg : zero_d ≤ℤ o.quantity
  pub entry_nonneg : zero_d ≤ℤ o.entry_price
  pub exit_nonneg : zero_d ≤ℤ resolve_exit_price o

sum_nonneg : (a b : Decimal) → zero_d ≤ℤ a → zero_d ≤ℤ b → zero_d ≤ℤ a +ℤ b
sum_nonneg a b h k = omega int_laws

pub bps_nonneg : (a : Decimal) → zero_d ≤ℤ a → zero_d ≤ℤ div a bps
bps_nonneg a h = div_nonneg a bps h (omega arith)

rate_for_nonneg :
    (rates : TradingFee) (role : FeeRole)
    → zero_d ≤ℤ rates.maker
    → zero_d ≤ℤ rates.taker
    → zero_d ≤ℤ rate_for rates role
unfolding rate_for
rate_for_nonneg rates FeeRole.maker h k = h
rate_for_nonneg rates FeeRole.taker h k = k

pub calculate_fees_nonneg :
    (rates : TradingFee) (o : TradeOpportunity) (exit_price : Decimal)
    → zero_d ≤ℤ rates.maker
    → zero_d ≤ℤ rates.taker
    → zero_d ≤ℤ o.quantity
    → zero_d ≤ℤ o.entry_price
    → zero_d ≤ℤ exit_price
    → let f = calculate_fees rates o exit_price in (zero_d ≤ℤ f.buy_fee) × (zero_d ≤ℤ f.sell_fee)
unfolding calculate_fees leg_notionals
calculate_fees_nonneg rates o exit_price h k q e x =
    let entry = mul_nonneg o.quantity o.entry_price q e in
    let exit = mul_nonneg o.quantity exit_price q x in
    let rate = λ (role : FeeRole). rate_for_nonneg rates role h k in
    let P = λ (legs : Decimal × Decimal × FeeRole × FeeRole).
      (zero_d ≤ℤ mul legs.0 (rate_for rates legs.2))
      × (zero_d ≤ℤ mul legs.1 (rate_for rates legs.3)) in
    if_rule P (enters_buying o.side)
      (λ _.
        (mul_nonneg _ _ entry (rate o.entry_fee_role), mul_nonneg _ _ exit (rate o.exit_fee_role)))
      (λ _.
        (mul_nonneg _ _ exit (rate o.exit_fee_role), mul_nonneg _ _ entry (rate o.entry_fee_role)))

-- Neither the impact nor the penalty of a walk is negative.
abbrev pub IsCost : BookWalkResult → Type 0
IsCost r = (zero_d ≤ℤ r.impact) × (zero_d ≤ℤ r.thin_penalty)

filled_impact-IsCost :
    (cfg : ProfitSettings) (quantity ref : Decimal) (levels : List OrderBookLevel) (w : Walk)
    → zero_d ≤ℤ cfg.thin_book_penalty_bps
    → zero_d ≤ℤ ref
    → zero_d ≤ℤ w.filled
    → IsCost (filled_impact cfg quantity ref levels w)
unfolding filled_impact
filled_impact-IsCost cfg quantity ref levels w penalty positive filled =
    let vwap = div w.notional w.filled in
    let price = price_of_level ref w.consumed levels in
    let impact = mul_nonneg (abs_ℤ (vwap -ℤ ref)) w.filled (abs_ℤ_nonneg (vwap -ℤ ref)) filled in
    let later = λ (h : zero_d ≤ℤ w.remaining).
      mul_nonneg (abs_ℤ (price -ℤ ref)) w.remaining (abs_ℤ_nonneg (price -ℤ ref)) h in
    let thin = λ (h : zero_d ≤ℤ w.remaining).
      mul_nonneg (mul w.remaining ref) (div cfg.thin_book_penalty_bps bps)
        (mul_nonneg w.remaining ref h positive) (bps_nonneg cfg.thin_book_penalty_bps penalty) in
    (
      if_rule (λ x. zero_d ≤ℤ x) (is_pos w.remaining)
          (λ short. sum_nonneg _ _ impact (later (ground arith))) (λ _. impact),
      if_rule (λ x. zero_d ≤ℤ x) (is_pos w.remaining) (λ short. thin (ground arith))
          (λ _. omega arith),
    )

pub walk_book_impact-IsCost :
    (cfg : ProfitSettings) (quantity ref : Decimal) (levels : List OrderBookLevel)
    → zero_d ≤ℤ cfg.thin_book_penalty_bps
    → zero_d ≤ℤ quantity
    → zero_d ≤ℤ ref
    → IsCost (walk_book_impact cfg quantity ref levels)
unfolding walk_book_impact empty_impact
walk_book_impact-IsCost cfg quantity ref levels penalty q positive =
    let w = walk_depth (start_walk quantity) levels in
    if_rule IsCost (leb_ℤ w.filled zero_d)
      (λ _. (
        omega arith,
        mul_nonneg (mul quantity ref) (div cfg.thin_book_penalty_bps bps)
            (mul_nonneg quantity ref q positive) (bps_nonneg cfg.thin_book_penalty_bps penalty),
      ))
      (λ some_filled.
        filled_impact-IsCost cfg quantity ref levels w penalty positive (ground arith))

pub estimate_slippage_nonneg :
    (cfg : ProfitSettings) (fee : Option TradingFee) (o : TradeOpportunity)
    (given : Option OrderBook)
    → IsCharged cfg fee
    → IsPriced o
    → zero_d ≤ℤ (estimate_slippage cfg o (resolve_exit_price o) given).total_slippage
unfolding estimate_slippage base_slippage_of
estimate_slippage_nonneg cfg fee o given c v =
    let exit_price = resolve_exit_price o in
    let base =
      mul_nonneg (mul o.quantity o.entry_price +ℤ mul o.quantity exit_price)
        (div cfg.slippage_bps bps)
        (sum_nonneg _ _ (mul_nonneg _ _ v.quantity_nonneg v.entry_nonneg)
          (mul_nonneg _ _ v.quantity_nonneg v.exit_nonneg))
        (bps_nonneg cfg.slippage_bps c.slippage_nonneg) in
    let scaled = λ (a b : Decimal) (h : zero_d ≤ℤ a) (k : zero_d ≤ℤ b).
      mul_nonneg (a +ℤ b) cfg.market_impact_factor (sum_nonneg a b h k) c.impact_nonneg in
    option_rule (λ (s : SlippageEstimate). zero_d ≤ℤ s.total_slippage) (book_for o given)
      (λ _. base)
      λ book _.
        let entry =
          walk_book_impact-IsCost cfg o.quantity o.entry_price (entry_levels o.side book)
            c.penalty_nonneg v.quantity_nonneg v.entry_nonneg in
        let exit =
          walk_book_impact-IsCost cfg o.quantity exit_price (exit_levels o.side book)
            c.penalty_nonneg v.quantity_nonneg v.exit_nonneg in
        sum_nonneg _ _ (sum_nonneg _ _ base (scaled _ _ entry.0 exit.0)) (scaled _ _ entry.1 exit.1)
