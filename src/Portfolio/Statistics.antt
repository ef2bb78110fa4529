-- ===== src/Portfolio/Statistics.antt =====
-- The counters, the positions and the drawdown of the portfolio.
use moreney.Prelude.{ℕ, ◌+◌, ◌≤◌, ◌≡◌, refl, arith, if◌then◌else◌, inl, inr, Bool-cases}
use moreney.Prelude.Int.{◌+ℤ◌, ◌-ℤ◌, ◌≤ℤ◌, ◌<ℤ◌, ltb_ℤ, neg, max_ℤ, int_laws, +ℤ_parts, -ℤ_parts}
use moreney.Decimal.{Decimal, zero_d, one_d, div}
use moreney.Decimal.Rounding.{div_le_one}
use moreney.Core.Text.{Str}
use moreney.Portfolio.Settlement.{signed_quantity}
use moreney.Portfolio.Models.{
  Fill, gross_value, PositionState, PortfolioStats, PortfolioState, total_equity,
}
use moreney.Portfolio.Accounting.{
  apply_fill, post_fill, book_stats, buy_position, sell_position, move_position, is_processed,
  position_of, realized_by, infer_base,
}
use moreney.Portfolio.Paper.{
  PaperPortfolio, drawdown_stats, update_drawdown, update_unrealized, refresh, apply_order_fill,
}

-- Every trade was won, lost or neither, and the drawdowns are in order.
pub record IsConsistent (s : PortfolioStats) : Type 0 where
  pub counted : s.winning_trades + s.losing_trades ≤ s.number_of_trades
  pub current_nonneg : zero_d ≤ℤ s.current_drawdown
  pub within_maximum : s.current_drawdown ≤ℤ s.maximum_drawdown

-- The drawdown that `_update_drawdown` computes at a peak.
drawdown_at : Decimal → Decimal → Decimal
drawdown_at equity peak = max_ℤ (div (peak -ℤ equity) peak) zero_d

drawdown_at_le_one :
    (equity peak : Decimal)
    → zero_d ≤ℤ equity
    → equity ≤ℤ peak
    → zero_d <ℤ peak
    → drawdown_at equity peak ≤ℤ one_d
unfolding drawdown_at max_ℤ
drawdown_at_le_one equity peak h k p = ground (
  arith,
  -ℤ_parts peak equity,
  div_le_one (peak -ℤ equity) peak (omega int_laws) p (omega int_laws),
)

-- At any equity `_update_drawdown` leaves consistent statistics, raises the peak to the equity if it
-- is higher, and does not lower the maximum.
pub drawdown_stats_lem :
    (equity : Decimal) (s : PortfolioStats)
    → IsConsistent s
    → let s' = drawdown_stats equity s in
      IsConsistent s'
      × (s'.peak_equity ≡ max_ℤ s.peak_equity equity)
      × (s.maximum_drawdown ≤ℤ s'.maximum_drawdown)
unfolding drawdown_stats max_ℤ
drawdown_stats_lem equity s v = (
  record { counted = ground arith; current_nonneg = ground arith; within_maximum = ground arith },
  ground arith,
  ground arith,
)

-- At an equity that is not negative the current drawdown lies between zero and one.
pub drawdown_stats-le_one :
    (equity : Decimal) (s : PortfolioStats)
    → zero_d ≤ℤ equity
    → let s' = drawdown_stats equity s in
      (zero_d ≤ℤ s'.current_drawdown) × (s'.current_drawdown ≤ℤ one_d)
unfolding drawdown_stats drawdown_at max_ℤ
drawdown_stats-le_one equity s h =
    let peak = if ltb_ℤ s.peak_equity equity then equity else s.peak_equity in
    (ground arith, ground (arith, drawdown_at_le_one equity peak h))

book_stats-IsConsistent :
    (realized fee gross : Decimal) (s : PortfolioStats)
    → IsConsistent s
    → IsConsistent (book_stats realized fee gross s)
unfolding book_stats
book_stats-IsConsistent realized fee gross s v = record {
  counted = ground arith;
  current_nonneg = v.current_nonneg;
  within_maximum = v.within_maximum;
}

refresh-IsConsistent : (s : PortfolioState) → IsConsistent s.stats → IsConsistent (refresh s).stats
unfolding update_drawdown update_unrealized
refresh-IsConsistent s v =
    (drawdown_stats_lem (total_equity (update_unrealized s)) (update_unrealized s).stats (record {
      counted = v.counted;
      current_nonneg = v.current_nonneg;
      within_maximum = v.within_maximum;
    })).0

refresh_trades :
    (s : PortfolioState) → (refresh s).stats.number_of_trades ≡ s.stats.number_of_trades
unfolding update_drawdown update_unrealized drawdown_stats
refresh_trades s = ground arith

post_fill_stats :
    (s : PortfolioState) (base : Str) (fill : Fill)
    → IsConsistent s.stats
    → IsConsistent (refresh (post_fill s base fill)).stats
      × ((refresh (post_fill s base fill)).stats.number_of_trades ≡ s.stats.number_of_trades + 1)
unfolding post_fill book_stats
post_fill_stats s base fill v =
    let before = position_of s fill.symbol in
    (
      refresh-IsConsistent (post_fill s base fill)
          (book_stats-IsConsistent (realized_by fill before) fill.fee (gross_value fill) s.stats v),
      refresh_trades (post_fill s base fill),
    )

-- A fill keeps the statistics consistent and is counted exactly if it is new.
pub apply_order_fill-IsConsistent :
    (order_id : ℕ) (fill : Fill) (p : PaperPortfolio)
    → IsConsistent p.state.stats
    → let (p', r) = apply_order_fill order_id fill p in
      IsConsistent p'.state.stats
      × (p'.state.stats.number_of_trades ≡ (
          if is_processed fill.id p.processed
          then p.state.stats.number_of_trades
          else p.state.stats.number_of_trades + 1))
unfolding apply_order_fill apply_fill
apply_order_fill-IsConsistent order_id fill p v =
    elim (Bool-cases (is_processed fill.id p.processed)) [
      | inl seen ↦ rw seen (v, refl)
      | inr fresh ↦
          let (consistent, counted) =
            post_fill_stats p.state (infer_base fill.symbol p.state.quote_asset) fill v in
          rw fresh (consistent, counted)
    ]

minus_neg : (a b : Decimal) → a +ℤ neg b ≡ a -ℤ b
minus_neg a b = omega int_laws

-- No position is short.
abbrev pub IsLong : PositionState → Type 0
IsLong q = zero_d ≤ℤ q.quantity

-- A fill of a quantity that is not negative changes the position by the quantity bought or sold, but
-- never below zero: a position that is not short stays so.
pub move_position-IsLong :
    (fill : Fill) (q : PositionState)
    → IsLong q
    → zero_d ≤ℤ fill.quantity
    → IsLong (move_position fill q)
      × ((move_position fill q).quantity ≡ max_ℤ (q.quantity +ℤ signed_quantity fill) zero_d)
unfolding move_position buy_position sell_position max_ℤ
move_position-IsLong fill q v h = ground (
  arith,
  +ℤ_parts q.quantity fill.quantity,
  -ℤ_parts q.quantity fill.quantity,
  minus_neg q.quantity fill.quantity,
)
