-- ===== src/Risk/Window.antt =====
-- The sliding window of approved trades, and the exposure that an approval leaves.
use moreney.Prelude.{
  ℕ, ◌+◌, ◌≤◌, ◌<◌, ◌≡◌, refl, true, List, [], ◌∷◌, ◌++◌, arith, All, length, length-append,
  if◌then◌else◌,
}
use moreney.Prelude.Int.{◌+ℤ◌, ◌-ℤ◌, ◌≤ℤ◌, ◌<ℤ◌, ltb_ℤ, max_ℤ, int_laws}
use moreney.Decimal.{Decimal, of_ℕ, zero_d}
use moreney.Core.Models.{TradeOpportunity, PortfolioSnapshot, gross_exposure_usd}
use moreney.Risk.Models.{RiskContext, RiskSettings, ProfitabilityView, is_approved}
use moreney.Risk.Limits.{trade_notional, remaining_capacity, max_total_exposure}
use moreney.Risk.Engine.{RiskEngine, Now, prune, prune_from, rejected, approved, evaluate}
use moreney.Risk.Decisions.{evaluate_approves}

-- The number of the times that are not before the cutoff.
abbrev pub count_since : Decimal → List Decimal → ℕ
count_since cutoff [] = 0
count_since cutoff (t ∷ ts) = (if ltb_ℤ t cutoff then 0 else 1) + count_since cutoff ts

-- Oldest first.
abbrev pub IsSorted : List Decimal → Type 0
IsSorted [] = Unit
IsSorted (t ∷ ts) = All (λ u. t ≤ℤ u) ts × IsSorted ts

count_since-All :
    (cutoff : Decimal) (ts : List Decimal)
    → All (λ u. cutoff ≤ℤ u) ts
    → count_since cutoff ts ≡ length ts
count_since-All cutoff [] h = refl
count_since-All cutoff (t ∷ ts) (h, hs) = ground (arith, count_since-All cutoff ts hs)

All-weaken :
    (a b : Decimal) (ts : List Decimal) → a ≤ℤ b → All (λ u. b ≤ℤ u) ts → All (λ u. a ≤ℤ u) ts
All-weaken a b [] h v = tt
All-weaken a b (t ∷ ts) h (v, vs) = (omega arith, All-weaken a b ts h vs)

prune_from-length :
    (cutoff : Decimal) (ts : List Decimal)
    → IsSorted ts
    → length (prune_from cutoff ts) ≡ count_since cutoff ts
unfolding prune_from
prune_from-length cutoff [] h = refl
prune_from-length cutoff (t ∷ ts) (h, hs) =
    ground
      (arith, prune_from-length cutoff ts hs, count_since-All cutoff ts, All-weaken cutoff t ts)

room :
    (limit used notional : Decimal)
    → notional ≤ℤ max_ℤ (limit -ℤ used) zero_d
    → zero_d <ℤ notional
    → used +ℤ notional ≤ℤ limit
unfolding max_ℤ
room limit used notional h positive = grind int_laws

module _ (cfg : RiskSettings) (now : Now) (o : TradeOpportunity) (r : ProfitabilityView)
    (p : PortfolioSnapshot) (ctx : RiskContext) (e : RiskEngine) where
  approved_stamps :
      is_approved (evaluate cfg now o r p ctx e).1 ≡ true
      → (evaluate cfg now o r p ctx e).0.trade_timestamps
        ≡ prune now e.trade_timestamps ++ (now.monotonic ∷ [])
  unfolding evaluate rejected approved
  approved_stamps = ground arith

  -- If the times of earlier approvals are in order, an approval means that fewer than the limit of
  -- them lie in the last minute, and with its own time the window holds at most the limit.
  pub evaluate_rate :
      IsSorted e.trade_timestamps
      → is_approved (evaluate cfg now o r p ctx e).1 ≡ true
      → (count_since (now.monotonic -ℤ of_ℕ 60) e.trade_timestamps < cfg.max_trades_per_minute)
        × (length (evaluate cfg now o r p ctx e).0.trade_timestamps ≤ cfg.max_trades_per_minute)
  unfolding prune
  evaluate_rate sorted ok =
      let cutoff = now.monotonic -ℤ of_ℕ 60 in
      let slow = ((evaluate_approves cfg now o r p ctx e).0 ok).1.slow in
      let kept = prune_from-length cutoff e.trade_timestamps sorted in
      (
        omega (arith, slow, kept),
        rw (approved_stamps ok) (
            omega (arith, slow, length-append (prune now e.trade_timestamps) (now.monotonic ∷ []))),
      )

  -- An approval of a positive notional keeps the gross exposure with the new trade within the
  -- exposure limit.
  pub evaluate_exposure :
      is_approved (evaluate cfg now o r p ctx e).1 ≡ true
      → zero_d <ℤ trade_notional o
      → gross_exposure_usd p +ℤ trade_notional o ≤ℤ max_total_exposure cfg p.equity_usd
  unfolding remaining_capacity
  evaluate_exposure ok positive =
      room (max_total_exposure cfg p.equity_usd) (gross_exposure_usd p) (trade_notional o)
        ((evaluate_approves cfg now o r p ctx e).0 ok).1.exposed positive
