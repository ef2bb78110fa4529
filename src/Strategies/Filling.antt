-- ===== src/Strategies/Filling.antt =====
-- The depth of one side of a book, and what a walk through it can fill.
use moreney.Prelude.{◌≡◌, ◌∙◌, refl, ap, true, List, [], ◌∷◌, All, if_rule, arith}
use moreney.Prelude.Int.{
  ◌+ℤ◌, ◌≤ℤ◌, ◌<ℤ◌, leb_ℤ, min_ℤ, pos_part, neg_part, int_laws, +ℤ_parts, eq_of_parts,
}
use moreney.Decimal.{Decimal, zero_d}
use moreney.Core.Models.{OrderBookLevel}
use moreney.Execution.Executor.{Walk, take_level, start_walk}
use moreney.Strategies.Depth.{DepthFill, side_depth, fill_levels, fill_depth}

-- No level has an amount below zero.
unfoldable pub NonnegLevels : List OrderBookLevel → Type 0
NonnegLevels = All (λ level. zero_d ≤ℤ level.amount)

-- The walk from `w` took all that was still missing.
record Completes (w w' : Walk) : Type 0 where
  nothing_left : w'.remaining ≤ℤ zero_d
  all_filled : w'.filled +ℤ w'.remaining ≡ w.filled +ℤ w.remaining
  not_below : zero_d ≤ℤ w'.remaining

-- One level that is not empty leaves no more than the levels after it hold.
take_level_lem :
    (level : OrderBookLevel) (w : Walk) (rest : Decimal)
    → zero_d ≤ℤ w.remaining
    → zero_d ≤ℤ level.amount
    → w.remaining ≤ℤ level.amount +ℤ rest
    → zero_d ≤ℤ rest
    → (zero_d ≤ℤ (take_level level w).remaining)
      × ((take_level level w).remaining ≤ℤ rest)
      × ((take_level level w).filled +ℤ (take_level level w).remaining ≡ w.filled +ℤ w.remaining)
unfolding take_level min_ℤ
take_level_lem level w rest h p k r = (grind int_laws, grind int_laws, omega int_laws)

past_empty :
    (a amount rest : Decimal) → a ≤ℤ amount +ℤ rest → leb_ℤ amount zero_d ≡ true → a ≤ℤ rest
past_empty a amount rest h e = ground (arith, +ℤ_parts amount rest)

side_depth_nonneg :
    (levels : List OrderBookLevel) → NonnegLevels levels → zero_d ≤ℤ side_depth levels
unfolding side_depth NonnegLevels
side_depth_nonneg [] _ = omega arith
side_depth_nonneg (level ∷ levels) (p, ps) = omega (int_laws, side_depth_nonneg levels ps)

fill_levels-Completes :
    (w : Walk) (levels : List OrderBookLevel)
    → zero_d ≤ℤ w.remaining
    → NonnegLevels levels
    → w.remaining ≤ℤ side_depth levels
    → Completes w (fill_levels w levels)
unfolding fill_levels side_depth NonnegLevels
fill_levels-Completes w [] h a k = record { nothing_left = k; all_filled = refl; not_below = h }
fill_levels-Completes w (level ∷ levels) h (p, ps) k =
    if_rule (Completes w) (leb_ℤ w.remaining zero_d)
      (λ e. record { nothing_left = ground arith; all_filled = refl; not_below = h })
      λ e.
        if_rule (Completes w) (leb_ℤ level.amount zero_d)
          (λ d.
            fill_levels-Completes w levels h ps
              (past_empty w.remaining level.amount (side_depth levels) k d))
          λ d.
            let (low, high, kept) =
              take_level_lem level w (side_depth levels) h p k (side_depth_nonneg levels ps) in
            let later = fill_levels-Completes (take_level level w) levels low ps high in
            record {
              nothing_left = later.nothing_left;
              all_filled = later.all_filled ∙ kept;
              not_below = later.not_below;
            }

-- When no level's amount is negative, a walk for a positive quantity that is no larger than the
-- depth of the side fills exactly the quantity and counts as sufficient.
pub fill_depth-sufficient :
    (levels : List OrderBookLevel) (quantity : Decimal)
    → NonnegLevels levels
    → zero_d <ℤ quantity
    → quantity ≤ℤ side_depth levels
    → ((fill_depth levels quantity).sufficient ≡ true)
      × ((fill_depth levels quantity).filled_quantity ≡ quantity)
unfolding fill_depth
fill_depth-sufficient levels quantity a h k =
    let full = fill_levels-Completes (start_walk quantity) levels (omega (arith, h)) a k in
    let P = λ (r : DepthFill). (r.sufficient ≡ true) × (r.filled_quantity ≡ quantity) in
    let kept = full.all_filled in
    let all : (fill_levels (start_walk quantity) levels).filled ≡ quantity =
      eq_of_parts _ _
        (omega (int_laws, full.nothing_left, full.not_below, ap pos_part kept, ap neg_part kept)) in
    if_rule P (leb_ℤ quantity zero_d) (λ e. ground arith)
      λ _.
        if_rule P (leb_ℤ (fill_levels (start_walk quantity) levels).filled zero_d)
          (λ e. ground (arith, ap pos_part all, ap neg_part all))
          (λ _. (ground (arith, full.nothing_left), all))
