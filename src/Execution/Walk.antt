-- ===== src/Execution/Walk.antt =====
-- The walk through the order book: quantities, limits and the price it comes to.
use moreney.Prelude.{
  ℕ, suc, if_rule, ◌+◌, ◌≤◌, ◌≡◌, refl, ap, ◌∙◌, Option, List, [], ◌∷◌, arith, length,
}
use moreney.Prelude.Int.{◌+ℤ◌, ◌≤ℤ◌, leb_ℤ, min_ℤ, pos_part, neg_part, int_laws, eq_of_parts}
use moreney.Decimal.{Decimal, zero_d}
use moreney.Core.Enums.{OrderSide}
use moreney.Core.Models.{OrderBookLevel}
use moreney.Execution.Executor.{Walk, crosses, take_level, walk_levels, start_walk}

-- What a walk from `w` to `w'` over so many levels keeps.
pub record Advances (w w' : Walk) (levels : ℕ) : Type 0 where
  pub kept : w'.filled +ℤ w'.remaining ≡ w.filled +ℤ w.remaining
  pub remaining_nonneg : zero_d ≤ℤ w'.remaining
  pub filled_grows : w.filled ≤ℤ w'.filled
  pub consumed_grows : w.consumed ≤ w'.consumed
  pub consumed_within : w'.consumed ≤ w.consumed + levels

Advances-refl : (w : Walk) (n : ℕ) → zero_d ≤ℤ w.remaining → Advances w w n
Advances-refl w n h = record {
  kept = refl;
  remaining_nonneg = h;
  filled_grows = omega arith;
  consumed_grows = omega arith;
  consumed_within = omega arith;
}

-- One level that is not empty.
take_level-Advances :
    (level : OrderBookLevel) (w : Walk)
    → zero_d ≤ℤ w.remaining
    → zero_d ≤ℤ level.amount
    → Advances w (take_level level w) 1
unfolding take_level min_ℤ
take_level-Advances level w h k = record {
  kept = omega int_laws;
  remaining_nonneg = grind int_laws;
  filled_grows = grind int_laws;
  consumed_grows = omega arith;
  consumed_within = omega arith;
}

Advances-later : {u v w : Walk} {n : ℕ} → Advances u v 1 → Advances v w n → Advances u w (suc n)
Advances-later a b = record {
  kept = b.kept ∙ a.kept;
  remaining_nonneg = b.remaining_nonneg;
  filled_grows = omega (arith, a.filled_grows, b.filled_grows);
  consumed_grows = omega (arith, a, b);
  consumed_within = omega (arith, a, b);
}

Advances-skip : {u w : Walk} {n : ℕ} → Advances u w n → Advances u w (suc n)
Advances-skip a = record {
  kept = a.kept;
  remaining_nonneg = a.remaining_nonneg;
  filled_grows = a.filled_grows;
  consumed_grows = a.consumed_grows;
  consumed_within = omega (arith, a);
}

walk_levels-Advances :
    (side : OrderSide) (limit : Option Decimal) (w : Walk) (levels : List OrderBookLevel)
    → zero_d ≤ℤ w.remaining
    → Advances w (walk_levels side limit w levels) (length levels)
unfolding walk_levels
walk_levels-Advances side limit w [] h = Advances-refl w 0 h
walk_levels-Advances side limit w (level ∷ levels) h =
    let P = λ (w' : Walk). Advances w w' (suc (length levels)) in
    let stop = Advances-refl w (suc (length levels)) h in
    if_rule P (leb_ℤ w.remaining zero_d) (λ _. stop)
      λ _.
        if_rule P (leb_ℤ level.amount zero_d)
          (λ _. Advances-skip (walk_levels-Advances side limit w levels h))
          λ some_amount.
            if_rule P (crosses side limit level.price) (λ _. stop)
              λ _.
                let one = take_level-Advances level w h (ground arith) in
                Advances-later one
                  (walk_levels-Advances side limit (take_level level w) levels one.remaining_nonneg)

-- A walk for a quantity fills some part of it and leaves the rest, from at most the levels given.
pub walk_levels_parts :
    (side : OrderSide) (limit : Option Decimal) (quantity : Decimal) (levels : List OrderBookLevel)
    → zero_d ≤ℤ quantity
    → let w = walk_levels side limit (start_walk quantity) levels in
      (w.filled +ℤ w.remaining ≡ quantity)
      × (zero_d ≤ℤ w.filled)
      × (w.filled ≤ℤ quantity)
      × (w.consumed ≤ length levels)
walk_levels_parts side limit quantity levels h =
    let a = walk_levels-Advances side limit (start_walk quantity) levels h in
    let kept : (walk_levels side limit (start_walk quantity) levels).filled
          +ℤ (walk_levels side limit (start_walk quantity) levels).remaining
        ≡ quantity =
      a.kept ∙ eq_of_parts (zero_d +ℤ quantity) quantity (omega int_laws) in
    (
      kept,
      a.filled_grows,
      omega (int_laws, a, ap pos_part kept, ap neg_part kept),
      omega (arith, a),
    )
