-- ===== src/Portfolio/Balances.antt =====
-- What the updates of one balance do to its parts.
use moreney.Prelude.{◌≡◌}
use moreney.Prelude.Int.{◌+ℤ◌, ◌-ℤ◌, ◌≤ℤ◌, ◌<ℤ◌, int_laws, min_ℤ}
use moreney.Decimal.{Decimal, zero_d}
use moreney.Portfolio.Models.{AssetBalance, total}
use moreney.Portfolio.Accounting.{spend_quote, deliver_base}
use moreney.Portfolio.Paper.{hold, give_back}

-- No part of a balance is negative.
pub record IsSolvent (b : AssetBalance) : Type 0 where
  pub available_nonneg : zero_d ≤ℤ b.available
  pub reserved_nonneg : zero_d ≤ℤ b.reserved

-- A buy that the balance covers takes exactly the cost, from the reservation before anything else.
pub spend_quote_covered :
    (cost : Decimal) (b : AssetBalance)
    → IsSolvent b
    → zero_d ≤ℤ cost
    → cost ≤ℤ total b
    → total (spend_quote cost b) ≡ total b -ℤ cost
unfolding spend_quote
spend_quote_covered cost b v h k = grind int_laws

-- A buy that the balance does not cover empties it.
pub spend_quote_short :
    (cost : Decimal) (b : AssetBalance)
    → IsSolvent b
    → total b <ℤ cost
    → total (spend_quote cost b) ≡ zero_d
unfolding spend_quote min_ℤ
spend_quote_short cost b v h = grind int_laws

-- Neither part of the balance goes below zero, whatever the cost.
pub spend_quote-IsSolvent :
    (cost : Decimal) (b : AssetBalance)
    → IsSolvent b
    → zero_d ≤ℤ cost
    → IsSolvent (spend_quote cost b)
unfolding spend_quote min_ℤ
spend_quote-IsSolvent cost b v h = record {
  available_nonneg = grind int_laws;
  reserved_nonneg = grind int_laws;
}

pub total-deliver_base :
    (quantity : Decimal) (b : AssetBalance) → total (deliver_base quantity b) ≡ total b -ℤ quantity
unfolding deliver_base min_ℤ
total-deliver_base quantity b = grind int_laws

-- A sell keeps the balance solvent if, and only if, it holds the quantity.
pub deliver_base-IsSolvent :
    (quantity : Decimal) (b : AssetBalance)
    → IsSolvent b
    → quantity ≤ℤ total b
    → IsSolvent (deliver_base quantity b)
unfolding deliver_base min_ℤ
deliver_base-IsSolvent quantity b v h = record {
  available_nonneg = grind int_laws;
  reserved_nonneg = grind int_laws;
}

pub deliver_base_short :
    (quantity : Decimal) (b : AssetBalance)
    → IsSolvent b
    → total b <ℤ quantity
    → (deliver_base quantity b).available <ℤ zero_d
unfolding deliver_base min_ℤ
deliver_base_short quantity b v h = grind int_laws

pub total-hold : (amount : Decimal) (b : AssetBalance) → total (hold amount b) ≡ total b
total-hold amount b = omega int_laws

pub hold-IsSolvent :
    (amount : Decimal) (b : AssetBalance)
    → IsSolvent b
    → zero_d ≤ℤ amount
    → amount ≤ℤ b.available
    → IsSolvent (hold amount b)
hold-IsSolvent amount b v h k = omega int_laws

pub total-give_back : (amount : Decimal) (b : AssetBalance) → total (give_back amount b) ≡ total b
unfolding min_ℤ
total-give_back amount b = grind int_laws

pub give_back-IsSolvent :
    (amount : Decimal) (b : AssetBalance)
    → IsSolvent b
    → zero_d ≤ℤ amount
    → IsSolvent (give_back amount b)
unfolding min_ℤ
give_back-IsSolvent amount b v h = record {
  available_nonneg = grind int_laws;
  reserved_nonneg = grind int_laws;
}

-- What is given back is at most what was asked for.
pub give_back_bounds :
    (amount : Decimal) (b : AssetBalance)
    → IsSolvent b
    → zero_d ≤ℤ amount
    → (b.available ≤ℤ (give_back amount b).available)
      × ((give_back amount b).available ≤ℤ b.available +ℤ amount)
unfolding min_ℤ
give_back_bounds amount b v h = (grind int_laws, grind int_laws)
