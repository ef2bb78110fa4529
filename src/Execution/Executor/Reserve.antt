-- ===== src/Execution/Executor/Reserve.antt =====
-- What an order reserves, and how the reservation is fitted to its fill.
use moreney.Prelude.{Bool, true, none, some, if◌then◌else◌, get_or}
use moreney.Prelude.Int.{◌+ℤ◌, ◌-ℤ◌, neg, ltb_ℤ, leb_ℤ}
use moreney.Prelude.Dict.{lookup}
use moreney.Decimal.{Decimal, zero_d, one_d, mul, is_pos}
use moreney.Core.Enums.{OrderSide}
use moreney.Core.Text.{Str, str_instance}
use moreney.Portfolio.Models.{Order}
use moreney.Portfolio.Paper.{
  PaperPortfolio, available, reserve, release_reservation, base_asset_for,
}
use moreney.Execution.Executor.State.{ExecutorSettings}

-- The answer of `_reservation_needed`.
pub record Needed : Type 0 where
  pub enough : Bool
  pub asset : Str
  pub amount : Decimal

-- The price that a buy is reserved at; 0 if none is known.
unfoldable pub reservation_price : Order → PaperPortfolio → Decimal
reservation_price o p =
    let mark = get_or (lookup o.symbol p.state.mark_prices) zero_d in
    elim o.requested_price [ none ↦ mark | some price ↦ if leb_ℤ price zero_d then mark else price ]

unfoldable pub reservation_needed : ExecutorSettings → Order → PaperPortfolio → Needed
reservation_needed cfg o p = elim o.side [
  | OrderSide.buy ↦
      let price = reservation_price o p in
      let amount = mul (mul o.requested_quantity price) (one_d +ℤ cfg.fee_rate) in
      if leb_ℤ price zero_d
      then record { enough = true; asset = cfg.quote; amount = zero_d }
      else record {
        enough = leb_ℤ amount (available cfg.quote p);
        asset = cfg.quote;
        amount = amount;
      }
  | OrderSide.sell ↦
      let base = base_asset_for o.symbol p in
      record {
        enough = leb_ℤ o.requested_quantity (available base p);
        asset = base;
        amount = o.requested_quantity;
      }
]

-- Reserves only what is available.
abbrev pub reserve_available : Str → Decimal → PaperPortfolio → PaperPortfolio
reserve_available asset amount p =
    if leb_ℤ amount (available asset p) then (reserve asset amount p).0 else p

-- `_adjust_reservation_after_fill`, by the cost of the fill with its fee
unfoldable pub adjust_reservation :
    ExecutorSettings → Order → Str → Decimal → Decimal → Decimal → PaperPortfolio → PaperPortfolio
adjust_reservation cfg o asset held filled used p =
    if leb_ℤ held zero_d
    then elim o.side [
      | OrderSide.buy ↦ reserve_available cfg.quote used p
      | OrderSide.sell ↦ reserve_available (base_asset_for o.symbol p) filled p
    ]
    else elim o.side [
      | OrderSide.buy ↦
          let unused = held -ℤ used in
          if is_pos unused
          then release_reservation asset unused p
          else if ltb_ℤ unused zero_d
          then (reserve asset (neg unused) p).0
          else p
      | OrderSide.sell ↦
          let unused = held -ℤ filled in
          if is_pos unused then release_reservation asset unused p else p
    ]
