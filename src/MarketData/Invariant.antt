-- ===== src/MarketData/Invariant.antt =====
-- The amounts and the depth of the sides of a local book.
use moreney.Prelude.{
  ℕ, suc, ◌≤◌, ◌≡◌, refl, Bool, List, [], ◌∷◌, arith, All, All-take, length, length-take, ltb,
  if_rule,
}
use moreney.Prelude.Int.{◌<ℤ◌, leb_ℤ, int_eq}
use moreney.Prelude.Dict.{insert, erase}
use moreney.Decimal.{Decimal, zero_d, is_pos}
use moreney.Core.Models.{OrderBookLevel}
use moreney.MarketData.LocalBook.{
  Side, side_from, apply_levels, insert_sorted, sort_side, trim_side,
}

-- Every amount of a side is above zero.
abbrev pub IsPositive : Side → Type 0
IsPositive d = All (λ e. zero_d <ℤ e.1) d

insert-IsPositive :
    (p amount : Decimal) (d : Side)
    → zero_d <ℤ amount
    → IsPositive d
    → IsPositive (insert p amount d)
insert-IsPositive p amount [] h v = (h, tt)
insert-IsPositive p amount (e ∷ d) h (v, vs) = ground (arith, insert-IsPositive p amount d h vs)

erase-IsPositive : (p : Decimal) (d : Side) → IsPositive d → IsPositive (erase p d)
erase-IsPositive p [] v = tt
erase-IsPositive p (e ∷ d) (v, vs) = ground (arith, erase-IsPositive p d vs)

pub side_from-IsPositive :
    (levels : List OrderBookLevel) (d : Side) → IsPositive d → IsPositive (side_from d levels)
unfolding side_from
side_from-IsPositive [] d v = v
side_from-IsPositive (level ∷ levels) d v = side_from-IsPositive levels _ (
    if_rule IsPositive (is_pos level.amount)
      (λ h. insert-IsPositive level.price level.amount d (ground arith) v) (λ _. v))

pub apply_levels-IsPositive :
    (levels : List OrderBookLevel) (d : Side) → IsPositive d → IsPositive (apply_levels d levels)
unfolding apply_levels
apply_levels-IsPositive [] d v = v
apply_levels-IsPositive (level ∷ levels) d v = apply_levels-IsPositive levels _ (
    if_rule IsPositive (leb_ℤ level.amount zero_d) (λ _. erase-IsPositive level.price d v)
      (λ h. insert-IsPositive level.price level.amount d (ground arith) v))

module _ (before : Decimal → Decimal → Bool) where
  insert_sorted-IsPositive :
      (e : Decimal × Decimal) (d : Side)
      → zero_d <ℤ e.1
      → IsPositive d
      → IsPositive (insert_sorted before e d)
  unfolding insert_sorted
  insert_sorted-IsPositive e [] h v = (h, tt)
  insert_sorted-IsPositive e (f ∷ d) h (v, vs) =
      if_rule IsPositive (before e.0 f.0) (λ _. (h, (v, vs)))
        (λ _. (v, insert_sorted-IsPositive e d h vs))

  pub sort_side-IsPositive : (d : Side) → IsPositive d → IsPositive (sort_side before d)
  unfolding sort_side
  sort_side-IsPositive [] v = tt
  sort_side-IsPositive (e ∷ d) (v, vs) =
      insert_sorted-IsPositive e (sort_side before d) v (sort_side-IsPositive d vs)

  insert_sorted-length :
      (e : Decimal × Decimal) (d : Side) → length (insert_sorted before e d) ≡ suc (length d)
  unfolding insert_sorted
  insert_sorted-length e [] = refl
  insert_sorted-length e (f ∷ d) =
      if_rule (λ (s : Side). length s ≡ suc (suc (length d))) (before e.0 f.0) (λ _. refl)
        (λ _. omega (arith, insert_sorted-length e d))

  pub sort_side-length : (d : Side) → length (sort_side before d) ≡ length d
  unfolding sort_side
  sort_side-length [] = refl
  sort_side-length (e ∷ d) =
      omega (arith, insert_sorted-length e (sort_side before d), sort_side-length d)

  -- A side that is trimmed keeps positive amounts and has at most the given depth.
  pub trim_side_lem :
      (depth : ℕ) (d : Side)
      → IsPositive d
      → IsPositive (trim_side before depth d) × (length (trim_side before depth d) ≤ depth)
  unfolding trim_side
  trim_side_lem depth d v =
      if_rule (λ (s : Side). IsPositive s × (length s ≤ depth)) (ltb depth (length d))
        (λ _. (
          All-take (λ e. zero_d <ℤ e.1) depth (sort_side before d) (sort_side-IsPositive d v),
          length-take depth (sort_side before d),
        ))
        (λ small. (v, ground arith))
