-- ===== src/Decimal.antt =====
-- Python's `decimal.Decimal`, as whole numbers of `unit`-ths. Sums, differences and comparisons are
-- exact; a product or a quotient is rounded half to even at the last place.
use moreney.Prelude.{
  ℕ, suc, ◌+◌, ◌*◌, ◌/◌, ◌%◌, ◌^◌, ◌≤◌, ◌<◌, ◌≡◌, Bool, not, ◌&&◌, arith, ltb, ◌==◌, if◌then◌else◌,
}
pub mod Rounding
use moreney.Prelude.Int.{ℤ, pos, negsuc, neg, ◌≤ℤ◌, ◌<ℤ◌, ltb_ℤ, leb_ℤ}

abbrev pub Decimal : Type 0
Decimal = ℤ

-- One, in units of the last place: 28 digits behind the point.
abbrev pub unit : ℕ
unit = 10 ^ 28

abbrev pub of_ℕ : ℕ → Decimal
of_ℕ n = pos (n * unit)

abbrev pub zero_d : Decimal
zero_d = pos 0

abbrev pub one_d : Decimal
one_d = of_ℕ 1

abbrev pub hundred : Decimal
hundred = of_ℕ 100

-- n / d to the nearest integer, ties to even (the context's ROUND_HALF_EVEN).
pub half_even : ℕ → ℕ → ℕ
half_even n d =
    let q = n / d in
    let r = n % d in
    if ltb (2 * r) d then q else if ltb d (2 * r) then q + 1 else if q % 2 == 0 then q else q + 1

pub magnitude : ℤ → ℕ
magnitude (pos n) = n
magnitude (negsuc n) = suc n

-- A result of the given size, negative if the operands' signs differ.
pub signed : ℤ → ℤ → ℕ → ℤ
signed (pos _) (pos _) n = pos n
signed (negsuc _) (negsuc _) n = pos n
signed _ _ n = neg (pos n)

-- `a * b`
unfoldable pub mul : Decimal → Decimal → Decimal
unfolding half_even magnitude signed neg
mul a b = signed a b (half_even (magnitude a * magnitude b) unit)

-- `a / b`: the program divides only by what it has tested to be above zero.
unfoldable pub div : Decimal → Decimal → Decimal
unfolding half_even magnitude signed neg
div a b = signed a b (half_even (magnitude a * unit) (magnitude b))

-- The tests `> 0`, `<= 0` and the truth of a Decimal.
abbrev pub is_pos : Decimal → Bool
is_pos a = ltb_ℤ (pos 0) a

abbrev pub is_zero : Decimal → Bool
is_zero a = not (ltb_ℤ a (pos 0)) && not (ltb_ℤ (pos 0) a)
