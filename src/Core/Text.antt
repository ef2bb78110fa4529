-- ===== src/Core/Text.antt =====
-- Asset names and symbols as lists of (ASCII) code points, with the string methods used on them.
use Prim.Native.Char.{code}
use Prim.Native.String.{String}
use moreney.Prelude.{
  ℕ, zero, suc, ◌+◌, ◌-◌, ◌≡◌, ◌↔◌, Bool, true, false, not, ◌&&◌, ◌||◌, List, [], ◌∷◌, map, arith,
  leb, ◌==◌, if◌then◌else◌, Eq, length, take, keep_if,
}

abbrev pub Str : Type 0
Str = List ℕ

-- The code points of a literal.
abbrev pub codes : String → Str
codes String.[] = []
codes (String.◌∷◌ c s) = code c ∷ codes s

unfoldable pub str_eq : Str → Str → Bool
str_eq [] [] = true
str_eq [] (d ∷ t) = false
str_eq (c ∷ s) [] = false
str_eq (c ∷ s) (d ∷ t) = (c == d) && str_eq s t

pub str_eq_iff : (s t : Str) → (str_eq s t ≡ true) ↔ (s ≡ t)
unfolding str_eq
str_eq_iff [] [] = ground arith
str_eq_iff [] (d ∷ t) = ground arith
str_eq_iff (c ∷ s) [] = ground arith
str_eq_iff (c ∷ s) (d ∷ t) = ground (arith, str_eq_iff s t)

instance abbrev pub str_instance : Eq Str
str_instance = record { beq = str_eq; beq_iff = str_eq_iff }

-- `str.upper` on a code point.
upper_code : ℕ → ℕ
upper_code c = if leb b'a' c && leb c b'z' then c - 32 else c

unfoldable pub upper : Str → Str
unfolding upper_code
upper = map upper_code

-- `str.lower` on a code point.
lower_code : ℕ → ℕ
lower_code c = if leb b'A' c && leb c b'Z' then c + 32 else c

unfoldable pub lower : Str → Str
unfolding lower_code
lower = map lower_code

-- `.replace(ch, "")`
unfoldable pub without : ℕ → Str → Str
without ch = keep_if (λ c. not (c == ch))

-- `s.endswith(t)`
unfoldable pub ends_with : Str → Str → Bool
ends_with [] t = str_eq [] t
ends_with (c ∷ s) t = str_eq (c ∷ s) t || ends_with s t

-- `s[:-n]`, which is empty at n = 0
unfoldable pub drop_last : ℕ → Str → Str
drop_last zero s = []
drop_last (suc n) s = take (length s - suc n) s
