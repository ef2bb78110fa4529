-- ===== src/Prelude/Dict.antt =====
-- A Python dict in insertion order, over any type of keys with an equality.
use Prim.Native.Nat.{ℕ, ◌+◌}
use mathlib.Core.Path.{◌≡◌, refl, sym, subst}
use mathlib.Core.Logic.{◌≢◌}
use mathlib.Core.Option.{Option, none, some}
use mathlib.Core.List.{List, [], ◌∷◌}
use native.Mathlib.Omega.{arith}
use moreney.Prelude.Tests.{if◌then◌else◌, if_rule, Eq}
use moreney.Prelude.Lists.{get_or}

abbrev pub Dict {ℓ κ} : Type ℓ → Type κ → Type (ℓ ⊔ κ)
Dict K V = List (K × V)

module _ {ℓ κ} {K : Type ℓ} {V : Type κ} ⦃e : Eq K⦄ where
  -- `d.get(k)`
  abbrev pub lookup : K → Dict K V → Option V
  lookup k [] = none
  lookup k ((j, v) ∷ d) = if e.beq j k then some v else lookup k d

  -- `d[k] = v`
  abbrev pub insert : K → V → Dict K V → Dict K V
  insert k v [] = (k, v) ∷ []
  insert k v ((j, w) ∷ d) = if e.beq j k then (j, v) ∷ d else (j, w) ∷ insert k v d

  -- `d.pop(k, None)`
  abbrev pub erase : K → Dict K V → Dict K V
  erase k [] = []
  erase k ((j, w) ∷ d) = if e.beq j k then d else (j, w) ∷ erase k d

  -- `d.setdefault(k, v)`, without the value it returns
  abbrev pub set_default : K → V → Dict K V → Dict K V
  set_default k v d = elim (lookup k d) [ none ↦ insert k v d | some _ ↦ d ]

  -- The value under a key, or a new one, is changed in place.
  abbrev pub modify : K → V → (V → V) → Dict K V → Dict K V
  modify k v f [] = (k, f v) ∷ []
  modify k v f ((j, w) ∷ d) = if e.beq j k then (j, f w) ∷ d else (j, w) ∷ modify k v f d

  pub lookup-insert :
      (k j : K) (v : V) (d : Dict K V)
      → lookup j (insert k v d) ≡ (if e.beq k j then some v else lookup j d)
  lookup-insert k j v [] = refl
  lookup-insert k j v ((i, w) ∷ d) =
      ground (arith, e.beq_iff k j, e.beq_iff i k, e.beq_iff i j, lookup-insert k j v d)

  pub lookup-insert_self : (k : K) (v : V) (d : Dict K V) → lookup k (insert k v d) ≡ some v
  lookup-insert_self k v d = ground (arith, e.beq_iff k k, lookup-insert k k v d)

  pub lookup-insert_ne :
      (k j : K) (v : V) (d : Dict K V) → k ≢ j → lookup j (insert k v d) ≡ lookup j d
  lookup-insert_ne k j v d h = ground (arith, e.beq_iff k j, lookup-insert k j v d)

  pub lookup-erase_ne : (k j : K) (d : Dict K V) → k ≢ j → lookup j (erase k d) ≡ lookup j d
  lookup-erase_ne k j [] h = refl
  lookup-erase_ne k j ((i, w) ∷ d) h =
      ground (arith, e.beq_iff i k, e.beq_iff i j, lookup-erase_ne k j d h)

  -- `setdefault` finds the value that was there, or the default.
  pub lookup-set_default :
      (k j : K) (v : V) (d : Dict K V)
      → lookup j (set_default k v d)
        ≡ (if e.beq k j then some (get_or (lookup k d) v) else lookup j d)
  lookup-set_default k j v d = ground (arith, e.beq_iff k j, lookup-insert k j v d)

  -- Every entry of the dict has the property.
  unfoldable pub Entries {μ} : (K → V → Type μ) → Dict K V → Type μ
  Entries P [] = Unit
  Entries P ((k, v) ∷ d) = P k v × Entries P d

  pub Entries-insert {μ} :
      (P : K → V → Type μ) (k : K) (v : V) (d : Dict K V)
      → P k v
      → Entries P d
      → Entries P (insert k v d)
  unfolding Entries
  Entries-insert P k v [] p _ = (p, tt)
  Entries-insert P k v ((j, w) ∷ d) p (q, qs) =
      if_rule (Entries P) (e.beq j k)
        (λ same. (subst (λ i. P i v) (sym ((e.beq_iff j k).0 same)) p, qs))
        (λ _. (q, Entries-insert P k v d p qs))

  -- The value under a key, or else the default, has the property.
  pub Entries-get_or {μ} :
      (P : K → V → Type μ) (k : K) (v : V) (d : Dict K V)
      → P k v
      → Entries P d
      → P k (get_or (lookup k d) v)
  unfolding Entries
  Entries-get_or P k v [] p _ = p
  Entries-get_or P k v ((j, w) ∷ d) p (q, qs) =
      if_rule (λ o. P k (get_or o v)) (e.beq j k)
        (λ same. subst (λ i. P i w) ((e.beq_iff j k).0 same) q) (λ _. Entries-get_or P k v d p qs)

-- The sum of the values.
abbrev pub sum_values {ℓ} : {K : Type ℓ} → Dict K ℕ → ℕ
sum_values [] = 0
sum_values ((_, n) ∷ d) = n + sum_values d

-- `d[k] = d.get(k, 0) + 1` adds one to the sum.
pub sum_values-insert {ℓ} :
    {K : Type ℓ} ⦃e : Eq K⦄ (k : K) (d : Dict K ℕ)
    → sum_values (insert k (get_or (lookup k d) 0 + 1) d) ≡ sum_values d + 1
sum_values-insert k [] = refl
sum_values-insert ⦃e⦄ k ((j, n) ∷ d) = ground (arith, sum_values-insert k d)

-- The sum of a count over the values.
abbrev pub sum_by {ℓ κ} : {K : Type ℓ} {V : Type κ} → (V → ℕ) → Dict K V → ℕ
sum_by f [] = 0
sum_by f ((_, v) ∷ d) = f v + sum_by f d

-- A change that adds `n` to the count of any value, and starts at none, adds `n` to the sum.
pub sum_by-modify {ℓ κ} :
    {K : Type ℓ} {V : Type κ} ⦃e : Eq K⦄ (f : V → ℕ) (k : K) (v : V) (g : V → V) (n : ℕ)
    (d : Dict K V)
    → f v ≡ 0
    → ((w : V) → f (g w) ≡ f w + n)
    → sum_by f (modify k v g d) ≡ sum_by f d + n
sum_by-modify f k v g n [] z h = omega (arith, h v)
sum_by-modify ⦃e⦄ f k v g n ((j, w) ∷ d) z h =
    if_rule (λ d'. sum_by f d' ≡ f w + sum_by f d + n) (e.beq j k) (λ _. omega (arith, h w))
      (λ _. omega (arith, sum_by-modify f k v g n d z h))

-- `{k: f(k, v) for k, v in d.items()}`
abbrev pub map_values {ℓ κ μ} :
    {K : Type ℓ} {V : Type κ} {W : Type μ} → (K → V → W) → Dict K V → Dict K W
map_values f [] = []
map_values f ((k, v) ∷ d) = (k, f k v) ∷ map_values f d
