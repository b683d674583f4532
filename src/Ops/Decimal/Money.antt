-- ===== src/Ops/Decimal/Money.antt =====
-- src/alfabetizacao_pipeline/ops/costs.py: `_money` and sums of whole cents.
use tech_challenge_fase2_alf.Prelude.Results.{ok, Result}
use tech_challenge_fase2_alf.Ops.Decimal.{
  Decimal, money, rounded, ok, cents_of, ◌⊕◌, Result, CostError, precision, err,
}
use tech_challenge_fase2_alf.Prelude.{
  ◌≡◌, ℕ, ◌<◌, ◌+◌, ◌*◌, ◌^◌, ◌≤◌, ◌/◌, arith, if-holds, ltb, true, subst, refl, ap,
}
use native.Mathlib.Nat.{one-le-pow, div-mul-le_self, lt-div-mul-add}

-- An amount of whole cents.
abbrev pub cents : ℕ → Decimal
cents n = record { coefficient = n; places = 2 }

abbrev pub IsCents : Decimal → Type 0
IsCents d = d ≡ cents d.coefficient

cents_bounds :
    (n p : ℕ)
    → 0 < p
    → ((2 * n + p) / (2 * p) * (2 * p) ≤ 2 * n + p) × (2 * n < (2 * n + p) / (2 * p) * (2 * p) + p)
cents_bounds n p positive =
    let below = div-mul-le_self (2 * n + p) (2 * p) in
    let above = lt-div-mul-add {a = 2 * n + p} {b = 2 * p} (omega arith) in (below, omega arith)

power_positive : (n : ℕ) → 0 < 10 ^ n
power_positive n = one-le-pow n 10 (omega arith)

-- The amount is whole cents, the nearest to the value, and a tie goes up.
abbrev pub IsNearest : Decimal → Decimal → Type 0
IsNearest d m =
    let unit = 2 * 10 ^ d.places in
    IsCents m
    × (m.coefficient * unit ≤ 2 * (d.coefficient * 100) + 10 ^ d.places)
    × (2 * (d.coefficient * 100) < m.coefficient * unit + 10 ^ d.places)

cents_of-IsNearest : (d : Decimal) → IsNearest d (cents (cents_of d))
unfolding cents_of
cents_of-IsNearest d =
    let (below, above) =
      cents_bounds (d.coefficient * 100) (10 ^ d.places) (power_positive d.places) in
    (refl, below, above)

abbrev from_ok : Decimal → Result CostError Decimal → Decimal
from_ok d (ok m) = m
from_ok d (err e) = d

-- An amount that is rounded to cents is a whole number of cents, the nearest to the value, and
-- a tie goes up.
pub money-IsNearest : (d m : Decimal) → money d ≡ ok m → IsNearest d m
unfolding money
money-IsNearest d m =
    if-holds (λ r. r ≡ ok m → IsNearest d m) (ltb (cents_of d) (10 ^ precision))
      (λ p h. subst (IsNearest d) (ap (from_ok d) h) (cents_of-IsNearest d))
      (λ p h. absurd (ground arith))

pub money-cents : (n : ℕ) → n < 10 ^ 28 → money (cents n) ≡ ok (cents n)
unfolding money cents_of
money-cents n small =
    let same : (2 * (n * 100) + 100) / 200 ≡ n = omega arith in
    let fits : ltb n (10 ^ 28) ≡ true = ground arith in rw (same, fits) refl

pub ⊕-cents : (m n : ℕ) → m + n < 10 ^ 28 → cents m ⊕ cents n ≡ cents (m + n)
unfolding rounded
⊕-cents m n small =
    let same : m * 1 + n * 1 ≡ m + n = omega arith in
    let fits : ltb (m + n) (10 ^ 28) ≡ true = ground arith in rw (same, fits) refl
