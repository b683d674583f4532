-- ===== src/Ops/Decimal.antt =====
-- The part of Python's `decimal` that src/alfabetizacao_pipeline/ops/costs.py uses, on amounts that
-- are not negative: the default context rounds each result to 28 significant digits, a tie to the
-- even digit. A decimal is `coefficient / 10 ^ places`; where Python keeps a positive exponent, the
-- zeros are written out, which is the same value.
pub mod Money
use tech_challenge_fase2_alf.Prelude.Results.{Result, ok, err}
use tech_challenge_fase2_alf.Prelude.{
  true, false, ◌≡◌, ℕ, String, if◌then◌else◌, ◌/◌, ◌^◌, ltb, ◌*◌, ◌+◌, ◌%◌, ◌-◌, ◌&&◌, ◌==◌, nat_eq,
  suc, zero,
}

pub record Decimal : Type 0 where
  pub coefficient : ℕ
  pub places : ℕ

pub data CostError : Type 0 where
  profile_not_found : String → CostError
  -- `decimal.InvalidOperation`
  invalid_operation : CostError

-- The digits of the default context.
abbrev pub precision : ℕ
precision = 28

-- The number of decimal digits, at least one. The fuel `k` is enough for `k`.
unfoldable width : ℕ → ℕ → ℕ
width zero k = 1
width (suc fuel) k = elim (ltb k 10) [ true ↦ 1 | false ↦ suc (width fuel (k / 10)) ]

unfoldable pub digits_of : ℕ → ℕ
unfolding width
digits_of k = width k k

-- `n / d` to the nearest number, a tie to the even one.
abbrev pub round_half_even : ℕ → ℕ → ℕ
round_half_even n d =
    let q = n / d in
    let r = n % d in if ltb (2 * r) d then q else if ltb d (2 * r) then q + 1 else q + q % 2

-- A decimal without its last `n` digits.
abbrev pub drop_digits : ℕ → Decimal → Decimal
drop_digits n d = record {
  coefficient = round_half_even d.coefficient (10 ^ n) * 10 ^ (n - d.places);
  places = d.places - n;
}

-- A result as the context keeps it.
unfoldable pub rounded : Decimal → Decimal
rounded d =
    if ltb d.coefficient (10 ^ precision)
    then d
    else drop_digits (digits_of d.coefficient - precision) d

-- `Decimal(n)`
abbrev pub whole : ℕ → Decimal
whole n = record { coefficient = n; places = 0 }

infixl 60 ◌⊗◌
abbrev pub ◌⊗◌ : Decimal → Decimal → Decimal
a ⊗ b =
    rounded (record { coefficient = a.coefficient * b.coefficient; places = a.places + b.places })

-- The coefficient with more places.
abbrev pub aligned : Decimal → ℕ → ℕ
aligned d places = d.coefficient * 10 ^ (places - d.places)

infixl 55 ◌⊕◌
abbrev pub ◌⊕◌ : Decimal → Decimal → Decimal
a ⊕ b =
    let places = if ltb a.places b.places then b.places else a.places in
    rounded (record { coefficient = aligned a places + aligned b places; places = places })

-- A quotient with a rest is no tie: its last digit, beyond those of the context, is neither 0 nor 5.
abbrev pub sticky : ℕ → ℕ → ℕ
sticky q r = if ltb 0 r && (q % 5 == 0) then q + 1 else q

-- `Decimal(n) / Decimal(d)` of whole numbers, the second positive.
unfoldable pub divided : ℕ → ℕ → Decimal
divided n d =
    let places = digits_of d + precision + 1 - digits_of n in
    let excess = digits_of n - (digits_of d + precision + 1) in
    let scaled = n * 10 ^ places in
    let divisor = d * 10 ^ excess in
    rounded (record {
      coefficient = sticky (scaled / divisor) (scaled % divisor) * 10 ^ excess;
      places = places;
    })

-- The value in whole cents, a tie up.
unfoldable pub cents_of : Decimal → ℕ
cents_of d = (2 * (d.coefficient * 100) + 10 ^ d.places) / (2 * 10 ^ d.places)

-- `value.quantize(CENT, rounding=ROUND_HALF_UP)`, which fails above the digits of the context.
unfoldable pub money : Decimal → Result CostError Decimal
money d =
    let cents = cents_of d in
    if ltb cents (10 ^ precision)
    then ok (record { coefficient = cents; places = 2 })
    else err invalid_operation
