-- ===== src/Ops/Costs/Rules.antt =====
-- src/alfabetizacao_pipeline/ops/costs.py: what a chain of rounded components ensures, and sums.
use tech_challenge_fase2_alf.Prelude.Ensures.{Ensures, >>=-Ensures, or_else}
use tech_challenge_fase2_alf.Ops.Decimal.{CostError, Decimal, money, ◌⊕◌}
use tech_challenge_fase2_alf.Prelude.{
  ◌≡◌, subst, List, ℕ, ap, arith, ◌∷◌, All, sym, ◌+◌, ◌<◌, ◌∙◌, ◌^◌, [],
}
use tech_challenge_fase2_alf.Ops.Decimal.Money.{
  cents, IsCents, ⊕-cents, money-IsNearest, money-cents,
}
use tech_challenge_fase2_alf.Prelude.Results.{Result, ok, ◌>>=◌}

module _ {A : Type 0} (P : A → Type 0) where
  -- The next component is whole cents.
  pub money-Ensures :
      (d : Decimal) (f : Decimal → Result CostError A)
      → ((n : ℕ) → money d ≡ ok (cents n) → Ensures P (f (cents n)))
      → Ensures P (money d >>= f)
  money-Ensures d f rest = >>=-Ensures P (money d) f (λ m h.
      let whole_cents = (money-IsNearest d m h).0 in
      subst (λ c. Ensures P (f c)) (sym whole_cents) (rest m.coefficient (h ∙ ap ok whole_cents)))

-- The coefficients' sum.
abbrev pub sum : List Decimal → ℕ
sum [] = 0
sum (d ∷ ds) = d.coefficient + sum ds

-- `d + d₁ + d₂ + ...`, from the left
abbrev pub added : Decimal → List Decimal → Decimal
added d [] = d
added d (e ∷ es) = added (d ⊕ e) es

added-cents :
    (m : ℕ) (ds : List Decimal)
    → All IsCents ds
    → m + sum ds < 10 ^ 28
    → added (cents m) ds ≡ cents (m + sum ds)
added-cents m [] whole_cents small = ap cents (omega arith)
added-cents m (d ∷ ds) whole_cents small =
    ap (λ e. added (cents m ⊕ e) ds) whole_cents.0
    ∙ ap (λ e. added e ds) (⊕-cents m d.coefficient (omega arith))
    ∙ added-cents (m + d.coefficient) ds whole_cents.1 (omega arith)
    ∙ ap cents (omega arith)

-- A sum of whole cents is exact, and rounding it changes nothing.
pub money-added :
    (d m : Decimal) (ds : List Decimal)
    → All IsCents (d ∷ ds)
    → sum (d ∷ ds) < 10 ^ 28
    → money (added d ds) ≡ ok m
    → m ≡ cents (sum (d ∷ ds))
money-added d m ds whole_cents small h =
    let exact : added d ds ≡ cents (d.coefficient + sum ds) =
      ap (λ e. added e ds) whole_cents.0 ∙ added-cents d.coefficient ds whole_cents.1 small in
    ap (or_else m) (sym h ∙ ap money exact ∙ money-cents (d.coefficient + sum ds) small)
