-- ===== src/Prelude/Equality.antt =====
-- Python's `==` and `in`, for every type whose equality can be decided.
use Prim.Native.String.{String}
use Prim.Native.Nat.{ℕ}
use mathlib.Core.Path.{◌≡◌, sym, subst}
use mathlib.Core.Logic.{◌↔◌, ite, dite}
use mathlib.Core.Bool.{Bool, true, false, ◌||◌, Bool-discrete}
use mathlib.Core.List.{List, [], ◌∷◌}
use tech_challenge_fase2_alf.Prelude.Lists.{All, all}
use native.Mathlib.Decide.{ℕ_discrete}
use native.Mathlib.Omega.{arith}
use text.Mathlib.Text
use text.Mathlib.TextEquality.{eq_iff}

pub record Eq {ℓ} (A : Type ℓ) : Type ℓ where
  pub dec : Discrete A

unfoldable pub String-discrete : Discrete String
String-discrete s t =
    dite (Bool-discrete (Text.◌==◌ s t) true) (λ same. yes ((eq_iff s t).0 same))
      (λ differ. no (λ p. differ ((eq_iff s t).1 p)))

instance unfoldable pub string_eq : Eq String
unfolding String-discrete
string_eq = record { dec = String-discrete }

instance unfoldable pub nat_eq : Eq ℕ
unfolding ℕ_discrete
nat_eq = record { dec = ℕ_discrete }

module _ {ℓ} {A : Type ℓ} ⦃e : Eq A⦄ where
  infix 50 ◌==◌
  abbrev pub ◌==◌ : A → A → Bool
  a == b = ite (e.dec a b) true false

  pub ==_iff : (a b : A) → ((a == b) ≡ true) ↔ (a ≡ b)
  ==_iff a b = ground arith

  -- `a in xs`
  abbrev pub contains : A → List A → Bool
  contains a [] = false
  contains a (x ∷ xs) = a == x || contains a xs

  -- What holds of every element holds of a member.
  pub All-contains {κ} :
      (P : A → Type κ) (xs : List A) (x : A) → All P xs → contains x xs ≡ true → P x
  All-contains P [] x h m = cc
  All-contains P (y ∷ ys) x h m = elim (e.dec x y) [
    | yes p ↦ subst P (sym p) h.0
    | no np ↦ All-contains P ys x h.1 (ground arith)
  ]

  pub All-of_contains {κ} :
      (P : A → Type κ) (xs : List A) → ((x : A) → contains x xs ≡ true → P x) → All P xs
  All-of_contains P [] h = tt
  All-of_contains P (x ∷ xs) h =
      (h x (ground arith), All-of_contains P xs (λ y m. h y (ground arith)))

  -- `all` is a test of every member.
  pub all-contains :
      (p : A → Bool) (xs : List A) (x : A) → all p xs ≡ true → contains x xs ≡ true → p x ≡ true
  all-contains p [] x h m = cc
  all-contains p (y ∷ ys) x h m = ground (arith, all-contains p ys x)

  -- No element occurs twice.
  abbrev pub Distinct : List A → Type 0
  Distinct [] = Unit
  Distinct (x ∷ xs) = (contains x xs ≡ false) × Distinct xs
