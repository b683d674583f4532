-- ===== src/Prelude/Dict.antt =====
-- Python's `dict`, in insertion order. A write to a known key keeps the key's place.
use mathlib.Core.Path.{◌≡◌, refl}
use mathlib.Core.Logic.{◌↔◌, if_pos, if_neg}
use mathlib.Core.Bool.{not, true}
use mathlib.Core.Option.{Option, none, some}
use mathlib.Core.List.{List, [], ◌∷◌, map}
use native.Mathlib.Omega.{arith}
use tech_challenge_fase2_alf.Prelude.{
  Eq, ◌==◌, contains, All, All-contains, All-of_contains, if◌then◌else◌, is_none, Bool-cases, inl,
  inr, subst, length, suc, Distinct, ap₂, Any, ◌||◌, ◌∙◌,
}

abbrev pub Dict {ℓ κ} : Type ℓ → Type κ → Type (ℓ ⊔ κ)
Dict K V = List (K × V)

module _ {ℓ κ} {K : Type ℓ} {V : Type κ} where
  abbrev pub keys : Dict K V → List K
  keys = map (λ e. e.0)

  abbrev pub values : Dict K V → List V
  values = map (λ e. e.1)

module _ {ℓ κ} {K : Type ℓ} {V : Type κ} ⦃e : Eq K⦄ where
  -- `d.get(k)`
  unfoldable pub get : K → Dict K V → Option V
  get k [] = none
  get k ((j, v) ∷ d) = if k == j then some v else get k d

  -- `d[k] = v`
  unfoldable pub put : K → V → Dict K V → Dict K V
  put k v [] = (k, v) ∷ []
  put k v ((j, w) ∷ d) = if k == j then (j, v) ∷ d else (j, w) ∷ put k v d

  pub get-nil : (k : K) → get k [] ≡ none
  unfolding get
  get-nil k = refl

  pub contains-keys : (k : K) (d : Dict K V) → contains k (keys d) ≡ not (is_none (get k d))
  unfolding get
  contains-keys k [] = refl
  contains-keys k ((j, w) ∷ d) = ground (arith, contains-keys k d)

  -- What holds of every key holds of every key that `get` finds, and conversely.
  pub All-keys_iff {ι} :
      (P : K → Type ι) (d : Dict K V) → All P (keys d) ↔ ((k : K) (v : V) → get k d ≡ some v → P k)
  All-keys_iff P d = (
    λ h k v g. All-contains P (keys d) k h (ground (arith, contains-keys k d)),
    λ h. All-of_contains P (keys d) (λ k m. found k (h k) (get k d) refl m),
  )
    where
      found :
          (k : K)
          → ((v : V) → get k d ≡ some v → P k)
          → (o : Option V) → get k d ≡ o
          → contains k (keys d) ≡ true
          → P k
      found k h none g m = absurd (ground (arith, contains-keys k d))
      found k h (some v) g m = h v g

  pub get-put :
      (j k : K) (v : V) (d : Dict K V) → get j (put k v d) ≡ (if j == k then some v else get j d)
  unfolding get put
  get-put j k v [] = refl
  get-put j k v ((i, w) ∷ d) = ground (arith, get-put j k v d)

  pub length-put :
      (k : K) (v : V) (d : Dict K V)
      → length (values (put k v d))
        ≡ (if is_none (get k d) then suc (length (values d)) else length (values d))
  unfolding get put
  length-put k v [] = refl
  length-put k v ((j, w) ∷ d) = ground (arith, length-put k v d)

module _ {ℓ κ ι} {K : Type ℓ} {V : Type κ} ⦃e : Eq K⦄ (P : V → Type ι) where
  pub All-values-put :
      (k : K) (v : V) (d : Dict K V) → P v → All P (values d) → All P (values (put k v d))
  unfolding put
  All-values-put k v [] h hs = (h, tt)
  All-values-put k v ((j, w) ∷ d) h hs = elim (Bool-cases (k == j)) [
    | inl same ↦ rw same (h, hs.1)
    | inr differ ↦ rw differ (hs.0, All-values-put k v d h hs.1)
  ]

module _ {ℓ κ} {K : Type ℓ} {V : Type κ} ⦃e : Eq K⦄ where
  contains-keys-put :
      (j k : K) (v : V) (d : Dict K V)
      → contains j (keys (put k v d)) ≡ (j == k || contains j (keys d))
  unfolding put
  contains-keys-put j k v [] = refl
  contains-keys-put j k v ((i, w) ∷ d) = ground (arith, contains-keys-put j k v d)

  -- A dict has every key once.
  pub Distinct-put :
      (k : K) (v : V) (d : Dict K V) → Distinct (keys d) → Distinct (keys (put k v d))
  unfolding put
  Distinct-put k v [] h = (refl, tt)
  Distinct-put k v ((j, w) ∷ d) h = elim (Bool-cases (k == j)) [
    | inl same ↦ rw same h
    | inr differ ↦ rw differ (ground (arith, contains-keys-put j k v d), Distinct-put k v d h.1)
  ]

-- Dicts whose key is a field of the value.
module _ {ℓ κ} {K : Type ℓ} {V : Type κ} ⦃e : Eq K⦄ (f : V → K) where
  abbrev pub IsKeyed : Dict K V → Type ℓ
  IsKeyed = All (λ x. f x.1 ≡ x.0)

  pub IsKeyed-put : (k : K) (v : V) (d : Dict K V) → f v ≡ k → IsKeyed d → IsKeyed (put k v d)
  unfolding put
  IsKeyed-put k v [] p h = (p, tt)
  IsKeyed-put k v ((j, w) ∷ d) p h = elim (e.dec k j) [
    | yes same ↦ rw (if_pos _ same) (p ∙ same, h.1)
    | no differ ↦ rw (if_neg _ differ) (h.0, IsKeyed-put k v d p h.1)
  ]

  pub map-values_of_IsKeyed : (d : Dict K V) → IsKeyed d → map f (values d) ≡ keys d
  map-values_of_IsKeyed [] h = refl
  map-values_of_IsKeyed ((j, w) ∷ d) h = ap₂ (λ a b. a ∷ b) h.0 (map-values_of_IsKeyed d h.1)

  pub get-IsKeyed : (k : K) (v : V) (d : Dict K V) → IsKeyed d → get k d ≡ some v → f v ≡ k
  unfolding get
  get-IsKeyed k v [] h g = cc
  get-IsKeyed k v ((j, w) ∷ d) h g = elim (e.dec k j) [
    | yes same ↦ ground arith
    | no differ ↦ get-IsKeyed k v d h.1 (ground arith)
  ]

  pub Any-values :
      (P : V → Type 0) (k : K) (v : V) (d : Dict K V) → get k d ≡ some v → P v → Any P (values d)
  unfolding get
  Any-values P k v [] g h = cc
  Any-values P k v ((j, w) ∷ d) g h = elim (e.dec k j) [
    | yes same ↦ inl (subst P {x = v} {y = w} (ground arith) h)
    | no differ ↦ inr (Any-values P k v d (ground arith) h)
  ]

module _ {ℓ κ} {K : Type ℓ} {V : Type κ} ⦃e : Eq K⦄ (P : K × V → Type 0) where
  -- What holds of the entries and of the new entry holds after the write.
  pub All-put : (k : K) (v : V) (d : Dict K V) → P (k, v) → All P d → All P (put k v d)
  unfolding put
  All-put k v [] p h = (p, tt)
  All-put k v ((j, w) ∷ d) p h = elim (e.dec k j) [
    | yes same ↦ rw (if_pos _ same) (subst (λ i. P (i, v)) same p, h.1)
    | no differ ↦ rw (if_neg _ differ) (h.0, All-put k v d p h.1)
  ]
