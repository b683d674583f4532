-- ===== src/Prelude/Sorting.antt =====
-- Python's stable `sorted`, as an insertion sort by a strict comparison of keys.
use mathlib.Core.Bool.{Bool, false}
use mathlib.Core.Path.{◌≡◌, refl}
use mathlib.Core.List.{List, [], ◌∷◌}
use native.Mathlib.Omega.{arith}
use tech_challenge_fase2_alf.Prelude.{
  if◌then◌else◌, is_empty, All, Eq, Bool-cases, contains, inl, inr, ◌==◌, ◌||◌, length, suc, ◌∙◌,
  ap, ◌⊎◌, Any, map, Distinct,
}

module _ {ℓ} {A : Type ℓ} (lt : A → A → Bool) where
  unfoldable pub insert_sorted : A → List A → List A
  insert_sorted x [] = x ∷ []
  insert_sorted x (y ∷ ys) = if lt y x then y ∷ insert_sorted x ys else x ∷ y ∷ ys

  unfoldable pub sorted : List A → List A
  sorted [] = []
  sorted (x ∷ xs) = insert_sorted x (sorted xs)

  is_empty-insert_sorted : (x : A) (xs : List A) → is_empty (insert_sorted x xs) ≡ false
  unfolding insert_sorted
  is_empty-insert_sorted x [] = refl
  is_empty-insert_sorted x (y ∷ ys) = ground arith

  pub is_empty-sorted : (xs : List A) → is_empty (sorted xs) ≡ is_empty xs
  unfolding sorted
  is_empty-sorted [] = refl
  is_empty-sorted (x ∷ xs) = is_empty-insert_sorted x (sorted xs)

  length-insert_sorted : (x : A) (xs : List A) → length (insert_sorted x xs) ≡ suc (length xs)
  unfolding insert_sorted
  length-insert_sorted x [] = refl
  length-insert_sorted x (y ∷ ys) = ground (arith, length-insert_sorted x ys)

  pub length-sorted : (xs : List A) → length (sorted xs) ≡ length xs
  unfolding sorted
  length-sorted [] = refl
  length-sorted (x ∷ xs) = length-insert_sorted x (sorted xs) ∙ ap suc (length-sorted xs)

  Any-insert_sorted :
      (P : A → Type 0) (x : A) (xs : List A) → P x ⊎ Any P xs → Any P (insert_sorted x xs)
  unfolding insert_sorted
  Any-insert_sorted P x [] h = h
  Any-insert_sorted P x (y ∷ ys) h = elim (Bool-cases (lt y x)) [
    | inl before ↦ rw before (elim h [
      | inl here ↦ inr (Any-insert_sorted P x ys (inl here))
      | inr (inl next) ↦ inl next
      | inr (inr later) ↦ inr (Any-insert_sorted P x ys (inr later))
    ])
    | inr after ↦ rw after h
  ]

  pub Any-sorted : (P : A → Type 0) (xs : List A) → Any P xs → Any P (sorted xs)
  unfolding sorted
  Any-sorted P [] h = h
  Any-sorted P (x ∷ xs) (inl here) = Any-insert_sorted P x (sorted xs) (inl here)
  Any-sorted P (x ∷ xs) (inr later) =
      Any-insert_sorted P x (sorted xs) (inr (Any-sorted P xs later))

  All-insert_sorted {κ} :
      (P : A → Type κ) (x : A) (xs : List A) → P x → All P xs → All P (insert_sorted x xs)
  unfolding insert_sorted
  All-insert_sorted P x [] h hs = (h, tt)
  All-insert_sorted P x (y ∷ ys) h hs = elim (Bool-cases (lt y x)) [
    | inl before ↦ rw before (hs.0, All-insert_sorted P x ys h hs.1)
    | inr after ↦ rw after (h, hs)
  ]

  pub All-sorted {κ} : (P : A → Type κ) (xs : List A) → All P xs → All P (sorted xs)
  unfolding sorted
  All-sorted P [] hs = tt
  All-sorted P (x ∷ xs) hs = All-insert_sorted P x (sorted xs) hs.0 (All-sorted P xs hs.1)

module _ {ℓ} {A : Type ℓ} ⦃e : Eq A⦄ (lt : A → A → Bool) where
  contains-insert_sorted :
      (a x : A) (xs : List A) → contains a (insert_sorted lt x xs) ≡ (a == x || contains a xs)
  unfolding insert_sorted
  contains-insert_sorted a x [] = refl
  contains-insert_sorted a x (y ∷ ys) = ground (arith, contains-insert_sorted a x ys)

  pub contains-sorted : (a : A) (xs : List A) → contains a (sorted lt xs) ≡ contains a xs
  unfolding sorted
  contains-sorted a [] = refl
  contains-sorted a (x ∷ xs) =
      ground (arith, contains-insert_sorted a x (sorted lt xs), contains-sorted a xs)

module _ {ℓ κ} {A : Type ℓ} {K : Type κ} ⦃e : Eq K⦄ (f : A → K) (lt : A → A → Bool) where
  contains-map-insert_sorted :
      (k : K) (x : A) (xs : List A)
      → contains k (map f (insert_sorted lt x xs)) ≡ (k == f x || contains k (map f xs))
  unfolding insert_sorted
  contains-map-insert_sorted k x [] = refl
  contains-map-insert_sorted k x (y ∷ ys) = ground (arith, contains-map-insert_sorted k x ys)

  pub contains-map-sorted :
      (k : K) (xs : List A) → contains k (map f (sorted lt xs)) ≡ contains k (map f xs)
  unfolding sorted
  contains-map-sorted k [] = refl
  contains-map-sorted k (x ∷ xs) =
      ground (arith, contains-map-insert_sorted k x (sorted lt xs), contains-map-sorted k xs)

  Distinct-map-insert_sorted :
      (x : A) (xs : List A)
      → contains (f x) (map f xs) ≡ false
      → Distinct (map f xs)
      → Distinct (map f (insert_sorted lt x xs))
  unfolding insert_sorted
  Distinct-map-insert_sorted x [] n h = (refl, tt)
  Distinct-map-insert_sorted x (y ∷ ys) n h = elim (Bool-cases (lt y x)) [
    | inl before ↦ rw before (
      ground (arith, contains-map-insert_sorted (f y) x ys),
      Distinct-map-insert_sorted x ys (ground arith) h.1,
    )
    | inr after ↦ rw after (n, h)
  ]

  -- Sorting keeps keys distinct.
  pub Distinct-map-sorted : (xs : List A) → Distinct (map f xs) → Distinct (map f (sorted lt xs))
  unfolding sorted
  Distinct-map-sorted [] h = tt
  Distinct-map-sorted (x ∷ xs) h =
      Distinct-map-insert_sorted x (sorted lt xs) (contains-map-sorted (f x) xs ∙ h.0)
        (Distinct-map-sorted xs h.1)
