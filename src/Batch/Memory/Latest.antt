-- ===== src/Batch/Memory/Latest.antt =====
-- `latest_completed` picks a newest completed manifest of the partition.
use tech_challenge_fase2_alf.Prelude.{
  refl, List, Bool, Any, All, String, ◌≡◌, ◌≤◌, ◌⊎◌, some, keep_if, ℕ, inl, ◌∷◌, true, arith,
  Bool-cases, ltb, subst, inr, sym, [], false,
}
use tech_challenge_fase2_alf.Batch.Models.{BatchManifest}
use tech_challenge_fase2_alf.Batch.Memory.{
  is_candidate, completion, latest_from, latest_of, latest_in,
}

-- `m` is in the list, and no manifest of the list is newer.
abbrev pub IsNewest : BatchManifest → List BatchManifest → Type 0
IsNewest m ms = Any (λ c. c ≡ m) ms × All (λ c. completion c ≤ completion m) ms

-- What `latest_from` gives, as a statement of the result `r`.
abbrev IsBest : BatchManifest → List BatchManifest → BatchManifest → Type 0
IsBest best ms r =
    ((r ≡ best) ⊎ Any (λ c. c ≡ r) ms)
    × (completion best ≤ completion r)
    × All (λ c. completion c ≤ completion r) ms

latest_from-newer :
    (best m : BatchManifest) (ms : List BatchManifest)
    → ltb (completion best) (completion m) ≡ true
    → latest_from best (m ∷ ms) ≡ latest_from m ms
unfolding latest_from
latest_from-newer best m ms h = rw h refl

latest_from-older :
    (best m : BatchManifest) (ms : List BatchManifest)
    → ltb (completion best) (completion m) ≡ false
    → latest_from best (m ∷ ms) ≡ latest_from best ms
unfolding latest_from
latest_from-older best m ms h = rw h refl

latest_from-lem :
    (best : BatchManifest) (ms : List BatchManifest) → IsBest best ms (latest_from best ms)
unfolding latest_from
latest_from-lem best [] = (inl refl, omega arith, tt)
latest_from-lem best (m ∷ ms) = elim (Bool-cases (ltb (completion best) (completion m))) [
  | inl newer ↦
      let (from, above, rest) = latest_from-lem m ms in
      subst (IsBest best (m ∷ ms)) (sym (latest_from-newer best m ms newer)) (
        elim from [ inl e ↦ inr (inl (sym e)) | inr later ↦ inr (inr later) ],
        ground arith,
        (above, rest),
      )
  | inr older ↦
      let (from, above, rest) = latest_from-lem best ms in
      subst (IsBest best (m ∷ ms)) (sym (latest_from-older best m ms older))
        (elim from [ inl e ↦ inl e | inr later ↦ inr (inr later) ], above, (ground arith, rest))
]

latest_of-IsNewest :
    (ms : List BatchManifest) (m : BatchManifest) → latest_of ms ≡ some m → IsNewest m ms
latest_of-IsNewest [] m h = cc
latest_of-IsNewest (c ∷ cs) m h =
    let e : latest_from c cs ≡ m = ground arith in
    subst (λ z. IsNewest z (c ∷ cs)) {x = latest_from c cs} {y = m} e
      (let (from, above, rest) = latest_from-lem c cs in
        (elim from [ inl p ↦ inl (sym p) | inr later ↦ inr later ], (above, rest)))

module _ {ℓ} {A : Type ℓ} (p : A → Bool) where
  Any-keep_if :
      (P : A → Type 0) (xs : List A) → Any P (keep_if p xs) → Any (λ x. P x × (p x ≡ true)) xs
  Any-keep_if P [] h = h
  Any-keep_if P (x ∷ xs) h = elim (Bool-cases (p x)) [
    | inl kept ↦ elim (rw kept at h) [
      | inl here ↦ inl (here, kept)
      | inr later ↦ inr (Any-keep_if P xs later)
    ]
    | inr dropped ↦ inr (Any-keep_if P xs (rw dropped at h))
  ]

  All-keep_if :
      (P : A → Type 0) (xs : List A) → All P (keep_if p xs) → All (λ x. p x ≡ true → P x) xs
  All-keep_if P [] h = tt
  All-keep_if P (x ∷ xs) h = elim (Bool-cases (p x)) [
    | inl kept ↦
        let h' : P x × All P (keep_if p xs) = rw kept at h in (λ _. h'.0, All-keep_if P xs h'.1)
    | inr dropped ↦ ((λ kept. absurd (cc)), All-keep_if P xs (rw dropped at h))
  ]

-- A manifest that `latest_completed` returns is in the history, is a completed manifest of the
-- source and the year, and no other such manifest was completed later.
pub latest_in-IsNewest :
    (ms : List BatchManifest) (source : String) (year : ℕ) (m : BatchManifest)
    → latest_in ms source year ≡ some m
    → Any (λ c. (c ≡ m) × (is_candidate source year c ≡ true)) ms
      × All (λ c. is_candidate source year c ≡ true → completion c ≤ completion m) ms
unfolding latest_in
latest_in-IsNewest ms source year m h =
    let p = is_candidate source year in
    let newest = latest_of-IsNewest (keep_if p ms) m h in
    (
      Any-keep_if p (λ c. c ≡ m) ms newest.0,
      All-keep_if p (λ c. completion c ≤ completion m) ms newest.1,
    )
