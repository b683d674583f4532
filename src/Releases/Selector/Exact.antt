-- ===== src/Releases/Selector/Exact.antt =====
-- What `select_latest_completed` selects.
use tech_challenge_fase2_alf.Prelude.Sorting.{
  sorted, All-sorted, Distinct-map-sorted, contains-map-sorted,
}
use tech_challenge_fase2_alf.Prelude.Dict.{keys, put, Distinct-put, All-put}
use tech_challenge_fase2_alf.Prelude.Results.{ok, Result-cases}
use tech_challenge_fase2_alf.Batch.Models.{BatchManifest, is_completed, Instant}
use tech_challenge_fase2_alf.Releases.Selector.{
  PartitionKey, ReleasePartition, manifest_key, select_loop, partitions_of, Selected, ok, keys,
  is_refused, partition_of, partition_key_eq, valid_release_id, same_keys, select_latest_completed,
  SelectedRelease, sorted, covers_catalog, by_key,
}
use tech_challenge_fase2_alf.Prelude.{
  String, List, All, Any, ◌≡◌, ◌∷◌, Distinct, true, inl, map, is_none, All-map_pred, subst, [],
  false, inr, arith, Bool-cases, ap₂, ap, ◌∙◌, sym, refl, contains, all-contains,
}

-- The entry is a completed manifest of the list, under its own key, which is expected.
abbrev IsChosen : List PartitionKey → List BatchManifest → PartitionKey × BatchManifest → Type 0
IsChosen expected manifests e =
    (manifest_key e.1 ≡ e.0)
    × (is_completed e.1.status ≡ true)
    × (is_none e.1.completed_at ≡ false)
    × Any (λ m. m ≡ e.1) manifests

abbrev pub partition_key : ReleasePartition → PartitionKey
partition_key p = (p.source, p.year)

-- The partition is one of a completed manifest of the list.
abbrev pub HasManifest : (String → String) → List BatchManifest → ReleasePartition → Type 0
HasManifest strip manifests p =
    (m : BatchManifest) × Any (λ c. c ≡ m) manifests
    × (is_completed m.status ≡ true)
    × (is_none m.completed_at ≡ false)
    × (m.source ≡ p.source)
    × (m.year ≡ p.year)
    × (strip m.run_id ≡ p.run_id)

members : {A : Type 0} (xs : List A) → All (λ x. Any (λ c. c ≡ x) xs) xs
members [] = tt
members {A} (x ∷ xs) = (
  inl refl,
  All-map_pred (λ y. Any (λ c. c ≡ y) xs) (λ y. Any (λ c. c ≡ y) (x ∷ xs)) xs (λ y h. inr h)
      (members xs),
)

module _ (expected : List PartitionKey) (manifests : List BatchManifest) where
  completed_of :
      (d : Selected) (m : BatchManifest)
      → is_refused expected d m ≡ false
      → (is_completed m.status ≡ true) × (is_none m.completed_at ≡ false)
  unfolding is_refused
  completed_of d m h = ground arith

  select_loop_inv :
      (ms : List BatchManifest) (d d' : Selected)
      → All (λ m. Any (λ c. c ≡ m) manifests) ms
      → Distinct (keys d) × All (IsChosen expected manifests) d
      → select_loop expected d ms ≡ ok d'
      → Distinct (keys d') × All (IsChosen expected manifests) d'
  unfolding select_loop
  select_loop_inv [] d d' known h e =
      subst (λ z. Distinct (keys z) × All (IsChosen expected manifests) z) {x = d} {y = d'}
        (ground arith) h
  select_loop_inv (m ∷ ms) d d' known h e = elim (Bool-cases (is_refused expected d m)) [
    | inl refused ↦ absurd (ground arith)
    | inr fine ↦
        let done : (is_completed m.status ≡ true) × (is_none m.completed_at ≡ false) =
          completed_of d m fine in
        select_loop_inv ms (put (manifest_key m) m d) d' known.1
          (
            Distinct-put (manifest_key m) m d h.0,
            All-put (IsChosen expected manifests) (manifest_key m) m d
                (refl, done.0, done.1, known.0) h.1,
          )
          (ground arith)
  ]

  module _ (strip : String → String) where
    partition_of_inv :
        (k : PartitionKey) (m : BatchManifest) (p : ReleasePartition)
        → partition_of strip k m ≡ ok p
        → (p.source ≡ k.0) × (p.year ≡ k.1) × (strip m.run_id ≡ p.run_id)
    unfolding partition_of valid_release_id
    partition_of_inv k m p e = ground arith

    partitions_of_inv :
        (es : List (PartitionKey × BatchManifest)) (ps : List ReleasePartition)
        → All (IsChosen expected manifests) es
        → partitions_of strip es ≡ ok ps
        → (map partition_key ps ≡ map (λ e. e.0) es) × All (HasManifest strip manifests) ps
    unfolding partitions_of
    partitions_of_inv [] ps h e =
        subst (λ z. (map partition_key z ≡ []) × All (HasManifest strip manifests) z) {x = []}
          {y = ps} (ground arith) (refl, tt)
    partitions_of_inv ((k, m) ∷ es) ps h e = elim (Result-cases (partition_of strip k m)) [
      | inr (x, q) ↦ absurd (ground arith)
      | inl (p, q) ↦ elim (Result-cases (partitions_of strip es)) [
        | inr (x, r) ↦ absurd (ground arith)
        | inl (rest, r) ↦
            let (same, held) = partitions_of_inv es rest h.1 r in
            let (source, year, run) = partition_of_inv k m p q in
            let (key, done, there, member) = h.0 in
            subst
              (λ z.
                (map partition_key z ≡ k ∷ map (λ x. x.0) es) × All (HasManifest strip manifests) z)
              {x = p ∷ rest} {y = ps} (ground arith)
              (
                ap₂ (λ a b. a ∷ b) (ap₂ (λ a b. (a, b)) source year) same,
                (
                  (
                    m,
                    member,
                    done,
                    there,
                    ap (λ z. z.0) key ∙ sym source,
                    ap (λ z. z.1) key ∙ sym year,
                    run,
                  ),
                  held,
                ),
              )
      ]
    ]

same_keys-contains :
    (d : Selected) (expected : List PartitionKey) (k : PartitionKey)
    → same_keys d expected ≡ true
    → contains k (keys d) ≡ contains k expected
unfolding same_keys
same_keys-contains d expected k h =
    let there : contains k (keys d) ≡ true → contains k expected ≡ true =
      all-contains (λ j. contains j expected) (keys d) k (ground arith) in
    let back : contains k expected ≡ true → contains k (keys d) ≡ true =
      all-contains (λ j. contains j (keys d)) expected k (ground arith) in
    ground arith

module _ (strip : String → String) (manifests : List BatchManifest) (release_id : String)
    (created_at : Instant) (expected : List PartitionKey) where
  select_inv :
      (r : SelectedRelease)
      → select_latest_completed strip manifests release_id created_at expected ≡ ok r
      → (d : Selected) × (select_loop expected [] manifests ≡ ok d)
        × (same_keys d expected ≡ true)
        × (partitions_of strip (sorted by_key d) ≡ ok r.partitions)
        × (covers_catalog expected ≡ true)
  unfolding select_latest_completed
  select_inv r h = elim (Result-cases (select_loop expected [] manifests)) [
    | inr (x, p) ↦ absurd (ground arith)
    | inl (d, p) ↦ elim (Result-cases (partitions_of strip (sorted by_key d))) [
      | inr (x, q) ↦ absurd (ground arith)
      | inl (ps, q) ↦ (d, p, ground arith, ground arith, ground arith)
    ]
  ]

  -- A release that is selected has each expected source and year exactly once and no other, each
  -- with the run of a completed manifest of the list, and the expected set has every source of the
  -- catalog for each of its years.
  pub select_latest_completed-IsExact :
      (r : SelectedRelease)
      → select_latest_completed strip manifests release_id created_at expected ≡ ok r
      → Distinct (map partition_key r.partitions)
        × ((k : PartitionKey) → contains k (map partition_key r.partitions) ≡ contains k expected)
        × All (HasManifest strip manifests) r.partitions
        × (covers_catalog expected ≡ true)
  select_latest_completed-IsExact r h =
      let (d, loop, same, parts, covered) = select_inv r h in
      let (once, chosen) =
        select_loop_inv expected manifests manifests [] d (members manifests) (tt, tt) loop in
      let (keyed, held) =
        partitions_of_inv expected manifests strip (sorted by_key d) r.partitions
          (All-sorted by_key (IsChosen expected manifests) d chosen) parts in
      (
        subst Distinct (sym keyed) (Distinct-map-sorted (λ e. e.0) by_key d once),
        λ k.
            ap (contains k) keyed
            ∙ contains-map-sorted (λ e. e.0) by_key k d
            ∙ same_keys-contains d expected k same,
        held,
        covered,
      )
