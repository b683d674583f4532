-- ===== src/Batch/Release/Invariant.antt =====
-- What every release of the registry keeps, from an empty registry on.
use tech_challenge_fase2_alf.Prelude.Sorting.{sorted, All-sorted, contains-sorted}
use tech_challenge_fase2_alf.Prelude.Results.{ok}
use tech_challenge_fase2_alf.Batch.Models.{BatchManifest, Instant, BronzeObject}
use tech_challenge_fase2_alf.Prelude.Dict.{get, put, values, All-values-put, get-put}
use tech_challenge_fase2_alf.Prelude.{
  String, ℕ, List, ◌≡◌, contains, All, some, string_eq, true, false, ◌∷◌, ◌<◌, [], subst₂, arith,
  subst, sym, ◌⊎◌, all-contains, ◌∙◌,
}
use tech_challenge_fase2_alf.Batch.Release.{
  ReleaseFileMapping, ReleaseStore, file_mappings, index_files, merge_mappings, ReleaseSnapshot,
  file_mapping, Indexed, get, put, ReleaseExecution, BatchManifest, release_sources, is_running,
  values, ok, is_failed, key_of, mapping_key_eq, mappings_of, merged_files, sorted, by_uri,
  same_set, mapping_eq, completed_instants,
}
use tech_challenge_fase2_alf.Batch.Release.Runs.{OneRun, OneRun-transfer}

-- A mapping belongs to its release, its year and the catalog, and is not empty.
pub record IsMapping (id : String) (year : ℕ) (f : ReleaseFileMapping) : Type 0 where
  pub of_release : f.release_id ≡ id
  pub of_year : f.year ≡ year
  pub of_catalog : contains f.table_name release_sources ≡ true
  pub has_rows : 0 < f.row_count
  pub has_generation : 0 < f.generation

-- A release that is complete, whether published or not, has one run of each of the six sources.
pub record IsSound (id : String) (r : ReleaseSnapshot) : Type 0 where
  pub of_id : r.release_id ≡ id
  pub mapped : All (IsMapping id r.year) r.files
  pub one_run :
      is_running r.status ≡ false
      → is_failed r.status ≡ false
      → (source : String) → contains source release_sources ≡ true
      → OneRun r.files source

pub record IsConsistent (s : ReleaseStore) : Type 0 where
  pub at : (k : String) (r : ReleaseSnapshot) → get k s ≡ some r → IsSound k r

pub IsConsistent-put :
    (id : String) (r : ReleaseSnapshot) (s : ReleaseStore)
    → IsSound id r
    → IsConsistent s
    → IsConsistent (put id r s)
IsConsistent-put id r s h c = record {
  at = λ k q g. elim (string_eq.dec k id) [
    | yes p ↦ subst₂ IsSound (sym p) (ground (arith, get-put k id r s)) h
    | no np ↦ c.at k q (ground (arith, get-put k id r s))
  ];
}

file_mapping-IsMapping :
    (x : ReleaseExecution) (m : BatchManifest) (c v : Instant) (b : BronzeObject)
    → m.year ≡ x.year
    → contains m.source release_sources ≡ true
    → (f : ReleaseFileMapping) → file_mapping x m c v b ≡ ok f
    → IsMapping x.release_id x.year f
unfolding file_mapping
file_mapping-IsMapping x m c v b y t f h = ground arith

-- The mappings of a manifest are sound for the release that records them.
file_mappings-IsMapping :
    (x : ReleaseExecution) (m : BatchManifest) (c v : Instant) (bs : List BronzeObject)
    → m.year ≡ x.year
    → contains m.source release_sources ≡ true
    → (maps : List ReleaseFileMapping) → file_mappings x m c v bs ≡ ok maps
    → All (IsMapping x.release_id x.year) maps
unfolding file_mappings
file_mappings-IsMapping x m c v [] y t [] h = tt
file_mappings-IsMapping x m c v [] y t (f ∷ fs) h = absurd (ground arith)
file_mappings-IsMapping x m c v (b ∷ bs) y t [] h = absurd (ground arith)
file_mappings-IsMapping x m c v (b ∷ bs) y t (f ∷ fs) h = (
  file_mapping-IsMapping x m c v b y t f (ground arith),
  file_mappings-IsMapping x m c v bs y t fs (ground arith),
)

index_files-All :
    (P : ReleaseFileMapping → Type 0) (d : Indexed) (fs : List ReleaseFileMapping)
    → All P (values d)
    → All P fs
    → All P (values (index_files d fs))
unfolding index_files
index_files-All P d [] hd hs = hd
index_files-All P d (f ∷ fs) hd hs =
    index_files-All P (put (key_of f) f d) fs (All-values-put P (key_of f) f d hs.0 hd) hs.1

merge_mappings-All :
    (P : ReleaseFileMapping → Type 0) (d : Indexed) (fs : List ReleaseFileMapping) (d' : Indexed)
    → All P (values d)
    → All P fs
    → merge_mappings d fs ≡ ok d'
    → All P (values d')
unfolding merge_mappings
merge_mappings-All P d [] d' hd hs h =
    subst (λ z. All P (values z)) {x = d} {y = d'} (ground arith) hd
merge_mappings-All P d (f ∷ fs) d' hd hs h =
    merge_mappings-All P (put (key_of f) f d) fs d' (All-values-put P (key_of f) f d hs.0 hd) hs.1
      (ground arith)

mappings_of_inv :
    (x : ReleaseExecution) (m : BatchManifest) (maps : List ReleaseFileMapping)
    → mappings_of x m ≡ ok maps
    → (i : Instant × Instant) × (completed_instants m m.completed_at m.verified_at ≡ ok i)
      × (m.year ≡ x.year)
      × (contains m.source release_sources ≡ true)
      × (file_mappings x m i.0 i.1 m.bronze_objects ≡ ok maps)
unfolding mappings_of
mappings_of_inv x m maps h = ground arith

merged_files_inv :
    (cur : ReleaseSnapshot) (indexed : Indexed) (files : List ReleaseFileMapping)
    → merged_files cur indexed ≡ ok files
    → (files ≡ sorted by_uri (values indexed))
      × ((is_running cur.status ≡ true) ⊎ (same_set (values indexed) cur.files ≡ true))
unfolding merged_files
merged_files_inv cur indexed files h = ground arith

-- `set(indexed.values()) == set(current.files)`, said of each mapping.
same_set_iff :
    (xs ys : List ReleaseFileMapping)
    → same_set xs ys ≡ true
    → (n : ReleaseFileMapping) → contains n xs ≡ contains n ys
same_set_iff xs ys h n =
    ground (arith, all-contains (λ x. contains x ys) xs n, all-contains (λ y. contains y xs) ys n)

-- The files that `record` writes are sound for the release.
module _ (x : ReleaseExecution) (m : BatchManifest) (cur : ReleaseSnapshot) where
  pub merged_files-IsSound :
      (maps : List ReleaseFileMapping) (indexed : Indexed) (files : List ReleaseFileMapping)
      → IsSound x.release_id cur
      → cur.year ≡ x.year
      → mappings_of x m ≡ ok maps
      → merge_mappings (index_files [] cur.files) maps ≡ ok indexed
      → merged_files cur indexed ≡ ok files
      → IsSound x.release_id (record cur { files = files })
  merged_files-IsSound maps indexed files sound y p q r =
      let (i, _, my, mt, built) = mappings_of_inv x m maps p in
      let (e, same) = merged_files_inv cur indexed files r in
      let P : ReleaseFileMapping → Type 0 = IsMapping x.release_id x.year in
      let new : All P maps =
        file_mappings-IsMapping x m i.0 i.1 m.bronze_objects my mt maps built in
      let old : All P cur.files =
        subst (λ z. All (IsMapping x.release_id z) cur.files) y sound.mapped in
      let merged : All P (values indexed) =
        merge_mappings-All P (index_files [] cur.files) maps indexed
          (index_files-All P [] cur.files tt old) new q in
      let same_files : is_running cur.status ≡ false
          → (n : ReleaseFileMapping) → contains n files ≡ contains n cur.files =
        λ nr n. rw e (
          contains-sorted by_uri n (values indexed)
          ∙ same_set_iff (values indexed) cur.files (ground arith) n) in
      record {
        of_id = sound.of_id;
        mapped = rw (e, y) (All-sorted by_uri P (values indexed) merged);
        one_run = λ nr nf source known.
            OneRun-transfer cur.files files source (λ n. sym (same_files nr n))
              (sound.one_run nr nf source known);
      }
